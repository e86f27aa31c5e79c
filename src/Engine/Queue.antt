-- ===== src/Engine/Queue.antt =====
-- Mode "queue" of engine.go: one handler at a time, in the order of arrival, within the capacity.
pub mod Draining
use mathlib.Core.List.{append_assoc, append-nil}
use recur.Prelude.{
  ℕ, zero, suc, ◌≤◌, ◌≡◌, ◌⊎◌, inl, inr, refl, sym, ap, ◌∙◌, Option, none, some, true, false, List,
  [], ◌∷◌, ◌++◌, length, length-append, leb, ◌==◌, String_eq, Bool-cases, arith, String,
}
use recur.Prelude.Int.{ℤ}
use recur.Engine.{
  TriggerEvent, queue_run, Worker, System, ok, blocked, panicked, queue_capacity, enqueue_and_drain,
  spawn, drain, dispatch_with_concurrency, take_at, Move, arrive, finish, close, proceed, step,
  finish_at, cancel_and_wait, close_at, proceed_at, Reaches, start, then_move, accept, drop_event,
}

-- The modes that the switch of dispatchWithConcurrency sends to its default branch.
abbrev pub FallsToQueue : System → Move → Type 0
FallsToQueue s (arrive mode event) =
    ((mode == "parallel") ≡ false) × ((mode == "drop") ≡ false) × ((mode == "abort") ≡ false)
FallsToQueue s (finish i) = Unit {0}
FallsToQueue s (close i) = Unit {0}
FallsToQueue s (proceed i) = Unit {0}

abbrev pub handles : TriggerEvent → Worker
handles event = record { kind = queue_run; event = event }

-- Either one queue goroutine runs, or the trigger is idle with an empty queue.
pub record IsSequential (max_queue_size : ℤ) (s : System) : Type 0 where
  pub one_or_idle :
      ((event : TriggerEvent) × (s.at.running ≡ true) × (s.workers ≡ handles event ∷ []))
      ⊎ (s.at.running ≡ false) × (s.workers ≡ []) × (s.at.queue ≡ [])
  pub no_waiting : s.waiting ≡ []
  pub no_abort : s.at.abort_cancel ≡ none
  pub bounded : length s.at.queue ≤ queue_capacity max_queue_size
  pub in_order : s.accepted ≡ s.started ++ s.at.queue

pub ok_eq : {s t : System} → ok s ≡ ok t → t ≡ s
ok_eq h = cc

pub blocked_ok : {t : System} → blocked ≡ ok t → ⊥
blocked_ok h = cc

module _ (max : ℤ) (event : TriggerEvent) (s : System) where
  enqueue_full :
      s.at.running ≡ true
      → leb (queue_capacity max) (length s.at.queue) ≡ true
      → enqueue_and_drain max event s ≡ drop_event event s
  unfolding enqueue_and_drain
  enqueue_full r f = ground arith

  enqueue_room :
      s.at.running ≡ true
      → leb (queue_capacity max) (length s.at.queue) ≡ false
      → enqueue_and_drain max event s
        ≡ accept event (record s { at = record s.at { queue = s.at.queue ++ event ∷ [] } })
  unfolding enqueue_and_drain
  enqueue_room r f = ground arith

  enqueue_idle :
      s.at.running ≡ false
      → enqueue_and_drain max event s
        ≡ spawn queue_run event (accept event (record s { at = record s.at { running = true } }))
  unfolding enqueue_and_drain
  enqueue_idle r = ground arith

module _ (max : ℤ) where
  enqueue-IsSequential :
      (event : TriggerEvent) (s : System)
      → IsSequential max s
      → IsSequential max (enqueue_and_drain max event s)
  enqueue-IsSequential event s h = elim h.one_or_idle [
    | inl (e, run, work) ↦ elim (Bool-cases (leb (queue_capacity max) (length s.at.queue))) [
      | inl full ↦ rw (enqueue_full max event s run full) (
          unfold drop_event in
          record {
            one_or_idle = h.one_or_idle;
            no_waiting = h.no_waiting;
            no_abort = h.no_abort;
            bounded = h.bounded;
            in_order = h.in_order;
          })
      | inr room ↦ rw (enqueue_room max event s run room) (
          unfold accept in
          record {
            one_or_idle = inl (e, run, work);
            no_waiting = h.no_waiting;
            no_abort = h.no_abort;
            bounded = ground (arith, length-append s.at.queue (event ∷ []));
            in_order =
                ap (λ l. l ++ event ∷ []) h.in_order
                ∙ append_assoc s.started s.at.queue (event ∷ []);
          })
    ]
    | inr (idle, none_run, empty) ↦ rw (enqueue_idle max event s idle) (
        unfold spawn accept in
        record {
          one_or_idle = inl (event, refl, ap (λ l. l ++ handles event ∷ []) none_run);
          no_waiting = h.no_waiting;
          no_abort = h.no_abort;
          bounded = h.bounded;
          in_order =
              ap (λ l. l ++ event ∷ [])
                (h.in_order ∙ ap (λ l. s.started ++ l) empty ∙ append-nil s.started)
              ∙ sym (
                  ap (λ l. (s.started ++ event ∷ []) ++ l) empty
                  ∙ append-nil (s.started ++ event ∷ []));
        })
  ]

  dispatch_queue :
      (mode : String) (event : TriggerEvent) (s : System)
      → FallsToQueue s (arrive mode event)
      → dispatch_with_concurrency mode max event s ≡ ok (enqueue_and_drain max event s)
  unfolding dispatch_with_concurrency
  dispatch_queue mode event s (p, d, a) = elim (Bool-cases (mode == "")) [
    | inl e ↦ rw e
    | inr f ↦ rw f (rw (p, d, a))
  ]

  step_queue :
      (mode : String) (event : TriggerEvent) (s : System)
      → FallsToQueue s (arrive mode event)
      → step max (arrive mode event) s ≡ ok (enqueue_and_drain max event s)
  unfolding step
  step_queue mode event s p = dispatch_queue mode event s p

  -- The drain loop of the one goroutine, which has left the workers.
  drain-IsSequential :
      (queue : List TriggerEvent) (s : System)
      → s.at.queue ≡ queue
      → s.at.running ≡ true
      → s.workers ≡ []
      → s.waiting ≡ []
      → s.at.abort_cancel ≡ none
      → length s.at.queue ≤ queue_capacity max
      → s.accepted ≡ s.started ++ s.at.queue
      → IsSequential max (drain queue s)
  unfolding drain
  drain-IsSequential [] s q r w n a b o = record {
    one_or_idle = inr (refl, w, q);
    no_waiting = n;
    no_abort = a;
    bounded = b;
    in_order = o;
  }
  drain-IsSequential (next ∷ rest) s q r w n a b o = record {
    one_or_idle = inl (next, r, ap (λ l. l ++ handles next ∷ []) w);
    no_waiting = n;
    no_abort = a;
    bounded = omega (arith, ap length q);
    in_order = o ∙ ap (λ l. s.started ++ l) q ∙ sym (append_assoc s.started (next ∷ []) rest);
  }

  finish_only :
      (event : TriggerEvent) (s : System)
      → s.workers ≡ handles event ∷ []
      → (i : ℕ) {t : System} → step max (finish i) s ≡ ok t
      → t ≡ drain s.at.queue (record s { workers = [] })
  unfolding step
  finish_only event s w zero h = ok_eq (sym (ap (λ ws. finish_at (take_at 0 ws) s) w) ∙ h)
  finish_only event s w (suc i) h =
      absurd (blocked_ok (sym (ap (λ ws. finish_at (take_at (suc i) ws) s) w) ∙ h))

  pub finish_none :
      (s : System) (i : ℕ) {t : System} → s.workers ≡ [] → step max (finish i) s ≡ ok t → ⊥
  unfolding step
  finish_none s i w h = blocked_ok (sym (ap (λ ws. finish_at (take_at i ws) s) w) ∙ h)

  pub proceed_none :
      (s : System) (i : ℕ) {t : System} → s.waiting ≡ [] → step max (proceed i) s ≡ ok t → ⊥
  unfolding step
  proceed_none s i w h = blocked_ok (sym (ap (λ ws. proceed_at (take_at i ws) s) w) ∙ h)

  pub close_same :
      (s : System) (i : ℕ) {t : System}
      → step max (close i) s ≡ ok t
      → (rest : List ℕ) × (more : List ℕ) × (t ≡ record s { closing = rest; closed = more })
  unfolding step
  close_same s i {t} h = closes (take_at i s.closing) h
    where
      closes :
          (o : Option (ℕ × List ℕ))
          → close_at o s ≡ ok t
          → (rest : List ℕ) × (more : List ℕ) × (t ≡ record s { closing = rest; closed = more })
      closes none e = absurd (blocked_ok e)
      closes (some (c, rest)) e = (rest, s.closed ++ c ∷ [], ok_eq e)

  -- Every move keeps a queue trigger sequential.
  pub step-IsSequential :
      (m : Move) (s t : System)
      → FallsToQueue s m
      → step max m s ≡ ok t
      → IsSequential max s
      → IsSequential max t
  step-IsSequential (arrive mode event) s t p e h =
      rw (ok_eq (sym (step_queue mode event s p) ∙ e)) (enqueue-IsSequential event s h)
  step-IsSequential (finish i) s t p e h = elim h.one_or_idle [
    | inl (event, run, work) ↦ rw (finish_only event s work i e) (
        drain-IsSequential s.at.queue (record s { workers = [] }) refl run refl h.no_waiting
          h.no_abort h.bounded h.in_order)
    | inr (idle, none_run, empty) ↦ absurd (finish_none s i none_run e)
  ]
  step-IsSequential (close i) s t p e h =
      let (rest, more, same) = close_same s i e in
      rw same (record {
        one_or_idle = h.one_or_idle;
        no_waiting = h.no_waiting;
        no_abort = h.no_abort;
        bounded = h.bounded;
        in_order = h.in_order;
      })
  step-IsSequential (proceed i) s t p e h = absurd (proceed_none s i h.no_waiting e)

  -- Whatever the interleaving of arrivals and handlers, a trigger in mode "queue" has one handler in
  -- progress or is idle with an empty queue, its queue stays within the capacity, and the events
  -- accepted are those handed to a handler followed by those queued, in the order of arrival.
  pub queue_mode-IsSequential : {s : System} → Reaches FallsToQueue max s → IsSequential max s
  queue_mode-IsSequential start = record {
    one_or_idle = inr (refl, refl, refl);
    no_waiting = refl;
    no_abort = refl;
    bounded = omega arith;
    in_order = refl;
  }
  queue_mode-IsSequential (then_move {s} {t} m r p e) =
      step-IsSequential m s t p e (queue_mode-IsSequential r)

  -- An event that finds the mode changed to "abort" while a queue handler runs makes the dispatcher
  -- call a nil function.
  pub abort_after_queue_panics :
      {s : System} (event : TriggerEvent)
      → Reaches FallsToQueue max s
      → s.at.running ≡ true
      → step max (arrive "abort" event) s ≡ panicked
  unfolding step
  abort_after_queue_panics {s} event r run =
      simp run
        (ap (λ o. cancel_and_wait o s.at.abort_done event s) (queue_mode-IsSequential r).no_abort)
