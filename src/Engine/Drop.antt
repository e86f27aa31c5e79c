-- ===== src/Engine/Drop.antt =====
-- Mode "drop" of engine.go: one handler at a time, and nothing waits for it.
use recur.Prelude.{
  ℕ, zero, suc, ◌≡◌, ◌⊎◌, inl, inr, refl, sym, ap, ◌∙◌, true, false, [], ◌∷◌, ◌++◌, String_eq,
}
use recur.Prelude.Int.{ℤ}
use recur.Engine.{
  TriggerEvent, drop_run, Worker, System, ok, spawn, take_at, Move, arrive, finish, close, proceed,
  step, finish_at, Reaches, start, then_move, accept, drop_event,
}
use recur.Engine.Queue.{ok_eq, blocked_ok, proceed_none, close_same, finish_none}

abbrev pub Drops : System → Move → Type 0
Drops s (arrive mode event) = mode ≡ "drop"
Drops s (finish i) = Unit {0}
Drops s (close i) = Unit {0}
Drops s (proceed i) = Unit {0}

abbrev handles : TriggerEvent → Worker
handles event = record { kind = drop_run; event = event }

pub record IsExclusive (s : System) : Type 0 where
  pub one_or_idle :
      ((event : TriggerEvent) × (s.at.running ≡ true) × (s.workers ≡ handles event ∷ []))
      ⊎ (s.at.running ≡ false) × (s.workers ≡ [])
  pub no_waiting : s.waiting ≡ []
  pub no_queue : s.at.queue ≡ []
  pub none_lost : s.accepted ≡ s.started

module _ (max : ℤ) where
  module _ (event : TriggerEvent) (s : System) where
    -- A busy trigger drops the event and changes nothing else.
    arrive_busy : s.at.running ≡ true → step max (arrive "drop" event) s ≡ ok (drop_event event s)
    unfolding step
    arrive_busy r = rw r

    arrive_idle :
        s.at.running ≡ false
        → step max (arrive "drop" event) s
          ≡ ok (
              spawn drop_run event
                (accept event (record s { at = record s.at { running = true } })))
    unfolding step
    arrive_idle r = rw r

    arrive-IsExclusive :
        {t : System} → step max (arrive "drop" event) s ≡ ok t → IsExclusive s → IsExclusive t
    arrive-IsExclusive e h = elim h.one_or_idle [
      | inl (w, run, work) ↦ rw (ok_eq (sym (arrive_busy run) ∙ e)) (
          unfold drop_event in
          record {
            one_or_idle = h.one_or_idle;
            no_waiting = h.no_waiting;
            no_queue = h.no_queue;
            none_lost = h.none_lost;
          })
      | inr (idle, none_run) ↦ rw (ok_eq (sym (arrive_idle idle) ∙ e)) (
          unfold spawn accept in
          record {
            one_or_idle = inl (event, refl, ap (λ l. l ++ handles event ∷ []) none_run);
            no_waiting = h.no_waiting;
            no_queue = h.no_queue;
            none_lost = ap (λ l. l ++ event ∷ []) h.none_lost;
          })
    ]

  finish_only :
      (event : TriggerEvent) (s : System)
      → s.workers ≡ handles event ∷ []
      → (i : ℕ) {t : System} → step max (finish i) s ≡ ok t
      → t ≡ record s { workers = []; at = record s.at { running = false } }
  unfolding step
  finish_only event s w zero h = ok_eq (sym (ap (λ ws. finish_at (take_at 0 ws) s) w) ∙ h)
  finish_only event s w (suc i) h =
      absurd (blocked_ok (sym (ap (λ ws. finish_at (take_at (suc i) ws) s) w) ∙ h))

  step-IsExclusive :
      (m : Move) (s t : System) → Drops s m → step max m s ≡ ok t → IsExclusive s → IsExclusive t
  step-IsExclusive (arrive mode event) s t p e h =
      arrive-IsExclusive event s (ap (λ k. step max (arrive k event) s) (sym p) ∙ e) h
  step-IsExclusive (finish i) s t p e h = elim h.one_or_idle [
    | inl (event, run, work) ↦ rw (finish_only event s work i e) (record {
      one_or_idle = inr (refl, refl);
      no_waiting = h.no_waiting;
      no_queue = h.no_queue;
      none_lost = h.none_lost;
    })
    | inr (idle, none_run) ↦ absurd (finish_none max s i none_run e)
  ]
  step-IsExclusive (close i) s t p e h =
      let (rest, more, same) = close_same max s i e in
      rw same (record {
        one_or_idle = h.one_or_idle;
        no_waiting = h.no_waiting;
        no_queue = h.no_queue;
        none_lost = h.none_lost;
      })
  step-IsExclusive (proceed i) s t p e h = absurd (proceed_none max s i h.no_waiting e)

  -- Whatever the interleaving, a trigger in mode "drop" has exactly one handler in progress while it
  -- is running and none otherwise, queues nothing, and hands every event it accepts to a handler.
  pub drop_mode-IsExclusive : {s : System} → Reaches Drops max s → IsExclusive s
  drop_mode-IsExclusive start = record {
    one_or_idle = inr (refl, refl);
    no_waiting = refl;
    no_queue = refl;
    none_lost = refl;
  }
  drop_mode-IsExclusive (then_move {s} {t} m r p e) =
      step-IsExclusive m s t p e (drop_mode-IsExclusive r)
