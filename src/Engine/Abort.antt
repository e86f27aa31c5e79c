-- ===== src/Engine/Abort.antt =====
-- Mode "abort" of engine.go: with one dispatcher the runs exclude one another; with two they may not.
pub mod Single
use recur.Prelude.{
  ℕ, zero, suc, ◌<◌, ◌≤◌, ◌≡◌, ◌⊎◌, inl, inr, refl, sym, ap, ◌∙◌, Option, none, some, Bool, true,
  false, List, [], ◌∷◌, ◌++◌, ◌==◌, String_eq, ℕ_eq, Bool-cases, arith, if◌then◌else◌, length,
}
use recur.Prelude.Int.{ℤ}
use recur.Engine.{
  TriggerEvent, abort_run, Worker, System, ok, blocked, take_at, is_closed, Move, arrive, finish,
  close, proceed, step, finish_at, close_at, proceed_at, Reaches, start, then_move, start_abort,
  cancel_and_wait,
}
use recur.Engine.Queue.{ok_eq, blocked_ok}
use recur.Engine.Abort.Single.{
  Aborts, AbortsAlone, handles, IsSingle, is_closed-append, is_closed-take_at, not_closed_next,
}

start-IsSingle :
    (event : TriggerEvent) (s : System)
    → s.workers ≡ []
    → s.waiting ≡ []
    → ((c : ℕ) → is_closed c s.closed ≡ true → c < s.next_channel)
    → ((c : ℕ) → is_closed c s.closing ≡ true → c < s.next_channel)
    → IsSingle (start_abort event s)
unfolding start_abort
start-IsSingle event s w n a b = record {
  phase = inl (
    s.next_channel,
    event,
    record {
      run = refl;
      cancel = refl;
      channel = refl;
      work = ap (λ l. l ++ handles s.next_channel event ∷ []) w;
      waits = inl n;
      open_channel = not_closed_next s s.closed a;
      not_closing = not_closed_next s s.closing b;
      made = omega arith;
    },
  );
  closed_below = λ c h. omega (arith, a c h);
  closing_below = λ c h. omega (arith, b c h);
}

module _ (max : ℤ) (s : System) where
  -- The event cancels the run and waits for its channel.
  arrive_running :
      (event : TriggerEvent) (c : ℕ)
      → s.at.running ≡ true
      → s.at.abort_cancel ≡ some c
      → s.at.abort_done ≡ some c
      → step max (arrive "abort" event) s
        ≡ ok
            (record s { cancelled = s.cancelled ++ c ∷ []; waiting = s.waiting ++ (event, c) ∷ [] })
  unfolding step
  arrive_running event c r a d = simp r (
      ap (λ o. cancel_and_wait o s.at.abort_done event s) a
      ∙ ap (λ o. cancel_and_wait (some c) o event s) d)

  arrive_idle :
      (event : TriggerEvent)
      → s.at.running ≡ false
      → step max (arrive "abort" event) s ≡ ok (start_abort event s)
  unfolding step
  arrive_idle event r = simp r

  arrive-IsSingle :
      (event : TriggerEvent) {t : System}
      → s.waiting ≡ []
      → step max (arrive "abort" event) s ≡ ok t
      → IsSingle s
      → IsSingle t
  arrive-IsSingle event n e h = elim h.phase [
    | inl (c, running, r) ↦
        rw (ok_eq (sym (arrive_running event c r.run r.cancel r.channel) ∙ e)) (record {
          phase = inl (
            c,
            running,
            record {
              run = r.run;
              cancel = r.cancel;
              channel = r.channel;
              work = r.work;
              waits = inr (event, ap (λ l. l ++ (event, c) ∷ []) n);
              open_channel = r.open_channel;
              not_closing = r.not_closing;
              made = r.made;
            },
          );
          closed_below = h.closed_below;
          closing_below = h.closing_below;
        })
    | inr (c, i) ↦
        rw (ok_eq (sym (arrive_idle event i.idle) ∙ e))
          (start-IsSingle event s i.no_work n h.closed_below h.closing_below)
  ]

  finish_none : (i : ℕ) {t : System} → s.workers ≡ [] → step max (finish i) s ≡ ok t → ⊥
  unfolding step
  finish_none i w h = blocked_ok (sym (ap (λ ws. finish_at (take_at i ws) s) w) ∙ h)

  finish_only :
      (c : ℕ) (event : TriggerEvent)
      → s.workers ≡ handles c event ∷ []
      → (i : ℕ) {t : System} → step max (finish i) s ≡ ok t
      → t ≡ record s {
        workers = [];
        at = record s.at { running = false; abort_cancel = none; abort_done = none };
        closing = s.closing ++ c ∷ [];
      }
  unfolding step
  finish_only c event w zero h = ok_eq (sym (ap (λ ws. finish_at (take_at 0 ws) s) w) ∙ h)
  finish_only c event w (suc i) h =
      absurd (blocked_ok (sym (ap (λ ws. finish_at (take_at (suc i) ws) s) w) ∙ h))

  finish-IsSingle : (i : ℕ) {t : System} → step max (finish i) s ≡ ok t → IsSingle s → IsSingle t
  finish-IsSingle i e h = elim h.phase [
    | inl (c, running, r) ↦ rw (finish_only c running r.work i e) (record {
      phase = inr (c, record { idle = refl; no_work = refl; waits = r.waits });
      closed_below = h.closed_below;
      closing_below =
          λ d k. ground (arith, r.made, is_closed-append d c s.closing, h.closing_below d);
    })
    | inr (c, j) ↦ absurd (finish_none i j.no_work e)
  ]

  close_some :
      (i : ℕ) {t : System}
      → step max (close i) s ≡ ok t
      → (c : ℕ) × (rest : List ℕ) × (take_at i s.closing ≡ some (c, rest))
        × (t ≡ record s { closing = rest; closed = s.closed ++ c ∷ [] })
  unfolding step
  close_some i {t} h = closes (take_at i s.closing) refl h
    where
      closes :
          (o : Option (ℕ × List ℕ))
          → take_at i s.closing ≡ o
          → close_at o s ≡ ok t
          → (c : ℕ) × (rest : List ℕ) × (take_at i s.closing ≡ some (c, rest))
            × (t ≡ record s { closing = rest; closed = s.closed ++ c ∷ [] })
      closes none q e = absurd (blocked_ok e)
      closes (some (c, rest)) q e = (c, rest, q, ok_eq e)

  close-IsSingle : (i : ℕ) {t : System} → step max (close i) s ≡ ok t → IsSingle s → IsSingle t
  close-IsSingle i e h =
      let (d, rest, taken, same) = close_some i e in
      let split = is_closed-take_at i s.closing taken in
      rw same (record {
        phase = elim h.phase [
          | inl (c, running, r) ↦ inl (
            c,
            running,
            record {
              run = r.run;
              cancel = r.cancel;
              channel = r.channel;
              work = r.work;
              waits = r.waits;
              open_channel =
                  ground
                    (arith, split c, r.not_closing, r.open_channel, is_closed-append c d s.closed);
              not_closing = ground (arith, split c, r.not_closing);
              made = r.made;
            },
          )
          | inr (c, j) ↦ inr (c, record { idle = j.idle; no_work = j.no_work; waits = j.waits })
        ];
        closed_below = λ c k.
            ground
              (arith, split c, is_closed-append c d s.closed, h.closed_below c, h.closing_below c);
        closing_below = λ c k. ground (arith, split c, h.closing_below c);
      })

  proceed_none : (i : ℕ) {t : System} → s.waiting ≡ [] → step max (proceed i) s ≡ ok t → ⊥
  unfolding step
  proceed_none i w h = blocked_ok (sym (ap (λ ws. proceed_at (take_at i ws) s) w) ∙ h)

  -- The only waiting dispatcher goes on if its channel is closed.
  proceed_only :
      (event : TriggerEvent) (c : ℕ)
      → s.waiting ≡ (event, c) ∷ []
      → (i : ℕ) {t : System} → step max (proceed i) s ≡ ok t
      → (is_closed c s.closed ≡ true) × (t ≡ start_abort event (record s { waiting = [] }))
  unfolding step
  proceed_only event c w zero {t} h =
      goes (is_closed c s.closed) refl (sym (ap (λ ws. proceed_at (take_at 0 ws) s) w) ∙ h)
    where
      goes :
          (b : Bool)
          → is_closed c s.closed ≡ b
          → (if b then ok (start_abort event (record s { waiting = [] })) else blocked) ≡ ok t
          → (is_closed c s.closed ≡ true) × (t ≡ start_abort event (record s { waiting = [] }))
      goes true q e = (q, ok_eq e)
      goes false q e = absurd (blocked_ok e)
  proceed_only event c w (suc i) h =
      absurd (blocked_ok (sym (ap (λ ws. proceed_at (take_at (suc i) ws) s) w) ∙ h))

  proceed-IsSingle : (i : ℕ) {t : System} → step max (proceed i) s ≡ ok t → IsSingle s → IsSingle t
  proceed-IsSingle i e h = elim h.phase [
    | inl (c, running, r) ↦ elim r.waits [
      | inl n ↦ absurd (proceed_none i n e)
      | inr (event, w) ↦ cc (r.open_channel, (proceed_only event c w i e).0)
    ]
    | inr (c, j) ↦ elim j.waits [
      | inl n ↦ absurd (proceed_none i n e)
      | inr (event, w) ↦ rw (proceed_only event c w i e).1 (
          start-IsSingle event (record s { waiting = [] }) j.no_work refl h.closed_below
            h.closing_below)
    ]
  ]

module _ (max : ℤ) where
  step-IsSingle :
      (m : Move) (s t : System) → AbortsAlone s m → step max m s ≡ ok t → IsSingle s → IsSingle t
  step-IsSingle (arrive mode event) s t (p, n) e h =
      arrive-IsSingle max s event n (ap (λ k. step max (arrive k event) s) (sym p) ∙ e) h
  step-IsSingle (finish i) s t p e h = finish-IsSingle max s i e h
  step-IsSingle (close i) s t p e h = close-IsSingle max s i e h
  step-IsSingle (proceed i) s t p e h = proceed-IsSingle max s i e h

  Reaches-IsSingle : {s : System} → Reaches AbortsAlone max s → IsSingle s
  unfolding is_closed
  Reaches-IsSingle start = record {
    phase = inr (0, record { idle = refl; no_work = refl; waits = inl refl });
    closed_below = λ c h. cc h;
    closing_below = λ c h. cc h;
  }
  Reaches-IsSingle (then_move {s} {t} m r p e) = step-IsSingle m s t p e (Reaches-IsSingle r)

  -- With one dispatcher, mode "abort" never has two handlers in progress: the new run starts only
  -- after the cancelled one has returned.
  pub abort_mode_exclusive : {s : System} → Reaches AbortsAlone max s → length s.workers ≤ 1
  abort_mode_exclusive {s} r = elim (Reaches-IsSingle r).phase [
    | inl (c, event, k) ↦ omega (arith, ap length k.work)
    | inr (c, k) ↦ omega (arith, ap length k.no_work)
  ]

  -- With three events and dispatchers that may overlap, as the debounce timers do, mode "abort" reaches a
  -- state with two handlers in progress.
  pub abort_mode_overlaps :
      (a b c : TriggerEvent) → (s : System) × Reaches Aborts max s × (length s.workers ≡ 2)
  unfolding step
  abort_mode_overlaps a b c = (
    _,
    then_move (proceed 0)
        (then_move (proceed 0)
          (then_move (close 0)
            (then_move (finish 0)
              (then_move (arrive "abort" c)
                (then_move (arrive "abort" b) (then_move (arrive "abort" a) start refl refl) refl
                  refl)
                refl refl)
              tt refl)
            tt refl)
          tt refl)
        tt refl,
    refl,
  )
