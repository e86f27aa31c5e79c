-- ===== src/Engine/Queue/Draining.antt =====
-- Mode "queue" of engine.go once no event arrives: each handler that returns starts the next one.
use mathlib.Core.List.{append-nil}
use recur.Prelude.{
  ℕ, zero, suc, ◌+◌, ◌≡◌, refl, sym, ap, ◌∙◌, inl, inr, false, List, [], ◌∷◌, ◌++◌, length, arith,
}
use recur.Prelude.Int.{ℤ}
use recur.Engine.{TriggerEvent, System, ok, drain, spawn, take_at, Move, finish, step, finish_at}
use recur.Engine.Termination.{run_moves}
use recur.Engine.Queue.{IsSequential, handles, step-IsSequential}

-- The first handler returns, n times in a row.
abbrev pub finishes : ℕ → List Move
finishes zero = []
finishes (suc n) = finish 0 ∷ finishes n

-- Idle, with every accepted event handed to a handler
pub record IsDrained (accepted : List TriggerEvent) (t : System) : Type 0 where
  pub idle : t.at.running ≡ false
  pub no_workers : t.workers ≡ []
  pub empty : t.at.queue ≡ []
  pub all_started : t.started ≡ accepted

module _ (max : ℤ) where
  step_busy :
      (event : TriggerEvent) (s : System)
      → s.workers ≡ handles event ∷ []
      → (queue : List TriggerEvent) → s.at.queue ≡ queue
      → step max (finish 0) s ≡ ok (drain queue (record s { workers = [] }))
  unfolding step
  step_busy event s work queue q =
      ap (λ ws. finish_at (take_at 0 ws) s) work
      ∙ ap (λ l. ok (drain l (record s { workers = [] }))) q

  finishes-IsDrained :
      (queue : List TriggerEvent) (event : TriggerEvent) (s : System)
      → IsSequential max s
      → s.workers ≡ handles event ∷ []
      → s.at.queue ≡ queue
      → (t : System) × (run_moves max (finishes (suc (length queue))) s ≡ ok t)
        × IsDrained s.accepted t
  unfolding run_moves drain spawn
  finishes-IsDrained [] event s h work q =
      let first = step_busy event s work [] q in
      (
        drain [] (record s { workers = [] }),
        rw first,
        record {
          idle = refl;
          no_workers = refl;
          empty = q;
          all_started = sym (h.in_order ∙ ap (λ l. s.started ++ l) q ∙ append-nil s.started);
        },
      )
  finishes-IsDrained (next ∷ rest) event s h work q =
      let first = step_busy event s work (next ∷ rest) q in
      let u = drain (next ∷ rest) (record s { workers = [] }) in
      let after_first = step-IsSequential max (finish 0) s u tt first h in
      let (t, moves, drained) = finishes-IsDrained rest next u after_first refl refl in
      (t, rw first moves, drained)

  -- Once no event arrives, a trigger in mode "queue" empties its queue: after as many returns of the
  -- handler as there are handlers in progress and queued events, it is idle, no event is queued, and
  -- the events handed to a handler are all those accepted, in their order.
  pub queue_mode_drains :
      (s : System)
      → IsSequential max s
      → (t : System) × (run_moves max (finishes (length s.workers + length s.at.queue)) s ≡ ok t)
        × IsDrained s.accepted t
  unfolding run_moves
  queue_mode_drains s h = elim h.one_or_idle [
    | inl (event, busy, work) ↦
        let n : length s.workers + length s.at.queue ≡ suc (length s.at.queue) =
          omega (arith, ap length work) in
        rw n (finishes-IsDrained s.at.queue event s h work refl)
    | inr (idle, none_run, empty) ↦
        let n : length s.workers + length s.at.queue ≡ 0 =
          omega (arith, ap length none_run, ap length empty) in
        (
          s,
          rw n,
          record {
            idle = idle;
            no_workers = none_run;
            empty = empty;
            all_started = sym (h.in_order ∙ ap (λ l. s.started ++ l) empty ∙ append-nil s.started);
          },
        )
  ]
