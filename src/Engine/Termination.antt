-- ===== src/Engine/Termination.antt =====
-- What engine.go has left to do once no event arrives: handlers that return, channels that are closed
-- and dispatchers that go on, in any order.
use recur.Prelude.{
  ℕ, zero, suc, ◌+◌, ◌*◌, ◌≤◌, ◌<◌, ◌≡◌, refl, Option, none, some, Bool-cases, Option-cases, inl,
  inr, List, [], ◌∷◌, length, length-append, arith,
}
use recur.Prelude.Int.{ℤ}
use recur.Engine.Queue.{ok_eq, blocked_ok}
use recur.Engine.{
  TriggerEvent, Kind, parallel_run, drop_run, queue_run, abort_run, Worker, System, Outcome, ok,
  blocked, panicked, spawn, accept, drain, finish_run, start_abort, take_at, is_closed, Move,
  arrive, finish, close, proceed, step, finish_at, close_at, proceed_at,
}

-- A bound on the moves that are left: a waiting dispatcher goes on and becomes a worker, a worker
-- returns and may leave a channel to close.
abbrev pub work_left : System → ℕ
work_left s = 3 * length s.waiting + 2 * length s.workers + length s.closing + length s.at.queue

-- The moves other than an arrival
abbrev pub IsInternal : Move → Type 0
IsInternal (arrive mode event) = ⊥
IsInternal (finish i) = Unit {0}
IsInternal (close i) = Unit {0}
IsInternal (proceed i) = Unit {0}

abbrev pub AreInternal : List Move → Type 0
AreInternal [] = Unit {0}
AreInternal (m ∷ ms) = IsInternal m × AreInternal ms

-- One move after the other, up to the first that cannot be made or panics
then_moves : Outcome → (System → Outcome) → Outcome
then_moves (ok s) next = next s
then_moves blocked next = blocked
then_moves panicked next = panicked

unfoldable pub run_moves : ℤ → List Move → System → Outcome
unfolding then_moves
run_moves max_queue_size [] s = ok s
run_moves max_queue_size (m ∷ ms) s =
    then_moves (step max_queue_size m s) (run_moves max_queue_size ms)

length-take_at {ℓ} :
    {A : Type ℓ} (n : ℕ) (xs : List A) {x : A} {rest : List A}
    → take_at n xs ≡ some (x, rest)
    → length xs ≡ suc (length rest)
unfolding take_at
length-take_at n [] h = cc
length-take_at zero (y ∷ ys) h = ground arith
length-take_at (suc n) (y ∷ ys) h = elim (Option-cases (take_at n ys)) [
  | inl e ↦ absurd (ground (arith, h, e))
  | inr ((z, zs), e) ↦ let ih = length-take_at n ys e in ground (arith, h, e, ih)
]

drain-work_left :
    (q : List TriggerEvent) (s : System)
    → length s.at.queue ≡ length q
    → work_left (drain q s) < 2 + work_left s
unfolding drain spawn
drain-work_left [] s h = omega arith
drain-work_left (next ∷ rest) s h =
    omega (arith, length-append {0} s.workers (record { kind = queue_run; event = next } ∷ []))

finish_run-work_left : (k : Kind) (s : System) → work_left (finish_run k s) < 2 + work_left s
unfolding finish_run
finish_run-work_left parallel_run s = omega arith
finish_run-work_left drop_run s = omega arith
finish_run-work_left queue_run s = drain-work_left s.at.queue s refl
finish_run-work_left (abort_run c) s = omega (arith, length-append {0} s.closing (c ∷ []))

start_abort-work_left :
    (event : TriggerEvent) (s : System) → work_left (start_abort event s) ≡ 2 + work_left s
unfolding start_abort spawn accept
start_abort-work_left event s = omega (
  arith,
  length-append {0} s.workers (record { kind = abort_run s.next_channel; event = event } ∷ []),
)

module _ (s : System) {t : System} where
  finish_at-work_left :
      (o : Option (Worker × List Worker))
      → ((w : Worker) (rest : List Worker)
          → o ≡ some (w, rest)
          → length s.workers ≡ suc (length rest))
      → finish_at o s ≡ ok t
      → work_left t < work_left s
  unfolding finish_at
  finish_at-work_left none shorter h = cc
  finish_at-work_left (some (w, rest)) shorter h = rw (ok_eq h) (
      omega (arith, finish_run-work_left w.kind (record s { workers = rest }), shorter w rest refl))

  close_at-work_left :
      (o : Option (ℕ × List ℕ))
      → ((c : ℕ) (rest : List ℕ) → o ≡ some (c, rest) → length s.closing ≡ suc (length rest))
      → close_at o s ≡ ok t
      → work_left t < work_left s
  unfolding close_at
  close_at-work_left none shorter h = cc
  close_at-work_left (some (c, rest)) shorter h = rw (ok_eq h) (omega (arith, shorter c rest refl))

  proceed_at-work_left :
      (o : Option ((TriggerEvent × ℕ) × List (TriggerEvent × ℕ)))
      → ((w : TriggerEvent × ℕ) (rest : List (TriggerEvent × ℕ))
          → o ≡ some (w, rest)
          → length s.waiting ≡ suc (length rest))
      → proceed_at o s ≡ ok t
      → work_left t < work_left s
  unfolding proceed_at
  proceed_at-work_left none shorter h = cc
  proceed_at-work_left (some ((event, c), rest)) shorter h =
      elim (Bool-cases (is_closed c s.closed)) [
        | inl done ↦ rw (ok_eq (rw done at h)) (
            omega (
              arith,
              shorter (event, c) rest refl,
              start_abort-work_left event (record s { waiting = rest }),
            ))
        | inr still_open ↦ absurd (blocked_ok (rw still_open at h))
      ]

-- A move that is no arrival leaves less to do.
pub step-work_left :
    (max_queue_size : ℤ) (m : Move) (s : System) {t : System}
    → IsInternal m
    → step max_queue_size m s ≡ ok t
    → work_left t < work_left s
unfolding step
step-work_left max (arrive mode event) s i h = absurd i
step-work_left max (finish n) s i h =
    finish_at-work_left s (take_at n s.workers) (λ w rest e. length-take_at n s.workers e) h
step-work_left max (close n) s i h =
    close_at-work_left s (take_at n s.closing) (λ c rest e. length-take_at n s.closing e) h
step-work_left max (proceed n) s i h =
    proceed_at-work_left s (take_at n s.waiting) (λ w rest e. length-take_at n s.waiting e) h

then_moves-ok :
    (o : Outcome) (next : System → Outcome) {t : System}
    → then_moves o next ≡ ok t
    → (u : System) × (o ≡ ok u) × (next u ≡ ok t)
unfolding then_moves
then_moves-ok (ok u) next h = (u, refl, h)
then_moves-ok blocked next h = cc
then_moves-ok panicked next h = cc

-- Whatever the mode and whatever the state, once no event arrives, the handlers that return, the
-- channels that are closed and the dispatchers that go on are finitely many in every order: each
-- sequence of such moves is at most as long as the work that it takes away, counted with 3 for a
-- waiting dispatcher, 2 for a handler in progress, 1 for a channel to close and 1 for a queued event.
pub run_moves-work_left :
    (max_queue_size : ℤ) (ms : List Move) (s : System) {t : System}
    → AreInternal ms
    → run_moves max_queue_size ms s ≡ ok t
    → length ms + work_left t ≤ work_left s
unfolding run_moves
run_moves-work_left max [] s internal h = rw (ok_eq h) (omega arith)
run_moves-work_left max (m ∷ ms) s {t} internal h =
    let (u, first, rest) = then_moves-ok (step max m s) (run_moves max ms) h in
    omega
      (arith, step-work_left max m s internal.0 first, run_moves-work_left max ms u internal.1 rest)
