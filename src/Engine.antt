-- ===== src/Engine.antt =====
-- src/app/recurd/triggerengine/engine.go: what happens to the events of one active trigger. Each
-- section that the source runs under `at.mu` is one step, and the goroutines that handle events are
-- the workers. Any interleaving of the goroutines is a list of moves.
pub mod Queue
pub mod Dispatch
pub mod Lifecycle
pub mod Debounce
pub mod Router
pub mod External
pub mod Drop
pub mod Abort
pub mod Termination
pub mod Tests
use Prim.Native.Nat.{ℕ, zero, suc}
use recur.Prelude.{
  String, ◌+◌, Option, none, some, Bool, true, false, List, [], ◌∷◌, ◌++◌, length, leb, ◌==◌, ◌≡◌,
  ℕ_eq, String_eq, if◌then◌else◌,
}
use recur.Prelude.Dict.{Dict}
use recur.Prelude.Int.{ℤ, pos, negsuc}

-- TriggerEvent of driver.go
pub record TriggerEvent : Type 0 where
  pub trigger_type : String
  pub context : Dict String String

-- The goroutine that handles an event, named for what it does when the handler returns. A channel
-- made by `make(chan struct{})` is a number.
pub data Kind : Type 0 where
  parallel_run drop_run queue_run : Kind
  abort_run : ℕ → Kind

pub record Worker : Type 0 where
  pub kind : Kind
  pub event : TriggerEvent

-- activeTrigger, less the driver and the debounce timer. `abort_cancel` names the run whose context
-- it cancels by that run's channel.
pub record ActiveTrigger : Type 0 where
  pub running : Bool
  pub queue : List TriggerEvent
  pub abort_cancel : Option ℕ
  pub abort_done : Option ℕ

-- What the runtime holds around it: handlers in progress, dispatchers that wait at `<-doneCh`, runs
-- that are about to close their channel, the closed channels and the cancelled runs. The last three
-- fields record what has happened: events accepted (taken by a run or a queue), handed to a handler,
-- and dropped, each in order.
pub record System : Type 0 where
  pub at : ActiveTrigger
  pub workers : List Worker
  pub waiting : List (TriggerEvent × ℕ)
  pub closing : List ℕ
  pub closed : List ℕ
  pub cancelled : List ℕ
  pub next_channel : ℕ
  pub accepted : List TriggerEvent
  pub started : List TriggerEvent
  pub dropped : List TriggerEvent

-- The state right after Activate.
abbrev pub activated : System
activated = record {
  at = record { running = false; queue = []; abort_cancel = none; abort_done = none };
  workers = [];
  waiting = [];
  closing = [];
  closed = [];
  cancelled = [];
  next_channel = 0;
  accepted = [];
  started = [];
  dropped = [];
}

-- `panicked` is a call of a nil function; `blocked`, a move that cannot be made in the state.
pub data Outcome : Type 0 where
  ok : System → Outcome
  blocked : Outcome
  panicked : Outcome

-- if maxQueueSize <= 0 { maxQueueSize = 100 }
unfoldable pub queue_capacity : ℤ → ℕ
queue_capacity (pos zero) = 100
queue_capacity (pos (suc n)) = suc n
queue_capacity (negsuc n) = 100

-- `go func() { e.handleEvent(...) ... }()`
unfoldable pub spawn : Kind → TriggerEvent → System → System
spawn kind event s = record s {
  workers = s.workers ++ (record { kind = kind; event = event }) ∷ [];
  started = s.started ++ event ∷ [];
}

unfoldable pub accept : TriggerEvent → System → System
accept event s = record s { accepted = s.accepted ++ event ∷ [] }

unfoldable pub drop_event : TriggerEvent → System → System
drop_event event s = record s { dropped = s.dropped ++ event ∷ [] }

-- enqueueAndDrain, up to the start of its goroutine
unfoldable pub enqueue_and_drain : ℤ → TriggerEvent → System → System
unfolding spawn accept drop_event queue_capacity
enqueue_and_drain max_queue_size event s =
    if s.at.running
    then if leb (queue_capacity max_queue_size) (length s.at.queue)
      then drop_event event s
      else accept event (record s { at = record s.at { queue = s.at.queue ++ event ∷ [] } })
    else spawn queue_run event (accept event (record s { at = record s.at { running = true } }))

-- The rest of mode "abort", after the wait: `running` is not read again.
unfoldable pub start_abort : TriggerEvent → System → System
unfolding spawn accept
start_abort event s =
    let c = s.next_channel in
    spawn (abort_run c) event (
      accept event (record s {
        at = record s.at { running = true; abort_cancel = some c; abort_done = some c };
        next_channel = c + 1;
      }))

-- at.abortCancel(), then the wait for at.abortDone. The two fields are set together; a receive from
-- a nil channel would block for ever.
cancel_and_wait : Option ℕ → Option ℕ → TriggerEvent → System → Outcome
cancel_and_wait none channel event s = panicked
cancel_and_wait (some c) none event s = blocked
cancel_and_wait (some c) (some d) event s =
    ok (record s { cancelled = s.cancelled ++ c ∷ []; waiting = s.waiting ++ (event, d) ∷ [] })

-- dispatchWithConcurrency for an active trigger, up to a wait or the start of a goroutine
unfoldable pub dispatch_with_concurrency : String → ℤ → TriggerEvent → System → Outcome
unfolding spawn accept drop_event enqueue_and_drain start_abort cancel_and_wait
dispatch_with_concurrency concurrency_mode max_queue_size event s =
    let mode = if concurrency_mode == "" then "queue" else concurrency_mode in
    if mode == "parallel"
    then ok (spawn parallel_run event (accept event s))
    else if mode == "drop"
    then (if s.at.running
        then ok (drop_event event s)
        else ok (
            spawn drop_run event (accept event (record s { at = record s.at { running = true } }))))
    else if mode == "abort"
    then (if s.at.running
        then cancel_and_wait s.at.abort_cancel s.at.abort_done event s
        else ok (start_abort event s))
    else ok (enqueue_and_drain max_queue_size event s)

-- One round of the loop in the goroutine of enqueueAndDrain.
unfoldable pub drain : List TriggerEvent → System → System
unfolding spawn
drain [] s = record s { at = record s.at { running = false } }
drain (next ∷ rest) s = spawn queue_run next (record s { at = record s.at { queue = rest } })

-- What a goroutine does when its handler returns; it has left the workers.
unfoldable pub finish_run : Kind → System → System
unfolding drain
finish_run parallel_run s = s
finish_run drop_run s = record s { at = record s.at { running = false } }
finish_run queue_run s = drain s.at.queue s
finish_run (abort_run c) s = record s {
  at = record s.at { running = false; abort_cancel = none; abort_done = none };
  closing = s.closing ++ c ∷ [];
}

-- The item at a position, and the list without it.
unfoldable pub take_at {ℓ} : {A : Type ℓ} → ℕ → List A → Option (A × List A)
take_at n [] = none
take_at zero (x ∷ xs) = some (x, xs)
take_at (suc n) (x ∷ xs) = elim (take_at n xs) [ none ↦ none | some (y, rest) ↦ some (y, x ∷ rest) ]

unfoldable pub is_closed : ℕ → List ℕ → Bool
is_closed c [] = false
is_closed c (d ∷ ds) = if d == c then true else is_closed c ds

-- Moves: an event arrives at dispatchWithConcurrency, the handler of a worker returns, a run closes
-- its channel, a waiting dispatcher goes on.
pub data Move : Type 0 where
  arrive : String → TriggerEvent → Move
  finish : ℕ → Move
  close : ℕ → Move
  proceed : ℕ → Move

finish_at : Option (Worker × List Worker) → System → Outcome
unfolding finish_run
finish_at none s = blocked
finish_at (some (w, rest)) s = ok (finish_run w.kind (record s { workers = rest }))

close_at : Option (ℕ × List ℕ) → System → Outcome
close_at none s = blocked
close_at (some (c, rest)) s = ok (record s { closing = rest; closed = s.closed ++ c ∷ [] })

proceed_at : Option ((TriggerEvent × ℕ) × List (TriggerEvent × ℕ)) → System → Outcome
unfolding start_abort is_closed
proceed_at none s = blocked
proceed_at (some ((event, c), rest)) s =
    if is_closed c s.closed then ok (start_abort event (record s { waiting = rest })) else blocked

unfoldable pub step : ℤ → Move → System → Outcome
unfolding dispatch_with_concurrency finish_at close_at proceed_at take_at
step max_queue_size (arrive mode event) s = dispatch_with_concurrency mode max_queue_size event s
step max_queue_size (finish i) s = finish_at (take_at i s.workers) s
step max_queue_size (close i) s = close_at (take_at i s.closing) s
step max_queue_size (proceed i) s = proceed_at (take_at i s.waiting) s

-- The states that some interleaving of moves reaches, each allowed by `P` where it is made.
pub data Reaches (P : System → Move → Type 0) (max_queue_size : ℤ) : System → Type 0 where
  start : Reaches P max_queue_size activated
  then_move :
      {s t : System} (m : Move)
      → Reaches P max_queue_size s
      → P s m
      → step max_queue_size m s ≡ ok t
      → Reaches P max_queue_size t
