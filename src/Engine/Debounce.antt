-- ===== src/Engine/Debounce.antt =====
-- submitEvent of src/app/recurd/triggerengine/engine.go for a trigger with a debounce: the timers that
-- `time.AfterFunc` starts, and the functions that they run on goroutines of their own. Each section
-- under `at.mu` is one move. That Deactivate stops a timer is in Engine/Lifecycle.
pub mod Coalescing
use recur.Prelude.{
  ℕ, zero, suc, ◌≡◌, Option, none, some, Bool, true, false, List, [], ◌∷◌, ◌++◌, if◌then◌else◌,
}
use recur.Engine.{TriggerEvent}

-- `pending` and `timer` are the fields debouncePending and debounceTimer; `timer` holds the timer that
-- is set, until it is stopped or runs its function. `firing` counts the functions that have been
-- started and have not taken the lock yet. The last two fields record what was submitted and what
-- was passed on to dispatchWithConcurrency.
pub record Debouncer : Type 0 where
  pub pending : Option TriggerEvent
  pub timer_set : Bool
  pub firing : ℕ
  pub submitted : List TriggerEvent
  pub dispatched : List TriggerEvent

abbrev pub quiet : Debouncer
quiet = record { pending = none; timer_set = false; firing = 0; submitted = []; dispatched = [] }

-- The body of submitEvent where debounce > 0: a timer that is set is stopped, and a new one started.
unfoldable pub submit : TriggerEvent → Debouncer → Debouncer
submit event d = record d {
  pending = some event;
  timer_set = true;
  submitted = d.submitted ++ event ∷ [];
}

-- The timer runs out: its function starts.
unfoldable pub expire : Debouncer → Option Debouncer
expire d =
    if d.timer_set then some (record d { timer_set = false; firing = suc d.firing }) else none

dispatch_pending : Option TriggerEvent → Debouncer → Debouncer
dispatch_pending none d = d
dispatch_pending (some event) d = record d { dispatched = d.dispatched ++ event ∷ [] }

fire_at : ℕ → Debouncer → Option Debouncer
unfolding dispatch_pending
fire_at zero d = none
fire_at (suc n) d = some (dispatch_pending d.pending (record d { pending = none; firing = n }))

-- The function of a timer: it takes the pending event, if there is one.
unfoldable pub fire : Debouncer → Option Debouncer
unfolding fire_at
fire d = fire_at d.firing d

pub data Reaches : Debouncer → Type 0 where
  start : Reaches quiet
  then_submit : {d : Debouncer} (event : TriggerEvent) → Reaches d → Reaches (submit event d)
  then_expire : {d e : Debouncer} → Reaches d → expire d ≡ some e → Reaches e
  then_fire : {d e : Debouncer} → Reaches d → fire d ≡ some e → Reaches e
