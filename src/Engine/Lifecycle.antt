-- ===== src/Engine/Lifecycle.antt =====
-- Engine of src/app/recurd/triggerengine/engine.go: which triggers have a driver, and their debounce timers.
-- `mutex` guards Activate, Deactivate and StopAll, so each is a function on the record. What changes an
-- entry under `at.mu` is one as well: that the entry is looked up, and may be deactivated, before it is
-- changed is left out here.
pub mod Keys
pub mod Tracked
pub mod Timers
use recur.Prelude.{
  ℕ, suc, String, Option, none, some, Bool, true, false, List, [], ◌∷◌, ◌++◌, ◌==◌, String_eq, ℕ_eq,
  if◌then◌else◌, not, keep,
}
use recur.Prelude.Dict
use recur.Prelude.Dict.{Dict, keys}
use recur.Domain.{Trigger}

-- What a DriverFactory returns: nil for a type of another plugin, its error, or a driver; and what that
-- driver's Start returns.
pub data Made : Type 0 where
  not_handled : Made
  factory_error : String → Made
  driver : Option String → Made

-- activeTrigger, as Deactivate sees it: the timer and the channel that it has, by their numbers. The rest
-- of the concurrency state of a trigger is the `System` of the parent module.
pub record Watched : Type 0 where
  pub debounce_timer : Option ℕ
  pub abort_done : Option ℕ

abbrev pub new_watched : Watched
new_watched = record { debounce_timer = none; abort_done = none }

-- Engine. The other fields record what the calls have done: `drivers` the triggers whose driver was
-- started and not stopped, `timers` the timers that are set and neither stopped nor run out, `timers_made` the
-- number of timers so far, and `awaited` the channels whose closing Deactivate has waited for.
pub record Engine : Type 0 where
  pub active : Dict String Watched
  pub stopped : Bool
  pub drivers : List String
  pub timers : List ℕ
  pub timers_made : ℕ
  pub awaited : List ℕ

-- NewEngine
abbrev pub new_engine : Engine
new_engine = record {
  active = [];
  stopped = false;
  drivers = [];
  timers = [];
  timers_made = 0;
  awaited = [];
}

-- The errors of Activate
pub data Activation : Type 0 where
  activated : Activation
  engine_stopped : Activation
  plugin_error : String → Activation
  no_plugin : Activation
  start_error : String → Activation

-- The driver was found: Start, and Stop if it fails
start_driver : String → Option String → Engine → Engine × Activation
start_driver id (some error) e = (e, start_error error)
start_driver id none e = (
  record e { active = Dict.insert id new_watched e.active; drivers = e.drivers ++ id ∷ [] },
  activated,
)

-- The loop over the factories
activate_with : Trigger → List (Trigger → Made) → Engine → Engine × Activation
unfolding start_driver
activate_with t [] e = (e, no_plugin)
activate_with t (factory ∷ factories) e =
    let rest = activate_with t factories e in
    elim (factory t) [
      | not_handled ↦ rest
      | factory_error error ↦ (e, plugin_error error)
      | driver started ↦ start_driver t.id started e
    ]

-- Activate
unfoldable pub activate : List (Trigger → Made) → Trigger → Engine → Engine × Activation
unfolding activate_with
activate factories t e =
    if e.stopped then (e, engine_stopped) else elim (Dict.lookup t.id e.active) [
      | none ↦ activate_with t factories e
      | some at ↦ (e, activated)
    ]

-- at.debounceTimer.Stop(), if there is one
stop_timer : Option ℕ → List ℕ → List ℕ
stop_timer none timers = timers
stop_timer (some n) timers = keep (λ m. not (m == n)) timers

-- <-doneCh, if a run of mode "abort" has made the channel
wait_for : Option ℕ → List ℕ → List ℕ
wait_for none awaited = awaited
wait_for (some ch) awaited = awaited ++ ch ∷ []

-- Deactivate, as it is when it returns
unfoldable pub deactivate : String → Engine → Engine
unfolding stop_timer wait_for
deactivate id e = elim (Dict.lookup id e.active) [
  | none ↦ e
  | some at ↦ record e {
    timers = stop_timer at.debounce_timer e.timers;
    active = Dict.remove id e.active;
    drivers = keep (λ j. not (j == id)) e.drivers;
    awaited = wait_for at.abort_done e.awaited;
  }
]

-- submitEvent with a debounce: the timer is stopped, if there is one, and a new one set.
unfoldable pub set_timer : String → Engine → Engine
unfolding stop_timer
set_timer id e = elim (Dict.lookup id e.active) [
  | none ↦ e
  | some at ↦ record e {
    active = Dict.insert id (record at { debounce_timer = some e.timers_made }) e.active;
    timers = stop_timer at.debounce_timer e.timers ++ e.timers_made ∷ [];
    timers_made = suc e.timers_made;
  }
]

-- A timer runs out. The entry still names it.
unfoldable pub run_out : ℕ → Engine → Engine
unfolding stop_timer
run_out n e = record e { timers = stop_timer (some n) e.timers }

-- A run of mode "abort" begins, with a channel, or ends, with none.
unfoldable pub set_abort_done : String → Option ℕ → Engine → Engine
set_abort_done id ch e = elim (Dict.lookup id e.active) [
  | none ↦ e
  | some at ↦ record e { active = Dict.insert id (record at { abort_done = ch }) e.active }
]

-- The loop of StopAll: every driver is stopped and every entry deleted. No timer is stopped.
stop_each : List String → Engine → Engine
stop_each [] e = e
stop_each (id ∷ ids) e =
    stop_each ids
      (record e { active = Dict.remove id e.active; drivers = keep (λ j. not (j == id)) e.drivers })

-- StopAll
unfoldable pub stop_all : Engine → Engine
unfolding stop_each
stop_all e = stop_each (keys e.active) (record e { stopped = true })

-- A call of one of the three methods, or what happens to a trigger between them
pub data Call : Type 0 where
  activate_call : List (Trigger → Made) → Trigger → Call
  deactivate_call : String → Call
  stop_all_call : Call
  set_timer_call : String → Call
  run_out_call : ℕ → Call
  set_abort_done_call : String → Option ℕ → Call

unfoldable pub run : List Call → Engine → Engine
unfolding activate deactivate stop_all set_timer run_out set_abort_done
run [] e = e
run (activate_call factories t ∷ calls) e = run calls (activate factories t e).0
run (deactivate_call id ∷ calls) e = run calls (deactivate id e)
run (stop_all_call ∷ calls) e = run calls (stop_all e)
run (set_timer_call id ∷ calls) e = run calls (set_timer id e)
run (run_out_call n ∷ calls) e = run calls (run_out n e)
run (set_abort_done_call id ch ∷ calls) e = run calls (set_abort_done id ch e)
