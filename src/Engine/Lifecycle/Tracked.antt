-- ===== src/Engine/Lifecycle/Tracked.antt =====
-- The drivers that run are those of the active triggers.
use recur.Prelude.{
  ℕ, Option-cases, String, ◌≡◌, refl, sym, ap, ◌∙◌, Option, none, some, Bool, true, false, List, [],
  ◌∷◌, ◌++◌, ◌==◌, String_eq, if◌then◌else◌, not, keep, inl, inr,
}
use recur.Prelude.Dict
use recur.Prelude.Dict.{
  Dict, keys, lookup-insert_ne, lookup-remove_self, insert-IsMap, remove-IsMap,
}
use recur.Domain.{Trigger}
use recur.Engine.Lifecycle.Keys.{keys-insert, keys-insert_present, keys-remove, remove_first}
use recur.Engine.Lifecycle.{
  Made, not_handled, factory_error, driver, Watched, Engine, new_engine, Activation, activated,
  start_driver, activate_with, activate, deactivate, stop_each, stop_all, Call, activate_call,
  deactivate_call, stop_all_call, set_timer_call, run_out_call, set_abort_done_call, run,
  new_watched, stop_timer, wait_for, set_timer, run_out, set_abort_done,
}

-- The drivers that run are those of the active triggers, each once; a stopped engine has none.
pub record IsTracked (e : Engine) : Type 0 where
  pub tracked : e.drivers ≡ keys e.active
  pub one_each : Dict.IsMap e.active
  pub none_after_stop : e.stopped ≡ true → e.active ≡ []

abbrev Keeps : Engine × Activation → Type 0
Keeps p = IsTracked p.0

start_driver-IsTracked :
    (id : String) (o : Option String) (e : Engine)
    → Dict.lookup id e.active ≡ none
    → e.stopped ≡ false
    → IsTracked e
    → IsTracked (start_driver id o e).0
unfolding start_driver
start_driver-IsTracked id (some error) e fresh on h = h
start_driver-IsTracked id none e fresh on h = record {
  tracked = ap (λ l. l ++ id ∷ []) h.tracked ∙ sym (keys-insert id new_watched e.active fresh);
  one_each = insert-IsMap id new_watched e.active h.one_each;
  none_after_stop = λ s. cc (s, on);
}

activate_with-IsTracked :
    (t : Trigger) (factories : List (Trigger → Made)) (e : Engine)
    → Dict.lookup t.id e.active ≡ none
    → e.stopped ≡ false
    → IsTracked e
    → IsTracked (activate_with t factories e).0
unfolding activate_with
activate_with-IsTracked t [] e fresh on h = h
activate_with-IsTracked t (factory ∷ factories) e fresh on h =
    by_made (factory t) (activate_with-IsTracked t factories e fresh on h)
  where
    by_made :
        (m : Made)
        → IsTracked (activate_with t factories e).0
        → Keeps (elim m [
          | not_handled ↦ activate_with t factories e
          | factory_error error ↦ (e, Activation.plugin_error error)
          | driver started ↦ start_driver t.id started e
        ])
    by_made not_handled rest = rest
    by_made (factory_error error) rest = h
    by_made (driver started) rest = start_driver-IsTracked t.id started e fresh on h

activate-IsTracked :
    (factories : List (Trigger → Made)) (t : Trigger) (e : Engine)
    → IsTracked e
    → IsTracked (activate factories t e).0
unfolding activate
activate-IsTracked factories t e h = cases e.stopped (Dict.lookup t.id e.active) refl refl
  where
    cases :
        (b : Bool) (o : Option Watched)
        → e.stopped ≡ b
        → Dict.lookup t.id e.active ≡ o
        → Keeps (
            if b
            then (e, Activation.engine_stopped)
            else elim o [ none ↦ activate_with t factories e | some at ↦ (e, activated) ])
    cases true o s known = h
    cases false none s known = activate_with-IsTracked t factories e known s h
    cases false (some at) s known = h

-- One entry is deleted and its driver stopped.
abbrev drop_one : String → Engine → Engine
drop_one id e = record e {
  active = Dict.remove id e.active;
  drivers = keep (λ j. not (j == id)) e.drivers;
}

drop_one-IsTracked : (id : String) (e : Engine) → IsTracked e → IsTracked (drop_one id e)
unfolding Dict.remove
drop_one-IsTracked id e h = record {
  tracked = ap (keep (λ j. not (j == id))) h.tracked ∙ sym (keys-remove id e.active);
  one_each = remove-IsMap id e.active h.one_each;
  none_after_stop = λ s. ap (Dict.remove id) (h.none_after_stop s);
}

deactivate-IsTracked : (id : String) (e : Engine) → IsTracked e → IsTracked (deactivate id e)
unfolding deactivate
deactivate-IsTracked id e h = cases (Dict.lookup id e.active)
  where
    cases :
        (o : Option Watched)
        → IsTracked (elim o [
          | none ↦ e
          | some at ↦ record (drop_one id e) {
            timers = stop_timer at.debounce_timer e.timers;
            awaited = wait_for at.abort_done e.awaited;
          }
        ])
    cases none = h
    cases (some at) =
        let h' = drop_one-IsTracked id e h in
        record {
          tracked = h'.tracked;
          one_each = h'.one_each;
          none_after_stop = h'.none_after_stop;
        }

-- An entry is changed.
replace-IsTracked :
    (id : String) (at at' : Watched) (e : Engine)
    → Dict.lookup id e.active ≡ some at
    → IsTracked e
    → IsTracked (record e { active = Dict.insert id at' e.active })
unfolding Dict.lookup
replace-IsTracked id at at' e there h = record {
  tracked = h.tracked ∙ sym (keys-insert_present id at' at e.active there);
  one_each = insert-IsMap id at' e.active h.one_each;
  none_after_stop = λ s. absurd (absent (ap (Dict.lookup id) (h.none_after_stop s)));
}
  where
    absent : Dict.lookup id e.active ≡ none → ⊥
    absent p = cc (p, there)

set_timer-IsTracked : (id : String) (e : Engine) → IsTracked e → IsTracked (set_timer id e)
unfolding set_timer
set_timer-IsTracked id e h = elim (Option-cases (Dict.lookup id e.active)) [
  | inl p ↦ rw (p, set_timer) h
  | inr (at, p) ↦
      let h' = replace-IsTracked id at (record at { debounce_timer = some e.timers_made }) e p h in
      rw (p, set_timer)
        (record {
          tracked = h'.tracked;
          one_each = h'.one_each;
          none_after_stop = h'.none_after_stop;
        })
]

set_abort_done-IsTracked :
    (id : String) (ch : Option ℕ) (e : Engine) → IsTracked e → IsTracked (set_abort_done id ch e)
unfolding set_abort_done
set_abort_done-IsTracked id ch e h = elim (Option-cases (Dict.lookup id e.active)) [
  | inl p ↦ rw (p, set_abort_done) h
  | inr (at, p) ↦
      rw (p, set_abort_done) (replace-IsTracked id at (record at { abort_done = ch }) e p h)
]

run_out-IsTracked : (n : ℕ) (e : Engine) → IsTracked e → IsTracked (run_out n e)
unfolding run_out
run_out-IsTracked n e h = record {
  tracked = h.tracked;
  one_each = h.one_each;
  none_after_stop = h.none_after_stop;
}

-- StopAll stops every driver, in whatever order the entries stand.
stop_each_all :
    (m : Dict String Watched) (e : Engine)
    → e.active ≡ m
    → e.drivers ≡ keys m
    → Dict.IsMap m
    → ((stop_each (keys m) e).active ≡ [])
      × ((stop_each (keys m) e).drivers ≡ [])
      × ((stop_each (keys m) e).stopped ≡ e.stopped)
unfolding stop_each
stop_each_all [] e a d h = (a, d, refl)
stop_each_all ((k, v) ∷ m) e a d h =
    stop_each_all m (drop_one k e) (ap (Dict.remove k) a ∙ remove_first k v m h.0)
      (ap (keep (λ j. not (j == k))) d
        ∙ sym (keys-remove k ((k, v) ∷ m))
        ∙ ap keys (remove_first k v m h.0))
      h.1

stop_all-IsTracked : (e : Engine) → IsTracked e → IsTracked (stop_all e)
unfolding stop_all
stop_all-IsTracked e h =
    let (a, d, s) =
      stop_each_all e.active (record e { stopped = true }) refl h.tracked h.one_each in
    record { tracked = d ∙ ap keys (sym a); one_each = rw a tt; none_after_stop = λ _. a }

-- Whatever calls of Activate, Deactivate and StopAll are made, in any order, with any timers and any runs
-- of mode "abort" between them, on an engine that tracks its drivers, the drivers that were started and not stopped are those of the active triggers, one for
-- each, and there is no active trigger once the engine is stopped.
pub run-IsTracked : (calls : List Call) (e : Engine) → IsTracked e → IsTracked (run calls e)
unfolding run
run-IsTracked [] e h = h
run-IsTracked (activate_call factories t ∷ calls) e h =
    run-IsTracked calls _ (activate-IsTracked factories t e h)
run-IsTracked (deactivate_call id ∷ calls) e h = run-IsTracked calls _ (deactivate-IsTracked id e h)
run-IsTracked (stop_all_call ∷ calls) e h = run-IsTracked calls _ (stop_all-IsTracked e h)
run-IsTracked (set_timer_call id ∷ calls) e h = run-IsTracked calls _ (set_timer-IsTracked id e h)
run-IsTracked (run_out_call n ∷ calls) e h = run-IsTracked calls _ (run_out-IsTracked n e h)
run-IsTracked (set_abort_done_call id ch ∷ calls) e h =
    run-IsTracked calls _ (set_abort_done-IsTracked id ch e h)

pub new-IsTracked : IsTracked new_engine
new-IsTracked = record { tracked = refl; one_each = tt; none_after_stop = λ s. refl }
