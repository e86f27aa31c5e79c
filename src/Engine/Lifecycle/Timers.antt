-- ===== src/Engine/Lifecycle/Timers.antt =====
-- The debounce timers that are set, over the calls of Activate, Deactivate and submitEvent.
use recur.Prelude.{
  ℕ, Option, String, ◌≡◌, ◌≢◌, refl, sym, ap, ◌∙◌, none, some, Bool, true, false, not, List, [],
  ◌∷◌, ◌==◌, String_eq, ℕ_eq, if◌then◌else◌, In, In-keep, In-append_cases, inl, inr, beq-cases,
  beq_refl, Option-cases,
}
use recur.Prelude.Dict
use recur.Prelude.Dict.{Dict, keys, lookup-insert_self, lookup-insert_ne, lookup-remove_ne}
use recur.Domain.{Trigger}
use recur.Engine.Lifecycle.{
  Made, not_handled, factory_error, driver, Watched, new_watched, Engine, new_engine, Activation,
  activated, start_driver, activate_with, activate, stop_timer, deactivate, set_timer, run_out,
  set_abort_done, stop_each, stop_all, Call, activate_call, deactivate_call, stop_all_call,
  set_timer_call, run_out_call, set_abort_done_call, run,
}

-- The trigger is active, and this is its timer.
abbrev pub Owns : Dict String Watched → ℕ → String → Type 0
Owns active n id = (at : Watched) × (Dict.lookup id active ≡ some at) × (at.debounce_timer ≡ some n)

-- Until the engine is stopped, every timer that is set is the timer of an active trigger.
abbrev pub IsOwned : Engine → Type 0
IsOwned e = (n : ℕ) → In n e.timers → e.stopped ≡ false → (id : String) × Owns e.active n id

some_eq : {A : Type 0} {x y : A} → ◌≡◌ {A = Option A} (some x) (some y) → x ≡ y
some_eq h = cc h

stop_timer-In :
    (timer : Option ℕ) (n : ℕ) (timers : List ℕ)
    → In n (stop_timer timer timers)
    → In n timers × (timer ≢ some n)
unfolding stop_timer
stop_timer-In none n timers i = (i, λ p. cc p)
stop_timer-In (some m) n timers i =
    let (j, kept) = In-keep n (λ k. not (k == m)) timers i in
    (j, λ p. absurd (cc (ap (λ k. not (n == k)) (some_eq p) ∙ ap not (beq_refl n), kept)))

-- The timers of one trigger are stopped and its entry is removed or changed; the other entries stay.
other_owner :
    (id : String) (at : Watched) (e : Engine) (active : Dict String Watched) (n : ℕ)
    → Dict.lookup id e.active ≡ some at
    → ((j : String) → id ≢ j → Dict.lookup j active ≡ Dict.lookup j e.active)
    → IsOwned e
    → In n (stop_timer at.debounce_timer e.timers)
    → e.stopped ≡ false
    → (j : String) × Owns active n j
other_owner id at e active n there same h i on =
    let (k, other) = stop_timer-In at.debounce_timer n e.timers i in
    let (j, (at', l, o)) = h n k on in
    elim (beq-cases id j) [
      | inl p ↦
          let q : at ≡ at' = some_eq (sym there ∙ ap (λ x. Dict.lookup x e.active) p.0 ∙ l) in
          absurd (other (ap (λ x. x.debounce_timer) q ∙ o))
      | inr p ↦ (j, (at', same j p.0 ∙ l, o))
    ]

deactivate-IsOwned : (id : String) (e : Engine) → IsOwned e → IsOwned (deactivate id e)
unfolding deactivate
deactivate-IsOwned id e h = elim (Option-cases (Dict.lookup id e.active)) [
  | inl p ↦ rw (p, deactivate) h
  | inr (at, p) ↦
      rw (p, deactivate)
        (λ n i on.
          other_owner id at e (Dict.remove id e.active) n p (λ j ne. lookup-remove_ne e.active ne) h
            i on)
]

set_timer-IsOwned : (id : String) (e : Engine) → IsOwned e → IsOwned (set_timer id e)
unfolding set_timer
set_timer-IsOwned id e h = elim (Option-cases (Dict.lookup id e.active)) [
  | inl p ↦ rw (p, set_timer) h
  | inr (at, p) ↦
      rw (p, set_timer)
        (λ n i on.
          elim (In-append_cases n (stop_timer at.debounce_timer e.timers) (e.timers_made ∷ []) i) [
            | inl old ↦
                other_owner id at e (Dict.insert id (armed at) e.active) n p
                  (λ j ne. lookup-insert_ne (armed at) e.active ne) h old on
            | inr new ↦ elim new [
              | inl is ↦
                  (id, (armed at, lookup-insert_self id (armed at) e.active, ap some (sym is)))
              | inr rest ↦ absurd rest
            ]
          ])
]
  where
    armed : Watched → Watched
    armed at = record at { debounce_timer = some e.timers_made }

run_out-IsOwned : (n : ℕ) (e : Engine) → IsOwned e → IsOwned (run_out n e)
unfolding run_out
run_out-IsOwned n e h = λ m i on. h m (stop_timer-In (some n) m e.timers i).0 on

set_abort_done-IsOwned :
    (id : String) (ch : Option ℕ) (e : Engine) → IsOwned e → IsOwned (set_abort_done id ch e)
unfolding set_abort_done
set_abort_done-IsOwned id ch e h = elim (Option-cases (Dict.lookup id e.active)) [
  | inl p ↦ rw (p, set_abort_done) h
  | inr (at, p) ↦
      let changed : Watched = record at { abort_done = ch } in
      rw (p, set_abort_done)
        (λ n i on.
          let (j, (at', l, o)) = h n i on in
          elim (beq-cases id j) [
            | inl q ↦
                let same : at ≡ at' = some_eq (sym p ∙ ap (λ x. Dict.lookup x e.active) q.0 ∙ l) in
                (
                  id,
                  (
                    changed,
                    lookup-insert_self id changed e.active,
                    ap (λ x. x.debounce_timer) same ∙ o,
                  ),
                )
            | inr q ↦ (j, (at', lookup-insert_ne changed e.active q.0 ∙ l, o))
          ])
]

abbrev Keeps : Engine × Activation → Type 0
Keeps p = IsOwned p.0

start_driver-IsOwned :
    (id : String) (started : Option String) (e : Engine)
    → Dict.lookup id e.active ≡ none
    → IsOwned e
    → IsOwned (start_driver id started e).0
unfolding start_driver
start_driver-IsOwned id (some error) e fresh h = h
start_driver-IsOwned id none e fresh h = λ n i on.
    let (j, (at, l, o)) = h n i on in
    (j, (at, lookup-insert_ne new_watched e.active (apart j at l) ∙ l, o))
  where
    apart : (j : String) (at : Watched) → Dict.lookup j e.active ≡ some at → id ≢ j
    apart j at l q = absurd (cc (sym fresh ∙ ap (λ x. Dict.lookup x e.active) q ∙ l))

activate_with-IsOwned :
    (t : Trigger) (factories : List (Trigger → Made)) (e : Engine)
    → Dict.lookup t.id e.active ≡ none
    → IsOwned e
    → IsOwned (activate_with t factories e).0
unfolding activate_with
activate_with-IsOwned t [] e fresh h = h
activate_with-IsOwned t (factory ∷ factories) e fresh h =
    by_made (factory t) (activate_with-IsOwned t factories e fresh h)
  where
    by_made :
        (m : Made)
        → IsOwned (activate_with t factories e).0
        → Keeps (elim m [
          | not_handled ↦ activate_with t factories e
          | factory_error error ↦ (e, Activation.plugin_error error)
          | driver started ↦ start_driver t.id started e
        ])
    by_made not_handled rest = rest
    by_made (factory_error error) rest = h
    by_made (driver started) rest = start_driver-IsOwned t.id started e fresh h

activate-IsOwned :
    (factories : List (Trigger → Made)) (t : Trigger) (e : Engine)
    → IsOwned e
    → IsOwned (activate factories t e).0
unfolding activate
activate-IsOwned factories t e h = cases e.stopped (Dict.lookup t.id e.active) refl
  where
    cases :
        (b : Bool) (o : Option Watched)
        → Dict.lookup t.id e.active ≡ o
        → Keeps (
            if b
            then (e, Activation.engine_stopped)
            else elim o [ none ↦ activate_with t factories e | some at ↦ (e, activated) ])
    cases true o known = h
    cases false none known = activate_with-IsOwned t factories e known h
    cases false (some at) known = h

stop_each-stopped : (ids : List String) (e : Engine) → (stop_each ids e).stopped ≡ e.stopped
unfolding stop_each
stop_each-stopped [] e = refl
stop_each-stopped (id ∷ ids) e = stop_each-stopped ids _

stop_all-IsOwned : (e : Engine) → IsOwned (stop_all e)
unfolding stop_all
stop_all-IsOwned e = λ n i on. absurd (cc (sym on ∙ stop_each-stopped (keys e.active) _))

run-IsOwned : (calls : List Call) (e : Engine) → IsOwned e → IsOwned (run calls e)
unfolding run
run-IsOwned [] e h = h
run-IsOwned (activate_call factories t ∷ calls) e h =
    run-IsOwned calls _ (activate-IsOwned factories t e h)
run-IsOwned (deactivate_call id ∷ calls) e h = run-IsOwned calls _ (deactivate-IsOwned id e h)
run-IsOwned (stop_all_call ∷ calls) e h = run-IsOwned calls _ (stop_all-IsOwned e)
run-IsOwned (set_timer_call id ∷ calls) e h = run-IsOwned calls _ (set_timer-IsOwned id e h)
run-IsOwned (run_out_call n ∷ calls) e h = run-IsOwned calls _ (run_out-IsOwned n e h)
run-IsOwned (set_abort_done_call id ch ∷ calls) e h =
    run-IsOwned calls _ (set_abort_done-IsOwned id ch e h)

new-IsOwned : IsOwned new_engine
new-IsOwned = λ n i on. absurd i

-- Whatever calls of Activate, Deactivate and StopAll are made on a new engine, in any order, and whatever
-- timers submitEvent sets and runs of mode "abort" come between them, but with no Deactivate between
-- submitEvent's look at an entry and the timer that it sets there: as long as the engine is not
-- stopped, every timer that is set is the debounceTimer of an active trigger.
pub run-Owns :
    (calls : List Call) (n : ℕ)
    → In n (run calls new_engine).timers
    → (run calls new_engine).stopped ≡ false
    → (id : String) × Owns (run calls new_engine).active n id
run-Owns calls n = run-IsOwned calls new_engine new-IsOwned n
