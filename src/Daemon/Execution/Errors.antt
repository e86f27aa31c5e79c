-- ===== src/Daemon/Execution/Errors.antt =====
-- Error counts and thresholds: the callback that executes an action, and OnTriggerError.
use recur.Prelude.{
  ℕ, zero, suc, ◌+◌, String, ◌≡◌, refl, sym, ap, ◌∙◌, none, some, Bool, true, false, List, [], ◌∷◌,
  ◌++◌, ◌==◌, String_eq, if◌then◌else◌, Bool-cases, Option-cases, inl, inr, arith,
}
use recur.Prelude.Dict
use recur.Prelude.Dict.{Dict, lookup-insert_self, lookup-remove_self}
use recur.Prelude.Int.{ℤ, pos, negsuc, succ, is_reached}
use recur.Domain.{Trigger, Action, Status, status_error}
use recur.Engine.Lifecycle.{Engine, deactivate}
use recur.Registry.Queries.{get_trigger}
use recur.Daemon.{World, Daemon, save_state, build_state}
use recur.Daemon.Execution.{
  record_result, put_trigger, count_trigger_error, on_trigger_error, deactivate_in, on_error_of,
}

-- An action after runs that end as the list says, none of them cancelled
unfoldable pub run_results : List Bool → Action → Action
run_results [] a = a
run_results (success ∷ results) a = run_results results (record_result success a).0

-- n failures
abbrev pub failures : ℕ → List Bool
failures zero = []
failures (suc n) = false ∷ failures n

record_failure :
    (a : Action) (c : ℕ)
    → a.error_count ≡ pos c
    → (record_result false a).0 ≡ record a {
      error_count = pos (suc c);
      status = if is_reached a.error_threshold (pos (suc c)) then status_error else a.status;
    }
unfolding record_result succ
record_failure a c h = elim (Bool-cases (is_reached a.error_threshold (pos (suc c)))) [
  | inl r ↦ rw (h, r) refl
  | inr r ↦ rw (h, r) refl
]

is_reached_later :
    (threshold : ℤ) (c n : ℕ)
    → is_reached threshold (pos c) ≡ true
    → is_reached threshold (pos (c + n)) ≡ true
unfolding is_reached
is_reached_later (pos zero) c n h = h
is_reached_later (pos (suc t)) c n h = ground arith
is_reached_later (negsuc t) c n h = h

-- The status after a count of failures in a row
abbrev pub status_at : ℤ → ℕ → Status → Status
status_at threshold count status = if is_reached threshold (pos count) then status_error else status

status_at_later :
    (threshold : ℤ) (c n : ℕ) (status : Status)
    → status_at threshold (c + n) (status_at threshold c status)
      ≡ status_at threshold (c + n) status
status_at_later threshold c n status = elim (Bool-cases (is_reached threshold (pos c))) [
  | inl r ↦ rw (r, is_reached_later threshold c n r) refl
  | inr r ↦ rw r refl
]

add_zero : (c : ℕ) → c + 0 ≡ c
add_zero c = omega arith

zero_add : (n : ℕ) → 0 + n ≡ n
zero_add n = omega arith

add_suc : (c n : ℕ) → suc c + n ≡ c + suc n
add_suc c n = omega arith

-- n failures in a row, from a count of c
abbrev pub failed_from : ℕ → Action → Action
failed_from m a = record a { error_count = pos m; status = status_at a.error_threshold m a.status }

run_results-failures_from :
    (n : ℕ) (a : Action) (c : ℕ)
    → a.error_count ≡ pos c
    → (is_reached a.error_threshold (pos c) ≡ true → a.status ≡ status_error)
    → run_results (failures n) a ≡ failed_from (c + n) a
unfolding run_results
run_results-failures_from zero a c h e =
    ap (λ s. record a { status = s }) (kept (is_reached a.error_threshold (pos c)) e)
    ∙ ap (λ k. record a { error_count = k; status = status_at a.error_threshold c a.status }) h
    ∙ ap (λ m. failed_from m a) (sym (add_zero c))
  where
    kept :
        (b : Bool)
        → (b ≡ true → a.status ≡ status_error)
        → a.status ≡ (if b then status_error else a.status)
    kept true e = e refl
    kept false e = refl
run_results-failures_from (suc n) a c h e =
    ap (run_results (failures n)) (record_failure a c h)
    ∙ run_results-failures_from n next (suc c) refl (λ r. rw r refl)
    ∙ ap (λ s. record a { error_count = pos (suc c + n); status = s })
        (status_at_later a.error_threshold (suc c) n a.status)
    ∙ ap (λ m. failed_from m a) (add_suc c n)
  where
    next : Action
    next = record a {
      error_count = pos (suc c);
      status = status_at a.error_threshold (suc c) a.status;
    }

not_reached_zero : (threshold : ℤ) → is_reached threshold (pos 0) ≡ false
unfolding is_reached
not_reached_zero (pos zero) = refl
not_reached_zero (pos (suc n)) = ground arith
not_reached_zero (negsuc n) = refl

run_results-append :
    (xs ys : List Bool) (a : Action) → run_results (xs ++ ys) a ≡ run_results ys (run_results xs a)
unfolding run_results
run_results-append [] ys a = refl
run_results-append (x ∷ xs) ys a = run_results-append xs ys (record_result x a).0

-- After any runs of an action, then a success, then n failures, its error count is n, and its status is
-- "error" if the threshold is set and at most n, and otherwise what it was after the success.
pub run_results-failures :
    (results : List Bool) (n : ℕ) (a : Action)
    → let a' = run_results (results ++ true ∷ []) a in
      let a'' = run_results (results ++ true ∷ failures n) a in
      (a''.error_count ≡ pos n) × (a''.status ≡ status_at a'.error_threshold n a'.status)
unfolding run_results record_result
run_results-failures results n a =
    let h : run_results (results ++ true ∷ failures n) a ≡ failed_from n after =
      run_results-append results (true ∷ failures n) a
      ∙ run_results-failures_from n after 0 refl
          (λ r. absurd (false_true (sym (not_reached_zero after.error_threshold) ∙ r)))
      ∙ ap (λ m. failed_from m after) (zero_add n) in
    (
      ap (λ x. x.error_count) h,
      ap (λ x. x.status) h
          ∙ ap (λ x. status_at x.error_threshold n x.status)
              (sym (run_results-append results (true ∷ []) a)),
    )
  where
    after : Action
    after = record (run_results results a) { error_count = pos 0 }

    false_true : false ≡ true → ⊥
    false_true p = cc p

pub save_state-engine : (w : World) (d : Daemon) → (save_state w d).engine ≡ d.engine
unfolding save_state
save_state-engine w d = elim (Bool-cases (d.state_path == "")) [
  | inl e ↦ rw e refl
  | inr e ↦ rw e (stored (w.write_state (build_state w d)))
]
  where
    stored :
        (b : Bool)
        → (if b then record d { saved = some (build_state w d) } else d).engine ≡ d.engine
    stored true = refl
    stored false = refl

pub save_state-registry : (w : World) (d : Daemon) → (save_state w d).registry ≡ d.registry
unfolding save_state
save_state-registry w d = elim (Bool-cases (d.state_path == "")) [
  | inl e ↦ rw e refl
  | inr e ↦ rw e (stored (w.write_state (build_state w d)))
]
  where
    stored :
        (b : Bool)
        → (if b then record d { saved = some (build_state w d) } else d).registry ≡ d.registry
    stored true = refl
    stored false = refl

count_trigger_error-reached :
    (w : World) (t : Trigger) (d : Daemon) (e : Engine)
    → d.engine ≡ some e
    → is_reached t.error_threshold (succ t.error_count) ≡ true
    → ((count_trigger_error w t d).engine ≡ some (deactivate t.id e))
      × (get_trigger (count_trigger_error w t d).registry t.id
          ≡ some (record t { error_count = succ t.error_count; status = status_error }))
unfolding count_trigger_error put_trigger deactivate_in
count_trigger_error-reached w t d e h r =
    rw (r, h)
      (
        save_state-engine w _,
        ap (λ x. get_trigger x t.id) (save_state-registry w _)
            ∙ lookup-insert_self t.id _ d.registry.triggers,
      )

pub lookup-deactivate : (id : String) (e : Engine) → Dict.lookup id (deactivate id e).active ≡ none
unfolding deactivate
lookup-deactivate id e = elim (Option-cases (Dict.lookup id e.active)) [
  | inl h ↦ rw (h, deactivate) h
  | inr (at, h) ↦ rw (h, deactivate) (lookup-remove_self id e.active)
]

-- When the driver of a registered trigger exits and the trigger's error count thereby reaches its
-- threshold, the trigger has the new count and status "error", and the engine has no entry for it.
pub on_trigger_error-reached :
    (w : World) (id : String) (t : Trigger) (d : Daemon) (e : Engine)
    → get_trigger d.registry id ≡ some t
    → t.id ≡ id
    → d.engine ≡ some e
    → is_reached t.error_threshold (succ t.error_count) ≡ true
    → let d' = on_trigger_error w id d in
      (get_trigger d'.registry id
        ≡ some (record t { error_count = succ t.error_count; status = status_error }))
      × ((e' : Engine) × (d'.engine ≡ some e') × (Dict.lookup id e'.active ≡ none))
unfolding on_trigger_error on_error_of
on_trigger_error-reached w id t d e g i h r =
    let (engine, trigger) = count_trigger_error-reached w t d e h r in
    rw (g, ← i) (trigger, (deactivate t.id e, engine, lookup-deactivate t.id e))
