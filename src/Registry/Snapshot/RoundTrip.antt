-- ===== src/Registry/Snapshot/RoundTrip.antt =====
-- What a restore brings back of what a snapshot wrote, as the daemon does when it starts again.
use Prim.Native.Nat.{◌/◌, ◌*◌}
use recur.Prelude.{
  ℕ, zero, suc, String, ◌≡◌, refl, sym, ap, ◌∙◌, none, some, false, ◌==◌, String_eq, [], ◌∷◌,
  if◌then◌else◌, beq_refl, inl, inr, Bool-cases,
}
use recur.Prelude.Dict
use recur.Prelude.Dict.{Dict}
use recur.Domain.{Trigger}
use recur.Registry.{Env, Registry}
use recur.Registry.Snapshot.{
  EntitySnapshot, snapshot_trigger, print_time, restored_time, restored_trigger, restore_trigger,
  each, restore_entity_states,
}

-- RFC 3339 prints no fraction of a second.
abbrev pub whole_seconds : ℕ → ℕ
whole_seconds n = n / 1000000000 * 1000000000

-- A time prints to a text that is not empty and parses back to the time cut to whole seconds, as
-- RFC 3339 does for the years that have four digits.
pub record TimesRoundTrip (env : Env) (n : ℕ) : Type 0 where
  pub parses : env.parse_time (env.format_time n) ≡ some (whole_seconds n)
  pub not_empty : (env.format_time n == "") ≡ false

-- Over a zero time, the restored time is the one that was printed, cut to whole seconds.
restored_time-print_time :
    (env : Env) (n : ℕ)
    → TimesRoundTrip env n
    → restored_time env 0 (print_time env n) ≡ whole_seconds n
unfolding restored_time print_time
restored_time-print_time env zero h = refl
restored_time-print_time env (suc n) h = simp h.not_empty (rw h.parses)

lookup-each :
    {V : Type 0} (f : V → V) (k : String) (m : Dict String V)
    → Dict.lookup k (each f m) ≡ (elim (Dict.lookup k m) [ none ↦ none | some v ↦ some (f v) ])
unfolding each Dict.lookup
lookup-each f k [] = refl
lookup-each f k ((j, v) ∷ m) = elim (Bool-cases (j == k)) [
  | inl t ↦ rw t refl
  | inr g ↦ rw g (lookup-each f k m)
]

restore_trigger-snapshot :
    (env : Env) (wf_id : String) (states : Dict String EntitySnapshot) (old new : Trigger)
    → TimesRoundTrip env old.last_fired
    → new.recurfile_id ≡ wf_id
    → Dict.lookup new.id states ≡ some (snapshot_trigger env old)
    → new.last_fired ≡ 0
    → restore_trigger env wf_id states new ≡ record new {
      status = old.status;
      error_count = old.error_count;
      last_fired = whole_seconds old.last_fired;
    }
unfolding restore_trigger restored_trigger snapshot_trigger
restore_trigger-snapshot env wf_id states old new h same saved fresh =
    ap (λ b. if b then restored_trigger env (Dict.lookup new.id states) new else new)
      (ap (λ k. new.recurfile_id == k) (sym same) ∙ beq_refl new.recurfile_id)
    ∙ ap (λ o. restored_trigger env o new) saved
    ∙ ap (λ n. record new { status = old.status; error_count = old.error_count; last_fired = n })
        (ap (λ n. restored_time env n (print_time env old.last_fired)) fresh
          ∙ restored_time-print_time env old.last_fired h)

-- A trigger that is registered again as new under the id of a saved one has, after a restore, the
-- status and the error count that were saved, and the time that was saved cut to whole seconds, where
-- printing and parsing a time cut it so; every trigger of another recurfile is as it was.
pub restore_entity_states-snapshot :
    (env : Env) (wf_id : String) (triggers actions : Dict String EntitySnapshot) (r : Registry)
    (old new : Trigger)
    → TimesRoundTrip env old.last_fired
    → Dict.lookup new.id r.triggers ≡ some new
    → new.recurfile_id ≡ wf_id
    → new.last_fired ≡ 0
    → Dict.lookup new.id triggers ≡ some (snapshot_trigger env old)
    → (Dict.lookup new.id (restore_entity_states env wf_id triggers actions r).triggers
        ≡ some (record new {
          status = old.status;
          error_count = old.error_count;
          last_fired = whole_seconds old.last_fired;
        }))
      × ((k : String) (other : Trigger)
          → Dict.lookup k r.triggers ≡ some other
          → (other.recurfile_id == wf_id) ≡ false
          → Dict.lookup k (restore_entity_states env wf_id triggers actions r).triggers
            ≡ some other)
unfolding restore_entity_states restore_trigger
restore_entity_states-snapshot env wf_id triggers actions r old new h at same fresh saved = (
  lookup-each (restore_trigger env wf_id triggers) new.id r.triggers
      ∙ ap (λ o. elim o [ none ↦ none | some v ↦ some (restore_trigger env wf_id triggers v) ]) at
      ∙ ap some (restore_trigger-snapshot env wf_id triggers old new h same saved fresh),
  λ k other there elsewhere.
      lookup-each (restore_trigger env wf_id triggers) k r.triggers
      ∙ ap (λ o. elim o [ none ↦ none | some v ↦ some (restore_trigger env wf_id triggers v) ])
          there
      ∙ ap
          (λ b.
            some (if b then restored_trigger env (Dict.lookup other.id triggers) other else other))
          elsewhere,
)
