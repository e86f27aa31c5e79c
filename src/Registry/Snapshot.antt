-- ===== src/Registry/Snapshot.antt =====
-- snapshot and restoreEntityStates of registry.go: the states that outlive the daemon.
pub mod RoundTrip
use recur.Prelude.{
  ℕ, zero, suc, String, Option, none, some, Bool, true, false, List, [], ◌∷◌, ◌++◌, ◌==◌, String_eq,
  ℕ_eq, if◌then◌else◌,
}
use recur.Prelude.Dict
use recur.Prelude.Dict.{Dict}
use recur.Prelude.Int.{ℤ}
use recur.Domain.{Trigger, Action, Group, Recurfile, Status}
use recur.Registry.{Env, Registry}

-- entitySnapshot
pub record EntitySnapshot : Type 0 where
  pub id : String
  pub status : String
  pub error_count : ℤ
  pub last_activity : String

-- recurfileSnapshot
pub record RecurfileSnapshot : Type 0 where
  pub id : String
  pub file_path : String
  pub triggers : List EntitySnapshot
  pub actions : List EntitySnapshot

-- "" for the zero time, else its print
print_time : Env → ℕ → String
print_time env zero = ""
print_time env (suc n) = env.format_time (suc n)

unfoldable pub snapshot_trigger : Env → Trigger → EntitySnapshot
unfolding print_time
snapshot_trigger env t = record {
  id = t.id;
  status = t.status;
  error_count = t.error_count;
  last_activity = print_time env t.last_fired;
}

unfoldable pub snapshot_action : Env → Action → EntitySnapshot
unfolding print_time
snapshot_action env a = record {
  id = a.id;
  status = a.status;
  error_count = a.error_count;
  last_activity = print_time env a.last_executed;
}

-- The loop over a group's trigger ids
snapshot_triggers : Env → Dict String Trigger → List String → List EntitySnapshot
unfolding snapshot_trigger
snapshot_triggers env triggers [] = []
snapshot_triggers env triggers (id ∷ ids) =
    let rest = snapshot_triggers env triggers ids in
    elim (Dict.lookup id triggers) [ none ↦ rest | some t ↦ snapshot_trigger env t ∷ rest ]

-- The loop over a group's action ids
snapshot_actions : Env → Dict String Action → List String → List EntitySnapshot
unfolding snapshot_action
snapshot_actions env actions [] = []
snapshot_actions env actions (id ∷ ids) =
    let rest = snapshot_actions env actions ids in
    elim (Dict.lookup id actions) [ none ↦ rest | some a ↦ snapshot_action env a ∷ rest ]

-- The loop over a recurfile's group ids
snapshot_groups : Env → Registry → List String → List EntitySnapshot × List EntitySnapshot
unfolding snapshot_triggers snapshot_actions
snapshot_groups env r [] = ([], [])
snapshot_groups env r (id ∷ ids) =
    let (ts, as') = snapshot_groups env r ids in
    elim (Dict.lookup id r.groups) [
      | none ↦ (ts, as')
      | some g ↦ (
        snapshot_triggers env r.triggers g.trigger_ids ++ ts,
        snapshot_actions env r.actions g.action_ids ++ as',
      )
    ]

unfoldable pub snapshot_recurfiles : Env → Registry → Dict String Recurfile → List RecurfileSnapshot
unfolding snapshot_groups
snapshot_recurfiles env r [] = []
snapshot_recurfiles env r ((k, wf) ∷ rest) =
    let (ts, as') = snapshot_groups env r wf.groups in
    (record { id = wf.id; file_path = wf.file_path; triggers = ts; actions = as' })
    ∷ snapshot_recurfiles env r rest

-- snapshot
unfoldable pub snapshot : Env → Registry → List RecurfileSnapshot
unfolding snapshot_recurfiles
snapshot env r = snapshot_recurfiles env r r.recurfiles

-- The time after a restore: a text that is empty or does not parse leaves it
or_kept : ℕ → Option ℕ → ℕ
or_kept old none = old
or_kept old (some time) = time

restored_time : Env → ℕ → String → ℕ
unfolding or_kept
restored_time env old text = if text == "" then old else or_kept old (env.parse_time text)

restored_trigger : Env → Option EntitySnapshot → Trigger → Trigger
unfolding restored_time
restored_trigger env none t = t
restored_trigger env (some es) t = record t {
  status = es.status;
  error_count = es.error_count;
  last_fired = restored_time env t.last_fired es.last_activity;
}

-- The body of the loop over the triggers
unfoldable pub restore_trigger : Env → String → Dict String EntitySnapshot → Trigger → Trigger
unfolding restored_trigger
restore_trigger env wf_id states t =
    if t.recurfile_id == wf_id then restored_trigger env (Dict.lookup t.id states) t else t

restored_action : Env → Option EntitySnapshot → Action → Action
unfolding restored_time
restored_action env none a = a
restored_action env (some es) a = record a {
  status = es.status;
  error_count = es.error_count;
  last_executed = restored_time env a.last_executed es.last_activity;
}

-- The body of the loop over the actions
unfoldable pub restore_action : Env → String → Dict String EntitySnapshot → Action → Action
unfolding restored_action
restore_action env wf_id states a =
    if a.recurfile_id == wf_id then restored_action env (Dict.lookup a.id states) a else a

-- A loop that changes every entity of a map in place
unfoldable pub each : {V : Type 0} → (V → V) → Dict String V → Dict String V
each f [] = []
each f ((k, v) ∷ m) = (k, f v) ∷ each f m

-- restoreEntityStates
unfoldable pub restore_entity_states :
    Env → String → Dict String EntitySnapshot → Dict String EntitySnapshot → Registry → Registry
unfolding each restore_trigger restore_action
restore_entity_states env wf_id trigger_states action_states r = record r {
  triggers = each (restore_trigger env wf_id trigger_states) r.triggers;
  actions = each (restore_action env wf_id action_states) r.actions;
}
