-- ===== src/Registry.antt =====
-- src/app/recurd/daemon/registry.go: the entities that the daemon has registered. `mutex` guards every
-- method, so a method is a function on the record. The maps hold pointers, and an entity that is
-- changed in place is written back under its key. An order in which a map is ranged over is the order
-- of its entries.
pub mod Register
pub mod Queries
pub mod Control
pub mod Snapshot
pub mod Removal
pub mod Tests
use recur.Prelude.{
  ℕ, String, Option, none, some, Bool, true, false, ◌||◌, ◌+◌, length, List, [], ◌∷◌, ◌++◌, ◌==◌,
  String_eq, if◌then◌else◌,
}
use recur.Prelude.Dict
use recur.Prelude.Dict.{Dict}
use recur.Prelude.Int.{ℤ}
use recur.Domain.{Trigger, Action, Group, Recurfile}
use recur.EntityIndex
use recur.EntityIndex.{EntityRef, EntityIndex, new_entity_index}

-- What the registry calls and does not implement: SHA-256 with a hex prefix (EntityID), the case
-- functions of `strings`, `filepath.Abs` with `filepath.Clean` (`none` is its error), the identity of
-- two files on disk (both `os.Stat` succeed and `os.SameFile`), `time.ParseDuration`, and the print
-- and parse of times.
pub record Env : Type 0 where
  pub sha256_prefix : String → String
  pub to_lower : String → String
  pub equal_fold : String → String → Bool
  pub clean_abs : String → Option String
  pub same_file : String → String → Bool
  pub parse_duration : String → Option ℤ
  -- A time is the nanoseconds since Go's zero time, so that 0 is the zero time.
  pub format_time : ℕ → String
  pub parse_time : String → Option ℕ

-- registry
pub record Registry : Type 0 where
  pub recurfiles : Dict String Recurfile
  pub groups : Dict String Group
  pub triggers : Dict String Trigger
  pub actions : Dict String Action
  pub index : EntityIndex

-- newRegistry
abbrev pub new_registry : Registry
new_registry = record {
  recurfiles = [];
  groups = [];
  triggers = [];
  actions = [];
  index = new_entity_index;
}

-- sameRecurfilePath
unfoldable pub same_recurfile_path : Env → String → String → Bool
same_recurfile_path env a b = if a == b then true else env.same_file a b

-- The loop that looks for the recurfile of a path
unfoldable pub recurfile_of_path : Env → String → Dict String Recurfile → Option Recurfile
unfolding same_recurfile_path
recurfile_of_path env path [] = none
recurfile_of_path env path ((id, wf) ∷ rest) =
    if same_recurfile_path env wf.file_path path then some wf else recurfile_of_path env path rest

-- hasRecurfilePath
unfoldable pub has_recurfile_path : Env → Registry → String → Bool
unfolding recurfile_of_path
has_recurfile_path env r path = elim (recurfile_of_path env path r.recurfiles) [
  | none ↦ false
  | some wf ↦ true
]

-- The loop over a group's trigger ids in unlockedDeregisterRecurfile
unfoldable pub remove_triggers : Env → List String → Registry → Registry
remove_triggers env [] r = r
remove_triggers env (id ∷ ids) r = remove_triggers env ids (record r {
  triggers = Dict.remove id r.triggers;
  index = EntityIndex.remove env.to_lower id r.index;
})

-- The loop over a group's action ids
unfoldable pub remove_actions : Env → List String → Registry → Registry
remove_actions env [] r = r
remove_actions env (id ∷ ids) r = remove_actions env ids (record r {
  actions = Dict.remove id r.actions;
  index = EntityIndex.remove env.to_lower id r.index;
})

-- The body of the loop over the recurfile's group ids; a group that is gone is skipped. With the
-- registry come the numbers of triggers and actions removed.
unfoldable pub remove_group : Env → String → Option Group → Registry × ℕ × ℕ → Registry × ℕ × ℕ
unfolding remove_triggers remove_actions
remove_group env id none p = p
remove_group env id (some g) (r, triggers_removed, actions_removed) =
    let r' = remove_actions env g.action_ids (remove_triggers env g.trigger_ids r) in
    (
      record r' {
        groups = Dict.remove id r'.groups;
        index = EntityIndex.remove env.to_lower id r'.index;
      },
      triggers_removed + length g.trigger_ids,
      actions_removed + length g.action_ids,
    )

-- The loop over the recurfile's group ids
unfoldable pub remove_groups : Env → List String → Registry × ℕ × ℕ → Registry × ℕ × ℕ
unfolding remove_group
remove_groups env [] p = p
remove_groups env (id ∷ ids) p =
    remove_groups env ids (remove_group env id (Dict.lookup id p.0.groups) p)

-- unlockedDeregisterRecurfile
unfoldable pub unlocked_deregister_recurfile : Env → Recurfile → Registry → Registry × ℕ × ℕ
unfolding remove_groups
unlocked_deregister_recurfile env wf r =
    let (r', triggers_removed, actions_removed) = remove_groups env wf.groups (r, 0, 0) in
    (
      record r' {
        recurfiles = Dict.remove wf.id r'.recurfiles;
        index = EntityIndex.remove env.to_lower wf.id r'.index;
      },
      triggers_removed,
      actions_removed,
    )

ids_or_nil : Option Group → List String
ids_or_nil none = []
ids_or_nil (some g) = g.trigger_ids

-- unlockedTriggerIDs
unfoldable pub unlocked_trigger_ids : List String → Dict String Group → List String
unfolding ids_or_nil
unlocked_trigger_ids [] groups = []
unlocked_trigger_ids (id ∷ ids) groups =
    ids_or_nil (Dict.lookup id groups) ++ unlocked_trigger_ids ids groups
