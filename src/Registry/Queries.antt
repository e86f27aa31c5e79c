-- ===== src/Registry/Queries.antt =====
-- The reads of registry.go: by id, by group, by recurfile and by trigger.
pub mod Laws
use recur.Prelude.{
  ℕ, String, ◌+◌, Option, none, some, Bool, true, false, List, [], ◌∷◌, ◌++◌, length, ◌==◌,
  String_eq, if◌then◌else◌,
}
use recur.Prelude.Dict
use recur.Prelude.Dict.{Dict}
use recur.Domain.{Trigger, Action, Group, Recurfile}
use recur.Recurfile.{SecretDef}
use recur.Registry.{Env, Registry, unlocked_trigger_ids}
use recur.Registry.Control.{Found, found, missing, panicked, find_entity_by_type}

-- GetTrigger
abbrev pub get_trigger : Registry → String → Option Trigger
get_trigger r id = Dict.lookup id r.triggers

-- getAction
abbrev pub get_action : Registry → String → Option Action
get_action r id = Dict.lookup id r.actions

-- getGroup
abbrev pub get_group : Registry → String → Option Group
get_group r id = Dict.lookup id r.groups

-- getRecurfile
abbrev pub get_recurfile : Registry → String → Option Recurfile
get_recurfile r id = Dict.lookup id r.recurfiles

-- The values of a map, for listTriggers, listActions, listGroups and listRecurfiles
unfoldable pub values : {V : Type 0} → Dict String V → List V
values [] = []
values ((k, v) ∷ m) = v ∷ values m

-- The entities that a list of ids leads to, without those that are gone: groupTriggers,
-- groupActions and groupsForRecurfile
unfoldable pub present : {V : Type 0} → Dict String V → List String → List V
present m [] = []
present m (id ∷ ids) =
    let rest = present m ids in elim (Dict.lookup id m) [ none ↦ rest | some v ↦ v ∷ rest ]

group_trigger_ids : Option Group → List String
group_trigger_ids none = []
group_trigger_ids (some g) = g.trigger_ids

pub group_action_ids : Option Group → List String
group_action_ids none = []
group_action_ids (some g) = g.action_ids

recurfile_groups : Option Recurfile → List String
recurfile_groups none = []
recurfile_groups (some wf) = wf.groups

-- groupTriggers
unfoldable pub group_triggers : Registry → String → List Trigger
unfolding present group_trigger_ids
group_triggers r group_id = present r.triggers (group_trigger_ids (get_group r group_id))

-- groupActions
unfoldable pub group_actions : Registry → String → List Action
unfolding present group_action_ids
group_actions r group_id = present r.actions (group_action_ids (get_group r group_id))

-- groupsForRecurfile
unfoldable pub groups_for_recurfile : Registry → String → List Group
unfolding present recurfile_groups
groups_for_recurfile r wf_id = present r.groups (recurfile_groups (get_recurfile r wf_id))

-- The loop of GetActionsForTrigger over the group's action ids
unfoldable pub actions_of : String → Dict String Action → List String → List Action
actions_of trigger_id actions [] = []
actions_of trigger_id actions (id ∷ ids) =
    let rest = actions_of trigger_id actions ids in
    elim (Dict.lookup id actions) [
      | none ↦ rest
      | some a ↦ if a.trigger_id == trigger_id then a ∷ rest else rest
    ]

actions_in_group : Registry → String → Option Trigger → List Action
unfolding actions_of group_action_ids
actions_in_group r trigger_id none = []
actions_in_group r trigger_id (some t) =
    actions_of trigger_id r.actions (group_action_ids (get_group r t.group_id))

-- GetActionsForTrigger
unfoldable pub get_actions_for_trigger : Registry → String → List Action
unfolding actions_in_group
get_actions_for_trigger r trigger_id = actions_in_group r trigger_id (get_trigger r trigger_id)

-- triggerActionIDs
unfoldable pub trigger_action_ids : String → Dict String Action → List String
trigger_action_ids trigger_id [] = []
trigger_action_ids trigger_id ((k, a) ∷ rest) =
    let ids = trigger_action_ids trigger_id rest in
    if a.trigger_id == trigger_id then a.id ∷ ids else ids

-- recurfileTriggers
unfoldable pub recurfile_triggers : String → Dict String Trigger → List Trigger
recurfile_triggers wf_id [] = []
recurfile_triggers wf_id ((k, t) ∷ rest) =
    let ts = recurfile_triggers wf_id rest in if t.recurfile_id == wf_id then t ∷ ts else ts

-- recurfileActions
unfoldable pub recurfile_actions : String → Dict String Action → List Action
recurfile_actions wf_id [] = []
recurfile_actions wf_id ((k, a) ∷ rest) =
    let as' = recurfile_actions wf_id rest in if a.recurfile_id == wf_id then a ∷ as' else as'

-- recurfilePathForGroup
unfoldable pub recurfile_path_for_group : Registry → String → String
recurfile_path_for_group r wf_id = elim (get_recurfile r wf_id) [
  | none ↦ ""
  | some wf ↦ wf.file_path
]

-- secretDefsForRecurfile
unfoldable pub secret_defs_for_recurfile : Registry → String → List SecretDef
secret_defs_for_recurfile r wf_id = elim (get_recurfile r wf_id) [
  | none ↦ []
  | some wf ↦ wf.secrets
]

-- recurfileCounts
pub record RecurfileCounts : Type 0 where
  pub trigger_count : ℕ
  pub action_count : ℕ

-- The loop of getRecurfileCounts
unfoldable pub count_groups : Dict String Group → List String → RecurfileCounts → RecurfileCounts
count_groups groups [] counts = counts
count_groups groups (id ∷ ids) counts = count_groups groups ids (elim (Dict.lookup id groups) [
  | none ↦ counts
  | some g ↦ record {
    trigger_count = counts.trigger_count + length g.trigger_ids;
    action_count = counts.action_count + length g.action_ids;
  }
])

-- getRecurfileCounts
unfoldable pub get_recurfile_counts : Registry → String → RecurfileCounts
unfolding count_groups recurfile_groups
get_recurfile_counts r wf_id =
    count_groups r.groups (recurfile_groups (get_recurfile r wf_id))
      (record { trigger_count = 0; action_count = 0 })

-- findTrigger, findAction, findGroup and findRecurfile, by the entity type and the map
unfoldable pub find_in :
    {V : Type 0} → Env → Registry → String → String → Dict String V → Option (Option V)
find_in env r entity_type identifier m = elim (find_entity_by_type env r identifier entity_type) [
  | found ref ↦ some (Dict.lookup ref.id m)
  | missing ↦ some none
  | panicked ↦ none
]

ids_at : Registry → Found → Option (List String)
unfolding recurfile_groups
ids_at r (found ref) =
    some (unlocked_trigger_ids (recurfile_groups (get_recurfile r ref.id)) r.groups)
ids_at r missing = some []
ids_at r panicked = none

-- triggerIDsForRecurfile; `none` is a panic of the index
unfoldable pub trigger_ids_for_recurfile : Env → Registry → String → Option (List String)
unfolding ids_at
trigger_ids_for_recurfile env r identifier =
    ids_at r (find_entity_by_type env r identifier "recurfile")
