-- ===== src/Registry/Control.antt =====
-- Resolution of identifiers and the change of a status: findEntityByType, suspendTrigger,
-- resumeTrigger, suspendAction, resumeAction and suspendByPluginID of registry.go.
pub mod Laws
pub mod Dispatch
use recur.Prelude.{
  ℕ, String, Option, none, some, Bool, true, false, not, ◌&&◌, List, [], ◌∷◌, ◌++◌, ◌==◌, String_eq,
  if◌then◌else◌,
}
use recur.Prelude.Dict
use recur.Prelude.Dict.{Dict}
use recur.Domain.{Trigger, Action, Recurfile, Status, status_active, status_suspended}
use recur.EntityIndex
use recur.EntityIndex.{EntityRef}
use recur.Registry.{Env, Registry, unlocked_deregister_recurfile}

-- The first ref of a type; the index may panic.
pub data Found : Type 0 where
  found : EntityRef → Found
  missing : Found
  panicked : Found

first_of_type : String → List EntityRef → Found
first_of_type entity_type [] = missing
first_of_type entity_type (ref ∷ refs) =
    if ref.entity_type == entity_type then found ref else first_of_type entity_type refs

-- findEntityByType, through resolveEntity with one allowed type
unfoldable pub find_entity_by_type : Env → Registry → String → String → Found
unfolding first_of_type
find_entity_by_type env r identifier entity_type =
    elim (EntityIndex.resolve env.to_lower identifier r.index) [
      | none ↦ panicked
      | some refs ↦ first_of_type entity_type refs
    ]

-- The results of suspend and resume: id, type and whether nothing was to do; or the error.
pub data Answer : Type 0 where
  done : String → String → Bool → Answer
  not_found : Answer
  faulted : Answer

trigger_status_at : Status → EntityRef → Option Trigger → Registry → Registry × Answer
trigger_status_at status ref none r = (r, not_found)
trigger_status_at status ref (some t) r = (
  record r { triggers = Dict.insert ref.id (record t { status = status }) r.triggers },
  done t.id t.type (t.status == status),
)

pub set_trigger_status : Status → Found → Registry → Registry × Answer
unfolding trigger_status_at
set_trigger_status status (found ref) r =
    trigger_status_at status ref (Dict.lookup ref.id r.triggers) r
set_trigger_status status missing r = (r, not_found)
set_trigger_status status panicked r = (r, faulted)

-- suspendTrigger
unfoldable pub suspend_trigger : Env → Registry → String → Registry × Answer
unfolding set_trigger_status
suspend_trigger env r identifier =
    set_trigger_status status_suspended (find_entity_by_type env r identifier "trigger") r

-- resumeTrigger
unfoldable pub resume_trigger : Env → Registry → String → Registry × Answer
unfolding set_trigger_status
resume_trigger env r identifier =
    set_trigger_status status_active (find_entity_by_type env r identifier "trigger") r

action_status_at : Status → EntityRef → Option Action → Registry → Registry × Answer
action_status_at status ref none r = (r, not_found)
action_status_at status ref (some a) r = (
  record r { actions = Dict.insert ref.id (record a { status = status }) r.actions },
  done a.id a.type (a.status == status),
)

set_action_status : Status → Found → Registry → Registry × Answer
unfolding action_status_at
set_action_status status (found ref) r =
    action_status_at status ref (Dict.lookup ref.id r.actions) r
set_action_status status missing r = (r, not_found)
set_action_status status panicked r = (r, faulted)

-- suspendAction
unfoldable pub suspend_action : Env → Registry → String → Registry × Answer
unfolding set_action_status
suspend_action env r identifier =
    set_action_status status_suspended (find_entity_by_type env r identifier "action") r

-- resumeAction
unfoldable pub resume_action : Env → Registry → String → Registry × Answer
unfolding set_action_status
resume_action env r identifier =
    set_action_status status_active (find_entity_by_type env r identifier "action") r

-- t.PluginID == pluginID && t.Status != StatusSuspended
abbrev pub hit : String → String → Status → Bool
hit plugin_id owner status = owner == plugin_id && not (status == status_suspended)

-- The loop over the triggers in suspendByPluginID: the map after it and the ids it collects
unfoldable pub suspend_triggers : String → Dict String Trigger → Dict String Trigger × List String
suspend_triggers plugin_id [] = ([], [])
suspend_triggers plugin_id ((k, t) ∷ rest) =
    let (rest', ids) = suspend_triggers plugin_id rest in
    if hit plugin_id t.plugin_id t.status
    then ((k, record t { status = status_suspended }) ∷ rest', t.id ∷ ids)
    else ((k, t) ∷ rest', ids)

-- The loop over the actions
unfoldable pub suspend_actions : String → Dict String Action → Dict String Action × List String
suspend_actions plugin_id [] = ([], [])
suspend_actions plugin_id ((k, a) ∷ rest) =
    let (rest', ids) = suspend_actions plugin_id rest in
    if hit plugin_id a.plugin_id a.status
    then ((k, record a { status = status_suspended }) ∷ rest', a.id ∷ ids)
    else ((k, a) ∷ rest', ids)

-- suspendByPluginID
unfoldable pub suspend_by_plugin_id : String → Registry → Registry × List String × List String
unfolding suspend_triggers suspend_actions
suspend_by_plugin_id plugin_id r =
    let (ts, trigger_ids) = suspend_triggers plugin_id r.triggers in
    let (as', action_ids) = suspend_actions plugin_id r.actions in
    (record r { triggers = ts; actions = as' }, trigger_ids, action_ids)

-- The answer of deregisterRecurfile: the recurfile with the numbers of triggers and actions removed
pub data Removal : Type 0 where
  removed : Recurfile → ℕ → ℕ → Removal
  not_registered : Removal
  broken : Removal

removal_at : Env → Option Recurfile → Registry → Registry × Removal
removal_at env none r = (r, not_registered)
removal_at env (some wf) r =
    let (r', triggers_removed, actions_removed) = unlocked_deregister_recurfile env wf r in
    (r', removed wf triggers_removed actions_removed)

-- deregisterRecurfile
unfoldable pub deregister_recurfile : Env → Registry → String → Registry × Removal
unfolding removal_at
deregister_recurfile env r identifier = elim (find_entity_by_type env r identifier "recurfile") [
  | found ref ↦ removal_at env (Dict.lookup ref.id r.recurfiles) r
  | missing ↦ (r, not_registered)
  | panicked ↦ (r, broken)
]
