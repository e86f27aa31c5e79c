-- ===== src/Service.antt =====
-- src/app/recurd/daemon/api.go: the handlers of RecurService, each a function from the daemon and the
-- request to the daemon and the reply. A handler that the index makes panic replies `crashed`.
pub mod Views
pub mod Inspection
pub mod Entities
pub mod Testing
pub mod Configuration
pub mod Plugins
pub mod Suspension
pub mod Events
pub mod Tests
use Prim.Native.String.{◌++◌ as concat}
use recur.Prelude.{
  ℕ, String, Option, none, some, Bool, true, false, not, ◌&&◌, ◌||◌, ◌+◌, List, [], ◌∷◌, ◌++◌, ◌==◌,
  String_eq, if◌then◌else◌, map, length,
}
use recur.Prelude.Result.{Resolved, resolved, unresolved}
use recur.Prelude.Dict
use recur.Prelude.Dict.{Dict, keys}
use recur.Domain.{Trigger, Action, Recurfile, status_active}
use recur.Recurfile.{RawTrigger, RawAction, RawGroup, RawFile, Warning}
use recur.Plugins.{
  InstalledPlugin, Manifest, TriggerDef, ContextDef, find_by_identifier, find_trigger_definition,
}
use recur.Engine.{TriggerEvent}
use recur.Engine.Lifecycle.{
  Engine, deactivate, activate, Activation, activated, engine_stopped, plugin_error, no_plugin,
  start_error,
}
use recur.Engine.Router.{
  Router, Delivery, delivered, not_registered, channel_full, panicked, deliver,
}
use recur.Registry.{Registry}
use recur.Registry.Register.{RegisterResult}
use recur.Registry.Control.{
  Answer, done, not_found, faulted, Removal, removed, not_registered as no_recurfile, broken,
  suspend_trigger, resume_trigger, suspend_action, resume_action, suspend_by_plugin_id,
  deregister_recurfile,
}
use recur.Registry.Queries.{get_trigger, trigger_ids_for_recurfile, values}
use recur.Daemon.{World, Daemon, save_state}
use recur.Daemon.Startup.{register_loaded, factories}
use recur.Yaml.Parse.File.{load}

-- The codes of gRPC that the handlers use
pub data Code : Type 0 where
  code_invalid_argument code_not_found code_already_exists code_internal : Code

pub data Reply (A : Type 0) : Type 0 where
  reply : A → Reply A
  refused : Code → String → Reply A
  crashed : Reply A

-- A request that must name something
unfoldable pub with_identifier :
    {A : Type 0} → String → Daemon → Daemon × Reply A → Daemon × Reply A
with_identifier identifier d next =
    if identifier == "" then (d, refused code_invalid_argument "identifier is required") else next

-- triggerEngine.Deactivate for a list of ids, on an engine that may be nil
unfoldable pub deactivate_all : List String → Engine → Engine
deactivate_all [] e = e
deactivate_all (id ∷ ids) e = deactivate_all ids (deactivate id e)

unfoldable pub deactivate_each : List String → Option Engine → Option Engine
unfolding deactivate_all
deactivate_each ids none = none
deactivate_each ids (some e) = some (deactivate_all ids e)

-- The id and the name of the entity, and whether there was nothing to do
abbrev pub Changed : Type 0
Changed = String × String × Bool

pub suspended_trigger : World → Daemon → Registry × Answer → Daemon × Reply Changed
unfolding deactivate_each
suspended_trigger w d (r, done id name already) = (
  save_state w (record d { registry = r; engine = deactivate_each (id ∷ []) d.engine }),
  reply (id, name, already),
)
suspended_trigger w d (r, not_found) =
    (record d { registry = r }, refused code_not_found "trigger not found")
suspended_trigger w d (r, faulted) = (d, crashed)

-- SuspendTrigger. The texts of the registry's errors are cut to their constant part.
unfoldable pub suspend_trigger_request : World → String → Daemon → Daemon × Reply Changed
unfolding suspended_trigger with_identifier
suspend_trigger_request w identifier d =
    with_identifier identifier d
      (suspended_trigger w d (suspend_trigger w.env d.registry identifier))

activate_found : World → Daemon → Option Trigger → Option Engine → Option Engine
activate_found w d none e = e
activate_found w d (some t) none = none
activate_found w d (some t) (some e) = some (activate (factories w d d.factory_plugins) t e).0

resumed_trigger : World → Daemon → Registry × Answer → Daemon × Reply Changed
unfolding activate_found
resumed_trigger w d (r, done id name already) = (
  save_state w (record d {
    registry = r;
    engine = if already then d.engine else activate_found w d (get_trigger r id) d.engine;
  }),
  reply (id, name, already),
)
resumed_trigger w d (r, not_found) =
    (record d { registry = r }, refused code_not_found "trigger not found")
resumed_trigger w d (r, faulted) = (d, crashed)

-- ResumeTrigger
unfoldable pub resume_trigger_request : World → String → Daemon → Daemon × Reply Changed
unfolding resumed_trigger with_identifier
resume_trigger_request w identifier d =
    with_identifier identifier d (resumed_trigger w d (resume_trigger w.env d.registry identifier))

changed_action : World → Daemon → Registry × Answer → Daemon × Reply Changed
changed_action w d (r, done id name already) =
    (save_state w (record d { registry = r }), reply (id, name, already))
changed_action w d (r, not_found) =
    (record d { registry = r }, refused code_not_found "action not found")
changed_action w d (r, faulted) = (d, crashed)

-- SuspendAction
unfoldable pub suspend_action_request : World → String → Daemon → Daemon × Reply Changed
unfolding changed_action with_identifier
suspend_action_request w identifier d =
    with_identifier identifier d (changed_action w d (suspend_action w.env d.registry identifier))

-- ResumeAction
unfoldable pub resume_action_request : World → String → Daemon → Daemon × Reply Changed
unfolding changed_action with_identifier
resume_action_request w identifier d =
    with_identifier identifier d (changed_action w d (resume_action w.env d.registry identifier))

-- A warning of RegisterRecurfile: one of the registry's, or a trigger that did not activate
pub data RegisterWarning : Type 0 where
  of_registry : Warning → RegisterWarning
  of_activation : String → Activation → RegisterWarning

-- The warning for the answer of Activate
activation_warning : String → Activation → List RegisterWarning
activation_warning id activated = []
activation_warning id a = of_activation id a ∷ []

-- The loop that activates the triggers of the recurfile
activate_recurfile :
    World
    → Daemon
    → String
    → List Trigger
    → Engine × List RegisterWarning
    → Engine × List RegisterWarning
unfolding activation_warning
activate_recurfile w d recurfile_id [] p = p
activate_recurfile w d recurfile_id (t ∷ ts) (e, warnings) =
    let (e', answer) = activate (factories w d d.factory_plugins) t e in
    activate_recurfile w d recurfile_id ts (
      if t.recurfile_id == recurfile_id && t.status == status_active
      then (e', warnings ++ activation_warning t.id answer)
      else (e, warnings))

register_in_engine :
    World → Daemon → RegisterResult → Option Engine → Option Engine × List RegisterWarning
unfolding activate_recurfile deactivate_each
register_in_engine w d result none = (none, map of_registry result.warnings)
register_in_engine w d result (some e) =
    elim (if result.reloaded then deactivate_each result.old_trigger_ids (some e) else some e) [
      | none ↦ (none, map of_registry result.warnings)
      | some e' ↦
          let (e'', warnings) =
            activate_recurfile w d result.recurfile_id (values d.registry.triggers)
              (e', map of_registry result.warnings) in
          (some e'', warnings)
    ]

-- RegisterRecurfileResponse; its `warnings` are those of the reply, not of the registry.
pub record Registered : Type 0 where
  pub path : String
  pub result : RegisterResult
  pub warnings : List RegisterWarning

register_file : World → String → Daemon → Resolved RawFile → Daemon × Reply Registered
unfolding register_in_engine
register_file w path d (unresolved e) = (d, refused code_invalid_argument e)
register_file w path d (resolved f) =
    let (d', result) = register_loaded w f d in
    let (engine, warnings) = register_in_engine w d' result d'.engine in
    (
      save_state w (record d' { engine = engine }),
      reply (record { path = path; result = result; warnings = warnings }),
    )

-- RegisterRecurfile
unfoldable pub register_recurfile_request : World → String → Daemon → Daemon × Reply Registered
unfolding register_file
register_recurfile_request w path d =
    if path == ""
    then (d, refused code_invalid_argument "path is required")
    else register_file w path d (load w.yaml path)

deregistered : World → Daemon → Registry × Removal → Daemon × Reply (String × String × ℕ × ℕ)
deregistered w d (r, removed wf triggers_removed actions_removed) = (
  save_state w (record d { registry = r }),
  reply (wf.id, wf.file_path, triggers_removed, actions_removed),
)
deregistered w d (r, no_recurfile) =
    (record d { registry = r }, refused code_not_found "recurfile not found")
deregistered w d (r, broken) = (d, crashed)

deregister_with :
    World → String → Option (List String) → Daemon → Daemon × Reply (String × String × ℕ × ℕ)
unfolding deactivate_each deregistered
deregister_with w identifier none d = (d, crashed)
deregister_with w identifier (some ids) d =
    deregistered w (record d { engine = deactivate_each ids d.engine })
      (deregister_recurfile w.env d.registry identifier)

trigger_ids_to_stop : World → String → Daemon → Option Engine → Option (List String)
trigger_ids_to_stop w identifier d none = some []
trigger_ids_to_stop w identifier d (some e) = trigger_ids_for_recurfile w.env d.registry identifier

-- DeregisterRecurfile
unfoldable pub deregister_recurfile_request :
    World → String → Daemon → Daemon × Reply (String × String × ℕ × ℕ)
unfolding deregister_with trigger_ids_to_stop with_identifier
deregister_recurfile_request w identifier d =
    with_identifier identifier d
      (deregister_with w identifier (trigger_ids_to_stop w identifier d d.engine) d)
