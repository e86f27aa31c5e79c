-- ===== src/Daemon/Execution.antt =====
-- The callbacks that the daemon gives to the engine, and the handler of an event that calls them: Run of
-- src/app/recurd/daemon/daemon.go and handleEvent of src/app/recurd/triggerengine/engine.go.
pub mod Errors
use Prim.Native.String.{◌++◌ as concat}
use recur.EntityIndex.{has_prefix}
use recur.Prelude.{
  ℕ, String, Option, none, some, Bool, true, false, not, ◌&&◌, ◌||◌, List, [], ◌∷◌, ◌++◌, ◌==◌,
  String_eq, if◌then◌else◌, map,
}
use recur.Prelude.Result.{Resolved, resolved, unresolved}
use recur.Prelude.Dict
use recur.Prelude.Dict.{Dict}
use recur.Prelude.Int.{ℤ, pos, succ, is_reached}
use recur.Config.{Value, Fields, no_fields, field, get, put, delete, str, int, object}
use recur.Domain.{Trigger, Action, status_active, status_error}
use recur.Recurfile.{RawFile, SecretDef}
use recur.Plugins.{InstalledPlugin, TriggerDef}
use recur.Secrets.{Resolver, Result, value, failed, resolve_all}
use recur.Actions.{Runtime, Context, ExecutionResult}
use recur.Actions.Plugin.{ExecutorConfig, execute_action}
use recur.Engine.Lifecycle.{Engine, Made, driver, not_handled, activate, deactivate}
use recur.Engine.Router.{Router}
use recur.Registry.{Env, Registry, has_recurfile_path}
use recur.Registry.Register.{RegisterResult, register_recurfile}
use recur.Registry.Queries.{
  get_trigger, get_action, get_actions_for_trigger, secret_defs_for_recurfile, values,
}
use recur.Registry.Snapshot.{EntitySnapshot, RecurfileSnapshot, snapshot, restore_entity_states}
use recur.Engine.{TriggerEvent}
use recur.Yaml.{YamlLibrary}
use recur.Yaml.Parse.File.{load}
use recur.Daemon.{
  World, Daemon, Config, StateFile, RecurfileState, EntityState, LaunchArgs, save_state,
  build_state,
}

secrets_or_none : Result (Dict String String) → Option (Dict String String)
secrets_or_none (value secrets) = some secrets
secrets_or_none (failed e) = none

-- resolveSecretsInto: the secrets of the context are left as they are if the recurfile declares none or
-- one of them fails.
unfoldable pub resolve_secrets_into : World → Daemon → String → Context → Context
unfolding secrets_or_none
resolve_secrets_into w d recurfile_id ctx =
    elim (secret_defs_for_recurfile d.registry recurfile_id) [
      | [] ↦ ctx
      | def ∷ defs ↦ elim (secrets_or_none (resolve_all w.resolver (def ∷ defs))) [
        | none ↦ ctx
        | some secrets ↦ record ctx { secrets = some secrets }
      ]
    ]

-- What the callback does with the result of an action that was not cancelled: the action, and whether
-- its threshold is reached
unfoldable pub record_result : Bool → Action → Action × Bool
record_result true a = (record a { error_count = pos 0 }, false)
record_result false a =
    let count = succ a.error_count in
    if is_reached a.error_threshold count
    then (record a { error_count = count; status = status_error }, true)
    else (record a { error_count = count }, false)

put_action : Action → Daemon → Daemon
put_action a d = record d {
  registry = record d.registry { actions = Dict.insert a.id a d.registry.actions };
}

save_if : World → Bool → Daemon → Daemon
save_if w true d = save_state w d
save_if w false d = d

-- The callback that executes an action. `cancelled` is ctx.Err() == context.Canceled after the run.
unfoldable pub execute : World → ℕ → Bool → Action → Context → Daemon → Daemon × ExecutionResult
unfolding resolve_secrets_into record_result put_action save_if
execute w now cancelled a ctx d =
    let ctx' = resolve_secrets_into w d a.recurfile_id ctx in
    let started = record a { last_executed = now } in
    let (result, warnings) =
      execute_action w.rt d.executor_config d.executor_plugins started ctx' in
    if cancelled
    then (put_action started d, result)
    else let (a', reached) = record_result result.success started in
      (save_if w reached (put_action a' d), result)

execute_at : World → ℕ → Bool → Option Action → Context → Daemon → Daemon
unfolding execute
execute_at w now cancelled none ctx d = d
execute_at w now cancelled (some a) ctx d =
    if a.status == status_active then (execute w now cancelled a ctx d).0 else d

-- The loop of handleEvent over the actions. They are pointers, so each is read when its turn comes.
unfoldable pub execute_each : World → ℕ → Bool → List Action → Context → Daemon → Daemon
unfolding execute_at
execute_each w now cancelled [] ctx d = d
execute_each w now cancelled (a ∷ as') ctx d =
    execute_each w now cancelled as' ctx
      (execute_at w now cancelled (get_action d.registry a.id) ctx d)

-- The variables of an event: its context, then `TriggeredOn` and `TriggerType`
event_vars : World → ℕ → TriggerEvent → Dict String String
event_vars w now event =
    Dict.insert "TriggerType" event.trigger_type
      (Dict.insert "TriggeredOn" (w.env.format_time now) event.context)

put_trigger : Trigger → Daemon → Daemon
put_trigger t d = record d {
  registry = record d.registry { triggers = Dict.insert t.id t d.registry.triggers };
}

handle_event_of : World → ℕ → Bool → TriggerEvent → Option Trigger → Daemon → Daemon
unfolding event_vars put_trigger execute_each save_state
handle_event_of w now cancelled event none d = d
handle_event_of w now cancelled event (some t) d =
    let fired = put_trigger (record t { last_fired = now }) d in
    if t.status == status_active
    then save_state w (
        execute_each w now cancelled (get_actions_for_trigger fired.registry t.id)
          (record { test = false; set = event_vars w now event; secrets = none }) fired)
    else d

-- handleEvent of src/app/recurd/triggerengine/engine.go, with the callbacks of the daemon; the actions
-- of one event share one cancellation.
unfoldable pub handle_event : World → ℕ → Bool → String → TriggerEvent → Daemon → Daemon
unfolding handle_event_of
handle_event w now cancelled trigger_id event d =
    handle_event_of w now cancelled event (get_trigger d.registry trigger_id) d

deactivate_in : String → Option Engine → Option Engine
deactivate_in id none = none
deactivate_in id (some e) = some (deactivate id e)

-- The body of OnTriggerError for a trigger that is there
unfoldable pub count_trigger_error : World → Trigger → Daemon → Daemon
unfolding put_trigger deactivate_in
count_trigger_error w t d =
    let count = succ t.error_count in
    save_state w (
      if is_reached t.error_threshold count
      then record (put_trigger (record t { error_count = count; status = status_error }) d) {
        engine = deactivate_in t.id d.engine;
      }
      else put_trigger (record t { error_count = count }) d)

on_error_of : World → Option Trigger → Daemon → Daemon
unfolding count_trigger_error
on_error_of w none d = d
on_error_of w (some t) d = count_trigger_error w t d

-- The function given to SetOnTriggerError
unfoldable pub on_trigger_error : World → String → Daemon → Daemon
unfolding on_error_of
on_trigger_error w id d = on_error_of w (get_trigger d.registry id) d
