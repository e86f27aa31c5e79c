-- ===== src/Daemon.antt =====
-- src/app/recurd/daemon/daemon.go and appscan.go: the state of the daemon, what it does around an action
-- and on the exit of a driver, and how it saves and restores its state. Logs are left out.
pub mod Execution
pub mod Startup
pub mod Tests
use Prim.Native.String.{◌++◌ as concat}
use recur.EntityIndex.{has_prefix}
use recur.Prelude.{
  ℕ, String, Option, none, some, Bool, true, false, not, ◌&&◌, ◌||◌, List, [], ◌∷◌, ◌++◌, ◌==◌,
  String_eq, if◌then◌else◌, map,
}
use recur.Prelude.Result.{Resolved, resolved, unresolved}
use recur.Prelude.Dict
use recur.Prelude.Dict.{Dict}
use recur.Prelude.Int.{ℤ, pos, succ, is_reached}
use recur.Config.{Value, Fields, no_fields, field, get, put, delete, str, int, object}
use recur.Domain.{Trigger, Action, status_active, status_error}
use recur.Recurfile.{RawFile, SecretDef}
use recur.Plugins.{InstalledPlugin, TriggerDef}
use recur.Secrets.{Resolver, Result, value, failed, resolve_all}
use recur.Actions.{Runtime, Context, ExecutionResult}
use recur.Actions.Plugin.{ExecutorConfig, execute_action}
use recur.Config.Store.{Store, Struct}
use recur.Config.Store.Keys.{KeyLibrary}
use recur.Engine.External.{DriverLibrary}
use recur.Engine.Lifecycle.{Engine, Made, driver, not_handled, activate, deactivate}
use recur.Engine.Router.{Router}
use recur.Registry.{Env, Registry, has_recurfile_path}
use recur.Registry.Register.{RegisterResult, register_recurfile}
use recur.Registry.Queries.{
  get_trigger, get_action, get_actions_for_trigger, secret_defs_for_recurfile, values,
}
use recur.Registry.Snapshot.{EntitySnapshot, RecurfileSnapshot, snapshot, restore_entity_states}
use recur.Engine.{TriggerEvent}
use recur.Yaml.{YamlLibrary}
use recur.Yaml.Parse.File.{load}

-- LaunchArgs, EntityState, RecurfileState and File of src/infra/jsonfile/state/state.go
pub record LaunchArgs : Type 0 where
  pub config_path : String
  pub socket_address : String
  pub log_level : String
  pub foreground : Bool

pub record EntityState : Type 0 where
  pub id : String
  pub status : String
  pub error_count : ℤ
  pub last_activity : String

pub record RecurfileState : Type 0 where
  pub id : String
  pub file_path : String
  pub triggers : List EntityState
  pub actions : List EntityState

pub record StateFile : Type 0 where
  pub launch_args : Option LaunchArgs
  pub recurfiles : List RecurfileState

-- Config of src/domain/config/config.go, as far as the daemon reads it. A pointer that DefaultConfig
-- sets is never nil and stands for its value.
pub record Config : Type 0 where
  pub default_shell : String
  pub error_threshold : ℤ
  pub trigger_error_threshold : Option ℤ
  pub action_error_threshold : Option ℤ
  pub concurrency_mode : String
  pub max_queue_size : ℤ
  pub debounce : String
  pub log_level : String
  pub plugins : Dict String Fields

-- What the daemon calls and does not implement, with the resolvers of secrets, which are fixed here:
-- what the drivers call, the write of the state file (whether it succeeds) and its
-- read; and the path of its socket.
pub record World : Type 0 where
  pub env : Env
  pub rt : Runtime
  pub yaml : YamlLibrary
  pub resolver : Resolver
  pub drivers : DriverLibrary
  pub socket_path : String
  pub write_state : StateFile → Bool
  pub read_state : Resolved StateFile
  pub keys : KeyLibrary
  pub write_config : Struct → Bool

-- Daemon. `factory_plugins`, `executor_plugins` and `executor_config` are what the engine's factories
-- and the action executor were given when the daemon started. `saved` is the content of the state
-- file, `saved_config` what was last written to the configuration file.
pub record Daemon : Type 0 where
  pub config : Config
  pub config_store : Store
  pub config_path : String
  pub plugins : List InstalledPlugin
  pub registry : Registry
  pub engine : Option Engine
  pub router : Option Router
  pub factory_plugins : List InstalledPlugin
  pub executor_plugins : List InstalledPlugin
  pub executor_config : ExecutorConfig
  pub launch_args : Option LaunchArgs
  pub state_path : String
  pub saved : Option StateFile
  pub saved_config : Option Struct

entity_state : EntitySnapshot → EntityState
entity_state s = record {
  id = s.id;
  status = s.status;
  error_count = s.error_count;
  last_activity = s.last_activity;
}

recurfile_state : RecurfileSnapshot → RecurfileState
unfolding entity_state
recurfile_state s = record {
  id = s.id;
  file_path = s.file_path;
  triggers = map entity_state s.triggers;
  actions = map entity_state s.actions;
}

-- buildState
unfoldable pub build_state : World → Daemon → StateFile
unfolding recurfile_state
build_state w d = record {
  launch_args = d.launch_args;
  recurfiles = map recurfile_state (snapshot w.env d.registry);
}

-- saveState; a write that fails is logged
unfoldable pub save_state : World → Daemon → Daemon
save_state w d =
    if d.state_path == ""
    then d
    else if w.write_state (build_state w d)
    then record d { saved = some (build_state w d) }
    else d
