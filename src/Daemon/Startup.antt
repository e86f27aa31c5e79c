-- ===== src/Daemon/Startup.antt =====
-- Settings, factories, the load of the state file and the scan of the app folder:
-- src/app/recurd/daemon/daemon.go and appscan.go, and the factory of src/app/recurd/triggerengine/external.go.
use recur.EntityIndex.{has_prefix}
use recur.Prelude.{
  String, Option, none, some, Bool, true, false, not, ◌||◌, List, [], ◌∷◌, ◌==◌, String_eq,
  if◌then◌else◌,
}
use recur.Prelude.Result.{Resolved, resolved, unresolved}
use recur.Prelude.Dict
use recur.Prelude.Dict.{Dict}
use recur.Prelude.Int.{ℤ}
use recur.Config.{Value, Fields, no_fields, field, get, put, delete, str, int, object}
use recur.Domain.{Trigger, status_active}
use recur.Recurfile.{RawFile}
use recur.Plugins.{InstalledPlugin}
use recur.Engine.External.{external_plugin_factory}
use recur.Engine.Lifecycle.{Engine, Made, activate}
use recur.Registry.{has_recurfile_path}
use recur.Registry.Register.{RegisterResult, register_recurfile}
use recur.Registry.Queries.{values}
use recur.Registry.Snapshot.{EntitySnapshot, restore_entity_states}
use recur.Yaml.Parse.File.{load}
use recur.Daemon.{World, Daemon, Config, RecurfileState, EntityState}

-- pluginTriggerOverridesKey
abbrev pub overrides_key : String
overrides_key = "trigger_defaults"

add_override : String → Option Value → Dict String Fields → Dict String Fields
add_override ns (some (object no_fields)) out = out
add_override ns (some (object (field k v m))) out = Dict.insert ns (field k v m) out
add_override ns _ out = out

overrides_from : Dict String Fields → Dict String Fields → Dict String Fields
unfolding add_override
overrides_from [] out = out
overrides_from ((ns, entries) ∷ rest) out =
    overrides_from rest (add_override ns (get overrides_key entries) out)

-- pluginTriggerOverrides
unfoldable pub plugin_trigger_overrides : Config → Dict String Fields
unfolding overrides_from
plugin_trigger_overrides cfg = overrides_from cfg.plugins []

or_default : Option ℤ → ℤ → ℤ
or_default none n = n
or_default (some n) default = n

-- triggerDefaultsMap
unfoldable pub trigger_defaults_map : Config → Fields
unfolding or_default
trigger_defaults_map cfg =
    let m =
      put "action_error_threshold" (int (or_default cfg.action_error_threshold cfg.error_threshold))
        (put "error_threshold" (int (or_default cfg.trigger_error_threshold cfg.error_threshold)) (
          put "max_queue_size" (int cfg.max_queue_size)
            (put "concurrency_mode" (str cfg.concurrency_mode) no_fields))) in
    if cfg.debounce == "" then m else put "debounce" (str cfg.debounce) m

-- configLookup: a plugin does not see the key of the overrides.
unfoldable pub config_lookup : Config → String → Option Fields
config_lookup cfg namespace = elim (Dict.lookup namespace cfg.plugins) [
  | none ↦ none
  | some entries ↦ some (delete overrides_key entries)
]

-- The loop over the plugins that makes the factories. The log level is that of the start; the
-- configuration of a plugin is read each time a driver is made.
unfoldable pub factories : World → Daemon → List InstalledPlugin → List (Trigger → Made)
unfolding external_plugin_factory config_lookup
factories w d [] = []
factories w d (p ∷ ps) =
    let rest = factories w d ps in
    elim p.manifest.triggers [
      | [] ↦ rest
      | def ∷ defs ↦
          external_plugin_factory w.drivers p w.socket_path (config_lookup d.config)
            d.executor_config.log_level
          ∷ rest
    ]

-- triggerEngine.Activate, on an engine that may be nil
unfoldable pub activate_in : World → Daemon → Trigger → Option Engine → Option Engine
unfolding factories
activate_in w d t none = none
activate_in w d t (some e) = some (activate (factories w d d.factory_plugins) t e).0

activate_each : World → Daemon → List Trigger → Option Engine → Option Engine
unfolding activate_in
activate_each w d [] e = e
activate_each w d (t ∷ ts) e =
    activate_each w d ts (if t.status == status_active then activate_in w d t e else e)

-- activateRegisteredTriggers
unfoldable pub activate_registered_triggers : World → Daemon → Daemon
unfolding activate_each
activate_registered_triggers w d = record d {
  engine = activate_each w d (values d.registry.triggers) d.engine;
}

-- registry.registerRecurfile with the daemon's plugins and settings
unfoldable pub register_loaded : World → RawFile → Daemon → Daemon × RegisterResult
unfolding trigger_defaults_map plugin_trigger_overrides
register_loaded w f d =
    let (r, result) =
      register_recurfile w.env d.plugins (some (trigger_defaults_map d.config))
        (plugin_trigger_overrides d.config) f d.registry in
    (record d { registry = r }, result)

snapshot_of : EntityState → EntitySnapshot
snapshot_of s = record {
  id = s.id;
  status = s.status;
  error_count = s.error_count;
  last_activity = s.last_activity;
}

states_from : List EntityState → Dict String EntitySnapshot → Dict String EntitySnapshot
unfolding snapshot_of
states_from [] m = m
states_from (s ∷ ss) m = states_from ss (Dict.insert s.id (snapshot_of s) m)

restore_recurfile : World → RecurfileState → Resolved RawFile → Daemon → Daemon
unfolding register_loaded states_from
restore_recurfile w ws (unresolved e) d = d
restore_recurfile w ws (resolved f) d =
    let (d', result) = register_loaded w f d in
    record d' {
      registry =
          restore_entity_states w.env result.recurfile_id (states_from ws.triggers [])
            (states_from ws.actions []) d'.registry;
    }

restore_each : World → List RecurfileState → Daemon → Daemon
unfolding restore_recurfile
restore_each w [] d = d
restore_each w (ws ∷ wss) d =
    restore_each w wss (restore_recurfile w ws (load w.yaml ws.file_path) d)

-- loadState: the daemon and whether the state file could be read. A recurfile that does not load is
-- passed over.
unfoldable pub load_state : World → Daemon → Daemon × Bool
unfolding restore_each
load_state w d = elim w.read_state [
  | unresolved e ↦ (d, false)
  | resolved f ↦ (restore_each w f.recurfiles d, true)
]

-- An entry of the app folder: its name, whether it is a directory, and what FindRecurfile finds in it
pub record AppEntry : Type 0 where
  pub name : String
  pub is_dir : Bool
  pub recurfile : Option String

scan_loaded : World → Resolved RawFile → Daemon → Daemon
unfolding register_loaded
scan_loaded w (unresolved e) d = d
scan_loaded w (resolved f) d = (register_loaded w f d).0

scan_recurfile : World → Option String → Daemon → Daemon
unfolding scan_loaded
scan_recurfile w none d = d
scan_recurfile w (some path) d =
    if has_recurfile_path w.env d.registry path then d else scan_loaded w (load w.yaml path) d

-- The loop of scanAppFolder over the entries of the folder
unfoldable pub scan_app_folder : World → List AppEntry → Daemon → Daemon
unfolding scan_recurfile
scan_app_folder w [] d = d
scan_app_folder w (e ∷ es) d =
    scan_app_folder w es
      (if not e.is_dir || has_prefix "." e.name then d else scan_recurfile w e.recurfile d)
