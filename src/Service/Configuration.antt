-- ===== src/Service/Configuration.antt =====
-- GetConfig, SetConfig and DeleteConfig of src/app/recurd/daemon/api.go.
use recur.Prelude.{String, Option, none, some, List, [], ◌∷◌, ◌==◌, String_eq, if◌then◌else◌, map}
use recur.Prelude.Result.{Resolved, resolved, unresolved}
use recur.Prelude.Dict
use recur.Prelude.Dict.{Dict}
use recur.Prelude.Int.{ℤ}
use recur.Config.{Value, null}
use recur.Config.Store.{Slot, int_pointer, Struct, Store, get_all, get_layer}
use recur.Config.Store.Keys.{
  KeyError, get_by_key, set_by_key, delete_by_key, all_keys, deref_str, deref_int, plugins_of,
  map_or_empty, struct_or_zero,
}
use recur.Daemon.{World, Daemon, Config}
use recur.Service.{Reply, reply, refused, code_invalid_argument, code_not_found, code_internal}

int_at : Option Slot → Option ℤ
int_at (some (int_pointer o)) = o
int_at _ = none

-- The effective configuration, as the daemon reads it. A nil pointer counts as "" or 0.
unfoldable pub config_of : Struct → Config
unfolding int_at
config_of s = record {
  default_shell = deref_str (Dict.lookup "DefaultShell" s);
  error_threshold = deref_int (Dict.lookup "ErrorThreshold" s);
  trigger_error_threshold = int_at (Dict.lookup "TriggerErrorThreshold" s);
  action_error_threshold = int_at (Dict.lookup "ActionErrorThreshold" s);
  concurrency_mode = deref_str (Dict.lookup "ConcurrencyMode" s);
  max_queue_size = deref_int (Dict.lookup "MaxQueueSize" s);
  debounce = deref_str (Dict.lookup "Debounce" s);
  log_level = deref_str (Dict.lookup "LogLevel" s);
  plugins = map_or_empty (plugins_of (Dict.lookup "Plugins" s));
}

-- formatConfigValue
format_value : World → Value → String
format_value w null = ""
format_value w v = w.rt.print_value v

-- The keys and their printed values
abbrev pub Entries : Type 0
Entries = List (String × String)

value_reply : World → String → Resolved Value → Reply Entries
unfolding format_value
value_reply w key (unresolved e) = refused code_not_found e
value_reply w key (resolved v) = reply ((key, format_value w v) ∷ [])

-- GetConfig; the reads may fill the cache of the store.
unfoldable pub get_config_request : World → String → Daemon → Daemon × Reply Entries
unfolding value_reply
get_config_request w key d =
    if key == ""
    then (let (store, effective) = get_all d.config_store in
        (
          record d { config_store = store },
          reply (map (λ e. (e.0, w.rt.print_value e.1)) (all_keys effective)),
        ))
    else (let (store, v) = get_by_key w.keys key d.config_store in
        (record d { config_store = store }, value_reply w key v))

-- What follows a change of the store: the effective configuration, and the save of the layer "file"
after_change : World → Daemon → Store → Daemon × Reply (List String)
unfolding config_of
after_change w d changed =
    let (store, effective) = get_all changed in
    let d' = record d { config_store = store; config = config_of effective } in
    let layer = struct_or_zero (get_layer "file" store) in
    if d.config_path == ""
    then (d', reply [])
    else if w.write_config layer
    then (record d' { saved_config = some layer }, reply [])
    else (d', refused code_internal "could not save config")

changed_config : World → Daemon → Store × Option KeyError → Daemon × Reply (List String)
unfolding after_change
changed_config w d (store, some e) =
    (record d { config_store = store }, refused code_invalid_argument "invalid configuration")
changed_config w d (store, none) = after_change w d store

-- SetConfig. The texts of the errors of keys are left out.
unfoldable pub set_config_request : World → String → String → Daemon → Daemon × Reply (List String)
unfolding changed_config
set_config_request w key text d =
    if key == ""
    then (d, refused code_invalid_argument "key is required")
    else changed_config w d (set_by_key w.keys "file" key text d.config_store)

-- DeleteConfig
unfoldable pub delete_config_request : World → String → Daemon → Daemon × Reply (List String)
unfolding changed_config
delete_config_request w key d =
    if key == ""
    then (d, refused code_invalid_argument "key is required")
    else changed_config w d (delete_by_key w.keys "file" key d.config_store)
