-- ===== src/Config/Store/Keys.antt =====
-- src/domain/config/keys.go: the configuration by its YAML keys.
pub mod Reading
unfoldable pub use Reading.*
use Prim.Native.Nat.{ℕ}
use Prim.Native.String.{len, slice, ◌++◌ as concat}
use text.Mathlib.Text.{find?}
use recur.EntityIndex.{has_prefix}
use recur.Prelude.{
  String, suc, ◌+◌, Option, none, some, Bool, true, false, ◌||◌, List, [], ◌∷◌, ◌++◌, ◌==◌,
  String_eq, ℕ_eq, if◌then◌else◌,
}
use recur.Prelude.Result.{Resolved, resolved, unresolved}
use recur.Prelude.Dict
use recur.Prelude.Dict.{Dict}
use recur.Prelude.Int.{ℤ, pos}
use recur.Config.{Value, Fields, no_fields, field, get, put, delete, str, int, null}
use recur.Config.Store.{
  Slot, string_pointer, int_pointer, plugin_map, Struct, zero_config, Store, StoreError, set,
  set_field, get_all, get_layer, clear_layer_field,
}

-- The errors of SetByKey and DeleteByKey
pub data KeyError : Type 0 where
  bad_key : String → KeyError
  not_allowed : String → List String → KeyError
  not_an_integer : String → KeyError
  of_store : StoreError → KeyError

store_result : Store × Option StoreError → Store × Option KeyError
store_result (r, none) = (r, none)
store_result (r, some e) = (r, some (of_store e))

is_among : String → List String → Bool
is_among s [] = false
is_among s (t ∷ ts) = t == s || is_among s ts

set_parsed : String → String → String → Option ℤ → Store → Store × Option KeyError
unfolding store_result
set_parsed layer name text none r = (r, some (not_an_integer text))
set_parsed layer name text (some n) r = store_result (set_field layer name (int_pointer (some n)) r)

set_text : KeyLibrary → String → KeyDef → String → Store → Store × Option KeyError
unfolding set_parsed store_result
set_text lib layer def text r =
    if def.is_int
    then set_parsed layer def.field_name text (lib.atoi text) r
    else store_result (set_field layer def.field_name (string_pointer (some text)) r)

set_valid : KeyLibrary → String → KeyDef → String → List String → Store → Store × Option KeyError
unfolding set_text is_among
set_valid lib layer def text [] r = set_text lib layer def text r
set_valid lib layer def text (a ∷ allowed) r =
    let normalized = lib.to_lower text in
    if is_among normalized (a ∷ allowed)
    then set_text lib layer def normalized r
    else (r, some (not_allowed text (a ∷ allowed)))

set_defined :
    KeyLibrary → String → String → String → Option KeyDef → Store → Store × Option KeyError
unfolding set_valid
set_defined lib layer key text none r = (r, some (bad_key (concat "unknown config key: " key)))
set_defined lib layer key text (some def) r = set_valid lib layer def text def.allowed r

fields_or_empty : Option Fields → Fields
fields_or_empty none = no_fields
fields_or_empty (some m) = m

pub map_or_empty : Option (Dict String Fields) → Dict String Fields
map_or_empty none = []
map_or_empty (some m) = m

pub struct_or_zero : Option Struct → Struct
struct_or_zero none = zero_config
struct_or_zero (some s) = s

set_plugin_at : String → String → Resolved (String × String) → Store → Store × Option KeyError
unfolding plugins_of fields_or_empty map_or_empty struct_or_zero
set_plugin_at layer text (unresolved e) r = (r, some (bad_key e))
set_plugin_at layer text (resolved (ns, name)) r =
    let cfg = struct_or_zero (get_layer layer r) in
    let plugins = map_or_empty (plugins_of (Dict.lookup "Plugins" cfg)) in
    let entries = put name (str text) (fields_or_empty (Dict.lookup ns plugins)) in
    (
      (set layer (Dict.insert "Plugins" (plugin_map (some (Dict.insert ns entries plugins))) cfg)
          r).0,
      none,
    )

-- SetByKey
unfoldable pub set_by_key : KeyLibrary → String → String → String → Store → Store × Option KeyError
unfolding set_plugin_at set_defined
set_by_key lib layer key text r =
    if has_prefix "plugins." key
    then set_plugin_at layer text (split_plugin_key lib key) r
    else set_defined lib layer key text (lookup_key key) r

-- The map of the plugins without a key; a namespace that becomes empty goes.
without_key : String → String → Fields → Dict String Fields → Dict String Fields
without_key ns name entries plugins = elim (delete name entries) [
  | no_fields ↦ Dict.remove ns plugins
  | field k v m ↦ Dict.insert ns (field k v m) plugins
]

delete_in : String → String → String → Option Struct → Store → Store
unfolding plugins_of namespace_at map_or_empty without_key
delete_in layer ns name none r = r
delete_in layer ns name (some cfg) r =
    let plugins = plugins_of (Dict.lookup "Plugins" cfg) in
    elim (namespace_at ns plugins) [
      | none ↦ r
      | some entries ↦
          (set layer
            (Dict.insert "Plugins"
              (plugin_map (some (without_key ns name entries (map_or_empty plugins)))) cfg)
            r).0
    ]

delete_plugin_at : String → Resolved (String × String) → Store → Store × Option KeyError
unfolding delete_in
delete_plugin_at layer (unresolved e) r = (r, some (bad_key e))
delete_plugin_at layer (resolved (ns, name)) r =
    (delete_in layer ns name (get_layer layer r) r, none)

delete_defined : String → String → Option KeyDef → Store → Store × Option KeyError
unfolding store_result
delete_defined layer key none r = (r, some (bad_key (concat "unknown config key: " key)))
delete_defined layer key (some def) r = store_result (clear_layer_field layer def.field_name r)

-- DeleteByKey
unfoldable pub delete_by_key : KeyLibrary → String → String → Store → Store × Option KeyError
unfolding delete_plugin_at delete_defined
delete_by_key lib layer key r =
    if has_prefix "plugins." key
    then delete_plugin_at layer (split_plugin_key lib key) r
    else delete_defined layer key (lookup_key key) r

-- DerefStr and DerefInt of a field
abbrev pub deref_str : Option Slot → String
deref_str (some (string_pointer (some s))) = s
deref_str _ = ""

abbrev pub deref_int : Option Slot → ℤ
deref_int (some (int_pointer (some n))) = n
deref_int _ = pos 0

-- EffectiveInt
abbrev pub effective_int : Option Slot → ℤ → ℤ
effective_int (some (int_pointer (some n))) fallback = n
effective_int _ fallback = fallback

entries_of : String → Fields → List (String × Value)
entries_of ns no_fields = []
entries_of ns (field k v m) = (concat "plugins." (concat ns (concat "." k)), v) ∷ entries_of ns m

plugin_entries : Dict String Fields → List (String × Value)
unfolding entries_of
plugin_entries [] = []
plugin_entries ((ns, m) ∷ plugins) = entries_of ns m ++ plugin_entries plugins

-- AllKeys, of the effective configuration
unfoldable pub all_keys : Struct → List (String × Value)
unfolding plugin_entries plugins_of map_or_empty
all_keys cfg =
    let error_threshold = deref_int (Dict.lookup "ErrorThreshold" cfg) in
    (("default_shell", str (deref_str (Dict.lookup "DefaultShell" cfg)))
      ∷ ("error_threshold", int error_threshold)
      ∷ (
        "trigger_error_threshold",
        int (effective_int (Dict.lookup "TriggerErrorThreshold" cfg) error_threshold),
      )
      ∷ (
        "action_error_threshold",
        int (effective_int (Dict.lookup "ActionErrorThreshold" cfg) error_threshold),
      )
      ∷ ("concurrency_mode", str (deref_str (Dict.lookup "ConcurrencyMode" cfg)))
      ∷ ("max_queue_size", int (deref_int (Dict.lookup "MaxQueueSize" cfg)))
      ∷ ("debounce", str (deref_str (Dict.lookup "Debounce" cfg)))
      ∷ ("shutdown_timeout", str (deref_str (Dict.lookup "ShutdownTimeout" cfg)))
      ∷ ("log_level", str (deref_str (Dict.lookup "LogLevel" cfg)))
      ∷ ("socket_address", str (deref_str (Dict.lookup "SocketAddress" cfg)))
      ∷ ("allowed_hosts", str (deref_str (Dict.lookup "AllowedHosts" cfg)))
      ∷ [])
    ++ plugin_entries (map_or_empty (plugins_of (Dict.lookup "Plugins" cfg)))
