-- ===== src/Config/Store/Keys/Reading.antt =====
-- The keys of the configuration and how they are read: GetByKey of src/domain/config/keys.go.
use Prim.Native.Nat.{ℕ}
use Prim.Native.String.{len, slice, ◌++◌ as concat}
use text.Mathlib.Text.{find?}
use recur.EntityIndex.{has_prefix}
use recur.Prelude.{
  String, suc, ◌+◌, Option, none, some, Bool, true, false, List, [], ◌∷◌, ◌==◌, String_eq, ℕ_eq,
  if◌then◌else◌,
}
use recur.Prelude.Result.{Resolved, resolved, unresolved}
use recur.Prelude.Dict
use recur.Prelude.Dict.{Dict}
use recur.Prelude.Int.{ℤ}
use recur.Config.{Value, Fields, get, str, int, null}
use recur.Config.Store.{Slot, string_pointer, int_pointer, plugin_map, Struct, Store, get_all}

-- strings.ToLower, strconv.Atoi and the format %q
pub record KeyLibrary : Type 0 where
  pub to_lower : String → String
  pub atoi : String → Option ℤ
  pub quote : String → String

-- KeyDef; `is_int` stands for the type "int", and `allowed` is empty without a validation.
pub record KeyDef : Type 0 where
  pub field_name : String
  pub is_int : Bool
  pub allowed : List String
  pub fallback : String

abbrev pub plain_key : String → Bool → KeyDef
plain_key name is_int = record { field_name = name; is_int = is_int; allowed = []; fallback = "" }

-- ValidConcurrencyModes and ValidLogLevels
abbrev pub valid_concurrency_modes : List String
valid_concurrency_modes = "queue" ∷ "parallel" ∷ "drop" ∷ "abort" ∷ []

abbrev pub valid_log_levels : List String
valid_log_levels = "debug" ∷ "info" ∷ "warn" ∷ "error" ∷ []

-- Keys
abbrev pub key_defs : Dict String KeyDef
key_defs =
    ("default_shell", plain_key "DefaultShell" false)
    ∷ ("error_threshold", plain_key "ErrorThreshold" true)
    ∷ (
      "trigger_error_threshold",
      record (plain_key "TriggerErrorThreshold" true) { fallback = "error_threshold" },
    )
    ∷ (
      "action_error_threshold",
      record (plain_key "ActionErrorThreshold" true) { fallback = "error_threshold" },
    )
    ∷ (
      "concurrency_mode",
      record (plain_key "ConcurrencyMode" false) { allowed = valid_concurrency_modes },
    )
    ∷ ("max_queue_size", plain_key "MaxQueueSize" true)
    ∷ ("debounce", plain_key "Debounce" false)
    ∷ ("shutdown_timeout", plain_key "ShutdownTimeout" false)
    ∷ ("log_level", record (plain_key "LogLevel" false) { allowed = valid_log_levels })
    ∷ ("socket_address", plain_key "SocketAddress" false)
    ∷ ("allowed_hosts", plain_key "AllowedHosts" false)
    ∷ []

-- LookupKey, for a key that is not a plugin's
unfoldable pub lookup_key : String → Option KeyDef
lookup_key key = Dict.lookup key key_defs

-- strings.LastIndex of a dot
unfoldable pub last_dot : String → Option ℕ
last_dot String.[] = none
last_dot (String.◌∷◌ c s) =
    let rest = last_dot s in
    elim rest [
      | some i ↦ some (suc i)
      | none ↦ if has_prefix "." (String.◌∷◌ c s) then some 0 else none
    ]

pub split_rest : KeyLibrary → String → Option ℕ → Resolved (String × String)
split_rest lib rest none = unresolved (concat "expected <namespace>.<key>, got " (lib.quote rest))
split_rest lib rest (some i) =
    if i == 0
    then unresolved (concat "expected <namespace>.<key>, got " (lib.quote rest))
    else resolved (slice rest 0 i, slice rest (i + 1) (len rest))

pub bad_plugin_key : String → Resolved (String × String)
bad_plugin_key key =
    unresolved
      (concat "invalid plugin config key: " (concat key " (expected plugins.<namespace>.<key>)"))

-- SplitPluginKey
unfoldable pub split_plugin_key : KeyLibrary → String → Resolved (String × String)
unfolding split_rest last_dot bad_plugin_key
split_plugin_key lib key = elim (find? key ".") [
  | none ↦ bad_plugin_key key
  | some i ↦
      let rest = slice key (i + 1) (len key) in
      if rest == "" then bad_plugin_key key else split_rest lib rest (last_dot rest)
]

-- derefValue
abbrev pub deref_value : Slot → Value
deref_value (string_pointer none) = null
deref_value (string_pointer (some s)) = str s
deref_value (int_pointer none) = null
deref_value (int_pointer (some n)) = int n
deref_value (plugin_map m) = null

pub is_nil_value : Option Slot → Bool
is_nil_value none = true
is_nil_value (some (string_pointer none)) = true
is_nil_value (some (int_pointer none)) = true
is_nil_value (some _) = false

unfoldable pub plugins_of : Option Slot → Option (Dict String Fields)
plugins_of (some (plugin_map m)) = m
plugins_of _ = none

unfoldable pub namespace_at : String → Option (Dict String Fields) → Option Fields
namespace_at ns none = none
namespace_at ns (some m) = Dict.lookup ns m

pub get_in_namespace : KeyLibrary → String → String → Option Fields → Resolved Value
get_in_namespace lib ns name none =
    unresolved (concat "no plugin config set for namespace " (lib.quote ns))
get_in_namespace lib ns name (some m) = elim (get name m) [
  | none ↦ unresolved (
      concat "plugin config key "
        (concat (lib.quote name) (concat " not set for namespace " (lib.quote ns))))
  | some v ↦ resolved v
]

pub get_plugin_at : KeyLibrary → Resolved (String × String) → Struct → Resolved Value
unfolding namespace_at plugins_of get_in_namespace
get_plugin_at lib (unresolved e) cfg = unresolved e
get_plugin_at lib (resolved (ns, name)) cfg =
    get_in_namespace lib ns name (namespace_at ns (plugins_of (Dict.lookup "Plugins" cfg)))

-- getPluginByKey
unfoldable pub get_plugin_by_key : KeyLibrary → String → Store → Store × Resolved Value
unfolding get_plugin_at
get_plugin_by_key lib key r =
    let (r', cfg) = get_all r in (r', get_plugin_at lib (split_plugin_key lib key) cfg)

pub slot_result : String → Option Slot → Resolved Value
slot_result name none = unresolved (concat "unknown field: " name)
slot_result name (some slot) = resolved (deref_value slot)

-- The value of a field, or that of its fallback
pub with_fallback : KeyDef → Struct → Option Slot
unfolding is_nil_value
with_fallback def cfg =
    let own = Dict.lookup def.field_name cfg in
    if def.fallback == ""
    then own
    else if is_nil_value own
    then elim (lookup_key def.fallback) [
      | none ↦ own
      | some other ↦ Dict.lookup other.field_name cfg
    ]
    else own

pub get_defined : String → Option KeyDef → Store → Store × Resolved Value
unfolding with_fallback slot_result
get_defined key none r = (r, unresolved (concat "unknown config key: " key))
get_defined key (some def) r =
    let (r', cfg) = get_all r in (r', slot_result def.field_name (with_fallback def cfg))

-- GetByKey
unfoldable pub get_by_key : KeyLibrary → String → Store → Store × Resolved Value
unfolding get_plugin_by_key get_defined
get_by_key lib key r =
    if has_prefix "plugins." key
    then get_plugin_by_key lib key r
    else get_defined key (lookup_key key) r
