-- ===== src/Recurfile/Settings.antt =====
-- src/domain/recurfile/builder.go: the settings of a trigger from the precedence chain of five
-- layers. `time.ParseDuration` is the parameter `parse_duration`, `none` being its error.
pub mod Precedence
use recur.Prelude.{String, Option, none, some, List, [], ◌∷◌}
use recur.Prelude.Int.{ℤ, pos}
use recur.Config.{Value, str, int, float, duration, Fields}
use recur.Config.MapStore.{MapStore, new_map_store, set, get_field}

-- TriggerSettings
pub record TriggerSettings : Type 0 where
  pub concurrency_mode : String
  pub max_queue_size : ℤ
  pub debounce : ℤ
  pub error_threshold : ℤ
  pub action_error_threshold : ℤ

-- The text of a value, "" for any other
unfoldable pub as_string : Option Value → String
as_string (some (str s)) = s
as_string _ = ""

-- The integer of a value, a float truncated, 0 for any other
unfoldable pub as_int : Option Value → ℤ
as_int (some (int n)) = n
as_int (some (float n fraction)) = n
as_int _ = pos 0

or_zero : Option ℤ → ℤ
or_zero none = pos 0
or_zero (some d) = d

-- The duration of a value
unfoldable pub as_duration : (String → Option ℤ) → Option Value → ℤ
unfolding or_zero
as_duration parse_duration (some (str s)) = or_zero (parse_duration s)
as_duration parse_duration (some (duration d)) = d
as_duration parse_duration _ = pos 0

-- mapStoreString
unfoldable pub map_store_string : String → MapStore → MapStore × String
unfolding as_string
map_store_string key store = let (store', v) = get_field key store in (store', as_string v)

-- mapStoreInt
unfoldable pub map_store_int : String → MapStore → MapStore × ℤ
unfolding as_int
map_store_int key store = let (store', v) = get_field key store in (store', as_int v)

-- mapStoreDuration
unfoldable pub map_store_duration : (String → Option ℤ) → String → MapStore → MapStore × ℤ
unfolding as_duration
map_store_duration parse_duration key store =
    let (store', v) = get_field key store in (store', as_duration parse_duration v)

abbrev pub layer_names : List String
layer_names = "daemon" ∷ "plugin" ∷ "plugin_override" ∷ "group" ∷ "trigger" ∷ []

-- if layer != nil { store.Set(name, layer) }
unfoldable pub set_unless_nil : String → Option Fields → MapStore → MapStore
set_unless_nil name none store = store
set_unless_nil name (some m) store = (set name m store).0

-- The store of BuildTriggerSettings
unfoldable pub build_store :
    Option Fields → Option Fields → Option Fields → Option Fields → Option Fields → MapStore
unfolding set_unless_nil
build_store daemon plugin_manifest plugin_override group trigger =
    set_unless_nil "trigger" trigger (
      set_unless_nil "group" group (
        set_unless_nil "plugin_override" plugin_override (
          set_unless_nil "plugin" plugin_manifest
            (set_unless_nil "daemon" daemon (new_map_store layer_names)))))

-- The five reads; each may fill the cache of the store that the next one reads.
unfoldable pub read_settings : (String → Option ℤ) → MapStore → TriggerSettings
unfolding map_store_string map_store_int map_store_duration
read_settings parse_duration store =
    let (s1, mode) = map_store_string "concurrency_mode" store in
    let (s2, size) = map_store_int "max_queue_size" s1 in
    let (s3, wait) = map_store_duration parse_duration "debounce" s2 in
    let (s4, threshold) = map_store_int "error_threshold" s3 in
    let (s5, action_threshold) = map_store_int "action_error_threshold" s4 in
    record {
      concurrency_mode = mode;
      max_queue_size = size;
      debounce = wait;
      error_threshold = threshold;
      action_error_threshold = action_threshold;
    }

-- BuildTriggerSettings
unfoldable pub build_trigger_settings :
    (String → Option ℤ)
    → Option Fields
    → Option Fields
    → Option Fields
    → Option Fields
    → Option Fields
    → TriggerSettings
unfolding build_store read_settings
build_trigger_settings parse_duration daemon plugin_manifest plugin_override group trigger =
    read_settings parse_duration (build_store daemon plugin_manifest plugin_override group trigger)
