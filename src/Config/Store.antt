-- ===== src/Config/Store.antt =====
-- pkg/config/store.go and the struct part of pkg/config/overlay.go, at the struct Config of
-- src/domain/config/config.go. Reflection sees a struct as its fields, by name and in order; a pointer or
-- a map that is nil is `none`. Pointers are never written through, so a copy of a struct is the struct.
pub mod Keys
pub mod RoundTrip
pub mod Inspection
pub mod Tests
use recur.Prelude.{
  String, Option, none, some, Bool, true, false, ◌||◌, List, [], ◌∷◌, ◌++◌, ◌==◌, String_eq,
  if◌then◌else◌,
}
use recur.Prelude.Dict
use recur.Prelude.Dict.{Dict}
use recur.Prelude.Int.{ℤ}
use recur.Config.{Fields}

-- A field: *string, *int, or the map of the plugins
pub data Slot : Type 0 where
  string_pointer : Option String → Slot
  int_pointer : Option ℤ → Slot
  plugin_map : Option (Dict String Fields) → Slot

abbrev pub Struct : Type 0
Struct = Dict String Slot

-- The zero value of Config
abbrev pub zero_config : Struct
zero_config =
    ("DefaultShell", string_pointer none)
    ∷ ("ErrorThreshold", int_pointer none)
    ∷ ("TriggerErrorThreshold", int_pointer none)
    ∷ ("ActionErrorThreshold", int_pointer none)
    ∷ ("ConcurrencyMode", string_pointer none)
    ∷ ("MaxQueueSize", int_pointer none)
    ∷ ("Debounce", string_pointer none)
    ∷ ("ShutdownTimeout", string_pointer none)
    ∷ ("LogLevel", string_pointer none)
    ∷ ("SocketAddress", string_pointer none)
    ∷ ("AllowedHosts", string_pointer none)
    ∷ ("Plugins", plugin_map none)
    ∷ []

-- isDefined, for the kinds that Config has
abbrev pub is_defined : Slot → Bool
is_defined (string_pointer none) = false
is_defined (string_pointer (some s)) = true
is_defined (int_pointer none) = false
is_defined (int_pointer (some n)) = true
is_defined (plugin_map none) = false
is_defined (plugin_map (some m)) = true

-- The field of that type that is not set: reflect.Zero
abbrev pub undefined : Slot → Slot
undefined (string_pointer o) = string_pointer none
undefined (int_pointer o) = int_pointer none
undefined (plugin_map o) = plugin_map none

-- from.Type().AssignableTo(targetField.Type())
abbrev pub is_assignable : Slot → Slot → Bool
is_assignable (string_pointer o) (string_pointer o') = true
is_assignable (int_pointer o) (int_pointer o') = true
is_assignable (plugin_map o) (plugin_map o') = true
is_assignable _ _ = false

-- overlayStructFields, on two structs of the same fields
unfoldable pub overlay_struct_fields : Struct → Struct → Struct
overlay_struct_fields [] from = []
overlay_struct_fields (f ∷ to) [] = f ∷ to
overlay_struct_fields ((k, v) ∷ to) ((j, w) ∷ from) =
    (k, if is_defined w then w else v) ∷ overlay_struct_fields to from

-- The loop of Overlay over the layers
unfoldable pub overlay_structs : Struct → List Struct → Struct
unfolding overlay_struct_fields
overlay_structs result [] = result
overlay_structs result (layer ∷ layers) =
    overlay_structs (overlay_struct_fields result layer) layers

-- Store
pub record Store : Type 0 where
  pub layer_names : List String
  pub layers : Dict String Struct
  pub overlay_cache : Option Struct

-- The errors of the store
pub data StoreError : Type 0 where
  unknown_layer : String → StoreError
  unknown_field : String → StoreError
  type_mismatch : String → StoreError

-- NewStore
abbrev pub new_store : List String → Store
new_store names = record { layer_names = names; layers = []; overlay_cache = none }

is_known : List String → String → Bool
is_known [] layer = false
is_known (name ∷ names) layer = name == layer || is_known names layer

-- isKnownLayer
unfoldable pub is_known_layer : Store → String → Bool
unfolding is_known
is_known_layer r layer = is_known r.layer_names layer

-- Set
unfoldable pub set : String → Struct → Store → Store × Option StoreError
unfolding is_known_layer
set layer new r =
    if is_known_layer r layer
    then (record r { layers = Dict.insert layer new r.layers; overlay_cache = none }, none)
    else (r, some (unknown_layer layer))

set_slot : String → String → Slot → Struct → Option Slot → Store → Store × Option StoreError
set_slot layer name new struct none r = (r, some (unknown_field name))
set_slot layer name new struct (some old) r =
    if is_assignable new old
    then (
      record r {
        layers = Dict.insert layer (Dict.insert name new struct) r.layers;
        overlay_cache = none;
      },
      none,
    )
    else (r, some (type_mismatch name))

or_zero : Option Struct → Struct
or_zero none = zero_config
or_zero (some s) = s

-- SetField: a layer that is not there is made before the field is looked for.
unfoldable pub set_field : String → String → Slot → Store → Store × Option StoreError
unfolding is_known_layer set_slot or_zero
set_field layer name new r =
    let struct = or_zero (Dict.lookup layer r.layers) in
    if is_known_layer r layer
    then set_slot layer name new struct (Dict.lookup name struct)
        (record r { layers = Dict.insert layer struct r.layers })
    else (r, some (unknown_layer layer))

-- The layers that are set, in order
unfoldable pub set_layers : List String → Dict String Struct → List Struct
set_layers [] layers = []
set_layers (name ∷ names) layers =
    let rest = set_layers names layers in
    elim (Dict.lookup name layers) [ none ↦ rest | some s ↦ s ∷ rest ]

-- computeOverlay
unfoldable pub compute_overlay : Store → Struct
unfolding set_layers overlay_structs
compute_overlay r = elim (set_layers r.layer_names r.layers) [
  | [] ↦ zero_config
  | base ∷ layers ↦ overlay_structs base layers
]

-- Get
unfoldable pub get_all : Store → Store × Struct
unfolding compute_overlay
get_all r = elim r.overlay_cache [
  | some s ↦ (r, s)
  | none ↦ (record r { overlay_cache = some (compute_overlay r) }, compute_overlay r)
]

-- GetField
unfoldable pub get_field : String → Store → Store × Option Slot
unfolding get_all
get_field name r = let (r', s) = get_all r in (r', Dict.lookup name s)

-- GetLayer
abbrev pub get_layer : String → Store → Option Struct
get_layer layer r = Dict.lookup layer r.layers

clear_slot : String → String → Struct → Option Slot → Store → Store × Option StoreError
clear_slot layer name struct none r = (r, some (unknown_field name))
clear_slot layer name struct (some old) r = (
  record r {
    layers = Dict.insert layer (Dict.insert name (undefined old) struct) r.layers;
    overlay_cache = none;
  },
  none,
)

clear_in : String → String → Option Struct → Store → Store × Option StoreError
unfolding clear_slot
clear_in layer name none r = (r, none)
clear_in layer name (some struct) r = clear_slot layer name struct (Dict.lookup name struct) r

-- ClearLayerField
unfoldable pub clear_layer_field : String → String → Store → Store × Option StoreError
unfolding is_known_layer clear_in
clear_layer_field layer name r =
    if is_known_layer r layer
    then clear_in layer name (Dict.lookup layer r.layers) r
    else (r, some (unknown_layer layer))

-- Has
unfoldable pub has_layer : String → Store → Bool
has_layer layer r = elim (Dict.lookup layer r.layers) [ none ↦ false | some s ↦ true ]

-- Clear
unfoldable pub clear : String → Store → Store
clear layer r = record r { layers = Dict.remove layer r.layers; overlay_cache = none }

clear_each : String → Dict String Struct → Dict String Struct
clear_each name [] = []
clear_each name ((layer, s) ∷ layers) =
    (layer, elim (Dict.lookup name s) [ none ↦ s | some old ↦ Dict.insert name (undefined old) s ])
    ∷ clear_each name layers

-- ClearField
unfoldable pub clear_field : String → Store → Store × Option StoreError
unfolding clear_each
clear_field name r = elim (Dict.lookup name zero_config) [
  | none ↦ (r, some (unknown_field name))
  | some old ↦ (record r { layers = clear_each name r.layers; overlay_cache = none }, none)
]

-- GetLayerField
unfoldable pub get_layer_field : String → String → Store → Option Slot
get_layer_field layer name r = elim (Dict.lookup layer r.layers) [
  | none ↦ none
  | some s ↦ elim (Dict.lookup name s) [
    | none ↦ none
    | some slot ↦ if is_defined slot then some slot else none
  ]
]

-- LayerValue, whose value is nil or a field
pub record FieldValue : Type 0 where
  pub layer : String
  pub value : Option Slot
  pub defined : Bool

field_entry : String → Option Slot → FieldValue
field_entry name none = record { layer = name; value = none; defined = false }
field_entry name (some v) = record { layer = name; value = some v; defined = is_defined v }

field_at : String → Option Struct → Option Slot
field_at name none = none
field_at name (some s) = Dict.lookup name s

-- The loop of Inspect, from the last name to the first
unfoldable pub inspect_layers : String → Dict String Struct → List String → List FieldValue
unfolding field_entry field_at
inspect_layers name layers [] = []
inspect_layers name layers (layer ∷ names) =
    inspect_layers name layers names
    ++ field_entry layer (field_at name (Dict.lookup layer layers)) ∷ []

-- Inspect
unfoldable pub inspect : String → Store → List FieldValue
unfolding inspect_layers
inspect name r = inspect_layers name r.layers r.layer_names
