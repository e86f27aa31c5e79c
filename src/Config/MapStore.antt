-- ===== src/Config/MapStore.antt =====
-- pkg/config/map_store.go: named layers of maps and the cached overlay. Maps are values here: a map
-- that a method returns is not shared with the store. `layers` holds no nil map, since Set copies its
-- argument and SetField makes a map where there is none.
pub mod Coherence
pub mod Tests
use recur.Prelude.{
  String, Option, none, some, Bool, true, false, List, [], ◌∷◌, ◌++◌, ◌==◌, String_eq,
  if◌then◌else◌, map,
}
use recur.Prelude.Dict
use recur.Prelude.Dict.{Dict}
use recur.Config.{Value, null, Fields, no_fields, get, put, delete, copy, overlay_maps}

-- MapStore
pub record MapStore : Type 0 where
  pub layer_names : List String
  pub layers : Dict String Fields
  pub overlay_cache : Option Fields

-- LayerValue of types.go
pub record LayerValue : Type 0 where
  pub layer : String
  pub value : Value
  pub defined : Bool

unfoldable pub is_known_layer : String → List String → Bool
is_known_layer layer [] = false
is_known_layer layer (name ∷ names) = if name == layer then true else is_known_layer layer names

-- NewMapStore
abbrev pub new_map_store : List String → MapStore
new_map_store names = record { layer_names = names; layers = []; overlay_cache = none }

-- The loop of computeOverlay: the layers that are set, in the order of the names.
unfoldable pub defined_layers : Dict String Fields → List String → List (Option Fields)
defined_layers layers [] = []
defined_layers layers (name ∷ names) =
    let rest = defined_layers layers names in
    elim (Dict.lookup name layers) [ none ↦ rest | some m ↦ some m ∷ rest ]

unfoldable pub compute_overlay : MapStore → Option Fields
unfolding defined_layers
compute_overlay r = overlay_maps (defined_layers r.layers r.layer_names)

-- Set; the result says whether it returned no error
unfoldable pub set : String → Fields → MapStore → MapStore × Bool
set layer value r =
    if is_known_layer layer r.layer_names
    then (record r { layers = Dict.insert layer (copy value) r.layers; overlay_cache = none }, true)
    else (r, false)

or_empty : Option Fields → Fields
or_empty none = no_fields
or_empty (some m) = m

-- SetField
unfoldable pub set_field : String → String → Value → MapStore → MapStore
unfolding or_empty
set_field layer key value r =
    if is_known_layer layer r.layer_names
    then record r {
      layers = Dict.insert layer (put key value (or_empty (Dict.lookup layer r.layers))) r.layers;
      overlay_cache = none;
    }
    else r

unfoldable pub get_cached : Option Fields → MapStore → MapStore × Option Fields
unfolding compute_overlay
get_cached (some cached) r = (r, some cached)
get_cached none r = (record r { overlay_cache = compute_overlay r }, compute_overlay r)

-- Get
unfoldable pub get_all : MapStore → MapStore × Option Fields
unfolding get_cached
get_all r = get_cached r.overlay_cache r

read : String → Option Fields → Option Value
read key none = none
read key (some m) = get key m

-- GetField
unfoldable pub get_field : String → MapStore → MapStore × Option Value
unfolding get_all read
get_field key r = let (r', effective) = get_all r in (r', read key effective)

-- GetLayer
unfoldable pub get_layer : String → MapStore → Option Fields
get_layer layer r = elim (Dict.lookup layer r.layers) [ none ↦ none | some m ↦ some (copy m) ]

-- GetLayerField
unfoldable pub get_layer_field : String → String → MapStore → Option Value
unfolding read
get_layer_field layer key r = read key (Dict.lookup layer r.layers)

-- Has
unfoldable pub has : String → MapStore → Bool
has layer r = elim (Dict.lookup layer r.layers) [ none ↦ false | some m ↦ true ]

-- Clear
unfoldable pub clear : String → MapStore → MapStore
clear layer r = record r { layers = Dict.remove layer r.layers; overlay_cache = none }

-- The loop of ClearField
unfoldable pub delete_all : String → Dict String Fields → Dict String Fields
delete_all key [] = []
delete_all key ((layer, stored) ∷ rest) = (layer, delete key stored) ∷ delete_all key rest

-- ClearField
unfoldable pub clear_field : String → MapStore → MapStore
unfolding delete_all
clear_field key r = record r { layers = delete_all key r.layers; overlay_cache = none }

delete_in : String → String → Option Fields → Dict String Fields → Dict String Fields
delete_in layer key none layers = layers
delete_in layer key (some stored) layers = Dict.insert layer (delete key stored) layers

-- ClearLayerField
unfoldable pub clear_layer_field : String → String → MapStore → MapStore
unfolding delete_in
clear_layer_field layer key r = record r {
  layers = delete_in layer key (Dict.lookup layer r.layers) r.layers;
  overlay_cache = none;
}

entry : String → Option Value → LayerValue
entry name none = record { layer = name; value = null; defined = false }
entry name (some v) = record { layer = name; value = v; defined = true }

-- The loop of Inspect, from the last name to the first
unfoldable pub inspect_names : String → Dict String Fields → List String → List LayerValue
unfolding read entry
inspect_names key layers [] = []
inspect_names key layers (name ∷ names) =
    inspect_names key layers names ++ entry name (read key (Dict.lookup name layers)) ∷ []

-- Inspect
unfoldable pub inspect : String → MapStore → List LayerValue
unfolding inspect_names
inspect key r = inspect_names key r.layers r.layer_names
