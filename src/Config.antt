-- ===== src/Config.antt =====
-- pkg/config: values of configuration maps, and the overlay of maps (overlay.go). A Go value of type
-- `any` is one data type; a `float64` is its truncation and what is left of it.
pub mod Store
pub mod Overlay
pub mod MapStore
use recur.Prelude.{
  ℕ, String, ◌≡◌, Option, none, some, Bool, List, [], ◌∷◌, ◌==◌, String_eq, if◌then◌else◌,
}
use recur.Prelude.Int.{ℤ}

mutual
  pub data Value : Type 0 where
    null : Value
    str : String → Value
    int : ℤ → Value
    float : ℤ → ℕ → Value
    bool : Bool → Value
    duration : ℤ → Value
    list : Items → Value
    object : Fields → Value

  pub data Items : Type 0 where
    no_items : Items
    item : Value → Items → Items

  -- map[string]any, as the list of its entries
  pub data Fields : Type 0 where
    no_fields : Fields
    field : String → Value → Fields → Fields

-- m[k]
unfoldable pub get : String → Fields → Option Value
get k no_fields = none
get k (field j v m) = if j == k then some v else get k m

-- m[k] = v
unfoldable pub put : String → Value → Fields → Fields
put k v no_fields = field k v no_fields
put k v (field j w m) = if j == k then field k v m else field j w (put k v m)

-- delete(m, k)
unfoldable pub delete : String → Fields → Fields
delete k no_fields = no_fields
delete k (field j v m) = let rest = delete k m in if j == k then rest else field j v rest

-- Every key has one entry, as in every Go map.
abbrev pub IsFields : Fields → Type 0
IsFields no_fields = Unit {0}
IsFields (field k v m) = (get k m ≡ none) × IsFields m

-- The loop that copies a map, and the pass of OverlayMaps over its first layer, whose keys meet an
-- empty result.
unfoldable pub copy_into : Fields → Fields → Fields
copy_into result no_fields = result
copy_into result (field k v m) = copy_into (put k v result) m

unfoldable pub copy : Fields → Fields
unfolding copy_into
copy m = copy_into no_fields m

-- existing, ok := result[field].(map[string]any)
unfoldable pub as_object : Option Value → Option Fields
as_object (some (object m)) = some m
as_object _ = none

-- The loop of OverlayMaps over one more layer: a map over a map is merged, any other value replaces.
unfoldable mutual
  pub merge_value : Option Fields → Value → Value
  merge_value existing null = null
  merge_value existing (str s) = str s
  merge_value existing (int n) = int n
  merge_value existing (float n f) = float n f
  merge_value existing (bool b) = bool b
  merge_value existing (duration d) = duration d
  merge_value existing (list xs) = list xs
  merge_value none (object m) = object m
  merge_value (some existing) (object m) = object (overlay_into (copy existing) m)

  pub overlay_into : Fields → Fields → Fields
  overlay_into result no_fields = result
  overlay_into result (field k v m) =
      overlay_into (put k (merge_value (as_object (get k result)) v) result) m

-- The layers of OverlayMaps after nil layers are skipped.
unfoldable pub overlay_layers : Fields → List (Option Fields) → Fields
unfolding overlay_into
overlay_layers result [] = result
overlay_layers result (none ∷ layers) = overlay_layers result layers
overlay_layers result (some layer ∷ layers) = overlay_layers (overlay_into result layer) layers

-- OverlayMaps; nil for no layers at all
unfoldable pub overlay_maps : List (Option Fields) → Option Fields
unfolding overlay_layers
overlay_maps [] = none
overlay_maps (layer ∷ layers) = some (overlay_layers no_fields (layer ∷ layers))
