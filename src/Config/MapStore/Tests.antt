-- ===== src/Config/MapStore/Tests.antt =====
-- Runs of map_store.go and overlay.go, and the claims about them at concrete inputs.
use recur.Prelude.{String, ◌≡◌, refl, some, none, List, [], ◌∷◌, ◌++◌}
use recur.Config.{
  Fields, no_fields, field, str, object, get, put, copy, as_object, overlay_layers, overlay_into,
}
use recur.Config.Overlay.{overlay_most_specific, get-overlay_into, layered}
use recur.Config.MapStore.{new_map_store, get_all, get_field, compute_overlay, defined_layers}
use recur.Config.MapStore.Coherence.{
  Mutation, set_one, recompute, clear_key, apply_all, get_after_mutations, get_field-through,
}
use recur.Config.Overlay.{through}

abbrev base : Fields
base =
    field "mode" (str "queue") (field "limits" (object (field "cpu" (str "1") no_fields)) no_fields)

abbrev top : Fields
top = field "limits" (object (field "mem" (str "2") no_fields)) no_fields

nested_merge :
    get "limits" (overlay_into base top)
    ≡ some (object (field "cpu" (str "1") (field "mem" (str "2") no_fields)))
unfolding get overlay_into as_object put copy
nested_merge = refl

get-overlay_into_test :
    get "limits" (overlay_into base top) ≡ layered (get "limits" base) (get "limits" top)
unfolding get
get-overlay_into_test = get-overlay_into "limits" base top (refl, tt)

overlay_most_specific_test :
    get "mode" (overlay_layers no_fields ((none ∷ []) ++ some base ∷ some top ∷ []))
    ≡ some (str "queue")
unfolding get
overlay_most_specific_test =
    overlay_most_specific "mode" (str "queue") (none ∷ []) base (some top ∷ []) tt
      (refl, (refl, tt)) ((refl, tt), tt) refl refl (refl, tt)

abbrev names : List String
names = "daemon" ∷ "trigger" ∷ []

abbrev changes : List Mutation
changes =
    set_one "daemon" "mode" (str "drop")
    ∷ recompute
    ∷ set_one "trigger" "mode" (str "abort")
    ∷ clear_key "other"
    ∷ []

get_after_mutations_example :
    (get_all (apply_all changes (new_map_store names))).1
    ≡ compute_overlay (apply_all changes (new_map_store names))
get_after_mutations_example = get_after_mutations names changes

get_field-through_test :
    (get_field "mode" (apply_all changes (new_map_store names))).1
    ≡ through "mode" none (
        defined_layers
          (apply_all changes (new_map_store names)).layers
          (apply_all changes (new_map_store names)).layer_names)
get_field-through_test = get_field-through names changes "mode"
