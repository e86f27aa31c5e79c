-- ===== src/Config/MapStore/Coherence.antt =====
-- The cache of map_store.go never differs from the overlay, and every operation keeps the layers
-- well formed.
use recur.Prelude.{
  String, ◌≡◌, ◌⊎◌, inl, inr, refl, sym, ap, ◌∙◌, Option, none, some, Bool, true, false, List, [],
  ◌∷◌, String_eq, if◌then◌else◌, beq-cases, arith,
}
use recur.Prelude.Dict
use recur.Prelude.Dict.{Dict}
use recur.Config.{Value, Fields, no_fields, get, put, delete, copy, IsFields, overlay_maps}
use recur.Config.Overlay.{
  put-IsFields, delete-IsFields, copy_into-IsFields, AllFields, through, get-overlay_layers,
}
use recur.Config.MapStore.{
  MapStore, is_known_layer, compute_overlay, defined_layers, set, set_field, or_empty, get_cached,
  get_all, read, get_field, clear, delete_all, clear_field, delete_in, clear_layer_field,
  new_map_store,
}

-- The cache is empty or is the overlay of the layers, and each layer has unique keys.
pub record IsCoherent (r : MapStore) : Type 0 where
  pub cached : (r.overlay_cache ≡ none) ⊎ (r.overlay_cache ≡ compute_overlay r)
  pub layers_map : (layer : String) (m : Fields) → Dict.lookup layer r.layers ≡ some m → IsFields m

-- The mutations, as values.
pub data Mutation : Type 0 where
  set_layer : String → Fields → Mutation
  set_one : String → String → Value → Mutation
  clear_layer : String → Mutation
  clear_key : String → Mutation
  clear_one : String → String → Mutation
  recompute : Mutation

unfoldable pub apply : Mutation → MapStore → MapStore
apply (set_layer layer value) r = (set layer value r).0
apply (set_one layer key value) r = set_field layer key value r
apply (clear_layer layer) r = clear layer r
apply (clear_key key) r = clear_field key r
apply (clear_one layer key) r = clear_layer_field layer key r
apply recompute r = (get_all r).0

insert_keeps :
    (layer : String) (v : Fields) (layers : Dict String Fields)
    → IsFields v
    → ((l : String) (m : Fields) → Dict.lookup l layers ≡ some m → IsFields m)
    → (l : String) (m : Fields) → Dict.lookup l (Dict.insert layer v layers) ≡ some m
    → IsFields m
insert_keeps layer v layers h k l m e = elim (beq-cases layer l) [
  | inl p ↦
      let same : some v ≡ some m = sym (rw p.1 at (Dict.lookup-insert layer l v layers)) ∙ e in
      let eq : v ≡ m = cc same in rw (← eq) h
  | inr p ↦ k l m (sym (Dict.lookup-insert_ne v layers p.0) ∙ e)
]

remove_keeps :
    (layer : String) (layers : Dict String Fields)
    → ((l : String) (m : Fields) → Dict.lookup l layers ≡ some m → IsFields m)
    → (l : String) (m : Fields) → Dict.lookup l (Dict.remove layer layers) ≡ some m
    → IsFields m
remove_keeps layer layers k l m e = elim (beq-cases layer l) [
  | inl p ↦ cc (rw p.1 at (Dict.lookup-remove layer l layers), e)
  | inr p ↦ k l m (sym (Dict.lookup-remove_ne layers p.0) ∙ e)
]

-- A layer after ClearField is the layer without the key.
lookup-delete_all :
    (key l : String) (layers : Dict String Fields)
    → Dict.lookup l (delete_all key layers)
      ≡ (elim (Dict.lookup l layers) [ none ↦ none | some m ↦ some (delete key m) ])
unfolding delete_all Dict.lookup
lookup-delete_all key l [] = refl
lookup-delete_all key l ((layer, stored) ∷ rest) = ground (arith, lookup-delete_all key l rest)

copy-IsFields : (m : Fields) → IsFields (copy m)
unfolding copy
copy-IsFields m = copy_into-IsFields no_fields m tt

or_empty-IsFields :
    (o : Option Fields) → ((m : Fields) → o ≡ some m → IsFields m) → IsFields (or_empty o)
unfolding or_empty
or_empty-IsFields none h = tt
or_empty-IsFields (some m) h = h m refl

get_cached-IsCoherent :
    (o : Option Fields) (r : MapStore)
    → r.overlay_cache ≡ o
    → IsCoherent r
    → IsCoherent (get_cached o r).0 × ((get_cached o r).1 ≡ compute_overlay r)
unfolding get_cached compute_overlay
get_cached-IsCoherent none r e h = (record { cached = inr refl; layers_map = h.layers_map }, refl)
get_cached-IsCoherent (some c) r e h = (h, elim h.cached [ inl n ↦ cc (n, e) | inr q ↦ sym e ∙ q ])

-- Get returns the overlay of the layers as they are, whether it reads the cache or fills it.
pub get_all_fresh :
    (r : MapStore) → IsCoherent r → IsCoherent (get_all r).0 × ((get_all r).1 ≡ compute_overlay r)
unfolding get_all
get_all_fresh r h = get_cached-IsCoherent r.overlay_cache r refl h

if_pair :
    (b : Bool) (x y : MapStore × Bool)
    → IsCoherent x.0
    → IsCoherent y.0
    → IsCoherent (if b then x else y).0
if_pair true x y h k = h
if_pair false x y h k = k

if_store :
    (b : Bool) (x y : MapStore) → IsCoherent x → IsCoherent y → IsCoherent (if b then x else y)
if_store true x y h k = h
if_store false x y h k = k

delete_all_keeps :
    (key : String) (layers : Dict String Fields)
    → ((l : String) (m : Fields) → Dict.lookup l layers ≡ some m → IsFields m)
    → (l : String) (m : Fields) → Dict.lookup l (delete_all key layers) ≡ some m
    → IsFields m
delete_all_keeps key layers h l m e =
    kept (Dict.lookup l layers) refl (sym (lookup-delete_all key l layers) ∙ e)
  where
    kept :
        (o : Option Fields)
        → Dict.lookup l layers ≡ o
        → (elim o [ none ↦ none | some x ↦ some (delete key x) ]) ≡ some m
        → IsFields m
    kept none q k = cc k
    kept (some x) q k =
        let same : delete key x ≡ m = cc k in rw (← same) (delete-IsFields key x (h l x q))

delete_in_keeps :
    (layer key : String) (o : Option Fields) (layers : Dict String Fields)
    → Dict.lookup layer layers ≡ o
    → ((l : String) (m : Fields) → Dict.lookup l layers ≡ some m → IsFields m)
    → (l : String) (m : Fields) → Dict.lookup l (delete_in layer key o layers) ≡ some m
    → IsFields m
unfolding delete_in
delete_in_keeps layer key none layers q h = h
delete_in_keeps layer key (some stored) layers q h =
    insert_keeps layer (delete key stored) layers (delete-IsFields key stored (h layer stored q)) h

-- Every operation that changes the store leaves the cache empty or equal to the overlay, so no later
-- Get reads a stale value.
pub apply-IsCoherent : (x : Mutation) (r : MapStore) → IsCoherent r → IsCoherent (apply x r)
unfolding apply set set_field clear clear_field clear_layer_field
apply-IsCoherent (set_layer layer value) r h =
    if_pair (is_known_layer layer r.layer_names) _ _
      (record {
        cached = inl refl;
        layers_map = insert_keeps layer (copy value) r.layers (copy-IsFields value) h.layers_map;
      })
      h
apply-IsCoherent (set_one layer key value) r h =
    if_store (is_known_layer layer r.layer_names) _ _
      (record {
        cached = inl refl;
        layers_map =
            insert_keeps layer (put key value (or_empty (Dict.lookup layer r.layers))) r.layers
              (put-IsFields key value (or_empty (Dict.lookup layer r.layers))
                (or_empty-IsFields (Dict.lookup layer r.layers) (h.layers_map layer)))
              h.layers_map;
      })
      h
apply-IsCoherent (clear_layer layer) r h = record {
  cached = inl refl;
  layers_map = remove_keeps layer r.layers h.layers_map;
}
apply-IsCoherent (clear_key key) r h = record {
  cached = inl refl;
  layers_map = delete_all_keeps key r.layers h.layers_map;
}
apply-IsCoherent (clear_one layer key) r h = record {
  cached = inl refl;
  layers_map = delete_in_keeps layer key (Dict.lookup layer r.layers) r.layers refl h.layers_map;
}
apply-IsCoherent recompute r h = (get_all_fresh r h).0

pub apply_all : List Mutation → MapStore → MapStore
apply_all [] r = r
apply_all (x ∷ xs) r = apply_all xs (apply x r)

apply_all-IsCoherent :
    (xs : List Mutation) (r : MapStore) → IsCoherent r → IsCoherent (apply_all xs r)
unfolding apply_all
apply_all-IsCoherent [] r h = h
apply_all-IsCoherent (x ∷ xs) r h = apply_all-IsCoherent xs (apply x r) (apply-IsCoherent x r h)

pub new-IsCoherent : (names : List String) → IsCoherent (new_map_store names)
unfolding Dict.lookup
new-IsCoherent names = record { cached = inl refl; layers_map = λ l m e. cc e }

-- After any operations on a new store, Get returns the overlay of the layers as they then are: no
-- stale cache is ever read.
pub get_after_mutations :
    (names : List String) (xs : List Mutation)
    → (get_all (apply_all xs (new_map_store names))).1
      ≡ compute_overlay (apply_all xs (new_map_store names))
get_after_mutations names xs =
    (get_all_fresh (apply_all xs (new_map_store names))
      (apply_all-IsCoherent xs (new_map_store names) (new-IsCoherent names))).1

defined_one :
    (layers : Dict String Fields) (names : List String) (o : Option Fields)
    → AllFields (defined_layers layers names)
    → ((m : Fields) → o ≡ some m → IsFields m)
    → AllFields (elim o [
      | none ↦ defined_layers layers names
      | some m ↦ some m ∷ defined_layers layers names
    ])
defined_one layers names none h k = h
defined_one layers names (some m) h k = (k m refl, h)

pub defined_layers-AllFields :
    (layers : Dict String Fields) (names : List String)
    → ((l : String) (m : Fields) → Dict.lookup l layers ≡ some m → IsFields m)
    → AllFields (defined_layers layers names)
unfolding defined_layers
defined_layers-AllFields layers [] h = tt
defined_layers-AllFields layers (name ∷ names) h =
    defined_one layers names (Dict.lookup name layers) (defined_layers-AllFields layers names h)
      (h name)

read-overlay_maps :
    (key : String) (layers : List (Option Fields))
    → AllFields layers
    → read key (overlay_maps layers) ≡ through key none layers
unfolding read overlay_maps
read-overlay_maps key [] h = refl
read-overlay_maps key (layer ∷ layers) h =
    get-overlay_layers key no_fields (layer ∷ layers) h
    ∙ ap (λ o. through key o (layer ∷ layers)) nothing
  where
    nothing : get key no_fields ≡ none
    nothing = unfold get in refl

pub get_field_fresh :
    (key : String) (r : MapStore)
    → IsCoherent r
    → (get_field key r).1 ≡ through key none (defined_layers r.layers r.layer_names)
unfolding get_field compute_overlay
get_field_fresh key r h =
    ap (read key) (get_all_fresh r h).1
    ∙ read-overlay_maps key (defined_layers r.layers r.layer_names)
        (defined_layers-AllFields r.layers r.layer_names h.layers_map)

-- After any operations on a new store, GetField reads the key through the layers that are set, in
-- the order of the names.
pub get_field-through :
    (names : List String) (xs : List Mutation) (key : String)
    → (get_field key (apply_all xs (new_map_store names))).1
      ≡ through key none (
          defined_layers
            (apply_all xs (new_map_store names)).layers
            (apply_all xs (new_map_store names)).layer_names)
get_field-through names xs key =
    get_field_fresh key (apply_all xs (new_map_store names))
      (apply_all-IsCoherent xs (new_map_store names) (new-IsCoherent names))
