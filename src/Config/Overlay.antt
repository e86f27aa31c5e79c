-- ===== src/Config/Overlay.antt =====
-- What OverlayMaps of pkg/config/overlay.go gives for each key.
use text.Mathlib.TextEquality.{eq_iff}
use recur.Prelude.{
  String, ◌≡◌, ◌≢◌, refl, sym, ap, ◌∙◌, Option, none, some, Bool, true, false, List, [], ◌∷◌, ◌++◌,
  ◌==◌, String_eq, beq-cases, beq_refl, if◌then◌else◌, arith, inl, inr,
}
use recur.Config.{
  Value, null, object, Fields, no_fields, field, get, put, delete, IsFields, copy_into, copy,
  as_object, merge_value, overlay_into, overlay_layers,
}

pub get-put :
    (k j : String) (v : Value) (m : Fields)
    → get j (put k v m) ≡ (if k == j then some v else get j m)
unfolding get put
get-put k j v no_fields = refl
get-put k j v (field i w m) = ground (arith, eq_iff k j, eq_iff i k, eq_iff i j, get-put k j v m)

pub get-put_self : (k : String) (v : Value) (m : Fields) → get k (put k v m) ≡ some v
get-put_self k v m = rw (get-put k k v m) (rw (beq_refl k))

pub get-put_ne : (k j : String) (v : Value) (m : Fields) → k ≢ j → get j (put k v m) ≡ get j m
get-put_ne k j v m h = ground (arith, get-put k j v m, eq_iff k j)

pub get-delete :
    (k j : String) (m : Fields) → get j (delete k m) ≡ (if k == j then none else get j m)
unfolding get delete
get-delete k j no_fields = ground arith
get-delete k j (field i w m) = ground (arith, eq_iff k j, eq_iff i k, eq_iff i j, get-delete k j m)

pub put-IsFields : (k : String) (v : Value) (m : Fields) → IsFields m → IsFields (put k v m)
unfolding get put
put-IsFields k v no_fields h = (refl, tt)
put-IsFields k v (field j w m) h = elim (beq-cases j k) [
  | inl p ↦ rw p.1 (rw (← p.0) h.0, h.1)
  | inr p ↦ rw p.1 (get-put_ne k j v m (λ q. p.0 (sym q)) ∙ h.0, put-IsFields k v m h.1)
]

pub delete-IsFields : (k : String) (m : Fields) → IsFields m → IsFields (delete k m)
unfolding get delete
delete-IsFields k no_fields h = tt
delete-IsFields k (field j w m) h = elim (beq-cases j k) [
  | inl p ↦ rw p.1 (delete-IsFields k m h.1)
  | inr p ↦ rw p.1 (ground (arith, get-delete k j m, h.0), delete-IsFields k m h.1)
]

-- What is below, unless there is something above.
abbrev pub above : Option Value → Option Value → Option Value
above none below = below
above (some v) below = some v

-- A loop that sets each key of a map once gives each key its last meaning.
pub get-copy_into :
    (k : String) (result m : Fields)
    → IsFields m
    → get k (copy_into result m) ≡ above (get k m) (get k result)
unfolding copy_into get
get-copy_into k result no_fields h = refl
get-copy_into k result (field j v m) h = elim (beq-cases j k) [
  | inl p ↦ ground (
    arith,
    get-copy_into k (put j v result) m h.1,
    get-put j k v result,
    ap (λ i. get i m) p.0,
    h.0,
    p,
  )
  | inr p ↦ ground (arith, get-copy_into k (put j v result) m h.1, get-put j k v result, p.1)
]

pub copy_into-IsFields : (result m : Fields) → IsFields result → IsFields (copy_into result m)
unfolding copy_into
copy_into-IsFields result no_fields h = h
copy_into-IsFields result (field j v m) h =
    copy_into-IsFields (put j v result) m (put-IsFields j v result h)

-- A copy of a map has the same entries.
pub get-copy : (k : String) (m : Fields) → IsFields m → get k (copy m) ≡ get k m
unfolding copy
get-copy k m h = get-copy_into k no_fields m h ∙ over_nothing k (get k m)
  where
    over_nothing : (j : String) (o : Option Value) → above o (get j no_fields) ≡ o
    over_nothing j none = unfold get in refl
    over_nothing j (some v) = refl

-- One key of a result after one more layer.
abbrev pub layered : Option Value → Option Value → Option Value
layered below none = below
layered below (some v) = some (merge_value (as_object below) v)

get-field :
    (k j : String) (v : Value) (m : Fields)
    → get k (field j v m) ≡ (if j == k then some v else get k m)
unfolding get
get-field k j v m = refl

-- What the layer's first entry puts into the result.
abbrev merged : Fields → String → Value → Fields
merged result j v = put j (merge_value (as_object (get j result)) v) result

overlay_into-field :
    (result : Fields) (j : String) (v : Value) (m : Fields)
    → overlay_into result (field j v m) ≡ overlay_into (merged result j v) m
unfolding overlay_into
overlay_into-field result j v m = refl

-- The first entry of a layer whose other entries have other keys.
layered-field :
    (k j : String) (v : Value) (result m : Fields)
    → get j m ≡ none
    → layered (get k (merged result j v)) (get k m) ≡ layered (get k result) (get k (field j v m))
layered-field k j v result m h =
    let w = merge_value (as_object (get j result)) v in
    elim (beq-cases j k) [
      | inl p ↦ rw (get-field k j v m, p.1) (rw (← p.0) (rw h (get-put_self j w result)))
      | inr p ↦ rw (get-field k j v m, p.1) (rw (get-put_ne j k w result p.0))
    ]

-- Overlaying one layer changes exactly the keys that it defines: a map over a map is merged, and any
-- other value of the layer replaces what was there.
pub get-overlay_into :
    (k : String) (result layer : Fields)
    → IsFields layer
    → get k (overlay_into result layer) ≡ layered (get k result) (get k layer)
get-overlay_into k result no_fields h = unfold get overlay_into in refl
get-overlay_into k result (field j v m) h =
    ap (get k) (overlay_into-field result j v m)
    ∙ get-overlay_into k (merged result j v) m h.1
    ∙ layered-field k j v result m h.0

pub overlay_into-IsFields :
    (result layer : Fields) → IsFields result → IsFields (overlay_into result layer)
overlay_into-IsFields result no_fields h = unfold overlay_into in h
overlay_into-IsFields result (field j v m) h = rw (overlay_into-field result j v m) (
    overlay_into-IsFields (merged result j v) m
      (put-IsFields j (merge_value (as_object (get j result)) v) result h))

-- The layers that are not nil have unique keys.
abbrev pub AllFields : List (Option Fields) → Type 0
AllFields [] = Unit {0}
AllFields (none ∷ layers) = AllFields layers
AllFields (some layer ∷ layers) = IsFields layer × AllFields layers

-- One key through all layers, from the least specific to the most specific.
abbrev pub through : String → Option Value → List (Option Fields) → Option Value
through k below [] = below
through k below (none ∷ layers) = through k below layers
through k below (some layer ∷ layers) = through k (layered below (get k layer)) layers

pub get-overlay_layers :
    (k : String) (result : Fields) (layers : List (Option Fields))
    → AllFields layers
    → get k (overlay_layers result layers) ≡ through k (get k result) layers
unfolding overlay_layers
get-overlay_layers k result [] h = refl
get-overlay_layers k result (none ∷ layers) h = get-overlay_layers k result layers h
get-overlay_layers k result (some layer ∷ layers) h =
    get-overlay_layers k (overlay_into result layer) layers h.1
    ∙ ap (λ o. through k o layers) (get-overlay_into k result layer h.0)

-- A value that is no map.
abbrev pub is_scalar : Value → Bool
is_scalar (object m) = false
is_scalar _ = true

-- No layer defines the key.
abbrev pub Undefined : String → List (Option Fields) → Type 0
Undefined k [] = Unit {0}
Undefined k (none ∷ layers) = Undefined k layers
Undefined k (some layer ∷ layers) = (get k layer ≡ none) × Undefined k layers

through-Undefined :
    (k : String) (o : Option Value) (layers : List (Option Fields))
    → Undefined k layers
    → through k o layers ≡ o
through-Undefined k o [] h = refl
through-Undefined k o (none ∷ layers) h = through-Undefined k o layers h
through-Undefined k o (some layer ∷ layers) h =
    ap (λ x. through k (layered o x) layers) h.0 ∙ through-Undefined k o layers h.1

through-append :
    (k : String) (o : Option Value) (xs ys : List (Option Fields))
    → through k o (xs ++ ys) ≡ through k (through k o xs) ys
through-append k o [] ys = refl
through-append k o (none ∷ xs) ys = through-append k o xs ys
through-append k o (some layer ∷ xs) ys = through-append k (layered o (get k layer)) xs ys

merge_scalar :
    (existing : Option Fields) (v : Value) → is_scalar v ≡ true → merge_value existing v ≡ v
unfolding merge_value
merge_scalar existing (object m) h = cc h
merge_scalar existing null h = refl
merge_scalar existing _ h = refl

pub AllFields-append :
    (xs ys : List (Option Fields)) → AllFields xs → AllFields ys → AllFields (xs ++ ys)
AllFields-append [] ys h k = k
AllFields-append (none ∷ xs) ys h k = AllFields-append xs ys h k
AllFields-append (some layer ∷ xs) ys h k = (h.0, AllFields-append xs ys h.1 k)

pub through_most_specific :
    (k : String) (v : Value) (o : Option Value) (lower : List (Option Fields)) (layer : Fields)
    (higher : List (Option Fields))
    → get k layer ≡ some v
    → is_scalar v ≡ true
    → Undefined k higher
    → through k o (lower ++ some layer ∷ higher) ≡ some v
through_most_specific k v o lower layer higher d e f =
    through-append k o lower (some layer ∷ higher)
    ∙ through-Undefined k _ higher f
    ∙ decided (through k o lower)
  where
    decided : (o : Option Value) → layered o (get k layer) ≡ some v
    decided o = rw d (ap some (merge_scalar (as_object o) v e))

-- The most specific layer that defines a key with a value that is no map decides it, whatever the
-- layers below hold.
pub overlay_most_specific :
    (k : String) (v : Value) (lower : List (Option Fields)) (layer : Fields)
    (higher : List (Option Fields))
    → AllFields lower
    → IsFields layer
    → AllFields higher
    → get k layer ≡ some v
    → is_scalar v ≡ true
    → Undefined k higher
    → get k (overlay_layers no_fields (lower ++ some layer ∷ higher)) ≡ some v
overlay_most_specific k v lower layer higher a b c d e f =
    get-overlay_layers k no_fields (lower ++ some layer ∷ higher)
      (AllFields-append lower (some layer ∷ higher) a (b, c))
    ∙ through_most_specific k v (get k no_fields) lower layer higher d e f
