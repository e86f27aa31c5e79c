-- ===== src/Config/Store/Inspection.antt =====
-- Inspect of pkg/config/store.go, which lists a field layer by layer, against GetField, which reads the
-- overlay of the layers.
use mathlib.Core.Option.{or_else}
use recur.Prelude.{
  String, ◌≡◌, refl, sym, ap, ◌∙◌, Option, Option-cases, none, some, false, Bool-cases, inl, inr,
  List, [], ◌∷◌, ◌++◌, ◌==◌, String_eq, if◌then◌else◌,
}
use recur.Prelude.Dict
use recur.Prelude.Dict.{Dict, keys}
use recur.Config.Store.{
  Slot, Struct, zero_config, Store, is_defined, overlay_struct_fields, overlay_structs, set_layers,
  compute_overlay, get_all, get_field, FieldValue, field_entry, field_at, inspect_layers, inspect,
}
use recur.Config.Store.RoundTrip.Effective.{
  over, HasShape, All, lookup-keys, effective, lookup-overlay_struct_fields,
  keys-overlay_struct_fields,
}
use recur.Config.Store.RoundTrip.{AreConfigs, set_layers-All}

-- A field that is defined
abbrev pub defined_field : Option Slot → Option Slot
defined_field none = none
defined_field (some v) = if is_defined v then some v else none

-- The value of the first entry that is defined
abbrev pub first_defined : List FieldValue → Option Slot
first_defined [] = none
first_defined (e ∷ es) = or_else (if e.defined then e.value else none) (first_defined es)

-- The value in the last layer that defines the field
abbrev most_specific : String → List Struct → Option Slot
most_specific name [] = none
most_specific name (s ∷ ss) = or_else (most_specific name ss) (defined_field (Dict.lookup name s))

or_else_assoc : (a b c : Option Slot) → or_else (or_else a b) c ≡ or_else a (or_else b c)
unfolding or_else
or_else_assoc none b c = refl
or_else_assoc (some v) b c = refl

or_else-none : (a : Option Slot) → or_else a none ≡ a
unfolding or_else
or_else-none none = refl
or_else-none (some v) = refl

first_defined-append :
    (xs ys : List FieldValue)
    → first_defined (xs ++ ys) ≡ or_else (first_defined xs) (first_defined ys)
first_defined-append [] ys = unfold or_else in refl
first_defined-append (x ∷ xs) ys =
    ap (or_else (if x.defined then x.value else none)) (first_defined-append xs ys)
    ∙ sym
        (or_else_assoc (if x.defined then x.value else none) (first_defined xs) (first_defined ys))

first_defined-entry :
    (layer : String) (o : Option Slot) → first_defined (field_entry layer o ∷ []) ≡ defined_field o
unfolding field_entry or_else
first_defined-entry layer none = refl
first_defined-entry layer (some v) = or_else-none (if is_defined v then some v else none)

defined_field-over :
    (v w : Slot)
    → defined_field (over (some v) (some w))
      ≡ or_else (defined_field (some w)) (defined_field (some v))
unfolding or_else
defined_field-over v w = elim (Bool-cases (is_defined w)) [
  | inl e ↦ rw e (rw e refl)
  | inr e ↦ rw e refl
]

defined_field-over_left :
    (o : Option Slot) → defined_field (over o none) ≡ or_else none (defined_field o)
unfolding or_else
defined_field-over_left none = refl
defined_field-over_left (some v) = refl

-- One more layer
defined_field-overlay :
    (name : String) (s x : Struct)
    → keys s ≡ keys x
    → defined_field (Dict.lookup name (overlay_struct_fields s x))
      ≡ or_else (defined_field (Dict.lookup name x)) (defined_field (Dict.lookup name s))
defined_field-overlay name s x h = elim (Option-cases (Dict.lookup name x)) [
  | inl miss ↦
      ap defined_field (lookup-overlay_struct_fields name s x h)
      ∙ rw miss (defined_field-over_left (Dict.lookup name s))
  | inr (w, hit) ↦
      let (v, found) = lookup-keys name s x w h hit in
      ap defined_field (lookup-overlay_struct_fields name s x h)
      ∙ rw (hit, found) (defined_field-over v w)
]

defined_field-overlay_structs :
    (name : String) (s : Struct) (xs : List Struct)
    → HasShape s
    → All HasShape xs
    → defined_field (Dict.lookup name (overlay_structs s xs))
      ≡ or_else (most_specific name xs) (defined_field (Dict.lookup name s))
unfolding overlay_structs
defined_field-overlay_structs name s [] h hs = unfold or_else in refl
defined_field-overlay_structs name s (x ∷ xs) h (hx, hs) =
    defined_field-overlay_structs name (overlay_struct_fields s x) xs
      (keys-overlay_struct_fields s x ∙ h) hs
    ∙ ap (or_else (most_specific name xs)) (defined_field-overlay name s x (h ∙ sym hx))
    ∙ sym (
        or_else_assoc (most_specific name xs) (defined_field (Dict.lookup name x))
          (defined_field (Dict.lookup name s)))

at_layer :
    (name : String) (ss : List Struct) (o : Option Struct) {found : Option Slot}
    → found ≡ most_specific name ss
    → or_else found (defined_field (field_at name o))
      ≡ most_specific name (elim o as (λ x. List Struct) [ none ↦ ss | some s ↦ s ∷ ss ])
unfolding field_at
at_layer name ss none {found} e = or_else-none found ∙ e
at_layer name ss (some s) e = ap (λ a. or_else a (defined_field (Dict.lookup name s))) e

first_defined-inspect_layers :
    (name : String) (names : List String) (layers : Dict String Struct)
    → first_defined (inspect_layers name layers names)
      ≡ most_specific name (set_layers names layers)
unfolding inspect_layers set_layers
first_defined-inspect_layers name [] layers = refl
first_defined-inspect_layers name (layer ∷ names) layers =
    first_defined-append (inspect_layers name layers names) _
    ∙ ap (or_else (first_defined (inspect_layers name layers names)))
        (first_defined-entry layer (field_at name (Dict.lookup layer layers)))
    ∙ at_layer name (set_layers names layers) (Dict.lookup layer layers)
        (first_defined-inspect_layers name names layers)

abbrev AreBlank : Struct → Type 0
AreBlank [] = Unit {0}
AreBlank ((k, v) ∷ s) = (is_defined v ≡ false) × AreBlank s

none_defined : (name : String) (s : Struct) → AreBlank s → defined_field (Dict.lookup name s) ≡ none
unfolding Dict.lookup
none_defined name [] h = refl
none_defined name ((k, v) ∷ s) (e, h) = elim (Bool-cases (k == name)) [
  | inl p ↦ rw p (rw e refl)
  | inr p ↦ rw p (none_defined name s h)
]

all_blank : AreBlank zero_config
all_blank = (
  refl,
  (refl, (refl, (refl, (refl, (refl, (refl, (refl, (refl, (refl, (refl, (refl, tt))))))))))),
)

compute_overlay_lem :
    (r : Store) → compute_overlay r ≡ effective (set_layers r.layer_names r.layers)
unfolding compute_overlay
compute_overlay_lem r = refl

get_field-fresh :
    (name : String) (r : Store)
    → ((s : Struct) → r.overlay_cache ≡ some s → s ≡ compute_overlay r)
    → (get_field name r).1 ≡ Dict.lookup name (compute_overlay r)
unfolding get_field
get_field-fresh name r fresh = elim (Option-cases r.overlay_cache) [
  | inl e ↦ rw (e, get_all) refl
  | inr (s, e) ↦ rw (e, get_all) (ap (Dict.lookup name) (fresh s e))
]

most_specific-effective :
    (name : String) (ss : List Struct)
    → All HasShape ss
    → defined_field (Dict.lookup name (effective ss)) ≡ most_specific name ss
most_specific-effective name [] hs = none_defined name zero_config all_blank
most_specific-effective name (s ∷ ss) (h, hs) = defined_field-overlay_structs name s ss h hs

-- Where every layer has the fields of Config and no cache is stale, the first entry of Inspect that is
-- defined holds what GetField reads, and none is defined exactly when GetField reads no defined field.
pub first_defined-inspect :
    (name : String) (r : Store)
    → AreConfigs r
    → ((s : Struct) → r.overlay_cache ≡ some s → s ≡ compute_overlay r)
    → first_defined (inspect name r) ≡ defined_field (get_field name r).1
unfolding inspect
first_defined-inspect name r configs fresh =
    first_defined-inspect_layers name r.layer_names r.layers
    ∙ sym (
        most_specific-effective name (set_layers r.layer_names r.layers)
          (set_layers-All HasShape r.layer_names r.layers (λ layer i s e. configs layer s e)))
    ∙ ap (λ s. defined_field (Dict.lookup name s)) (sym (compute_overlay_lem r))
    ∙ ap defined_field (sym (get_field-fresh name r fresh))
