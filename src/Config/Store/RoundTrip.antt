-- ===== src/Config/Store/RoundTrip.antt =====
-- What GetByKey reads after SetByKey.
pub mod Effective
use recur.Prelude.{
  String, ◌≡◌, refl, sym, ap, ◌∙◌, subst, Option, none, some, true, false, List, [], ◌∷◌, ◌++◌,
  ◌==◌, String_eq, if◌then◌else◌, Bool-cases, Option-cases, inl, inr, In,
}
use recur.Prelude.Dict
use recur.Prelude.Dict.{Dict, keys, lookup-insert_self, lookup-insert}
use recur.Config.Store.{
  Slot, Struct, zero_config, Store, is_defined, overlay_struct_fields, overlay_structs, set_layers,
  compute_overlay, get_all, get_field, set_field, set_slot, or_zero, is_known_layer, is_assignable,
  StoreError,
}
use recur.Config.Store.RoundTrip.Effective.{
  HasShape, All, LeavesUndefined, effective, lookup-effective,
}

set_layers-append :
    (xs ys : List String) (m : Dict String Struct)
    → set_layers (xs ++ ys) m ≡ set_layers xs m ++ set_layers ys m
unfolding set_layers
set_layers-append [] ys m = refl
set_layers-append (x ∷ xs) ys m = elim (Option-cases (Dict.lookup x m)) [
  | inl h ↦ rw (h, set_layers) (set_layers-append xs ys m)
  | inr (s, h) ↦ rw (h, set_layers) (ap (λ l. s ∷ l) (set_layers-append xs ys m))
]

set_layers-present :
    (x : String) (xs : List String) (m : Dict String Struct) (s : Struct)
    → Dict.lookup x m ≡ some s
    → set_layers (x ∷ xs) m ≡ s ∷ set_layers xs m
unfolding set_layers
set_layers-present x xs m s h = rw (h, set_layers) refl

pub set_layers-All :
    (P : Struct → Type 0) (names : List String) (m : Dict String Struct)
    → ((layer : String) → In layer names → (s : Struct) → Dict.lookup layer m ≡ some s → P s)
    → All P (set_layers names m)
unfolding set_layers
set_layers-All P [] m h = tt
set_layers-All P (x ∷ xs) m h = elim (Option-cases (Dict.lookup x m)) [
  | inl g ↦ rw (g, set_layers) (set_layers-All P xs m (λ layer i. h layer (inr i)))
  | inr (s, g) ↦
      rw (g, set_layers) (h x (inl refl) s g, set_layers-All P xs m (λ layer i. h layer (inr i)))
]

keys-insert :
    (k : String) (v w : Slot) (s : Struct)
    → Dict.lookup k s ≡ some v
    → keys (Dict.insert k w s) ≡ keys s
unfolding Dict.lookup Dict.insert
keys-insert k v w [] h = absurd (cc h)
keys-insert k v w ((j, u) ∷ s) h = elim (Bool-cases (j == k)) [
  | inl e ↦ rw e (ap (λ i. i ∷ keys s) (sym ((String_eq.decides j k).0 e)))
  | inr e ↦ rw e (ap (λ l. j ∷ l) (keys-insert k v w s (rw e at h)))
]

-- Every layer of the store has the fields of Config.
abbrev pub AreConfigs : Store → Type 0
AreConfigs r = (layer : String) (s : Struct) → Dict.lookup layer r.layers ≡ some s → HasShape s

-- None of the layers defines the field.
abbrev pub LeaveUndefined : String → List String → Store → Type 0
LeaveUndefined name names r =
    (layer : String)
    → In layer names
    → (s : Struct) → Dict.lookup layer r.layers ≡ some s
    → LeavesUndefined name s

or_zero-HasShape :
    (o : Option Struct) → ((s : Struct) → o ≡ some s → HasShape s) → HasShape (or_zero o)
unfolding or_zero
or_zero-HasShape none h = refl
or_zero-HasShape (some s) h = h s refl

some_eq : {x y : Struct} → ◌≡◌ {A = Option Struct} (some x) (some y) → x ≡ y
some_eq h = cc h

-- The store after SetField has written the field
abbrev written : String → String → Slot → Store → Store
written layer name new r =
    let struct = or_zero (Dict.lookup layer r.layers) in
    record r {
      layers = Dict.insert layer (Dict.insert name new struct) (Dict.insert layer struct r.layers);
      overlay_cache = none;
    }

set_slot_done :
    (layer name : String) (new : Slot) (struct : Struct) (o : Option Slot) (r : Store)
    → (set_slot layer name new struct o r).1 ≡ none
    → ((old : Slot) × (o ≡ some old))
      × ((set_slot layer name new struct o r).0 ≡ record r {
        layers = Dict.insert layer (Dict.insert name new struct) r.layers;
        overlay_cache = none;
      })
unfolding set_slot
set_slot_done layer name new struct none r h = absurd (cc h)
set_slot_done layer name new struct (some old) r h = elim (Bool-cases (is_assignable new old)) [
  | inl e ↦ ((old, refl), rw e refl)
  | inr e ↦ absurd (apart (rw e at h))
]
  where
    apart : {x : StoreError} → ◌≡◌ {A = Option StoreError} (some x) none → ⊥
    apart p = cc p

set_field_done :
    (layer name : String) (new : Slot) (r : Store)
    → (set_field layer name new r).1 ≡ none
    → ((old : Slot) × (Dict.lookup name (or_zero (Dict.lookup layer r.layers)) ≡ some old))
      × ((set_field layer name new r).0 ≡ written layer name new r)
unfolding set_field
set_field_done layer name new r h = elim (Bool-cases (is_known_layer r layer)) [
  | inl e ↦ rw e (set_slot_done layer name new _ _ _ (rw e at h))
  | inr e ↦ absurd (apart (rw e at h))
]
  where
    apart : {x : StoreError} → ◌≡◌ {A = Option StoreError} (some x) none → ⊥
    apart p = cc p

lookup-written :
    (layer name l : String) (new : Slot) (r : Store)
    → Dict.lookup l (written layer name new r).layers ≡ (
        if layer == l
        then some (Dict.insert name new (or_zero (Dict.lookup layer r.layers)))
        else Dict.lookup l r.layers)
lookup-written layer name l new r = lookup-insert layer l _ _ ∙ elim (Bool-cases (layer == l)) [
  | inl e ↦ rw e refl
  | inr e ↦ rw e (lookup-insert layer l _ _ ∙ rw e refl)
]

-- A field that SetField sets to a defined value in a layer is what GetField then reads, if no layer after
-- it defines the field, whatever the layers before it hold.
pub get_field-set_field :
    (name layer : String) (before after : List String) (new : Slot) (r : Store)
    → r.layer_names ≡ before ++ layer ∷ after
    → AreConfigs r
    → ((l : String) → In l after → (layer == l) ≡ false)
    → LeaveUndefined name after r
    → is_defined new ≡ true
    → (set_field layer name new r).1 ≡ none
    → (get_field name (set_field layer name new r).0).1 ≡ some new
unfolding get_field get_all compute_overlay
get_field-set_field name layer before after new r names configs apart undefined_after defined ok =
    ap (λ x. (get_field name x).1) done.1
    ∙ ap (λ ls. Dict.lookup name (effective ls)) split
    ∙ lookup-effective name new (set_layers before m) (set_layers after m) struct
        (set_layers-All HasShape before m (λ l i s h. shaped l s h)) struct_shape
        (lookup-insert_self name new old) defined
        (set_layers-All (LeavesUndefined name) after m (λ l i s h. undefined_after l i s (
          sym (ap (λ b. if b then some struct else Dict.lookup l r.layers) (apart l i))
          ∙ sym (lookup-written layer name l new r)
          ∙ h)))
  where
    old : Struct
    old = or_zero (Dict.lookup layer r.layers)

    struct : Struct
    struct = Dict.insert name new old

    m : Dict String Struct
    m = (written layer name new r).layers

    done :
        ((v : Slot) × (Dict.lookup name old ≡ some v))
        × ((set_field layer name new r).0 ≡ written layer name new r)
    done = set_field_done layer name new r ok

    struct_shape : HasShape struct
    struct_shape =
        keys-insert name done.0.0 new old done.0.1
        ∙ or_zero-HasShape (Dict.lookup layer r.layers) (λ s h. configs layer s h)

    shaped : (l : String) (s : Struct) → Dict.lookup l m ≡ some s → HasShape s
    shaped l s h = elim (Bool-cases (layer == l)) [
      | inl e ↦
          subst HasShape
            (some_eq (
              sym (ap (λ b. if b then some struct else Dict.lookup l r.layers) e)
              ∙ sym (lookup-written layer name l new r)
              ∙ h))
            struct_shape
      | inr e ↦ configs l s (
          sym (ap (λ b. if b then some struct else Dict.lookup l r.layers) e)
          ∙ sym (lookup-written layer name l new r)
          ∙ h)
    ]

    at_layer : set_layers (layer ∷ after) m ≡ struct ∷ set_layers after m
    at_layer = set_layers-present layer after m struct (lookup-insert_self layer struct _)

    split : set_layers r.layer_names m ≡ set_layers before m ++ struct ∷ set_layers after m
    split =
        ap (λ l. set_layers l m) names
        ∙ set_layers-append before (layer ∷ after) m
        ∙ ap (λ l. set_layers before m ++ l) at_layer
