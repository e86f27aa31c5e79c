-- ===== src/Config/Store/RoundTrip/Effective.antt =====
-- The overlay of structs by Store (pkg/config/store.go), one field at a time.
use recur.Prelude.{
  String, ◌≡◌, refl, sym, ap, ◌∙◌, subst, Option, none, some, true, false, List, [], ◌∷◌, ◌++◌,
  ◌==◌, String_eq, if◌then◌else◌, Bool-cases, inl, inr,
}
use recur.Prelude.Dict
use recur.Prelude.Dict.{Dict, keys, lookup-insert_self, lookup-insert}
use recur.Config.Store.{
  Slot, Struct, zero_config, is_defined, overlay_struct_fields, overlay_structs,
}

-- The field of two structs overlaid
abbrev pub over : Option Slot → Option Slot → Option Slot
over (some v) (some w) = some (if is_defined w then w else v)
over none o = none
over (some v) none = some v

pub cons_eq : {x y : String} {xs ys : List String} → x ∷ xs ≡ y ∷ ys → (x ≡ y) × (xs ≡ ys)
cons_eq h = (cc h, cc h)

pub cons_nil : {x : String} {xs : List String} → x ∷ xs ≡ [] → ⊥
cons_nil h = cc h

pub lookup-overlay_struct_fields :
    (name : String) (to from : Struct)
    → keys to ≡ keys from
    → Dict.lookup name (overlay_struct_fields to from)
      ≡ over (Dict.lookup name to) (Dict.lookup name from)
unfolding overlay_struct_fields Dict.lookup
lookup-overlay_struct_fields name [] [] h = refl
lookup-overlay_struct_fields name [] (f ∷ from) h = refl
lookup-overlay_struct_fields name (f ∷ to) [] h = absurd (cons_nil h)
lookup-overlay_struct_fields name ((k, v) ∷ to) ((j, w) ∷ from) h = elim (Bool-cases (k == name)) [
  | inl e ↦ rw (e, subst (λ i. (i == name) ≡ true) (cons_eq h).0 e) refl
  | inr e ↦
      rw (e, subst (λ i. (i == name) ≡ false) (cons_eq h).0 e)
        (lookup-overlay_struct_fields name to from (cons_eq h).1)
]

pub keys-overlay_struct_fields : (to from : Struct) → keys (overlay_struct_fields to from) ≡ keys to
unfolding overlay_struct_fields
keys-overlay_struct_fields [] from = refl
keys-overlay_struct_fields (f ∷ to) [] = refl
keys-overlay_struct_fields ((k, v) ∷ to) ((j, w) ∷ from) =
    ap (λ l. k ∷ l) (keys-overlay_struct_fields to from)

-- The fields of Config, in order
abbrev pub HasShape : Struct → Type 0
HasShape s = keys s ≡ keys zero_config

pub keys-overlay_structs : (s : Struct) (xs : List Struct) → keys (overlay_structs s xs) ≡ keys s
unfolding overlay_structs
keys-overlay_structs s [] = refl
keys-overlay_structs s (x ∷ xs) =
    keys-overlay_structs (overlay_struct_fields s x) xs ∙ keys-overlay_struct_fields s x

-- The predicate holds of every item.
abbrev pub All : (Struct → Type 0) → List Struct → Type 0
All P [] = Unit {0}
All P (x ∷ xs) = P x × All P xs

-- The struct has the fields of Config and leaves the field undefined.
abbrev pub LeavesUndefined : String → Struct → Type 0
LeavesUndefined name s =
    HasShape s × ((v : Slot) × (Dict.lookup name s ≡ some v) × (is_defined v ≡ false))

pub over_undefined :
    (o : Option Slot) (v w : Slot) → o ≡ some v → is_defined w ≡ false → over o (some w) ≡ some v
over_undefined none v w h e = absurd (cc h)
over_undefined (some u) v w h e = rw e h

pub lookup-overlay_structs :
    (name : String) (s : Struct) (w : Slot) (xs : List Struct)
    → HasShape s
    → Dict.lookup name s ≡ some w
    → All (LeavesUndefined name) xs
    → Dict.lookup name (overlay_structs s xs) ≡ some w
unfolding overlay_structs
lookup-overlay_structs name s w [] shape h u = h
lookup-overlay_structs name s w (x ∷ xs) shape h ((x_shape, (v, g, e)), u) =
    lookup-overlay_structs name (overlay_struct_fields s x) w xs
      (keys-overlay_struct_fields s x ∙ shape)
      (lookup-overlay_struct_fields name s x (shape ∙ sym x_shape)
        ∙ ap (over (Dict.lookup name s)) g
        ∙ over_undefined (Dict.lookup name s) w v h e)
      u

pub over_defined :
    (o : Option Slot) (v w : Slot) → o ≡ some v → is_defined w ≡ true → over o (some w) ≡ some w
over_defined none v w h e = absurd (cc h)
over_defined (some u) v w h e = rw e refl

pub lookup-keys :
    (name : String) (s s' : Struct) (w : Slot)
    → keys s ≡ keys s'
    → Dict.lookup name s' ≡ some w
    → (v : Slot) × (Dict.lookup name s ≡ some v)
unfolding Dict.lookup
lookup-keys name s [] w k h = absurd (cc h)
lookup-keys name [] (f ∷ s') w k h = absurd (cons_nil (sym k))
lookup-keys name ((j, v) ∷ s) ((i, u) ∷ s') w k h = elim (Bool-cases (j == name)) [
  | inl e ↦ (v, rw e refl)
  | inr e ↦
      let (v', g) =
        lookup-keys name s s' w (cons_eq k).1
          (rw (subst (λ x. (x == name) ≡ false) (cons_eq k).0 e) at h) in
      (v', rw e g)
]

-- The overlay of the layers that are set
abbrev pub effective : List Struct → Struct
effective ls = elim ls [ [] ↦ zero_config | base ∷ layers ↦ overlay_structs base layers ]

pub overlay_structs-append_list :
    (s : Struct) (xs ys : List Struct)
    → overlay_structs s (xs ++ ys) ≡ overlay_structs (overlay_structs s xs) ys
unfolding overlay_structs
overlay_structs-append_list s [] ys = refl
overlay_structs-append_list s (x ∷ xs) ys =
    overlay_structs-append_list (overlay_struct_fields s x) xs ys

pub lookup-effective :
    (name : String) (w : Slot) (bs cs : List Struct) (f : Struct)
    → All HasShape bs
    → HasShape f
    → Dict.lookup name f ≡ some w
    → is_defined w ≡ true
    → All (LeavesUndefined name) cs
    → Dict.lookup name (effective (bs ++ f ∷ cs)) ≡ some w
unfolding overlay_structs
lookup-effective name w [] cs f bs_shape shape h e u = lookup-overlay_structs name f w cs shape h u
lookup-effective name w (b ∷ bs) cs f (b_shape, bs_shape) shape h e u =
    ap (Dict.lookup name) (overlay_structs-append_list b bs (f ∷ cs))
    ∙ lookup-overlay_structs name (overlay_struct_fields acc f) w cs
        (keys-overlay_struct_fields acc f ∙ acc_shape)
        (lookup-overlay_struct_fields name acc f (acc_shape ∙ sym shape)
          ∙ ap (over (Dict.lookup name acc)) h
          ∙ over_defined (Dict.lookup name acc) present.0 w present.1 e)
        u
  where
    acc : Struct
    acc = overlay_structs b bs

    acc_shape : HasShape acc
    acc_shape = keys-overlay_structs b bs ∙ b_shape

    present : (v : Slot) × (Dict.lookup name acc ≡ some v)
    present = lookup-keys name acc f w (acc_shape ∙ sym shape) h
