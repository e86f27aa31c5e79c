-- ===== src/Prelude/Lists.antt =====
-- Lists measured and indexed by native numbers, and a few predicates by recursion.
use Prim.Native.Nat.{ℕ, zero, suc, ◌+◌, ◌<◌}
use mathlib.Core.Path.{◌≡◌, refl, ap}
use mathlib.Core.Logic.{◌⊎◌, inl, inr}
use mathlib.Core.Bool.{Bool, true}
use mathlib.Core.List.{List, [], ◌∷◌, ◌++◌}
use mathlib.Core.Option.{Option, none, some}
use native.Mathlib.Omega.{arith}
use recur.Prelude.Tests.{if◌then◌else◌, Bool-cases}

module _ {ℓ} {A : Type ℓ} where
  abbrev pub length : List A → ℕ
  length [] = 0
  length (x ∷ xs) = suc (length xs)

  abbrev pub get_elem? : List A → ℕ → Option A
  get_elem? [] i = none
  get_elem? (x ∷ xs) zero = some x
  get_elem? (x ∷ xs) (suc i) = get_elem? xs i

  -- The items that pass a test, in order: Go's filtering loop.
  unfoldable pub keep : (A → Bool) → List A → List A
  keep p [] = []
  keep p (x ∷ xs) = let rest = keep p xs in if p x then x ∷ rest else rest

  pub length-append : (xs ys : List A) → length (xs ++ ys) ≡ length xs + length ys
  length-append [] ys = omega arith
  length-append (x ∷ xs) ys = omega (arith, length-append xs ys)

  pub get_elem?-lt : (xs : List A) (i : ℕ) {a : A} → get_elem? xs i ≡ some a → i < length xs
  get_elem?-lt [] i h = cc
  get_elem?-lt (x ∷ xs) zero h = omega arith
  get_elem?-lt (x ∷ xs) (suc i) h = omega (arith, get_elem?-lt xs i h)

  pub get_elem?-append_left :
      (xs ys : List A) (i : ℕ) {a : A} → get_elem? xs i ≡ some a → get_elem? (xs ++ ys) i ≡ some a
  get_elem?-append_left [] ys i h = cc
  get_elem?-append_left (x ∷ xs) ys zero h = h
  get_elem?-append_left (x ∷ xs) ys (suc i) h = get_elem?-append_left xs ys i h

  pub get_elem?-append_last : (xs : List A) (y : A) → get_elem? (xs ++ y ∷ []) (length xs) ≡ some y
  get_elem?-append_last [] y = refl
  get_elem?-append_last (x ∷ xs) y = get_elem?-append_last xs y

  -- What stands in a list with one more item at its end.
  pub get_elem?-append_cases :
      (xs : List A) (y : A) (i : ℕ) {a : A}
      → get_elem? (xs ++ y ∷ []) i ≡ some a
      → (get_elem? xs i ≡ some a) ⊎ (i ≡ length xs) × (a ≡ y)
  get_elem?-append_cases [] y zero h = ground arith
  get_elem?-append_cases [] y (suc i) h = cc
  get_elem?-append_cases (x ∷ xs) y zero h = inl h
  get_elem?-append_cases (x ∷ xs) y (suc i) h = elim (get_elem?-append_cases xs y i h) [
    | inl p ↦ inl p
    | inr q ↦ inr (ap suc q.0, q.1)
  ]

module _ {A : Type 0} where
  -- `x` stands in the list.
  abbrev pub In : A → List A → Type 0
  In x [] = ⊥
  In x (y ∷ ys) = (x ≡ y) ⊎ In x ys

  pub In-append_left : (x : A) (xs ys : List A) → In x xs → In x (xs ++ ys)
  In-append_left x [] ys h = absurd h
  In-append_left x (z ∷ xs) ys (inl p) = inl p
  In-append_left x (z ∷ xs) ys (inr p) = inr (In-append_left x xs ys p)

  pub In-append_right : (x : A) (xs ys : List A) → In x ys → In x (xs ++ ys)
  In-append_right x [] ys h = h
  In-append_right x (z ∷ xs) ys h = inr (In-append_right x xs ys h)

  pub In-append_cases : (x : A) (xs ys : List A) → In x (xs ++ ys) → In x xs ⊎ In x ys
  In-append_cases x [] ys h = inr h
  In-append_cases x (z ∷ xs) ys (inl p) = inl (inl p)
  In-append_cases x (z ∷ xs) ys (inr p) = elim (In-append_cases x xs ys p) [
    | inl q ↦ inl (inr q)
    | inr q ↦ inr q
  ]

  pub In-keep : (x : A) (p : A → Bool) (xs : List A) → In x (keep p xs) → In x xs × (p x ≡ true)
  unfolding keep
  In-keep x p [] h = absurd h
  In-keep x p (y ∷ ys) h = elim (Bool-cases (p y)) [
    | inl t ↦ elim (rw t at h) [
      | inl e ↦ (inl e, rw e t)
      | inr r ↦ (inr (In-keep x p ys r).0, (In-keep x p ys r).1)
    ]
    | inr f ↦ let r = In-keep x p ys (rw f at h) in (inr r.0, r.1)
  ]

  pub keep-In : (x : A) (p : A → Bool) (xs : List A) → In x xs → p x ≡ true → In x (keep p xs)
  unfolding keep
  keep-In x p [] h t = absurd h
  keep-In x p (y ∷ ys) (inl e) t = rw (← e) (rw t (inl refl))
  keep-In x p (y ∷ ys) (inr r) t = elim (Bool-cases (p y)) [
    | inl q ↦ rw q (inr (keep-In x p ys r t))
    | inr q ↦ rw q (keep-In x p ys r t)
  ]

-- The predicate holds of every item.
abbrev pub Every : {A : Type 0} → (A → Type 0) → List A → Type 0
Every P [] = Unit {0}
Every P (x ∷ xs) = P x × Every P xs

abbrev pub IsNonempty : {A : Type 0} → List A → Type 0
IsNonempty [] = ⊥
IsNonempty (x ∷ xs) = Unit {0}

pub cons_nil : {A : Type 0} {x : A} {xs : List A} → x ∷ xs ≡ [] → ⊥
cons_nil h = cc h

pub append_nil : {A : Type 0} (xs ys : List A) → xs ++ ys ≡ [] → (xs ≡ []) × (ys ≡ [])
append_nil [] ys h = (refl, h)
append_nil (x ∷ xs) ys h = absurd (cons_nil h)
