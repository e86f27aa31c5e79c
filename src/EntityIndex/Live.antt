-- ===== src/EntityIndex/Live.antt =====
-- The abstract view of entity_index.go: the refs that are not marked as deleted, in order.
use recur.Prelude.{
  ℕ, zero, suc, ◌+◌, ◌≡◌, refl, ap, Bool, false, not, ◌&&◌, some, List, [], ◌∷◌, ◌++◌, length,
  get_elem?, keep, In, inl, inr, Bool-cases, if◌then◌else◌, arith,
}
use recur.EntityIndex.{EntityRef, EntityIndex, marked}

-- The items whose position, counted from `n`, is not dead.
unfoldable pub live_from : (ℕ → Bool) → ℕ → List EntityRef → List EntityRef
live_from dead n [] = []
live_from dead n (ref ∷ refs) =
    let rest = live_from dead (suc n) refs in if dead n then rest else ref ∷ rest

unfoldable pub live : EntityIndex → List EntityRef
unfolding live_from
live idx = live_from (marked idx.deleted) 0 idx.entries

-- A position counted from the next item.
pub shift : (n j : ℕ) → suc n + j ≡ n + suc j
shift n j = omega arith

pub first : (n : ℕ) → n + 0 ≡ n
first n = omega arith

module _ (dead : ℕ → Bool) where
  pub In-live_from :
      (n : ℕ) (refs : List EntityRef) (ref : EntityRef)
      → In ref (live_from dead n refs)
      → (j : ℕ) × (get_elem? refs j ≡ some ref) × (dead (n + j) ≡ false)
  unfolding live_from
  In-live_from n [] ref h = absurd h
  In-live_from n (r ∷ refs) ref h = elim (Bool-cases (dead n)) [
    | inl d ↦
        let (j, at, alive) = In-live_from (suc n) refs ref (rw d at h) in
        (suc j, at, rw (shift n j) at alive)
    | inr a ↦ elim (rw a at h) [
      | inl e ↦ (0, cc e, rw (first n) a)
      | inr t ↦
          let (j, at, alive) = In-live_from (suc n) refs ref t in
          (suc j, at, rw (shift n j) at alive)
    ]
  ]

  pub live_from-In :
      (n : ℕ) (refs : List EntityRef) (j : ℕ) (ref : EntityRef)
      → get_elem? refs j ≡ some ref
      → dead (n + j) ≡ false
      → In ref (live_from dead n refs)
  unfolding live_from
  live_from-In n [] j ref at alive = cc
  live_from-In n (r ∷ refs) zero ref at alive = rw (rw (first n) at alive) (inl (cc at))
  live_from-In n (r ∷ refs) (suc j) ref at alive =
      let rest = live_from-In (suc n) refs j ref at (rw (shift n j) alive) in
      elim (Bool-cases (dead n)) [ inl d ↦ rw d rest | inr a ↦ rw a (inr rest) ]

  pub live_from-append :
      (n : ℕ) (refs : List EntityRef) (ref : EntityRef)
      → dead (n + length refs) ≡ false
      → live_from dead n (refs ++ ref ∷ []) ≡ live_from dead n refs ++ ref ∷ []
  unfolding live_from
  live_from-append n [] ref alive = rw (rw (first n) at alive)
  live_from-append n (r ∷ refs) ref alive =
      let rest = live_from-append (suc n) refs ref (rw (shift n (length refs)) alive) in
      elim (Bool-cases (dead n)) [ inl d ↦ rw d rest | inr a ↦ rw a (ap (λ l. r ∷ l) rest) ]

-- Marking more positions filters the live refs, if the marks agree with a test on the refs.
pub live_from-keep :
    (dead dead' : ℕ → Bool) (q : EntityRef → Bool) (n : ℕ) (refs : List EntityRef)
    → ((j : ℕ) (ref : EntityRef)
        → get_elem? refs j ≡ some ref
        → not (dead' (n + j)) ≡ (not (dead (n + j)) && q ref))
    → live_from dead' n refs ≡ keep q (live_from dead n refs)
unfolding live_from keep
live_from-keep dead dead' q n [] h = refl
live_from-keep dead dead' q n (r ∷ refs) h =
    let rest =
      live_from-keep dead dead' q (suc n) refs (λ j ref at. rw (shift n j) (h (suc j) ref at)) in
    let here : not (dead' n) ≡ (not (dead n) && q r) = rw (first n) at (h 0 r refl) in
    ground (arith, rest, here)
