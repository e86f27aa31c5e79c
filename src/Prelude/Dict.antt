-- ===== src/Prelude/Dict.antt =====
-- A Go map as its list of entries, the order of the list being one order in which `range` may visit
-- them. `insert` writes over an entry of the same key in its place.
use recur.Prelude.Tests.{Eq, ◌==◌, if◌then◌else◌, beq-cases, beq_refl}
use recur.Prelude.Lists.{In, length}
use Prim.Native.Nat.{◌≤◌, ◌+◌}
use mathlib.Core.Path.{◌≡◌, refl, sym, ◌∙◌}
use mathlib.Core.Logic.{◌≢◌, inl, inr}
use mathlib.Core.Option.{Option, none, some}
use mathlib.Core.List.{List, [], ◌∷◌}
use native.Mathlib.Omega.{arith}

abbrev pub Dict : Type 0 → Type 0 → Type 0
Dict K V = List (K × V)

module _ {K V : Type 0} ⦃e : Eq K⦄ where
  -- v, ok := m[k]
  unfoldable pub lookup : K → Dict K V → Option V
  lookup k [] = none
  lookup k ((j, v) ∷ m) = if j == k then some v else lookup k m

  -- m[k] = v
  unfoldable pub insert : K → V → Dict K V → Dict K V
  insert key new [] = (key, new) ∷ []
  insert key new ((j, old) ∷ m) = if j == key then (key, new) ∷ m else (j, old) ∷ insert key new m

  -- delete(m, k)
  unfoldable pub remove : K → Dict K V → Dict K V
  remove k [] = []
  remove k ((j, v) ∷ m) = let rest = remove k m in if j == k then rest else (j, v) ∷ rest

  -- Every key has one entry.
  abbrev pub IsMap : Dict K V → Type 0
  IsMap [] = Unit {0}
  IsMap ((k, v) ∷ m) = (lookup k m ≡ none) × IsMap m

  pub lookup-insert :
      (k key : K) (new : V) (m : Dict K V)
      → lookup key (insert k new m) ≡ (if k == key then some new else lookup key m)
  unfolding lookup insert
  lookup-insert k key new [] = refl
  lookup-insert k key new ((i, old) ∷ m) =
      ground (arith, e.decides k key, e.decides i k, e.decides i key, lookup-insert k key new m)

  pub lookup-remove :
      (k j : K) (m : Dict K V) → lookup j (remove k m) ≡ (if k == j then none else lookup j m)
  unfolding lookup remove
  lookup-remove k j [] = ground arith
  lookup-remove k j ((i, w) ∷ m) =
      ground (arith, e.decides k j, e.decides i k, e.decides i j, lookup-remove k j m)

  pub lookup-insert_self : (k : K) (v : V) (m : Dict K V) → lookup k (insert k v m) ≡ some v
  lookup-insert_self k v m = rw (lookup-insert k k v m) (rw (beq_refl k))

  pub lookup-insert_ne :
      {k j : K} (v : V) (m : Dict K V) → k ≢ j → lookup j (insert k v m) ≡ lookup j m
  lookup-insert_ne {k} {j} v m h = ground (arith, lookup-insert k j v m, e.decides k j)

  pub lookup-remove_self : (k : K) (m : Dict K V) → lookup k (remove k m) ≡ none
  lookup-remove_self k m = rw (lookup-remove k k m) (rw (beq_refl k))

  pub lookup-remove_ne : {k j : K} (m : Dict K V) → k ≢ j → lookup j (remove k m) ≡ lookup j m
  lookup-remove_ne {k} {j} m h = ground (arith, lookup-remove k j m, e.decides k j)

  pub insert-IsMap : (k : K) (v : V) (m : Dict K V) → IsMap m → IsMap (insert k v m)
  unfolding insert lookup
  insert-IsMap k v [] h = (refl, tt)
  insert-IsMap k v ((j, w) ∷ m) h = elim (beq-cases j k) [
    | inl p ↦ rw p.1 (rw (← p.0) h.0, h.1)
    | inr p ↦ rw p.1 (lookup-insert_ne v m (λ q. p.0 (sym q)) ∙ h.0, insert-IsMap k v m h.1)
  ]

  pub remove-IsMap : (k : K) (m : Dict K V) → IsMap m → IsMap (remove k m)
  unfolding remove lookup
  remove-IsMap k [] h = tt
  remove-IsMap k ((j, w) ∷ m) h = elim (beq-cases j k) [
    | inl p ↦ rw p.1 (remove-IsMap k m h.1)
    | inr p ↦ rw p.1 (lookup-remove_ne m (λ q. p.0 (sym q)) ∙ h.0, remove-IsMap k m h.1)
  ]

  -- What `range` visits is what the map holds.
  pub lookup-In : (k : K) {v : V} (m : Dict K V) → lookup k m ≡ some v → In (k, v) m
  unfolding lookup
  lookup-In k [] h = cc
  lookup-In k {v} ((j, w) ∷ m) h = elim (beq-cases j k) [
    | inl p ↦ inl (cc (p.0, rw p.1 at h))
    | inr p ↦ inr (lookup-In k m (rw p.1 at h))
  ]

  pub In-lookup : (k : K) (v : V) (m : Dict K V) → IsMap m → In (k, v) m → lookup k m ≡ some v
  unfolding lookup
  In-lookup k v [] h i = absurd i
  In-lookup k v ((j, w) ∷ m) h (inl p) = let q : j ≡ k = cc p in rw ((e.decides j k).1 q) (cc p)
  In-lookup k v ((j, w) ∷ m) h (inr p) = elim (beq-cases j k) [
    | inl q ↦ absurd (clash (In-lookup k v m h.1 p) (rw q.0 at h.0))
    | inr q ↦ rw q.1 (In-lookup k v m h.1 p)
  ]
    where
      clash : lookup k m ≡ some v → lookup k m ≡ none → ⊥
      clash a b = cc

  pub length-insert : (k : K) (v : V) (m : Dict K V) → length (insert k v m) ≤ length m + 1
  unfolding insert
  length-insert k v [] = omega arith
  length-insert k v ((j, w) ∷ m) = ground (arith, length-insert k v m)

-- The keys, in the order of the entries
abbrev pub keys : {K V : Type 0} → Dict K V → List K
keys [] = []
keys ((k, v) ∷ m) = k ∷ keys m
