-- ===== src/EntityIndex/Resolution.antt =====
-- Lookup of entity_index.go against the list of refs that the index stands for.
pub mod Scan
use Prim.Native.String.{len}
use mathlib.Core.Bool.{false≢true}
use recur.Prelude.{
  ℕ, suc, String, ◌+◌, ◌≡◌, ◌≢◌, ◌↔◌, ◌⊎◌, refl, sym, ap, Bool, true, false, not, ◌&&◌, none, some,
  List, [], ◌∷◌, leb, get_elem?, keep, In, inl, inr, Bool-cases, if◌then◌else◌, arith, ◌∙◌, Option,
  ℕ_eq, String_eq, ◌==◌,
}
use recur.Prelude.Dict.{Dict, lookup, lookup-In, In-lookup}
use recur.EntityIndex.{
  EntityRef, EntityIndex, marked, indices, deref, has_prefix, prefix_hits, first_nonempty,
  lookup_name, lookup_hit, resolve,
}
use recur.EntityIndex.Live.{live_from, live, live_from-In, In-live_from, shift, first}
use recur.EntityIndex.WellFormed.{IsWellFormed, positions, zero_add, some_eq}
use recur.EntityIndex.Changes.{Represents}
use recur.EntityIndex.Resolution.Scan.{
  by_exact_id, by_given_name, by_id_prefix, has_name, HasNoId, Resolves, deref_one, deref-positions,
  Taken, Scans, scan,
}

module _ (to_lower : String → String) (identifier : String) (idx : EntityIndex)
    (w : IsWellFormed to_lower idx) where
  -- A live ref of the id is what byID leads to.
  not_hit :
      ((i : ℕ) → lookup identifier idx.by_id ≡ some i → marked idx.deleted i ≡ true)
      → HasNoId identifier (live idx)
  unfolding live
  not_hit h r m e =
      let (j, at, alive) = In-live_from (marked idx.deleted) 0 idx.entries r m in
      let here = rw (zero_add j) at alive in
      false≢true (sym here ∙ h j (ap (λ k. lookup k idx.by_id) (sym e) ∙ w.id_live j r at here))

  scan_index : Scans (get_elem? idx.entries) idx.deleted identifier idx.by_id
  scan_index =
      scan (get_elem? idx.entries) idx.deleted identifier idx.by_id
        λ id i m. w.id_sound id i (In-lookup id i idx.by_id w.ids_map m)

  Taken-live :
      (ref : EntityRef)
      → Taken (get_elem? idx.entries) idx.deleted identifier idx.by_id ref
        ↔ (In ref (live idx) × (has_prefix identifier ref.id ≡ true))
  unfolding live
  Taken-live ref = (
    λ (i, m, at, alive, p).
        (live_from-In (marked idx.deleted) 0 idx.entries i ref at (rw (zero_add i) alive), p),
    λ (m, p).
        let (j, at, alive) = In-live_from (marked idx.deleted) 0 idx.entries ref m in
        let here = rw (zero_add j) at alive in
        (j, lookup-In ref.id idx.by_id (w.id_live j ref at here), at, here, p),
  )

  reads_named :
      deref
        (get_elem? idx.entries)
        (keep (λ i. not (marked idx.deleted i)) (indices idx.by_name (to_lower identifier)))
      ≡ some (keep (has_name to_lower identifier) (live idx))
  unfolding live
  reads_named =
      ap (λ is. deref (get_elem? idx.entries) (keep (λ i. not (marked idx.deleted i)) is))
        (w.name_exact (to_lower identifier))
      ∙ deref-positions to_lower (get_elem? idx.entries) (marked idx.deleted) identifier 0
          idx.entries (λ j. ap (get_elem? idx.entries) (zero_add j))

  -- What the prefix scan returns, with its bound on the length.
  abbrev ByPrefix : Option (List EntityRef) → Type 0
  ByPrefix o =
      (found : List EntityRef) × (o ≡ some found)
      × ((ref : EntityRef)
          → In ref found
            ↔ (In ref (live idx) × (leb 3 (len identifier) && has_prefix identifier ref.id ≡ true)))

  reads_prefix :
      (b : Bool)
      → leb 3 (len identifier) ≡ b
      → ByPrefix (
          if b
          then deref (get_elem? idx.entries) (prefix_hits identifier idx.deleted idx.by_id)
          else some [])
  reads_prefix true long =
      let (found, reads, taken) = scan_index in
      (
        found,
        reads,
        λ ref. (
          λ q. let (m, p) = (Taken-live ref).0 ((taken ref).0 q) in (m, rw (long, p)),
          λ k. (taken ref).1 ((Taken-live ref).1 (k.0, rw long at k.1)),
        ),
      )
  reads_prefix false short = ([], refl, λ ref. (λ q. absurd q, λ k. false≢true (rw short at k.1)))

  choose :
      (named : List EntityRef) (next : Option (List EntityRef))
      → keep (has_name to_lower identifier) (live idx) ≡ named
      → HasNoId identifier (live idx)
      → ByPrefix next
      → (found : List EntityRef) × (first_nonempty (some named) next ≡ some found)
        × Resolves to_lower identifier (live idx) found
  unfolding first_nonempty
  choose [] next e no_id (found, reads, taken) = (found, reads, by_id_prefix no_id e taken)
  choose (r ∷ rs) next e no_id p = (r ∷ rs, refl, by_given_name no_id (sym e) (λ q. cc q))

  -- Steps 2 and 3, once no live ref has the id.
  lookup_name_lem :
      HasNoId identifier (live idx)
      → (found : List EntityRef) × (lookup_name to_lower identifier idx ≡ some found)
        × Resolves to_lower identifier (live idx) found
  unfolding lookup_name
  lookup_name_lem no_id = rw reads_named (
      choose (keep (has_name to_lower identifier) (live idx)) _ refl no_id
        (reads_prefix (leb 3 (len identifier)) refl))

  hit_lem :
      (o : Option ℕ)
      → lookup identifier idx.by_id ≡ o
      → (found : List EntityRef) × (lookup_hit to_lower o identifier idx ≡ some found)
        × Resolves to_lower identifier (live idx) found
  unfolding lookup_hit
  hit_lem none e = lookup_name_lem (not_hit (λ i q. cc (e, q)))
  hit_lem (some i) e = elim (Bool-cases (marked idx.deleted i)) [
    | inl d ↦ rw d (lookup_name_lem (not_hit (λ j q. rw (some_eq (sym q ∙ e)) d)))
    | inr a ↦
        let (ref, at, same) = w.id_sound identifier i e in
        (
          ref ∷ [],
          rw a (deref_one (get_elem? idx.entries) i ref at),
          by_exact_id ref
              (unfold live in
                live_from-In (marked idx.deleted) 0 idx.entries i ref at (rw (zero_add i) a))
              same refl,
        )
  ]

-- Lookup never reads out of range, and returns what the identifier resolves to in the list of refs
-- that the index stands for.
pub resolve-Resolves :
    (to_lower : String → String) (identifier : String) (idx : EntityIndex) (refs : List EntityRef)
    → Represents to_lower idx refs
    → (found : List EntityRef) × (resolve to_lower identifier idx ≡ some found)
      × Resolves to_lower identifier refs found
unfolding resolve
resolve-Resolves to_lower identifier idx refs h =
    rw (← h.lives)
      (hit_lem to_lower identifier idx h.well_formed (lookup identifier idx.by_id) refl)
