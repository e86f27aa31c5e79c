-- ===== src/EntityIndex/Flush.antt =====
-- flush of entity_index.go: the compaction keeps the invariant and the live refs, and clears the
-- marks.
use recur.Prelude.{
  ℕ, suc, String, ◌+◌, ◌≡◌, ◌≢◌, refl, sym, ap, Bool, true, false, some, List, [], ◌∷◌, ◌++◌,
  get_elem?, In, In-append_cases, inl, inr, Bool-cases, if◌then◌else◌, arith, ◌∙◌, ℕ_eq, String_eq,
}
use mathlib.Core.List.{append-nil, append_assoc}
use recur.Prelude.Dict.{Dict, lookup}
use recur.EntityIndex.{EntityRef, EntityIndex, marked, add, flush_loop, flush}
use recur.EntityIndex.Live.{live_from, live, In-live_from, shift, first}
use recur.EntityIndex.WellFormed.{
  IsWellFormed, IsFresh, positions, live-add, add-IsWellFormed, zero_add, some_eq,
}

-- No two refs of the list have one id.
abbrev pub IsDistinct : List EntityRef → Type 0
IsDistinct [] = Unit {0}
IsDistinct (ref ∷ refs) = ((r : EntityRef) → In r refs → r.id ≢ ref.id) × IsDistinct refs

-- Positions of equal ids are equal, where the refs are not dead.
abbrev Separates : (ℕ → Bool) → ℕ → List EntityRef → Type 0
Separates dead n refs =
    (i j : ℕ) (r s : EntityRef)
    → get_elem? refs i ≡ some r
    → get_elem? refs j ≡ some s
    → dead (n + i) ≡ false
    → dead (n + j) ≡ false
    → r.id ≡ s.id
    → i ≡ j

live_from-IsDistinct :
    (dead : ℕ → Bool) (n : ℕ) (refs : List EntityRef)
    → Separates dead n refs
    → IsDistinct (live_from dead n refs)
unfolding live_from
live_from-IsDistinct dead n [] h = tt
live_from-IsDistinct dead n (ref ∷ refs) h =
    let rest = live_from-IsDistinct dead (suc n) refs (λ i j r s p q a b e.
      suc_eq (h (suc i) (suc j) r s p q (rw (shift n i) at a) (rw (shift n j) at b) e)) in
    elim (Bool-cases (dead n)) [
      | inl d ↦ rw d rest
      | inr a ↦ rw a (
        λ r m e.
            let (j, at, alive) = In-live_from dead (suc n) refs r m in
            absurd
              (suc_zero (h (suc j) 0 r ref at refl (rw (shift n j) at alive) (rw (first n) a) e)),
        rest,
      )
    ]
  where
    suc_eq : {i j : ℕ} → suc i ≡ suc j → i ≡ j
    suc_eq e = omega arith

    suc_zero : {i : ℕ} → suc i ≡ 0 → ⊥
    suc_zero e = omega arith

-- An index is clear if nothing is marked.
abbrev IsClear : EntityIndex → Type 0
IsClear idx = (i : ℕ) → marked idx.deleted i ≡ false

module _ (to_lower : String → String) where
  live-IsDistinct : (idx : EntityIndex) → IsWellFormed to_lower idx → IsDistinct (live idx)
  unfolding live
  live-IsDistinct idx w =
      live_from-IsDistinct (marked idx.deleted) 0 idx.entries λ i j r s p q a b e. some_eq (
        sym (w.id_live i r p (rw (zero_add i) at a))
        ∙ ap (λ k. lookup k idx.by_id) e
        ∙ w.id_live j s q (rw (zero_add j) at b))

  -- The loop appends the live refs, one by one, to what it has.
  abbrev Appends : EntityIndex → List EntityRef → EntityIndex → Type 0
  Appends acc refs idx =
      IsWellFormed to_lower idx
      × (live idx ≡ live acc ++ refs)
      × (idx.deleted ≡ acc.deleted)
      × (idx.flush_at ≡ acc.flush_at)

  module _ (ref : EntityRef) (rest : List EntityRef) (run : EntityIndex → EntityIndex) where
    -- One round of the loop, `run` being the rounds that follow.
    round-Appends :
        (b : Bool) (acc : EntityIndex)
        → ((acc' : EntityIndex)
            → IsWellFormed to_lower acc'
            → IsDistinct rest
            → ((r : EntityRef) → In r rest → IsFresh r.id acc')
            → Appends acc' rest (run acc'))
        → IsWellFormed to_lower acc
        → IsDistinct (if b then rest else ref ∷ rest)
        → ((r : EntityRef) → In r (if b then rest else ref ∷ rest) → IsFresh r.id acc)
        → Appends acc
            (if b then rest else ref ∷ rest)
            (run (if b then acc else add to_lower ref acc))
    round-Appends true acc again w d f = again acc w d f
    round-Appends false acc again w d f =
        let next = add-IsWellFormed to_lower ref acc w (f ref (inl refl)) in
        let (w', l, m, t) = again (add to_lower ref acc) next d.1 fresh in
        (
          w',
          l
              ∙ ap (λ l. l ++ rest) (live-add to_lower ref acc w)
              ∙ append_assoc (live acc) (ref ∷ []) rest,
          m ∙ (unfold add in refl),
          t ∙ (unfold add in refl),
        )
      where
        fresh : (r : EntityRef) → In r rest → IsFresh r.id (add to_lower ref acc)
        fresh r m x h =
            elim (In-append_cases x (live acc) (ref ∷ []) (rw (live-add to_lower ref acc w) at h)) [
              | inl old ↦ f r (inr m) x old
              | inr (inl e) ↦ λ p. d.0 r m (sym p ∙ ap (λ (y : EntityRef). y.id) e)
              | inr (inr z) ↦ absurd z
            ]

  flush_loop-Appends :
      (deleted : Dict ℕ Bool) (i : ℕ) (refs : List EntityRef) (acc : EntityIndex)
      → IsWellFormed to_lower acc
      → IsDistinct (live_from (marked deleted) i refs)
      → ((ref : EntityRef) → In ref (live_from (marked deleted) i refs) → IsFresh ref.id acc)
      → Appends acc (live_from (marked deleted) i refs) (flush_loop to_lower deleted i refs acc)
  unfolding flush_loop live_from
  flush_loop-Appends deleted i [] acc w d f = (w, sym (append-nil (live acc)), refl, refl)
  flush_loop-Appends deleted i (ref ∷ refs) acc w d f =
      round-Appends ref (live_from (marked deleted) (suc i) refs)
        (flush_loop to_lower deleted (suc i) refs) (marked deleted i) acc
        (flush_loop-Appends deleted (suc i) refs) w d f

  -- The index that flush starts from.
  abbrev emptied : EntityIndex → EntityIndex
  emptied idx = record idx { entries = []; by_id = []; by_name = []; deleted = [] }

  emptied-IsWellFormed : (idx : EntityIndex) → IsWellFormed to_lower (emptied idx)
  unfolding lookup positions
  emptied-IsWellFormed idx = record {
    id_sound = λ id i h. cc h;
    id_live = λ i ref at a. cc at;
    name_exact = λ key. refl;
    marks_in_range = λ i d. cc d;
    ids_map = tt;
    marks_map = tt;
  }

  -- flush keeps the invariant and the live refs, and leaves nothing marked.
  pub flush_lem :
      (idx : EntityIndex)
      → IsWellFormed to_lower idx
      → IsWellFormed to_lower (flush to_lower idx)
        × (live (flush to_lower idx) ≡ live idx)
        × ((flush to_lower idx).deleted ≡ [])
        × ((flush to_lower idx).flush_at ≡ idx.flush_at)
  unfolding flush live
  flush_lem idx w =
      flush_loop-Appends idx.deleted 0 idx.entries (emptied idx) (emptied-IsWellFormed idx)
        (live-IsDistinct idx w) (λ ref m r h. absurd h)
