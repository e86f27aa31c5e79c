-- ===== src/EntityIndex/Changes.antt =====
-- Add and Remove of entity_index.go refine a plain list of refs.
use recur.Prelude.{
  ℕ, String, ◌<◌, ◌≡◌, ◌≢◌, refl, sym, ap, Bool, true, false, not, ◌&&◌, none, some, List, [], ◌∷◌,
  ◌++◌, length, leb, get_elem?, keep, In, inl, inr, Bool-cases, beq-cases, if◌then◌else◌, arith,
  ◌∙◌, Option, ℕ_eq, String_eq, ◌==◌, get_elem?-lt,
}
use text.Mathlib.TextEquality.{eq_iff}
use recur.Prelude.Dict.{Dict, lookup, insert, lookup-insert, insert-IsMap}
use recur.EntityIndex.{EntityRef, EntityIndex, marked, add, mark, remove, new_entity_index}
use recur.EntityIndex.Live.{live, live_from-keep}
use recur.EntityIndex.WellFormed.{
  IsWellFormed, positions, live-add, add-IsWellFormed, zero_add, some_eq,
}
use recur.EntityIndex.Flush.{flush_lem}

marked-insert :
    (i j : ℕ) (deleted : Dict ℕ Bool)
    → marked (insert i true deleted) j ≡ (if i == j then true else marked deleted j)
marked-insert i j deleted = elim (Bool-cases (i == j)) [
  | inl t ↦ rw (lookup-insert i j true deleted, marked) (rw t)
  | inr f ↦ rw (lookup-insert i j true deleted, marked) (rw f)
]

-- The test by which the abstract list drops an id.
abbrev pub other_id : String → EntityRef → Bool
other_id id ref = not (ref.id == id)

-- The index stands for the list, and fewer entries are marked than the threshold.
pub record Represents (to_lower : String → String) (idx : EntityIndex) (refs : List EntityRef)
    : Type 0 where
  pub well_formed : IsWellFormed to_lower idx
  pub lives : live idx ≡ refs
  pub pending : length idx.deleted < idx.flush_at

module _ (to_lower : String → String) (idx : EntityIndex) (w : IsWellFormed to_lower idx) where
  -- The marked index keeps all but the pending bound.
  module _ (id : String) (i : ℕ) (found : lookup id idx.by_id ≡ some i) where
    abbrev with_mark : EntityIndex
    with_mark = record idx { deleted = insert i true idx.deleted }

    with_mark_range : (j : ℕ) → marked with_mark.deleted j ≡ true → j < length idx.entries
    with_mark_range j d = elim (beq-cases i j) [
      | inl p ↦
          let (ref, at, e) = w.id_sound id i found in rw (← p.0) (get_elem?-lt idx.entries i at)
      | inr p ↦ w.marks_in_range j (sym (rw p.1 at (marked-insert i j idx.deleted)) ∙ d)
    ]

    with_mark_alive : (j : ℕ) → marked with_mark.deleted j ≡ false → marked idx.deleted j ≡ false
    with_mark_alive j a = ground (arith, marked-insert i j idx.deleted)

    with_mark-IsWellFormed : IsWellFormed to_lower with_mark
    with_mark-IsWellFormed = record {
      id_sound = w.id_sound;
      id_live = λ j ref at a. w.id_live j ref at (with_mark_alive j a);
      name_exact = w.name_exact;
      marks_in_range = with_mark_range;
      ids_map = w.ids_map;
      marks_map = insert-IsMap i true idx.deleted w.marks_map;
    }

    -- The entry at the marked index has the id, and no other live entry has it.
    id_at_mark :
        (j : ℕ) (ref : EntityRef)
        → get_elem? idx.entries j ≡ some ref
        → i ≡ j
        → (ref.id == id) ≡ true
    id_at_mark j ref at p =
        let (r, here, e) = w.id_sound id i found in
        let same : some r ≡ some ref = sym here ∙ ap (get_elem? idx.entries) p ∙ at in
        (eq_iff ref.id id).1 (cc (same, e))

    id_elsewhere :
        (j : ℕ) (ref : EntityRef)
        → get_elem? idx.entries j ≡ some ref
        → i ≢ j
        → marked idx.deleted j ≡ false
        → (ref.id == id) ≡ false
    id_elsewhere j ref at p a = elim (Bool-cases (ref.id == id)) [
      | inl t ↦ absurd (
          p (
            some_eq (
              sym found
              ∙ ap (λ k. lookup k idx.by_id) (sym ((eq_iff ref.id id).0 t))
              ∙ w.id_live j ref at a)))
      | inr f ↦ f
    ]

    with_mark_agrees :
        (j : ℕ) (ref : EntityRef)
        → get_elem? idx.entries j ≡ some ref
        → not (marked with_mark.deleted j) ≡ (not (marked idx.deleted j) && other_id id ref)
    with_mark_agrees j ref at = elim (beq-cases i j) [
      | inl p ↦ ground (arith, marked-insert i j idx.deleted, id_at_mark j ref at p.0)
      | inr p ↦ ground (arith, marked-insert i j idx.deleted, id_elsewhere j ref at p.0)
    ]

    live-with_mark : live with_mark ≡ keep (other_id id) (live idx)
    unfolding live
    live-with_mark =
        live_from-keep (marked idx.deleted) (marked with_mark.deleted) (other_id id) 0 idx.entries
          λ j ref at. rw (zero_add j) (with_mark_agrees j ref at)

  absent_agrees :
      (id : String)
      → lookup id idx.by_id ≡ none
      → (j : ℕ) (ref : EntityRef) → get_elem? idx.entries j ≡ some ref
      → not (marked idx.deleted j) ≡ (not (marked idx.deleted j) && other_id id ref)
  absent_agrees id absent j ref at = elim (Bool-cases (ref.id == id)) [
    | inl t ↦
        ground
          (arith, w.id_live j ref at, absent, ap (λ k. lookup k idx.by_id) ((eq_iff ref.id id).0 t))
    | inr f ↦ ground arith
  ]

  live_absent :
      (id : String) → lookup id idx.by_id ≡ none → live idx ≡ keep (other_id id) (live idx)
  unfolding live
  live_absent id absent =
      live_from-keep (marked idx.deleted) (marked idx.deleted) (other_id id) 0 idx.entries
        λ j ref at. rw (zero_add j) (absent_agrees id absent j ref at)

module _ (to_lower : String → String) where
  -- The two ends of Remove: the threshold is not reached, or it is and the index is compacted.
  mark-Represents :
      (o : Option ℕ) (id : String) (idx : EntityIndex)
      → lookup id idx.by_id ≡ o
      → IsWellFormed to_lower idx
      → length idx.deleted < idx.flush_at
      → Represents to_lower (mark to_lower o idx) (keep (other_id id) (live idx))
  unfolding mark
  mark-Represents none id idx e w p = record {
    well_formed = w;
    lives = live_absent to_lower idx w id e;
    pending = p;
  }
  mark-Represents (some i) id idx e w p =
      elim (Bool-cases (leb idx.flush_at (length (insert i true idx.deleted)))) [
        | inl full ↦
            let m = with_mark to_lower idx w id i e in
            let (w', l, d, t) =
              flush_lem to_lower m (with_mark-IsWellFormed to_lower idx w id i e) in
            rw full (record {
              well_formed = w';
              lives = l ∙ live-with_mark to_lower idx w id i e;
              pending = rw (d, t) (omega arith);
            })
        | inr room ↦ rw room (record {
          well_formed = with_mark-IsWellFormed to_lower idx w id i e;
          lives = live-with_mark to_lower idx w id i e;
          pending = ground arith;
        })
      ]

  -- Remove takes the id out of the list, whether it marks an entry, compacts the index, or finds
  -- nothing.
  pub remove-Represents :
      (id : String) (idx : EntityIndex) (refs : List EntityRef)
      → Represents to_lower idx refs
      → Represents to_lower (remove to_lower id idx) (keep (other_id id) refs)
  unfolding remove
  remove-Represents id idx refs h =
      rw (← h.lives) (mark-Represents (lookup id idx.by_id) id idx refl h.well_formed h.pending)

  -- Add appends the ref, if no listed ref has its id.
  pub add-Represents :
      (ref : EntityRef) (idx : EntityIndex) (refs : List EntityRef)
      → ((r : EntityRef) → In r refs → r.id ≢ ref.id)
      → Represents to_lower idx refs
      → Represents to_lower (add to_lower ref idx) (refs ++ ref ∷ [])
  unfolding add
  add-Represents ref idx refs fresh h = record {
    well_formed =
        add-IsWellFormed to_lower ref idx h.well_formed (λ r m. fresh r (rw h.lives at m));
    lives = live-add to_lower ref idx h.well_formed ∙ ap (λ l. l ++ ref ∷ []) h.lives;
    pending = h.pending;
  }

  pub new-Represents : Represents to_lower new_entity_index []
  unfolding live lookup positions
  new-Represents = record {
    well_formed = record {
      id_sound = λ id i h. cc h;
      id_live = λ i ref at a. cc at;
      name_exact = λ key. refl;
      marks_in_range = λ i d. cc d;
      ids_map = tt;
      marks_map = tt;
    };
    lives = refl;
    pending = omega arith;
  }
