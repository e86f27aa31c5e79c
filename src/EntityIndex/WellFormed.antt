-- ===== src/EntityIndex/WellFormed.antt =====
-- The invariant of entity_index.go, and that Add and the marking of a deletion keep it.
use recur.Prelude.{
  ℕ, suc, String, ◌+◌, ◌<◌, ◌≡◌, ◌≢◌, refl, sym, ap, true, false, some, List, [], ◌∷◌, ◌++◌, length,
  get_elem?, In, inl, inr, Bool-cases, beq-cases, if◌then◌else◌, arith, ◌∙◌, ◌==◌, ℕ_eq, String_eq,
  get_elem?-append_left, get_elem?-append_last, get_elem?-append_cases, length-append,
}
use recur.Prelude.Dict.{
  Dict, IsMap, lookup, insert, lookup-insert, lookup-insert_self, lookup-insert_ne, insert-IsMap,
}
use recur.EntityIndex.{EntityRef, EntityIndex, marked, indices, add}
use recur.EntityIndex.Live.{live, live_from-append, live_from-In, shift, first}

-- The positions, counted from `n`, of the refs whose name has the key.
unfoldable pub positions : (String → String) → String → ℕ → List EntityRef → List ℕ
positions to_lower key n [] = []
positions to_lower key n (ref ∷ refs) =
    let rest = positions to_lower key (suc n) refs in
    if to_lower ref.name == key then n ∷ rest else rest

-- A mark is read only at an index of `entries`; byID leads every live ref's id to its index, and an
-- id to an entry of that id; byName lists the entries of each lower-case name in order.
pub record IsWellFormed (to_lower : String → String) (idx : EntityIndex) : Type 0 where
  pub id_sound :
      (id : String) (i : ℕ)
      → lookup id idx.by_id ≡ some i
      → (ref : EntityRef) × (get_elem? idx.entries i ≡ some ref) × (ref.id ≡ id)
  pub id_live :
      (i : ℕ) (ref : EntityRef)
      → get_elem? idx.entries i ≡ some ref
      → marked idx.deleted i ≡ false
      → lookup ref.id idx.by_id ≡ some i
  pub name_exact : (key : String) → indices idx.by_name key ≡ positions to_lower key 0 idx.entries
  pub marks_in_range : (i : ℕ) → marked idx.deleted i ≡ true → i < length idx.entries
  pub ids_map : IsMap idx.by_id
  pub marks_map : IsMap idx.deleted

-- No live ref has the id.
abbrev pub IsFresh : String → EntityIndex → Type 0
IsFresh id idx = (ref : EntityRef) → In ref (live idx) → ref.id ≢ id

pub some_eq : {i j : ℕ} → some i ≡ some j → i ≡ j
some_eq h = cc

indices-insert :
    (k j : String) (is : List ℕ) (m : Dict String (List ℕ))
    → indices (insert k is m) j ≡ (if k == j then is else indices m j)
indices-insert k j is m = elim (Bool-cases (k == j)) [
  | inl t ↦ rw (lookup-insert k j is m, indices) (rw t)
  | inr f ↦ rw (lookup-insert k j is m, indices) (rw f)
]

append_nil : (xs : List ℕ) → xs ++ [] ≡ xs
append_nil [] = refl
append_nil (x ∷ xs) = ap (λ l. x ∷ l) (append_nil xs)

pub zero_add : (n : ℕ) → 0 + n ≡ n
zero_add n = omega arith

module _ (to_lower : String → String) where
  positions-append :
      (key : String) (n : ℕ) (refs : List EntityRef) (ref : EntityRef)
      → positions to_lower key n (refs ++ ref ∷ [])
        ≡ positions to_lower key n refs
          ++ (if to_lower ref.name == key then (n + length refs) ∷ [] else [])
  unfolding positions
  positions-append key n [] ref = rw (first n)
  positions-append key n (r ∷ refs) ref =
      let rest = rw (shift n (length refs)) at (positions-append key (suc n) refs ref) in
      elim (Bool-cases (to_lower r.name == key)) [
        | inl d ↦ rw d (ap (λ l. n ∷ l) rest)
        | inr a ↦ rw a rest
      ]

  -- The length of `entries` is no marked index.
  pub end_unmarked :
      {idx : EntityIndex}
      → IsWellFormed to_lower idx
      → marked idx.deleted (length idx.entries) ≡ false
  end_unmarked {idx} w = elim (Bool-cases (marked idx.deleted (length idx.entries))) [
    | inl d ↦ absurd (omega (arith, w.marks_in_range (length idx.entries) d))
    | inr a ↦ a
  ]

  pub live-add :
      (ref : EntityRef) (idx : EntityIndex)
      → IsWellFormed to_lower idx
      → live (add to_lower ref idx) ≡ live idx ++ ref ∷ []
  unfolding live add
  live-add ref idx w =
      live_from-append (marked idx.deleted) 0 idx.entries ref
        (rw (zero_add (length idx.entries)) (end_unmarked w))

  module _ (ref : EntityRef) (idx : EntityIndex) (w : IsWellFormed to_lower idx) where
    add_id_sound :
        (id : String) (i : ℕ)
        → lookup id (add to_lower ref idx).by_id ≡ some i
        → (r : EntityRef) × (get_elem? (add to_lower ref idx).entries i ≡ some r) × (r.id ≡ id)
    unfolding add
    add_id_sound id i h = elim (beq-cases ref.id id) [
      | inl p ↦
          let here : some (length idx.entries) ≡ some i =
            sym (rw p.1 at (lookup-insert ref.id id (length idx.entries) idx.by_id)) ∙ h in
          (ref, rw (← some_eq here) (get_elem?-append_last idx.entries ref), p.0)
      | inr p ↦
          let (r, at, e) =
            w.id_sound id i (sym (lookup-insert_ne (length idx.entries) idx.by_id p.0) ∙ h) in
          (r, get_elem?-append_left idx.entries (ref ∷ []) i at, e)
    ]

    add_id_live :
        IsFresh ref.id idx
        → (i : ℕ) (r : EntityRef) → get_elem? (add to_lower ref idx).entries i ≡ some r
        → marked idx.deleted i ≡ false
        → lookup r.id (add to_lower ref idx).by_id ≡ some i
    unfolding add live
    add_id_live fresh i r at alive = elim (get_elem?-append_cases idx.entries ref i at) [
      | inl old ↦
          lookup-insert_ne (length idx.entries) idx.by_id (λ e.
            fresh r
              (live_from-In (marked idx.deleted) 0 idx.entries i r old (rw (zero_add i) alive))
              (sym e))
          ∙ w.id_live i r old alive
      | inr new ↦ rw (new.1, new.0) (lookup-insert_self ref.id (length idx.entries) idx.by_id)
    ]

    add_name_exact :
        (key : String)
        → indices (add to_lower ref idx).by_name key
          ≡ positions to_lower key 0 (add to_lower ref idx).entries
    unfolding add
    add_name_exact key =
        let i = length idx.entries in
        let k = to_lower ref.name in
        let step = positions-append key 0 idx.entries ref in
        elim (beq-cases k key) [
          | inl p ↦
              rw (indices-insert k key (indices idx.by_name k ++ i ∷ []) idx.by_name)
                (rw step (rw p.1 (rw (p.0, w.name_exact key, zero_add i))))
          | inr p ↦ rw (indices-insert k key (indices idx.by_name k ++ i ∷ []) idx.by_name) (
              rw step (
                rw p.1 (rw (append_nil (positions to_lower key 0 idx.entries)) (w.name_exact key))))
        ]

    -- Add keeps the invariant, if no live ref has the id.
    pub add-IsWellFormed : IsFresh ref.id idx → IsWellFormed to_lower (add to_lower ref idx)
    unfolding add
    add-IsWellFormed fresh = record {
      id_sound = add_id_sound;
      id_live = add_id_live fresh;
      name_exact = add_name_exact;
      marks_in_range =
          λ i d. omega (arith, w.marks_in_range i d, length-append idx.entries (ref ∷ []));
      ids_map = insert-IsMap ref.id (length idx.entries) idx.by_id w.ids_map;
      marks_map = w.marks_map;
    }
