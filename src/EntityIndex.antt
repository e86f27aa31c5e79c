-- ===== src/EntityIndex.antt =====
-- src/app/recurd/daemon/entity_index.go: the index that resolves an identifier typed by a user to
-- registered entities. `strings.ToLower` is the parameter `to_lower`: the index uses it only to
-- compute keys. A mutex guards every method, so a method is a function from index to index.
pub mod Live
pub mod WellFormed
pub mod Changes
pub mod Flush
pub mod Resolution
pub mod Tests
use Prim.Native.String.{len, slice}
use recur.Prelude.{
  ℕ, zero, suc, String, Option, none, some, Bool, true, false, not, ◌&&◌, List, [], ◌∷◌, ◌++◌,
  length, get_elem?, keep, leb, ◌==◌, ℕ_eq, String_eq, if◌then◌else◌,
}
use recur.Prelude.Dict.{Dict, lookup, insert}

-- EntityRef
pub record EntityRef : Type 0 where
  pub entity_type : String
  pub id : String
  pub name : String

-- entityIndex. The pointers in `entries` are never nil: `Add` and `flush` store addresses of refs.
pub record EntityIndex : Type 0 where
  pub entries : List EntityRef
  pub by_id : Dict String ℕ
  pub by_name : Dict String (List ℕ)
  pub deleted : Dict ℕ Bool
  pub flush_at : ℕ

-- newEntityIndex
abbrev pub new_entity_index : EntityIndex
new_entity_index = record { entries = []; by_id = []; by_name = []; deleted = []; flush_at = 50 }

-- idx.deleted[i], false for a key that is not there
abbrev pub marked : Dict ℕ Bool → ℕ → Bool
marked deleted i = elim (lookup i deleted) [ none ↦ false | some b ↦ b ]

-- idx.byName[key], nil for a key that is not there
abbrev pub indices : Dict String (List ℕ) → String → List ℕ
indices by_name key = elim (lookup key by_name) [ none ↦ [] | some is ↦ is ]

-- *idx.entries[i] for each index in turn; `none` is the panic of an index out of range.
unfoldable pub deref : (ℕ → Option EntityRef) → List ℕ → Option (List EntityRef)
deref at [] = some []
deref at (i ∷ is) =
    let rest = deref at is in
    elim (at i) [
      | none ↦ none
      | some ref ↦ elim rest [ none ↦ none | some refs ↦ some (ref ∷ refs) ]
    ]

-- len(id) >= len(identifier) && id[:len(identifier)] == identifier
unfoldable pub has_prefix : String → String → Bool
has_prefix identifier id =
    leb (len identifier) (len id) && slice id 0 (len identifier) == identifier

-- The loop of the prefix scan over byID: the indices it takes.
unfoldable pub prefix_hits : String → Dict ℕ Bool → Dict String ℕ → List ℕ
prefix_hits identifier deleted [] = []
prefix_hits identifier deleted ((id, i) ∷ rest) =
    let hits = prefix_hits identifier deleted rest in
    if not (marked deleted i) && has_prefix identifier id then i ∷ hits else hits

-- if len(results) > 0 { return results }; otherwise what follows
unfoldable pub first_nonempty :
    Option (List EntityRef) → Option (List EntityRef) → Option (List EntityRef)
first_nonempty none next = none
first_nonempty (some []) next = next
first_nonempty (some (ref ∷ refs)) next = some (ref ∷ refs)

module _ (to_lower : String → String) where
  -- Add
  unfoldable pub add : EntityRef → EntityIndex → EntityIndex
  add ref idx =
      let i = length idx.entries in
      let key = to_lower ref.name in
      record idx {
        entries = idx.entries ++ ref ∷ [];
        by_id = insert ref.id i idx.by_id;
        by_name = insert key (indices idx.by_name key ++ i ∷ []) idx.by_name;
      }

  -- Steps 2 and 3 of Lookup
  unfoldable pub lookup_name : String → EntityIndex → Option (List EntityRef)
  lookup_name identifier idx =
      first_nonempty
        (deref (get_elem? idx.entries)
          (keep (λ i. not (marked idx.deleted i)) (indices idx.by_name (to_lower identifier))))
        (if leb 3 (len identifier)
          then deref (get_elem? idx.entries) (prefix_hits identifier idx.deleted idx.by_id)
          else some [])

  lookup_hit : Option ℕ → String → EntityIndex → Option (List EntityRef)
  unfolding lookup_name
  lookup_hit none identifier idx = lookup_name identifier idx
  lookup_hit (some i) identifier idx =
      if marked idx.deleted i
      then lookup_name identifier idx
      else deref (get_elem? idx.entries) (i ∷ [])

  -- Lookup; an empty result is the source's nil
  unfoldable pub resolve : String → EntityIndex → Option (List EntityRef)
  unfolding lookup_hit
  resolve identifier idx = lookup_hit (lookup identifier idx.by_id) identifier idx

  -- The loop of flush: its body is the body of Add, on the new slice and the new maps.
  flush_loop : Dict ℕ Bool → ℕ → List EntityRef → EntityIndex → EntityIndex
  unfolding add
  flush_loop deleted i [] acc = acc
  flush_loop deleted i (ref ∷ refs) acc =
      flush_loop deleted (suc i) refs (if marked deleted i then acc else add ref acc)

  -- flush
  unfoldable pub flush : EntityIndex → EntityIndex
  unfolding flush_loop
  flush idx =
      flush_loop idx.deleted 0 idx.entries
        (record idx { entries = []; by_id = []; by_name = []; deleted = [] })

  mark : Option ℕ → EntityIndex → EntityIndex
  unfolding flush
  mark none idx = idx
  mark (some i) idx =
      let marked' = record idx { deleted = insert i true idx.deleted } in
      if leb idx.flush_at (length marked'.deleted) then flush marked' else marked'

  -- Remove
  unfoldable pub remove : String → EntityIndex → EntityIndex
  unfolding mark
  remove id idx = mark (lookup id idx.by_id) idx
