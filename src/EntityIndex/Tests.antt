-- ===== src/EntityIndex/Tests.antt =====
-- Runs of the index of entity_index.go, and the claims about it at concrete inputs.
use recur.Prelude.{◌≡◌, refl, some, [], ◌∷◌, ◌++◌, String, List, keep}
use recur.EntityIndex.{
  EntityRef, EntityIndex, new_entity_index, add, remove, resolve, flush, lookup_name, deref,
  has_prefix, prefix_hits, first_nonempty,
}
use recur.Prelude.Dict.{lookup, insert}
use recur.EntityIndex.WellFormed.{IsWellFormed}
use recur.EntityIndex.Changes.{
  Represents, other_id, new-Represents, add-Represents, remove-Represents,
}
use recur.EntityIndex.Resolution.Scan.{Resolves}
use recur.EntityIndex.Resolution.{resolve-Resolves}
use recur.EntityIndex.Flush.{flush_lem}
use recur.EntityIndex.Live.{live}

-- Names are compared as they are.
abbrev plain : String → String
plain s = s

abbrev build : EntityRef
build = record { entity_type = "group"; id = "a1b2c3d4e5f6"; name = "build" }

abbrev deploy : EntityRef
deploy = record { entity_type = "group"; id = "a1b2ffffffff"; name = "deploy" }

abbrev one_group : EntityIndex
one_group = add plain build new_entity_index

by_prefix : resolve plain "a1b" (add plain deploy one_group) ≡ some (build ∷ deploy ∷ [])
unfolding add resolve lookup_name deref has_prefix prefix_hits first_nonempty keep lookup insert
by_prefix = refl

add-Represents_example : Represents plain (add plain build new_entity_index) ([] ++ build ∷ [])
add-Represents_example =
    add-Represents plain build new_entity_index [] (λ r m. absurd m) (new-Represents plain)

remove-Represents_example :
    Represents plain
      (remove plain "a1b2c3d4e5f6" one_group)
      (keep (other_id "a1b2c3d4e5f6") ([] ++ build ∷ []))
remove-Represents_example =
    remove-Represents plain "a1b2c3d4e5f6" one_group ([] ++ build ∷ []) add-Represents_example

resolve-Resolves_example :
    (found : List EntityRef) × (resolve plain "build" one_group ≡ some found)
    × Resolves plain "build" ([] ++ build ∷ []) found
resolve-Resolves_example =
    resolve-Resolves plain "build" one_group ([] ++ build ∷ []) add-Represents_example

flush_lem_test :
    IsWellFormed plain (flush plain one_group)
    × (live (flush plain one_group) ≡ live one_group)
    × ((flush plain one_group).deleted ≡ [])
    × ((flush plain one_group).flush_at ≡ one_group.flush_at)
flush_lem_test = flush_lem plain one_group (add-Represents_example).well_formed
