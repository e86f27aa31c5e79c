-- ===== src/Engine/Lifecycle/Keys.antt =====
-- The keys of a Go map of package triggerengine after an insertion and a removal.
use recur.Prelude.{
  String, ◌≡◌, refl, sym, ap, none, some, [], ◌∷◌, ◌++◌, ◌==◌, String_eq, not, keep, Bool-cases,
  beq-cases, beq_refl, inl, inr,
}
use recur.Prelude.Dict
use recur.Prelude.Dict.{Dict, keys}

pub keys-insert :
    {V : Type 0} (k : String) (v : V) (m : Dict String V)
    → Dict.lookup k m ≡ none
    → keys (Dict.insert k v m) ≡ keys m ++ k ∷ []
unfolding Dict.insert Dict.lookup
keys-insert k v [] h = refl
keys-insert k v ((j, w) ∷ m) h = elim (Bool-cases (j == k)) [
  | inl e ↦ absurd (cc (rw e at h))
  | inr e ↦ rw e (ap (λ l. j ∷ l) (keys-insert k v m (rw e at h)))
]

pub keys-remove :
    {V : Type 0} (k : String) (m : Dict String V)
    → keys (Dict.remove k m) ≡ keep (λ j. not (j == k)) (keys m)
unfolding Dict.remove keep
keys-remove k [] = refl
keys-remove k ((j, w) ∷ m) = elim (Bool-cases (j == k)) [
  | inl e ↦ rw e (keys-remove k m)
  | inr e ↦ rw e (ap (λ l. j ∷ l) (keys-remove k m))
]

pub keys-insert_present :
    {V : Type 0} (k : String) (v w : V) (m : Dict String V)
    → Dict.lookup k m ≡ some w
    → keys (Dict.insert k v m) ≡ keys m
unfolding Dict.insert Dict.lookup
keys-insert_present k v w [] h = absurd (cc h)
keys-insert_present k v w ((j, u) ∷ m) h = elim (beq-cases j k) [
  | inl e ↦ rw e.1 (ap (λ i. i ∷ keys m) (sym e.0))
  | inr e ↦ rw e.1 (ap (λ l. j ∷ l) (keys-insert_present k v w m (rw e.1 at h)))
]

remove_absent :
    {V : Type 0} (k : String) (m : Dict String V) → Dict.lookup k m ≡ none → Dict.remove k m ≡ m
unfolding Dict.remove Dict.lookup
remove_absent k [] h = refl
remove_absent k ((j, w) ∷ m) h = elim (Bool-cases (j == k)) [
  | inl e ↦ absurd (cc (rw e at h))
  | inr e ↦ rw e (ap (λ l. (j, w) ∷ l) (remove_absent k m (rw e at h)))
]

pub remove_first :
    {V : Type 0} (k : String) (v : V) (m : Dict String V)
    → Dict.lookup k m ≡ none
    → Dict.remove k ((k, v) ∷ m) ≡ m
unfolding Dict.remove
remove_first k v m h = rw (beq_refl k) (remove_absent k m h)
