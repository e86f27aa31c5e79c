-- ===== src/EntityIndex/Resolution/Scan.antt =====
-- What an identifier resolves to in a list of refs, and the prefix scan of Lookup (entity_index.go).
use Prim.Native.String.{len}
use recur.Prelude.{
  ℕ, suc, String, ◌+◌, ◌≡◌, ◌≢◌, ◌↔◌, ◌⊎◌, refl, sym, ap, Bool, true, false, not, ◌&&◌, some, List,
  [], ◌∷◌, leb, get_elem?, keep, In, inl, inr, Bool-cases, arith, ◌∙◌, Option, ℕ_eq, String_eq,
  ◌==◌,
}
use recur.Prelude.Dict.{Dict}
use recur.EntityIndex.{EntityRef, marked, deref, has_prefix, prefix_hits}
use recur.EntityIndex.Live.{live_from, shift, first}
use recur.EntityIndex.WellFormed.{positions}

-- The case-insensitive name test.
abbrev pub has_name : (String → String) → String → EntityRef → Bool
has_name to_lower identifier ref = to_lower ref.name == to_lower identifier

-- No listed ref has the id.
abbrev pub HasNoId : String → List EntityRef → Type 0
HasNoId id refs = (r : EntityRef) → In r refs → r.id ≢ id

-- What an identifier resolves to in a list of refs: the ref of that id; else all refs of that name,
-- in order; else, for an identifier of three bytes or more, the refs whose id it begins, in any order.
pub data Resolves (to_lower : String → String) (identifier : String) (refs : List EntityRef)
    (found : List EntityRef) : Type 0 where
  by_exact_id :
      (ref : EntityRef)
      → In ref refs
      → ref.id ≡ identifier
      → found ≡ ref ∷ []
      → Resolves to_lower identifier refs found
  by_given_name :
      HasNoId identifier refs
      → found ≡ keep (has_name to_lower identifier) refs
      → found ≢ []
      → Resolves to_lower identifier refs found
  by_id_prefix :
      HasNoId identifier refs
      → keep (has_name to_lower identifier) refs ≡ []
      → ((ref : EntityRef)
          → In ref found
            ↔ (In ref refs × (leb 3 (len identifier) && has_prefix identifier ref.id ≡ true)))
      → Resolves to_lower identifier refs found

pub deref_one :
    (at : ℕ → Option EntityRef) (i : ℕ) (ref : EntityRef)
    → at i ≡ some ref
    → deref at (i ∷ []) ≡ some (ref ∷ [])
unfolding deref
deref_one at i ref h = rw (h, deref)

module _ (to_lower : String → String) (at : ℕ → Option EntityRef) (dead : ℕ → Bool) where
  -- Reading the live positions of a key reads the live refs of that key.
  pub deref-positions :
      (identifier : String) (n : ℕ) (refs : List EntityRef)
      → ((j : ℕ) → at (n + j) ≡ get_elem? refs j)
      → deref at (keep (λ i. not (dead i)) (positions to_lower (to_lower identifier) n refs))
        ≡ some (keep (has_name to_lower identifier) (live_from dead n refs))
  unfolding deref keep positions live_from
  deref-positions identifier n [] h = refl
  deref-positions identifier n (ref ∷ refs) h =
      let rest = deref-positions identifier (suc n) refs (λ j. rw (shift n j) (h (suc j))) in
      let here : at n ≡ some ref = rw (first n) at (h 0) in
      elim (Bool-cases (dead n)) [
        | inl d ↦ elim (Bool-cases (has_name to_lower identifier ref)) [
          | inl t ↦ rw (d, t) (rw d rest)
          | inr f ↦ rw (d, f) rest
        ]
        | inr a ↦ elim (Bool-cases (has_name to_lower identifier ref)) [
          | inl t ↦ rw (a, t) (rw a (rw (here, rest)))
          | inr f ↦ rw (a, f) rest
        ]
      ]

module _ (at : ℕ → Option EntityRef) (deleted : Dict ℕ Bool) (identifier : String) where
  -- A ref that the prefix scan takes from the entries of byID.
  abbrev pub Taken : Dict String ℕ → EntityRef → Type 0
  Taken m ref =
      (i : ℕ) × In (ref.id, i) m
      × (at i ≡ some ref)
      × (marked deleted i ≡ false)
      × (has_prefix identifier ref.id ≡ true)

  -- The scan reads in range, and takes exactly the live entries of the prefix.
  abbrev pub Scans : Dict String ℕ → Type 0
  Scans m =
      (found : List EntityRef) × (deref at (prefix_hits identifier deleted m) ≡ some found)
      × ((ref : EntityRef) → In ref found ↔ Taken m ref)

  module _ (id : String) (i : ℕ) (m : Dict String ℕ) (r : EntityRef) where
    scan_first :
        at i ≡ some r
        → r.id ≡ id
        → (not (marked deleted i) && has_prefix identifier id) ≡ true
        → (ref : EntityRef) → ref ≡ r
        → Taken ((id, i) ∷ m) ref
    scan_first here e t ref p =
        let same : ref.id ≡ id = ap (λ (x : EntityRef). x.id) p ∙ e in
        (
          i,
          inl (ap (λ k. (k, i)) same),
          here ∙ ap some (sym p),
          ground arith,
          rw same (ground arith),
        )

    scan_found :
        at i ≡ some r
        → (found : List EntityRef) → ((ref : EntityRef) → In ref found ↔ Taken m ref)
        → (ref : EntityRef) → Taken ((id, i) ∷ m) ref
        → (ref ≡ r) ⊎ In ref found
    scan_found here found taken ref (j, inl p, x, y, z) =
        inl (cc (here, x, ap (λ (q : String × ℕ). at q.1) p))
    scan_found here found taken ref (j, inr q, x, y, z) = inr ((taken ref).1 (j, q, x, y, z))

    scan_missed :
        (not (marked deleted i) && has_prefix identifier id) ≡ false
        → (found : List EntityRef) → ((ref : EntityRef) → In ref found ↔ Taken m ref)
        → (ref : EntityRef) → Taken ((id, i) ∷ m) ref
        → In ref found
    scan_missed f found taken ref (j, inl p, x, y, z) = absurd (
        no_more (ap (λ (q : String × ℕ). marked deleted q.1) p)
          (ap (λ (q : String × ℕ). has_prefix identifier q.0) p))
      where
        no_more :
            marked deleted j ≡ marked deleted i
            → has_prefix identifier ref.id ≡ has_prefix identifier id
            → ⊥
        no_more a b = ground (arith, a, b, f, y, z)
    scan_missed f found taken ref (j, inr q, x, y, z) = (taken ref).1 (j, q, x, y, z)

  pub scan_later :
      (id : String) (i : ℕ) (m : Dict String ℕ) (ref : EntityRef)
      → Taken m ref
      → Taken ((id, i) ∷ m) ref
  scan_later id i m ref (j, q, x, y, z) = (j, inr q, x, y, z)

  pub scan_step :
      (id : String) (i : ℕ) (m : Dict String ℕ)
      → ((ref : EntityRef) × (at i ≡ some ref) × (ref.id ≡ id))
      → Scans m
      → Scans ((id, i) ∷ m)
  unfolding deref prefix_hits
  scan_step id i m (r, here, e) (found, reads, taken) =
      elim (Bool-cases (not (marked deleted i) && has_prefix identifier id)) [
        | inl t ↦ (
          r ∷ found,
          rw t (rw (here, reads)),
          λ ref. (
            elim [
              | inl p ↦ scan_first id i m r here e t ref p
              | inr q ↦ scan_later id i m ref ((taken ref).0 q)
            ],
            scan_found id i m r here found taken ref,
          ),
        )
        | inr f ↦ (
          found,
          rw f reads,
          λ ref. (
            λ q. scan_later id i m ref ((taken ref).0 q),
            scan_missed id i m r f found taken ref,
          ),
        )
      ]

  pub scan :
      (m : Dict String ℕ)
      → ((id : String) (i : ℕ)
          → In (id, i) m
          → (ref : EntityRef) × (at i ≡ some ref) × (ref.id ≡ id))
      → Scans m
  unfolding deref prefix_hits
  scan [] h = ([], refl, λ ref. (λ q. absurd q, λ k. absurd k.1))
  scan ((id, i) ∷ m) h = scan_step id i m (h id i (inl refl)) (scan m (λ j k q. h j k (inr q)))
