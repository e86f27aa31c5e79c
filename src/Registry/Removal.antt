-- ===== src/Registry/Removal.antt =====
-- What unlockedDeregisterRecurfile takes out of the registry, and what it leaves.
use recur.Prelude.{
  ℕ, String, ◌≡◌, refl, sym, ap, ◌∙◌, Option, none, some, List, [], ◌∷◌, ◌==◌, String_eq,
  if◌then◌else◌, Bool-cases, beq-cases, arith, inl, inr, In,
}
use recur.Prelude.Dict
use recur.Prelude.Dict.{Dict, lookup-remove, lookup-remove_ne, lookup-remove_self}
use recur.Domain.{Group, Recurfile}
use recur.Registry.{
  Env, Registry, remove_triggers, remove_actions, remove_group, remove_groups,
  unlocked_deregister_recurfile,
}

module _ (env : Env) (k : String) where
  gone_still :
      {V : Type 0} (id : String) (m : Dict String V)
      → Dict.lookup k m ≡ none
      → Dict.lookup k (Dict.remove id m) ≡ none
  gone_still id m h = elim (Bool-cases (id == k)) [
    | inl e ↦ lookup-remove id k m ∙ rw e refl
    | inr e ↦ lookup-remove id k m ∙ rw e h
  ]

  remove_triggers_still :
      (ids : List String) (r : Registry)
      → Dict.lookup k r.triggers ≡ none
      → Dict.lookup k (remove_triggers env ids r).triggers ≡ none
  unfolding remove_triggers
  remove_triggers_still [] r h = h
  remove_triggers_still (id ∷ ids) r h = remove_triggers_still ids _ (gone_still id r.triggers h)

  remove_triggers_gone :
      (ids : List String) (r : Registry)
      → In k ids
      → Dict.lookup k (remove_triggers env ids r).triggers ≡ none
  unfolding remove_triggers
  remove_triggers_gone [] r i = absurd i
  remove_triggers_gone (id ∷ ids) r (inl e) =
      remove_triggers_still ids _ (rw e (lookup-remove_self id r.triggers))
  remove_triggers_gone (id ∷ ids) r (inr i) = remove_triggers_gone ids _ i

  remove_triggers_kept :
      (ids : List String) (r : Registry)
      → (In k ids → ⊥)
      → Dict.lookup k (remove_triggers env ids r).triggers ≡ Dict.lookup k r.triggers
  unfolding remove_triggers
  remove_triggers_kept [] r n = refl
  remove_triggers_kept (id ∷ ids) r n =
      remove_triggers_kept ids _ (λ i. n (inr i))
      ∙ lookup-remove_ne r.triggers (λ e. n (inl (sym e)))

  triggers-remove_actions :
      (ids : List String) (r : Registry) → (remove_actions env ids r).triggers ≡ r.triggers
  unfolding remove_actions
  triggers-remove_actions [] r = refl
  triggers-remove_actions (id ∷ ids) r = triggers-remove_actions ids _

  remove_group_still :
      (id : String) (o : Option Group) (p : Registry × ℕ × ℕ)
      → Dict.lookup k p.0.triggers ≡ none
      → Dict.lookup k (remove_group env id o p).0.triggers ≡ none
  unfolding remove_group
  remove_group_still id none p h = h
  remove_group_still id (some g) (r, n, m) h =
      ap (Dict.lookup k)
        (triggers-remove_actions g.action_ids (remove_triggers env g.trigger_ids r))
      ∙ remove_triggers_still g.trigger_ids r h

  remove_group_gone :
      (id : String) (g : Group) (p : Registry × ℕ × ℕ)
      → In k g.trigger_ids
      → Dict.lookup k (remove_group env id (some g) p).0.triggers ≡ none
  unfolding remove_group
  remove_group_gone id g (r, n, m) i =
      ap (Dict.lookup k)
        (triggers-remove_actions g.action_ids (remove_triggers env g.trigger_ids r))
      ∙ remove_triggers_gone g.trigger_ids r i

  remove_group_kept :
      (id : String) (o : Option Group) (p : Registry × ℕ × ℕ)
      → ((g : Group) → o ≡ some g → In k g.trigger_ids → ⊥)
      → Dict.lookup k (remove_group env id o p).0.triggers ≡ Dict.lookup k p.0.triggers
  unfolding remove_group
  remove_group_kept id none p n = refl
  remove_group_kept id (some g) (r, a, b) n =
      ap (Dict.lookup k)
        (triggers-remove_actions g.action_ids (remove_triggers env g.trigger_ids r))
      ∙ remove_triggers_kept g.trigger_ids r (n g refl)

  remove_groups_still :
      (ids : List String) (p : Registry × ℕ × ℕ)
      → Dict.lookup k p.0.triggers ≡ none
      → Dict.lookup k (remove_groups env ids p).0.triggers ≡ none
  unfolding remove_groups
  remove_groups_still [] p h = h
  remove_groups_still (id ∷ ids) p h =
      remove_groups_still ids _ (remove_group_still id (Dict.lookup id p.0.groups) p h)

groups-remove_triggers :
    (env : Env) (ids : List String) (r : Registry) → (remove_triggers env ids r).groups ≡ r.groups
unfolding remove_triggers
groups-remove_triggers env [] r = refl
groups-remove_triggers env (id ∷ ids) r = groups-remove_triggers env ids _

groups-remove_actions :
    (env : Env) (ids : List String) (r : Registry) → (remove_actions env ids r).groups ≡ r.groups
unfolding remove_actions
groups-remove_actions env [] r = refl
groups-remove_actions env (id ∷ ids) r = groups-remove_actions env ids _

-- The groups after one group's turn in the loop.
lookup-remove_group :
    (env : Env) (id gid : String) (o : Option Group) (p : Registry × ℕ × ℕ)
    → o ≡ Dict.lookup id p.0.groups
    → Dict.lookup gid (remove_group env id o p).0.groups
      ≡ (if id == gid then none else Dict.lookup gid p.0.groups)
unfolding remove_group
lookup-remove_group env id gid none p h = elim (beq-cases id gid) [
  | inl e ↦ rw e.1 (sym (h ∙ ap (λ i. Dict.lookup i p.0.groups) e.0))
  | inr e ↦ rw e.1 refl
]
lookup-remove_group env id gid (some g) (r, n, m) h =
    lookup-remove id gid
      (remove_actions env g.action_ids (remove_triggers env g.trigger_ids r)).groups
    ∙ ap (λ d. if id == gid then none else Dict.lookup gid d)
        (groups-remove_actions env g.action_ids (remove_triggers env g.trigger_ids r)
          ∙ groups-remove_triggers env g.trigger_ids r)

remove_groups_gone :
    (env : Env) (k gid : String) (g : Group) (ids : List String) (p : Registry × ℕ × ℕ)
    → In gid ids
    → Dict.lookup gid p.0.groups ≡ some g
    → In k g.trigger_ids
    → Dict.lookup k (remove_groups env ids p).0.triggers ≡ none
unfolding remove_groups
remove_groups_gone env k gid g [] p i at j = absurd i
remove_groups_gone env k gid g (id ∷ ids) p i at j = elim (beq-cases id gid) [
  | inl e ↦ remove_groups_still env k ids _ (
      ap (λ o. Dict.lookup k (remove_group env id o p).0.triggers)
        (ap (λ x. Dict.lookup x p.0.groups) e.0 ∙ at)
      ∙ remove_group_gone env k id g p j)
  | inr e ↦ elim i [
    | inl q ↦ absurd (e.0 (sym q))
    | inr rest ↦
        remove_groups_gone env k gid g ids _ rest
          (lookup-remove_group env id gid (Dict.lookup id p.0.groups) p refl
            ∙ ap (λ b. if b then none else Dict.lookup gid p.0.groups) e.1
            ∙ at)
          j
  ]
]

-- No group that the ids lead to lists the trigger.
abbrev pub IsElsewhere : String → List String → Dict String Group → Type 0
IsElsewhere k ids groups =
    (gid : String) (g : Group)
    → In gid ids
    → Dict.lookup gid groups ≡ some g
    → In k g.trigger_ids
    → ⊥

remove_groups_kept :
    (env : Env) (k : String) (ids : List String) (p : Registry × ℕ × ℕ)
    → IsElsewhere k ids p.0.groups
    → Dict.lookup k (remove_groups env ids p).0.triggers ≡ Dict.lookup k p.0.triggers
unfolding remove_groups
remove_groups_kept env k [] p n = refl
remove_groups_kept env k (id ∷ ids) p n =
    remove_groups_kept env k ids _ (λ gid g i at. n gid g (inr i) (before gid g at))
    ∙ remove_group_kept env k id (Dict.lookup id p.0.groups) p (λ g at. n id g (inl refl) at)
  where
    before :
        (gid : String) (g : Group)
        → Dict.lookup gid (remove_group env id (Dict.lookup id p.0.groups) p).0.groups ≡ some g
        → Dict.lookup gid p.0.groups ≡ some g
    before gid g at =
        ground (arith, lookup-remove_group env id gid (Dict.lookup id p.0.groups) p refl, at)

-- Deregistration removes every trigger that a group of the recurfile lists and no other trigger, and
-- removes the recurfile.
pub unlocked_deregister_recurfile_lem :
    (env : Env) (wf : Recurfile) (r : Registry)
    → ((gid k : String) (g : Group)
        → In gid wf.groups
        → Dict.lookup gid r.groups ≡ some g
        → In k g.trigger_ids
        → Dict.lookup k (unlocked_deregister_recurfile env wf r).0.triggers ≡ none)
      × ((k : String)
          → IsElsewhere k wf.groups r.groups
          → Dict.lookup k (unlocked_deregister_recurfile env wf r).0.triggers
            ≡ Dict.lookup k r.triggers)
      × (Dict.lookup wf.id (unlocked_deregister_recurfile env wf r).0.recurfiles ≡ none)
unfolding unlocked_deregister_recurfile
unlocked_deregister_recurfile_lem env wf r = (
  λ gid k g i at j. remove_groups_gone env k gid g wf.groups (r, 0, 0) i at j,
  λ k n. remove_groups_kept env k wf.groups (r, 0, 0) n,
  lookup-remove_self wf.id (remove_groups env wf.groups (r, 0, 0)).0.recurfiles,
)
