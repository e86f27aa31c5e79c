-- ===== src/Registry/Queries/Laws.antt =====
-- What GetActionsForTrigger returns.
use recur.Prelude.{
  String, ◌≡◌, refl, sym, ap, ◌∙◌, none, some, true, false, List, [], ◌∷◌, ◌==◌, String_eq,
  Bool-cases, Option-cases, inl, inr, In,
}
use recur.Prelude.Dict
use recur.Prelude.Dict.{Dict}
use recur.Domain.{Trigger, Action}
use recur.Registry.{Registry}
use recur.Registry.Queries.{actions_of, actions_in_group, get_actions_for_trigger, group_action_ids}

-- An action that one of the ids leads to and that belongs to the trigger.
abbrev pub IsListed : String → Dict String Action → List String → Action → Type 0
IsListed trigger_id actions ids a =
    (k : String) × In k ids
    × (Dict.lookup k actions ≡ some a)
    × ((a.trigger_id == trigger_id) ≡ true)

module _ (trigger_id : String) (actions : Dict String Action) (k : String) (ids : List String) where
  actions_of_gone :
      Dict.lookup k actions ≡ none
      → actions_of trigger_id actions (k ∷ ids) ≡ actions_of trigger_id actions ids
  unfolding actions_of
  actions_of_gone n = rw (n, actions_of) refl

  actions_of_own :
      (b : Action)
      → Dict.lookup k actions ≡ some b
      → (b.trigger_id == trigger_id) ≡ true
      → actions_of trigger_id actions (k ∷ ids) ≡ b ∷ actions_of trigger_id actions ids
  unfolding actions_of
  actions_of_own b at t = rw (at, actions_of) (rw t refl)

  actions_of_other :
      (b : Action)
      → Dict.lookup k actions ≡ some b
      → (b.trigger_id == trigger_id) ≡ false
      → actions_of trigger_id actions (k ∷ ids) ≡ actions_of trigger_id actions ids
  unfolding actions_of
  actions_of_other b at f = rw (at, actions_of) (rw f refl)

no_actions :
    (trigger_id : String) (actions : Dict String Action) (a : Action)
    → In a (actions_of trigger_id actions [])
    → ⊥
unfolding actions_of
no_actions trigger_id actions a h = h

later :
    (trigger_id : String) (actions : Dict String Action) (k : String) (ids : List String)
    (a : Action)
    → IsListed trigger_id actions ids a
    → IsListed trigger_id actions (k ∷ ids) a
later trigger_id actions k ids a (j, i, at, own) = (j, inr i, at, own)

actions_of_sound :
    (trigger_id : String) (actions : Dict String Action) (ids : List String) (a : Action)
    → In a (actions_of trigger_id actions ids)
    → IsListed trigger_id actions ids a
actions_of_sound trigger_id actions [] a h = absurd (no_actions trigger_id actions a h)
actions_of_sound trigger_id actions (k ∷ ids) a h = elim (Option-cases (Dict.lookup k actions)) [
  | inl n ↦ later trigger_id actions k ids a (
      actions_of_sound trigger_id actions ids a
        (rw (actions_of_gone trigger_id actions k ids n) at h))
  | inr (b, at_b) ↦ elim (Bool-cases (b.trigger_id == trigger_id)) [
    | inl t ↦ elim (rw (actions_of_own trigger_id actions k ids b at_b t) at h) [
      | inl e ↦ (k, inl refl, rw e at_b, rw e t)
      | inr i ↦ later trigger_id actions k ids a (actions_of_sound trigger_id actions ids a i)
    ]
    | inr f ↦ later trigger_id actions k ids a (
        actions_of_sound trigger_id actions ids a
          (rw (actions_of_other trigger_id actions k ids b at_b f) at h))
  ]
]

actions_of_complete :
    (trigger_id : String) (actions : Dict String Action) (ids : List String) (a : Action)
    → IsListed trigger_id actions ids a
    → In a (actions_of trigger_id actions ids)
actions_of_complete trigger_id actions [] a (k, i, at, own) = absurd i
actions_of_complete trigger_id actions (k ∷ ids) a (j, inl e, at, own) =
    rw
      (actions_of_own trigger_id actions k ids a (ap (λ i. Dict.lookup i actions) (sym e) ∙ at) own)
      (inl refl)
actions_of_complete trigger_id actions (k ∷ ids) a (j, inr i, at, own) =
    let rest = actions_of_complete trigger_id actions ids a (j, i, at, own) in
    elim (Option-cases (Dict.lookup k actions)) [
      | inl n ↦ rw (actions_of_gone trigger_id actions k ids n) rest
      | inr (b, at_b) ↦ elim (Bool-cases (b.trigger_id == trigger_id)) [
        | inl t ↦ rw (actions_of_own trigger_id actions k ids b at_b t) (inr rest)
        | inr f ↦ rw (actions_of_other trigger_id actions k ids b at_b f) rest
      ]
    ]

-- For a registered trigger, GetActionsForTrigger returns exactly the registered actions that its group
-- lists and that name the trigger.
pub get_actions_for_trigger_lem :
    (r : Registry) (trigger_id : String) (t : Trigger) (a : Action)
    → Dict.lookup trigger_id r.triggers ≡ some t
    → (In a (get_actions_for_trigger r trigger_id)
        → IsListed trigger_id r.actions (group_action_ids (Dict.lookup t.group_id r.groups)) a)
      × (IsListed trigger_id r.actions (group_action_ids (Dict.lookup t.group_id r.groups)) a
          → In a (get_actions_for_trigger r trigger_id))
unfolding get_actions_for_trigger actions_in_group
get_actions_for_trigger_lem r trigger_id t a at = rw at (
  actions_of_sound trigger_id r.actions (group_action_ids (Dict.lookup t.group_id r.groups)) a,
  actions_of_complete trigger_id r.actions (group_action_ids (Dict.lookup t.group_id r.groups)) a,
)
