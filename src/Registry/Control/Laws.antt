-- ===== src/Registry/Control/Laws.antt =====
-- What suspending and resuming change: suspendTrigger, resumeTrigger and suspendByPluginID.
use recur.Prelude.{
  String, ◌≡◌, refl, sym, ap, ◌∙◌, Option, none, some, Bool, false, [], ◌∷◌, ◌==◌, String_eq,
  if◌then◌else◌, Bool-cases, inl, inr, keep, map,
}
use recur.Prelude.Dict
use recur.Prelude.Dict.{Dict, lookup-insert, lookup-insert_self}
use recur.EntityIndex.{EntityRef}
use recur.Domain.{Trigger, Action, Status, status_active, status_suspended}
use recur.Registry.{Env, Registry}
use recur.Registry.Control.{
  Found, found, missing, panicked, find_entity_by_type, done, trigger_status_at, set_trigger_status,
  suspend_trigger, resume_trigger, hit, suspend_triggers, suspend_actions, suspend_by_plugin_id,
}
use recur.Registry.Queries.{values}

-- A trigger, suspended if it is one of the plugin's.
abbrev pub swept : String → Trigger → Trigger
swept plugin_id t =
    if hit plugin_id t.plugin_id t.status then record t { status = status_suspended } else t

-- An action, suspended if it is one of the plugin's.
abbrev pub swept_action : String → Action → Action
swept_action plugin_id a =
    if hit plugin_id a.plugin_id a.status then record a { status = status_suspended } else a

abbrev pub at_key : {V : Type 0} → (V → V) → Option V → Option V
at_key f none = none
at_key f (some v) = some (f v)

lookup-suspend_triggers :
    (plugin_id k : String) (m : Dict String Trigger)
    → Dict.lookup k (suspend_triggers plugin_id m).0 ≡ at_key (swept plugin_id) (Dict.lookup k m)
unfolding suspend_triggers Dict.lookup
lookup-suspend_triggers plugin_id k [] = refl
lookup-suspend_triggers plugin_id k ((j, v) ∷ m) =
    elim (Bool-cases (hit plugin_id v.plugin_id v.status)) [
      | inl h ↦ elim (Bool-cases (j == k)) [
        | inl e ↦
            rw (h, e)
              (ap (λ b. some (if b then record v { status = status_suspended } else v)) (sym h))
        | inr e ↦ rw (h, e) (lookup-suspend_triggers plugin_id k m)
      ]
      | inr h ↦ elim (Bool-cases (j == k)) [
        | inl e ↦
            rw (h, e)
              (ap (λ b. some (if b then record v { status = status_suspended } else v)) (sym h))
        | inr e ↦ rw (h, e) (lookup-suspend_triggers plugin_id k m)
      ]
    ]

ids-suspend_triggers :
    (plugin_id : String) (m : Dict String Trigger)
    → (suspend_triggers plugin_id m).1
      ≡ map (λ v. v.id) (keep (λ v. hit plugin_id v.plugin_id v.status) (values m))
unfolding suspend_triggers values keep
ids-suspend_triggers plugin_id [] = refl
ids-suspend_triggers plugin_id ((j, v) ∷ m) =
    elim (Bool-cases (hit plugin_id v.plugin_id v.status)) [
      | inl h ↦ rw h (ap (λ l. v.id ∷ l) (ids-suspend_triggers plugin_id m))
      | inr h ↦ rw h (ids-suspend_triggers plugin_id m)
    ]

lookup-suspend_actions :
    (plugin_id k : String) (m : Dict String Action)
    → Dict.lookup k (suspend_actions plugin_id m).0
      ≡ at_key (swept_action plugin_id) (Dict.lookup k m)
unfolding suspend_actions Dict.lookup
lookup-suspend_actions plugin_id k [] = refl
lookup-suspend_actions plugin_id k ((j, v) ∷ m) =
    elim (Bool-cases (hit plugin_id v.plugin_id v.status)) [
      | inl h ↦ elim (Bool-cases (j == k)) [
        | inl e ↦
            rw (h, e)
              (ap (λ b. some (if b then record v { status = status_suspended } else v)) (sym h))
        | inr e ↦ rw (h, e) (lookup-suspend_actions plugin_id k m)
      ]
      | inr h ↦ elim (Bool-cases (j == k)) [
        | inl e ↦
            rw (h, e)
              (ap (λ b. some (if b then record v { status = status_suspended } else v)) (sym h))
        | inr e ↦ rw (h, e) (lookup-suspend_actions plugin_id k m)
      ]
    ]

ids-suspend_actions :
    (plugin_id : String) (m : Dict String Action)
    → (suspend_actions plugin_id m).1
      ≡ map (λ v. v.id) (keep (λ v. hit plugin_id v.plugin_id v.status) (values m))
unfolding suspend_actions values keep
ids-suspend_actions plugin_id [] = refl
ids-suspend_actions plugin_id ((j, v) ∷ m) =
    elim (Bool-cases (hit plugin_id v.plugin_id v.status)) [
      | inl h ↦ rw h (ap (λ l. v.id ∷ l) (ids-suspend_actions plugin_id m))
      | inr h ↦ rw h (ids-suspend_actions plugin_id m)
    ]

-- suspendByPluginID suspends every trigger and every action of the plugin that is not suspended,
-- changes nothing else of any entity, and returns the ids of exactly those it changed, in the order of
-- the maps.
pub suspend_by_plugin_id_lem :
    (plugin_id : String) (r : Registry)
    → ((k : String)
        → (Dict.lookup k (suspend_by_plugin_id plugin_id r).0.triggers
            ≡ at_key (swept plugin_id) (Dict.lookup k r.triggers))
          × (Dict.lookup k (suspend_by_plugin_id plugin_id r).0.actions
              ≡ at_key (swept_action plugin_id) (Dict.lookup k r.actions)))
      × ((suspend_by_plugin_id plugin_id r).1
          ≡ map (λ v. v.id) (keep (λ v. hit plugin_id v.plugin_id v.status) (values r.triggers)))
      × ((suspend_by_plugin_id plugin_id r).2
          ≡ map (λ v. v.id) (keep (λ v. hit plugin_id v.plugin_id v.status) (values r.actions)))
unfolding suspend_by_plugin_id
suspend_by_plugin_id_lem plugin_id r = (
  λ k. (
    lookup-suspend_triggers plugin_id k r.triggers,
    lookup-suspend_actions plugin_id k r.actions,
  ),
  ids-suspend_triggers plugin_id r.triggers,
  ids-suspend_actions plugin_id r.actions,
)

-- The map after the status of one trigger is set.
abbrev pub with_status : Status → EntityRef → Trigger → Registry → Registry
with_status status ref t r = record r {
  triggers = Dict.insert ref.id (record t { status = status }) r.triggers;
}

pub set_trigger_status-found :
    (status : Status) (ref : EntityRef) (t : Trigger) (r : Registry)
    → Dict.lookup ref.id r.triggers ≡ some t
    → set_trigger_status status (found ref) r
      ≡ (with_status status ref t r, done t.id t.type (t.status == status))
unfolding set_trigger_status trigger_status_at
set_trigger_status-found status ref t r at = ap (λ o. trigger_status_at status ref o r) at

lookup-insert_twice :
    {V : Type 0} (i k : String) (a b : V) (m : Dict String V)
    → Dict.lookup k (Dict.insert i a (Dict.insert i b m))
      ≡ (if i == k then some a else Dict.lookup k m)
lookup-insert_twice i k a b m = elim (Bool-cases (i == k)) [
  | inl e ↦ lookup-insert i k a (Dict.insert i b m) ∙ rw e refl
  | inr e ↦ lookup-insert i k a (Dict.insert i b m) ∙ rw e (lookup-insert i k b m ∙ rw e refl)
]

-- A trigger that is suspended and then resumed under an identifier that finds it is active, nothing
-- else of it and no other trigger has changed, and resuming tells that the trigger was not active.
pub resume_trigger-suspend_trigger :
    (env : Env) (r : Registry) (identifier : String) (ref : EntityRef) (t : Trigger)
    → find_entity_by_type env r identifier "trigger" ≡ found ref
    → Dict.lookup ref.id r.triggers ≡ some t
    → ((resume_trigger env (suspend_trigger env r identifier).0 identifier).1
        ≡ done t.id t.type false)
      × ((k : String)
          → Dict.lookup k
              (resume_trigger env (suspend_trigger env r identifier).0 identifier).0.triggers
            ≡ (if ref.id == k
                then some (record t { status = status_active })
                else Dict.lookup k r.triggers))
unfolding suspend_trigger resume_trigger find_entity_by_type
resume_trigger-suspend_trigger env r identifier ref t finds at = (
  ap (λ q. q.1) both,
  λ k.
      ap (λ q. Dict.lookup k q.0.triggers) both
      ∙ lookup-insert_twice ref.id k (record t { status = status_active })
          (record t { status = status_suspended }) r.triggers,
)
  where
    suspended : Registry
    suspended = with_status status_suspended ref t r

    both : resume_trigger env (suspend_trigger env r identifier).0 identifier ≡ (
      with_status status_active ref (record t { status = status_suspended }) suspended,
      done t.id t.type false,
    )
    both =
        ap (λ q. resume_trigger env q.0 identifier)
          (ap (λ f. set_trigger_status status_suspended f r) finds
            ∙ set_trigger_status-found status_suspended ref t r at)
        ∙ ap (λ f. set_trigger_status status_active f suspended) finds
        ∙ set_trigger_status-found status_active ref (record t { status = status_suspended })
            suspended
            (lookup-insert_self ref.id (record t { status = status_suspended }) r.triggers)

-- Every trigger is under its own id.
abbrev pub IsKeyed : Registry → Type 0
IsKeyed r = (k : String) (t : Trigger) → Dict.lookup k r.triggers ≡ some t → t.id ≡ k

-- The trigger of the id has the status.
abbrev pub HasStatus : String → Status → Registry → Type 0
HasStatus id status r = (t : Trigger) × (Dict.lookup id r.triggers ≡ some t) × (t.status ≡ status)

trigger_status_at-HasStatus :
    (status : Status) (ref : EntityRef) (o : Option Trigger) (r r' : Registry) (id name : String)
    (already : Bool)
    → IsKeyed r
    → Dict.lookup ref.id r.triggers ≡ o
    → trigger_status_at status ref o r ≡ (r', done id name already)
    → HasStatus id status r'
unfolding trigger_status_at
trigger_status_at-HasStatus status ref none r r' id name already k e h =
    absurd (cc (ap (λ p. p.1) h))
trigger_status_at-HasStatus status ref (some t) r r' id name already k e h = (
  record t { status = status },
  ap (λ x. Dict.lookup id x.triggers) (sym (ap (λ p. p.0) h))
      ∙ ap (λ i. Dict.lookup i (Dict.insert ref.id (record t { status = status }) r.triggers))
          (sym (done_id (ap (λ p. p.1) h)) ∙ k ref.id t e)
      ∙ lookup-insert_self ref.id (record t { status = status }) r.triggers,
  refl,
)
  where
    done_id : {i n j m : String} {b c : Bool} → done i n b ≡ done j m c → i ≡ j
    done_id p = cc p

-- A trigger that suspendTrigger names has the status "suspended" under the id that it returns.
pub suspend_trigger-HasStatus :
    (env : Env) (r r' : Registry) (identifier id name : String) (already : Bool)
    → IsKeyed r
    → suspend_trigger env r identifier ≡ (r', done id name already)
    → HasStatus id status_suspended r'
unfolding suspend_trigger set_trigger_status
suspend_trigger-HasStatus env r r' identifier id name already k h =
    at_found (find_entity_by_type env r identifier "trigger") h
  where
    at_found :
        (f : Found)
        → set_trigger_status status_suspended f r ≡ (r', done id name already)
        → HasStatus id status_suspended r'
    at_found (found ref) h =
        trigger_status_at-HasStatus status_suspended ref (Dict.lookup ref.id r.triggers) r r' id
          name already k refl h
    at_found missing h = absurd (cc (ap (λ p. p.1) h))
    at_found panicked h = absurd (cc (ap (λ p. p.1) h))
