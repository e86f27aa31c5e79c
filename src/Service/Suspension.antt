-- ===== src/Service/Suspension.antt =====
-- What SuspendTrigger leaves.
use recur.Prelude.{
  String, ◌≡◌, refl, sym, ap, ◌∙◌, subst, Option, none, some, Bool, true, false, List, [], ◌∷◌,
  ◌==◌, String_eq, if◌then◌else◌, In, Bool-cases, Option-cases, inl, inr,
}
use recur.Prelude.Dict
use recur.Prelude.Dict.{Dict, keys, lookup-remove, lookup-insert_self}
use recur.Domain.{status_suspended}
use recur.Engine.Lifecycle.{Engine, deactivate}
use recur.Registry.{Registry}
use recur.Registry.Control.{suspend_trigger, Answer, done, not_found, faulted}
use recur.Registry.Control.Laws.{IsKeyed, HasStatus, suspend_trigger-HasStatus}
use recur.Daemon.{World, Daemon}
use recur.Daemon.Execution.Errors.{lookup-deactivate, save_state-engine, save_state-registry}
use recur.Service.{
  reply, with_identifier, deactivate_all, deactivate_each, suspend_trigger_request,
  suspended_trigger,
}

lookup-deactivate-none :
    (j k : String) (e : Engine)
    → Dict.lookup k e.active ≡ none
    → Dict.lookup k (deactivate j e).active ≡ none
unfolding deactivate
lookup-deactivate-none j k e h = elim (Option-cases (Dict.lookup j e.active)) [
  | inl g ↦ rw (g, deactivate) h
  | inr (at, g) ↦ rw (g, deactivate) (lookup-remove j k e.active ∙ either (j == k))
]
  where
    either : (b : Bool) → (if b then none else Dict.lookup k e.active) ≡ none
    either true = refl
    either false = h

lookup-deactivate_all-none :
    (k : String) (ids : List String) (e : Engine)
    → Dict.lookup k e.active ≡ none
    → Dict.lookup k (deactivate_all ids e).active ≡ none
unfolding deactivate_all
lookup-deactivate_all-none k [] e h = h
lookup-deactivate_all-none k (id ∷ ids) e h =
    lookup-deactivate_all-none k ids (deactivate id e) (lookup-deactivate-none id k e h)

pub lookup-deactivate_all :
    (k : String) (ids : List String) (e : Engine)
    → In k ids
    → Dict.lookup k (deactivate_all ids e).active ≡ none
unfolding deactivate_all
lookup-deactivate_all k [] e i = absurd i
lookup-deactivate_all k (id ∷ ids) e (inl p) =
    lookup-deactivate_all-none k ids (deactivate id e)
      (subst (λ j. Dict.lookup k (deactivate j e).active ≡ none) p (lookup-deactivate k e))
lookup-deactivate_all k (id ∷ ids) e (inr p) = lookup-deactivate_all k ids (deactivate id e) p

-- The trigger of the id is registered with status "suspended", and the engine has no entry for it.
abbrev pub IsSuspended : String → Daemon → Type 0
IsSuspended id d =
    HasStatus id status_suspended d.registry
    × ((e : Engine) → d.engine ≡ some e → Dict.lookup id e.active ≡ none)

some_eq : {A : Type 0} {x y : A} → ◌≡◌ {A = Option A} (some x) (some y) → x ≡ y
some_eq h = cc h

deactivate_each-active :
    (id : String) (o : Option Engine) (e : Engine)
    → deactivate_each (id ∷ []) o ≡ some e
    → Dict.lookup id e.active ≡ none
unfolding deactivate_each
deactivate_each-active id none e h = absurd (cc h)
deactivate_each-active id (some e') e h =
    subst (λ (x : Engine). Dict.lookup id x.active ≡ none) (some_eq h)
      (lookup-deactivate_all id (id ∷ []) e' (inl refl))

suspended_trigger-IsSuspended :
    (w : World) (d d' : Daemon) (p : Registry × Answer) (id name : String) (already : Bool)
    → ((name' : String) (b : Bool) → p.1 ≡ done id name' b → HasStatus id status_suspended p.0)
    → suspended_trigger w d p ≡ (d', reply (id, name, already))
    → IsSuspended id d'
unfolding suspended_trigger
suspended_trigger-IsSuspended w d d' (r, done i n b) id name already s h =
    subst (IsSuspended id) (ap (λ x. x.0) h) (
      subst (HasStatus id status_suspended) (sym (save_state-registry w _))
          (s n b (ap (λ j. done j n b) same)),
      λ e g. deactivate_each-active id d.engine e (
          ap (λ j. deactivate_each (j ∷ []) d.engine) (sym same) ∙ sym (save_state-engine w _) ∙ g),
    )
  where
    reply_id : {x y : String × String × Bool} → reply x ≡ reply y → x.0 ≡ y.0
    reply_id p = cc p

    same : i ≡ id
    same = reply_id (ap (λ x. x.1) h)
suspended_trigger-IsSuspended w d d' (r, not_found) id name already s h =
    absurd (cc (ap (λ x. x.1) h))
suspended_trigger-IsSuspended w d d' (r, faulted) id name already s h =
    absurd (cc (ap (λ x. x.1) h))

-- After SuspendTrigger has answered with an id, on a registry whose triggers are under their ids, the
-- trigger of that id is registered with status "suspended", and the engine, if there is one, has no
-- entry for it.
pub suspend_trigger_request-IsSuspended :
    (w : World) (identifier id name : String) (already : Bool) (d d' : Daemon)
    → IsKeyed d.registry
    → suspend_trigger_request w identifier d ≡ (d', reply (id, name, already))
    → IsSuspended id d'
unfolding suspend_trigger_request with_identifier
suspend_trigger_request-IsSuspended w identifier id name already d d' k h =
    elim (Bool-cases (identifier == "")) [
      | inl e ↦ absurd (cc (ap (λ x. x.1) (rw e at h)))
      | inr e ↦
          suspended_trigger-IsSuspended w d d' (suspend_trigger w.env d.registry identifier) id name
            already
            (λ name' b q.
              suspend_trigger-HasStatus w.env d.registry
                (suspend_trigger w.env d.registry identifier).0 identifier id name' b k
                (ap (λ a. ((suspend_trigger w.env d.registry identifier).0, a)) q))
            (rw e at h)
    ]
