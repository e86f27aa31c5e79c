-- ===== src/Service/Events/Acceptance.antt =====
-- What ReportTriggerEvent accepts.
use recur.Prelude.{
  String, ◌≡◌, refl, sym, ap, subst, Option, none, some, true, false, List, [], ◌∷◌, ◌==◌,
  String_eq, In, Bool-cases, Option-cases, beq-cases, inl, inr,
}
use recur.Prelude.Dict.{Dict, keys}
use recur.Domain.{Trigger}
use recur.Plugins.{
  InstalledPlugin, TriggerDef, ContextDef, find_by_identifier, find_trigger_definition,
}
use recur.Engine.{TriggerEvent}
use recur.Engine.Router.{
  Router, Delivery, delivered, not_registered, channel_full, panicked, deliver, IsAppended,
  deliver-IsAppended,
}
use recur.Registry.Queries.{get_trigger}
use recur.Daemon.{World, Daemon}
use recur.Service.Events.{
  accepted, rejected, names_key, first_unknown, unknown_for, context_of, delivery_report,
  deliver_in, report_for, report_trigger_event,
}

-- The event's keys are in order: the trigger is of no installed plugin or of a type that its manifest
-- does not have, or the manifest declares no context for the type, or it declares every key.
pub data IsDeclared (w : World) (d : Daemon) (t : Trigger) (context : Dict String String)
    : Type 0 where
  of_no_plugin : t.plugin_id ≡ "" → IsDeclared w d t context
  not_installed :
      find_by_identifier w.env.equal_fold d.plugins t.plugin_id ≡ none → IsDeclared w d t context
  not_defined :
      (p : InstalledPlugin)
      → find_by_identifier w.env.equal_fold d.plugins t.plugin_id ≡ some p
      → find_trigger_definition w.env.equal_fold p t.type ≡ none
      → IsDeclared w d t context
  nothing_declared :
      (p : InstalledPlugin) (def : TriggerDef)
      → find_by_identifier w.env.equal_fold d.plugins t.plugin_id ≡ some p
      → find_trigger_definition w.env.equal_fold p t.type ≡ some def
      → def.context ≡ []
      → IsDeclared w d t context
  every_key_declared :
      (p : InstalledPlugin) (def : TriggerDef)
      → find_by_identifier w.env.equal_fold d.plugins t.plugin_id ≡ some p
      → find_trigger_definition w.env.equal_fold p t.type ≡ some def
      → ((k : String) → In k (keys context) → (c : ContextDef) × In c def.context × (c.name ≡ k))
      → IsDeclared w d t context

apart : {A : Type 0} {x : A} → ◌≡◌ {A = Option A} (some x) none → ⊥
apart h = cc h

names_key-In :
    (k : String) (cs : List ContextDef)
    → names_key k cs ≡ true
    → (c : ContextDef) × In c cs × (c.name ≡ k)
unfolding names_key
names_key-In k [] h = absurd (false_true h)
  where
    false_true : false ≡ true → ⊥
    false_true p = cc p
names_key-In k (c ∷ cs) h = elim (beq-cases c.name k) [
  | inl e ↦ (c, inl refl, e.0)
  | inr e ↦ let (c', i, n) = names_key-In k cs (rw e.1 at h) in (c', inr i, n)
]

first_unknown-none :
    (cs : List ContextDef) (ks : List String)
    → first_unknown cs ks ≡ none
    → (k : String) → In k ks
    → names_key k cs ≡ true
unfolding first_unknown
first_unknown-none cs [] h k i = absurd i
first_unknown-none cs (j ∷ ks) h k i = elim (Bool-cases (names_key j cs)) [
  | inl e ↦ elim i [
    | inl p ↦ subst (λ x. names_key x cs ≡ true) (sym p) e
    | inr p ↦ first_unknown-none cs ks (rw e at h) k p
  ]
  | inr e ↦ absurd (apart (rw e at h))
]

unknown_for-IsDeclared :
    (w : World) (d : Daemon) (t : Trigger) (context : Dict String String) (p : InstalledPlugin)
    (def : TriggerDef) (cs : List ContextDef)
    → find_by_identifier w.env.equal_fold d.plugins t.plugin_id ≡ some p
    → find_trigger_definition w.env.equal_fold p t.type ≡ some def
    → def.context ≡ cs
    → unknown_for cs context ≡ none
    → IsDeclared w d t context
unfolding unknown_for
unknown_for-IsDeclared w d t context p def [] found defined is h =
    nothing_declared p def found defined is
unknown_for-IsDeclared w d t context p def (c ∷ cs) found defined is h =
    every_key_declared p def found defined (λ k i.
      subst (λ l. (c' : ContextDef) × In c' l × (c'.name ≡ k)) (sym is)
        (names_key-In k (c ∷ cs) (first_unknown-none (c ∷ cs) (keys context) h k i)))

context_of-IsDeclared :
    (w : World) (d : Daemon) (t : Trigger) (context : Dict String String)
    → unknown_for (context_of w d t) context ≡ none
    → IsDeclared w d t context
unfolding context_of
context_of-IsDeclared w d t context h = elim (beq-cases t.plugin_id "") [
  | inl e ↦ of_no_plugin e.0
  | inr e ↦ elim (Option-cases (find_by_identifier w.env.equal_fold d.plugins t.plugin_id)) [
    | inl missing ↦ not_installed missing
    | inr (p, found) ↦ elim (Option-cases (find_trigger_definition w.env.equal_fold p t.type)) [
      | inl missing ↦ not_defined p found missing
      | inr (def, defined) ↦
          unknown_for-IsDeclared w d t context p def def.context found defined refl
            (rw (e.1, found, defined) at h)
    ]
  ]
]

-- The event was appended to the trigger's channel, which was open and had room, and nothing else has
-- changed.
abbrev pub IsSent : String → TriggerEvent → Daemon → Daemon → Type 0
IsSent id event d d' =
    (router : Router) × (router' : Router) × (d.router ≡ some router)
    × IsAppended id event router router'
    × (d' ≡ record d { router = some router' })

delivery_accepted : (x : Delivery) → delivery_report x ≡ accepted → x ≡ delivered
unfolding delivery_report
delivery_accepted delivered h = refl
delivery_accepted (not_registered id) h = absurd (cc h)
delivery_accepted (channel_full id) h = absurd (cc h)
delivery_accepted panicked h = absurd (cc h)

deliver_in-IsSent :
    (id : String) (event : TriggerEvent) (d d' : Daemon) (router : Option Router)
    → d.router ≡ router
    → deliver_in id event d router ≡ (d', accepted)
    → IsSent id event d d'
unfolding deliver_in
deliver_in-IsSent id event d d' none e h = absurd (cc (ap (λ x. x.1) h))
deliver_in-IsSent id event d d' (some router) e h = (
  router,
  (deliver id event router).0,
  e,
  deliver-IsAppended id event router
      (delivery_accepted (deliver id event router).1 (ap (λ x. x.1) h)),
  sym (ap (λ x. x.0) h),
)

-- An event that ReportTriggerEvent accepts is for a registered trigger; where the trigger's plugin is
-- installed and its manifest declares context for the trigger's type, it has only keys declared there;
-- it was appended, with the type of the trigger, to the channel that the router has for the trigger,
-- which was open and had room; and nothing else has changed.
pub report_trigger_event-accepted :
    (w : World) (id : String) (context : Dict String String) (d d' : Daemon)
    → report_trigger_event w id context d ≡ (d', accepted)
    → (t : Trigger) × (get_trigger d.registry id ≡ some t)
      × IsDeclared w d t context
      × IsSent id (record { trigger_type = t.type; context = context }) d d'
unfolding report_trigger_event report_for
report_trigger_event-accepted w id context d d' h = elim (Bool-cases (id == "")) [
  | inl e ↦ absurd (rejected_accepted (ap (λ x. x.1) (rw e at h)))
  | inr e ↦ elim (Option-cases (get_trigger d.registry id)) [
    | inl g ↦ absurd (rejected_accepted (ap (λ x. x.1) (rw (e, g) at h)))
    | inr (t, g) ↦ elim (Option-cases (unknown_for (context_of w d t) context)) [
      | inr (key, u) ↦ absurd (rejected_accepted (ap (λ x. x.1) (rw (e, g, u, report_for) at h)))
      | inl u ↦ (
        t,
        g,
        context_of-IsDeclared w d t context u,
        deliver_in-IsSent id (record { trigger_type = t.type; context = context }) d d' d.router
            refl (rw (e, g, u, report_for) at h),
      )
    ]
  ]
]
  where
    rejected_accepted : {s : String} → rejected s ≡ accepted → ⊥
    rejected_accepted p = cc p
