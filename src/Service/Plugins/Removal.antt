-- ===== src/Service/Plugins/Removal.antt =====
-- What UninstallPlugin leaves.
use recur.Prelude.{
  String, ◌≡◌, refl, sym, ap, ◌∙◌, subst, Option, none, some, false, List, [], ◌∷◌, ◌==◌, String_eq,
  map, In, Bool-cases, beq_refl, inl, inr, keep-In,
}
use recur.Prelude.Dict
use recur.Prelude.Dict.{Dict, keys, lookup-remove, lookup-insert_self}
use recur.Domain.{Trigger, status_suspended}
use recur.Plugins.{InstalledPlugin, find_by_identifier}
use recur.Engine.Lifecycle.{Engine}
use recur.Registry.Control.{suspend_by_plugin_id, hit}
use recur.Registry.Control.Laws.{suspend_by_plugin_id_lem, swept, at_key}
use recur.Registry.Queries.{values}
use recur.Daemon.{World, Daemon}
use recur.Service.{with_identifier, deactivate_all, deactivate_each}
use recur.Service.Plugins.{uninstall_found, uninstall_plugin_request, save_if_any}
use recur.Service.Suspension.{lookup-deactivate_all}
use recur.Daemon.Execution.Errors.{save_state-engine, save_state-registry}

save_if_any-engine :
    (w : World) (ts as' : List String) (d : Daemon) → (save_if_any w ts as' d).engine ≡ d.engine
unfolding save_if_any
save_if_any-engine w [] [] d = refl
save_if_any-engine w [] (a ∷ as') d = save_state-engine w d
save_if_any-engine w (t ∷ ts) as' d = save_state-engine w d

save_if_any-registry :
    (w : World) (ts as' : List String) (d : Daemon) → (save_if_any w ts as' d).registry ≡ d.registry
unfolding save_if_any
save_if_any-registry w [] [] d = refl
save_if_any-registry w [] (a ∷ as') d = save_state-registry w d
save_if_any-registry w (t ∷ ts) as' d = save_state-registry w d

In-map : {A : Type 0} (f : A → String) (x : A) (xs : List A) → In x xs → In (f x) (map f xs)
In-map f x [] i = absurd i
In-map f x (y ∷ ys) (inl p) = inl (ap f p)
In-map f x (y ∷ ys) (inr p) = inr (In-map f x ys p)

apart : {A : Type 0} {x : A} → ◌≡◌ {A = Option A} none (some x) → ⊥
apart h = cc h

lookup-values :
    {V : Type 0} (k : String) (v : V) (m : Dict String V)
    → Dict.lookup k m ≡ some v
    → In v (values m)
unfolding Dict.lookup values
lookup-values k v [] h = absurd (apart h)
lookup-values k v ((j, u) ∷ m) h = elim (Bool-cases (j == k)) [
  | inl e ↦ inl (cc (rw e at h))
  | inr e ↦ inr (lookup-values k v m (rw e at h))
]

swept_suspended :
    (namespace : String) (t : Trigger)
    → t.plugin_id ≡ namespace
    → (swept namespace t).status ≡ status_suspended
swept_suspended namespace t o = elim (Bool-cases (t.status == status_suspended)) [
  | inl e ↦ rw (o, beq_refl namespace, e) ((String_eq.decides t.status status_suspended).0 e)
  | inr e ↦ rw (o, beq_refl namespace, e) refl
]

-- After UninstallPlugin finds a plugin, every trigger whose plugin it was is suspended, and for each of
-- them that was not suspended before, the engine has no entry.
pub uninstall_plugin_request_lem :
    (w : World) (identifier k : String) (p : InstalledPlugin) (t : Trigger) (d : Daemon)
    (e : Engine)
    → (identifier == "") ≡ false
    → find_by_identifier w.env.equal_fold d.plugins identifier ≡ some p
    → d.engine ≡ some e
    → Dict.lookup k d.registry.triggers ≡ some t
    → t.plugin_id ≡ p.manifest.namespace
    → let d' = (uninstall_plugin_request w identifier d).0 in
      ((t' : Trigger) × (Dict.lookup k d'.registry.triggers ≡ some t')
        × (t'.status ≡ status_suspended))
      × ((t.status == status_suspended) ≡ false
          → (e' : Engine) × (d'.engine ≡ some e') × (Dict.lookup t.id e'.active ≡ none))
unfolding uninstall_plugin_request uninstall_found with_identifier deactivate_each
uninstall_plugin_request_lem w identifier k p t d e i f g h o =
    let (at, ids, _) = suspend_by_plugin_id_lem p.manifest.namespace d.registry in
    rw (i, f, g)
      (
        (
          swept p.manifest.namespace t,
          ap (λ r. Dict.lookup k r.triggers) (save_if_any-registry w _ _ _)
              ∙ (at k).0
              ∙ ap (at_key (swept p.manifest.namespace)) h,
          swept_suspended p.manifest.namespace t o,
        ),
        λ s. (
          deactivate_all (suspend_by_plugin_id p.manifest.namespace d.registry).1 e,
          save_if_any-engine w _ _ _,
          lookup-deactivate_all t.id _ e (
              subst (In t.id) (sym ids) (
                In-map (λ v. v.id) t _
                  (keep-In t (λ v. hit p.manifest.namespace v.plugin_id v.status)
                    (values d.registry.triggers) (lookup-values k t d.registry.triggers h)
                    (rw (o, beq_refl p.manifest.namespace, s) refl)))),
        ),
      )
