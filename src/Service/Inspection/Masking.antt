-- ===== src/Service/Inspection/Masking.antt =====
-- What InspectTrigger shows of the options of a trigger.
use recur.Prelude.{
  String, ◌≡◌, refl, ap, none, some, Bool, false, List, [], ◌∷◌, ◌==◌, String_eq, Bool-cases, inl,
  inr, In,
}
use recur.Prelude.Dict.{Dict}
use recur.Config.{Value, Fields, no_fields, field}
use recur.Domain.{Trigger}
use recur.Plugins.{InstalledPlugin, TriggerDef, ActionDef, find_by_identifier}
use recur.Actions.Plugin.{has}
use recur.Actions.Plugin.Environment.{changed}
use recur.Daemon.{World, Daemon}
use recur.Service.Events.{context_of}
use recur.Service.Views.{trigger_summary}
use recur.Service.Inspection.{
  sensitive_option_names, option_values, trigger_detail, names_of_trigger, names_of_action,
  sensitive_in,
}

option_values-changed :
    (w : World) (names : Dict String Bool) (f : Value → Value) (m : Fields)
    → option_values w names (changed (has names) f m) ≡ option_values w names m
unfolding option_values
option_values-changed w names f no_fields = refl
option_values-changed w names f (field k v m) = elim (Bool-cases (has names k)) [
  | inl s ↦ rw s (ap (λ l. (k, "***") ∷ l) (option_values-changed w names f m))
  | inr s ↦ rw s (ap (λ l. (k, w.rt.print_value v) ∷ l) (option_values-changed w names f m))
]

-- What InspectTrigger answers about a trigger does not depend on the values of the options that
-- sensitiveOptionNames lists for it.
pub trigger_detail-changed :
    (w : World) (d : Daemon) (t : Trigger) (f : Value → Value)
    → trigger_detail w d (record t {
      options = changed (has (sensitive_option_names w d t.plugin_id t.type)) f t.options;
    })
      ≡ trigger_detail w d t
unfolding trigger_detail trigger_summary context_of
trigger_detail-changed w d t f =
    ap (λ l. record (trigger_detail w d t) { options = l })
      (option_values-changed w (sensitive_option_names w d t.plugin_id t.type) f t.options)

-- No trigger and no action of the plugin is named exactly like that.
abbrev pub IsUnnamed : InstalledPlugin → String → Type 0
IsUnnamed p type =
    ((def : TriggerDef) → In def p.manifest.triggers → (def.name == type) ≡ false)
    × ((def : ActionDef) → In def p.manifest.actions → (def.name == type) ≡ false)

names_of_trigger-none :
    (defs : List TriggerDef) (type : String)
    → ((def : TriggerDef) → In def defs → (def.name == type) ≡ false)
    → names_of_trigger defs type ≡ none
unfolding names_of_trigger
names_of_trigger-none [] type h = refl
names_of_trigger-none (def ∷ defs) type h =
    rw (h def (inl refl)) (names_of_trigger-none defs type (λ x i. h x (inr i)))

names_of_action-none :
    (defs : List ActionDef) (type : String)
    → ((def : ActionDef) → In def defs → (def.name == type) ≡ false)
    → names_of_action defs type ≡ []
unfolding names_of_action
names_of_action-none [] type h = refl
names_of_action-none (def ∷ defs) type h =
    rw (h def (inl refl)) (names_of_action-none defs type (λ x i. h x (inr i)))

-- If the plugin of a trigger is installed and declares the trigger's type only under another spelling,
-- InspectTrigger shows the values of all options as they are.
pub trigger_detail_unnamed :
    (w : World) (d : Daemon) (t : Trigger) (p : InstalledPlugin)
    → (t.plugin_id == "") ≡ false
    → find_by_identifier w.env.equal_fold d.plugins t.plugin_id ≡ some p
    → IsUnnamed p t.type
    → (trigger_detail w d t).options ≡ option_values w [] t.options
unfolding trigger_detail sensitive_option_names sensitive_in
trigger_detail_unnamed w d t p h g u =
    ap (λ names. option_values w names t.options)
      (rw (h, g)
        (rw (names_of_trigger-none p.manifest.triggers t.type u.0, sensitive_in)
          (names_of_action-none p.manifest.actions t.type u.1)))
