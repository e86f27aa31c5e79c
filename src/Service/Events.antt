-- ===== src/Service/Events.antt =====
-- ReportTriggerEvent of src/app/recurd/daemon/api.go.
pub mod Acceptance
use Prim.Native.String.{◌++◌ as concat}
use recur.Prelude.{
  ℕ, String, ◌≡◌, ◌≢◌, refl, sym, ap, ◌∙◌, subst, Option, none, some, Bool, true, false, not, ◌&&◌,
  ◌||◌, ◌+◌, List, [], ◌∷◌, ◌++◌, ◌==◌, String_eq, if◌then◌else◌, map, length, In, Bool-cases,
  Option-cases, beq-cases, inl, inr, keep, keep-In,
}
use recur.Prelude.Result.{Resolved, resolved, unresolved}
use recur.Prelude.Dict
use recur.Prelude.Dict.{Dict, keys, lookup-remove, lookup-insert_self}
use recur.Domain.{Trigger, Action, Recurfile, status_active, status_suspended}
use recur.Plugins.{
  InstalledPlugin, Manifest, TriggerDef, ContextDef, find_by_identifier, find_trigger_definition,
}
use recur.Engine.{TriggerEvent}
use recur.Engine.Lifecycle.{Engine, deactivate}
use recur.Engine.Router.{
  Router, Delivery, delivered, not_registered, channel_full, panicked, deliver,
}
use recur.Registry.{Registry}
use recur.Registry.Control.{
  suspend_by_plugin_id, hit, suspend_trigger, Answer, done, found, find_entity_by_type,
}
use recur.Registry.Control.Laws.{suspend_by_plugin_id_lem, swept}
use recur.Registry.Queries.{get_trigger, values}
use recur.Daemon.{World, Daemon, save_state}
use recur.Daemon.Execution.Errors.{lookup-deactivate}
use recur.Service.{
  Reply, reply, refused, crashed, Code, code_invalid_argument, code_not_found, code_already_exists,
  with_identifier, deactivate_all, deactivate_each, suspend_trigger_request, suspended_trigger,
}

-- What ReportTriggerEvent answers
pub data Report : Type 0 where
  accepted : Report
  rejected : String → Report
  report_panic : Report

names_key : String → List ContextDef → Bool
names_key k [] = false
names_key k (c ∷ cs) = c.name == k || names_key k cs

-- The first key of the event that the manifest does not declare
first_unknown : List ContextDef → List String → Option String
unfolding names_key
first_unknown cs [] = none
first_unknown cs (k ∷ ks) = if names_key k cs then first_unknown cs ks else some k

unknown_for : List ContextDef → Dict String String → Option String
unfolding first_unknown
unknown_for [] context = none
unknown_for (c ∷ cs) context = first_unknown (c ∷ cs) (keys context)

unfoldable pub context_of : World → Daemon → Trigger → List ContextDef
context_of w d t =
    if t.plugin_id == ""
    then []
    else elim (find_by_identifier w.env.equal_fold d.plugins t.plugin_id) [
      | none ↦ []
      | some p ↦ elim (find_trigger_definition w.env.equal_fold p t.type) [
        | none ↦ []
        | some def ↦ def.context
      ]
    ]

delivery_report : Delivery → Report
delivery_report delivered = accepted
delivery_report (not_registered id) = rejected (concat "trigger " (concat id " is not registered"))
delivery_report (channel_full id) =
    rejected (concat "trigger " (concat id " event channel is full"))
delivery_report panicked = report_panic

deliver_in : String → TriggerEvent → Daemon → Option Router → Daemon × Report
unfolding delivery_report
deliver_in id event d none = (d, rejected "event router not initialized")
deliver_in id event d (some router) =
    let (router', delivery) = deliver id event router in
    (record d { router = some router' }, delivery_report delivery)

unfoldable pub report_for :
    World → String → Dict String String → Daemon → Option Trigger → Daemon × Report
unfolding context_of unknown_for deliver_in
report_for w id context d none = (d, rejected (concat "trigger " (concat id " not found")))
report_for w id context d (some t) = elim (unknown_for (context_of w d t) context) [
  | some key ↦ (
    d,
    rejected (
        concat "unknown context key "
          (concat (w.yaml.quote key) (concat " for trigger type " t.type))),
  )
  | none ↦ deliver_in id (record { trigger_type = t.type; context = context }) d d.router
]

-- ReportTriggerEvent
unfoldable pub report_trigger_event : World → String → Dict String String → Daemon → Daemon × Report
unfolding report_for
report_trigger_event w id context d =
    if id == ""
    then (d, rejected "trigger_id is required")
    else report_for w id context d (get_trigger d.registry id)
