-- ===== src/Service/Tests.antt =====
-- Requests to the daemon of Daemon/Tests.
use recur.Prelude.{
  String, ◌≡◌, refl, sym, ap, ◌∙◌, none, some, false, [], ◌∷◌, ◌==◌, String_eq, keep, inl, inr,
  Bool-cases,
}
use recur.Prelude.Dict
use recur.Prelude.Dict.{Dict}
use recur.Config.{no_fields, field, str, null}
use recur.Domain.{Trigger, status_suspended}
use recur.EntityIndex
use recur.Engine.Lifecycle.{Engine}
use recur.Engine.Router.{deliver}
use recur.Plugins.{find_by_identifier, find_trigger_definition}
use recur.Actions.Plugin.{has}
use recur.Actions.Plugin.Environment.{changed}
use recur.Registry.Control.{find_entity_by_type, suspend_trigger}
use recur.Registry.Control.Laws.{IsKeyed}
use recur.Daemon.{Daemon}
use recur.Daemon.Tests.{env, world, watcher, file_created, engine, daemon}
use recur.Service.{reply, suspend_trigger_request, with_identifier}
use recur.Service.Suspension.{IsSuspended, suspend_trigger_request-IsSuspended}
use recur.Service.Plugins.{uninstall_plugin_request}
use recur.Service.Plugins.Removal.{uninstall_plugin_request_lem}
use recur.Service.Events.{report_trigger_event, report_for, accepted, context_of}
use recur.Service.Events.Acceptance.{IsDeclared, IsSent, report_trigger_event-accepted}
use recur.Service.Inspection.{sensitive_option_names, trigger_detail}
use recur.Service.Inspection.Masking.{trigger_detail-changed}
use recur.Registry.Queries.{get_trigger}

trigger_test : Dict.lookup "t" daemon.registry.triggers ≡ some file_created
unfolding Dict.lookup
trigger_test = refl

plugin_test : find_by_identifier env.equal_fold daemon.plugins "recur.files" ≡ some watcher
unfolding find_by_identifier
plugin_test = refl

uninstall_plugin_request_lem_example :
    let d' = (uninstall_plugin_request world "recur.files" daemon).0 in
    ((t' : Trigger) × (Dict.lookup "t" d'.registry.triggers ≡ some t')
      × (t'.status ≡ status_suspended))
    × ((file_created.status == status_suspended) ≡ false
        → (e' : Engine) × (d'.engine ≡ some e') × (Dict.lookup "t" e'.active ≡ none))
uninstall_plugin_request_lem_example =
    uninstall_plugin_request_lem world "recur.files" "t" watcher file_created daemon engine refl
      plugin_test refl trigger_test refl

abbrev context : Dict String String
context = ("Path", "/tmp/x") ∷ []

abbrev reported : Daemon
reported = (report_trigger_event world "t" context daemon).0

accepted_test : report_trigger_event world "t" context daemon ≡ (reported, accepted)
unfolding report_trigger_event report_for Dict.lookup find_by_identifier find_trigger_definition
    deliver Dict.insert context_of
accepted_test = refl

report_trigger_event-accepted_example :
    (t : Trigger) × (get_trigger daemon.registry "t" ≡ some t)
    × IsDeclared world daemon t context
    × IsSent "t" (record { trigger_type = t.type; context = context }) daemon reported
report_trigger_event-accepted_example =
    report_trigger_event-accepted world "t" context daemon reported accepted_test

keyed : IsKeyed daemon.registry
unfolding Dict.lookup
keyed k t h = elim (Bool-cases ("t" == k)) [
  | inl e ↦ ap (λ x. x.id) (sym (some_trigger (rw e at h))) ∙ (String_eq.decides "t" k).0 e
  | inr e ↦ absurd (cc (rw e at h))
]
  where
    some_trigger : {x y : Trigger} → some x ≡ some y → x ≡ y
    some_trigger p = cc p

abbrev suspended : Daemon
suspended = (suspend_trigger_request world "t" daemon).0

suspend_test :
    suspend_trigger_request world "t" daemon ≡ (suspended, reply ("t", "FileCreated", false))
unfolding suspend_trigger_request with_identifier suspend_trigger find_entity_by_type
    EntityIndex.resolve Dict.lookup Dict.insert EntityIndex.first_nonempty EntityIndex.deref keep
suspend_test = refl

suspend_trigger_request-IsSuspended_example : IsSuspended "t" suspended
suspend_trigger_request-IsSuspended_example =
    suspend_trigger_request-IsSuspended world "t" "t" "FileCreated" false daemon suspended keyed
      suspend_test

abbrev with_option : Trigger
with_option = record file_created { options = field "TOKEN" (str "s3cret") no_fields }

trigger_detail-changed_example :
    trigger_detail world daemon (record with_option {
      options =
          changed
            (has (sensitive_option_names world daemon "recur.files" "FileCreated"))
            (λ v. null)
            with_option.options;
    })
    ≡ trigger_detail world daemon with_option
trigger_detail-changed_example = trigger_detail-changed world daemon with_option (λ v. null)
