-- ===== src/Registry/Tests.antt =====
-- A registry on concrete inputs: one file with one group, one trigger and its action.
use recur.Prelude.{
  String, ◌≡◌, refl, none, some, false, [], ◌∷◌, ◌==◌, String_eq, if◌then◌else◌, In, map, keep,
}
use recur.Prelude.Dict
use recur.Prelude.Dict.{Dict}
use recur.Prelude.Int.{pos}
use recur.Config.{no_fields}
use recur.EntityIndex
use recur.EntityIndex.{EntityRef}
use recur.Domain.{Group, Recurfile, Trigger, Action, status_active, status_suspended}
use recur.Recurfile.{RawAction, RawTrigger, RawGroup, RawFile}
use recur.Registry.{Env, Registry, new_registry}
use recur.Registry.Register.{register_recurfile, RegisterResult}
use recur.Registry.Queries.{get_actions_for_trigger, get_trigger, group_action_ids, values}
use recur.Registry.Queries.Laws.{IsListed, get_actions_for_trigger_lem}
use recur.Registry.Control.{
  found, find_entity_by_type, suspend_trigger, resume_trigger, done, suspend_by_plugin_id, hit,
}
use recur.Registry.Control.Laws.{
  at_key, swept, swept_action, suspend_by_plugin_id_lem, resume_trigger-suspend_trigger,
}
use recur.Recurfile.{resolve}
use recur.Engine.{TriggerEvent, ok, activated, dispatch_with_concurrency}
use recur.Engine.Dispatch.{dispatch}
use recur.Registry.Control.Dispatch.{dispatch-suspend_trigger}
use recur.Registry.{unlocked_deregister_recurfile}
use recur.Registry.Removal.{IsElsewhere, unlocked_deregister_recurfile_lem}
use recur.Registry.Register.{register_resolved}
use recur.Registry.Register.Counts.{all_triggers, all_actions, register_resolved-counts}
use recur.Registry.Snapshot.{EntitySnapshot, snapshot_trigger, restore_entity_states}
use recur.Registry.Snapshot.RoundTrip.{TimesRoundTrip, restore_entity_states-snapshot}

abbrev env : Env
env = record {
  sha256_prefix = λ s. s;
  to_lower = λ s. s;
  equal_fold = λ a b. a == b;
  clean_abs = λ path. some path;
  same_file = λ a b. false;
  parse_duration = λ s. none;
  format_time = λ n. "0001-01-01T00:00:07Z";
  parse_time = λ s. if s == "0001-01-01T00:00:07Z" then some 7000000000 else none;
}

abbrev notify : RawAction
notify = record { type = "notify"; name = ""; options = no_fields }

abbrev cron : RawTrigger
cron = record { type = "cron"; name = "nightly"; options = no_fields; actions = notify ∷ [] }

abbrev file : RawFile
file = record {
  path = "/r";
  aliases = [];
  secrets = [];
  groups =
      (record { name = "g"; aliases = []; options = no_fields; triggers = cron ∷ []; actions = [] })
      ∷ [];
}

abbrev registered : Registry × RegisterResult
registered = register_recurfile env [] none [] file new_registry

abbrev cron_id : String
cron_id = "trigger:group:recurfile:/r:g:cron:0"

abbrev cron_ref : EntityRef
cron_ref = record { entity_type = "trigger"; id = cron_id; name = "nightly" }

abbrev cron_trigger : Trigger
cron_trigger = record {
  id = cron_id;
  type = "cron";
  name = "nightly";
  group_id = "group:recurfile:/r:g";
  group_name = "g";
  recurfile_id = "recurfile:/r";
  recurfile_path = "/r";
  plugin_id = "";
  options = no_fields;
  status = status_active;
  error_count = pos 0;
  error_threshold = pos 0;
  last_fired = 0;
  concurrency_mode = "";
  max_queue_size = pos 0;
  debounce = pos 0;
}

trigger_test : get_trigger registered.0 cron_id ≡ some cron_trigger
unfolding register_recurfile Dict.lookup Dict.insert recur.Recurfile.resolve
    recur.Registry.recurfile_of_path recur.Recurfile.Seeds.trigger_seed
    recur.Recurfile.Seeds.group_seed recur.Recurfile.expand_alias
    recur.Plugins.resolve_plugin_for_trigger recur.Config.overlay_layers
    recur.Recurfile.Settings.build_trigger_settings recur.Config.MapStore.get_field
    recur.Config.MapStore.set recur.Config.MapStore.is_known_layer
    recur.Plugins.trigger_defaults_for recur.Plugins.domain_all recur.Config.overlay_maps
    recur.Config.get recur.Config.copy
trigger_test = refl

finds_test : find_entity_by_type env registered.0 "nightly" "trigger" ≡ found cron_ref
unfolding register_recurfile find_entity_by_type EntityIndex.resolve Dict.lookup EntityIndex.add
    Dict.insert recur.Recurfile.resolve recur.Registry.recurfile_of_path
    recur.Recurfile.Seeds.trigger_seed recur.Recurfile.Seeds.group_seed recur.Recurfile.expand_alias
    recur.Recurfile.Seeds.action_seed EntityIndex.first_nonempty EntityIndex.deref keep
finds_test = refl

resume_trigger-suspend_trigger_test :
    ((resume_trigger env (suspend_trigger env registered.0 "nightly").0 "nightly").1
      ≡ done cron_id "cron" false)
    × ((k : String)
        → Dict.lookup k
            (resume_trigger env (suspend_trigger env registered.0 "nightly").0 "nightly").0.triggers
          ≡ (if cron_id == k
              then some (record cron_trigger { status = status_active })
              else Dict.lookup k registered.0.triggers))
resume_trigger-suspend_trigger_test =
    resume_trigger-suspend_trigger env registered.0 "nightly" cron_ref cron_trigger finds_test
      trigger_test

suspend_by_plugin_id_lem_test :
    ((k : String)
      → (Dict.lookup k (suspend_by_plugin_id "" registered.0).0.triggers
          ≡ at_key (swept "") (Dict.lookup k registered.0.triggers))
        × (Dict.lookup k (suspend_by_plugin_id "" registered.0).0.actions
            ≡ at_key (swept_action "") (Dict.lookup k registered.0.actions)))
    × ((suspend_by_plugin_id "" registered.0).1
        ≡ map (λ v. v.id) (keep (λ v. hit "" v.plugin_id v.status) (values registered.0.triggers)))
    × ((suspend_by_plugin_id "" registered.0).2
        ≡ map (λ v. v.id) (keep (λ v. hit "" v.plugin_id v.status) (values registered.0.actions)))
suspend_by_plugin_id_lem_test = suspend_by_plugin_id_lem "" registered.0

abbrev notify_action : Action
notify_action = record {
  id = "action:trigger:group:recurfile:/r:g:cron:0:notify:0";
  type = "notify";
  name = "";
  group_id = "group:recurfile:/r:g";
  group_name = "g";
  trigger_id = cron_id;
  recurfile_id = "recurfile:/r";
  recurfile_path = "/r";
  plugin_id = "";
  options = no_fields;
  status = status_active;
  error_count = pos 0;
  error_threshold = pos 0;
  last_executed = 0;
}

get_actions_for_trigger_lem_test :
    (In notify_action (get_actions_for_trigger registered.0 cron_id)
      → IsListed cron_id registered.0.actions
          (group_action_ids (Dict.lookup "group:recurfile:/r:g" registered.0.groups))
          notify_action)
    × (IsListed cron_id registered.0.actions
          (group_action_ids (Dict.lookup "group:recurfile:/r:g" registered.0.groups))
          notify_action
        → In notify_action (get_actions_for_trigger registered.0 cron_id))
get_actions_for_trigger_lem_test =
    get_actions_for_trigger_lem registered.0 cron_id cron_trigger notify_action trigger_test

-- The trigger before the daemon stopped. It fired a fraction of a second after the time that is saved.
abbrev saved : Trigger
saved = record cron_trigger {
  status = status_suspended;
  error_count = pos 2;
  last_fired = 7250000000;
}

abbrev states : Dict String EntitySnapshot
states = (cron_id, snapshot_trigger env saved) ∷ []

saved_test : Dict.lookup cron_id states ≡ some (snapshot_trigger env saved)
unfolding Dict.lookup
saved_test = refl

times_test : TimesRoundTrip env 7250000000
times_test = record { parses = refl; not_empty = refl }

restore_entity_states-snapshot_example :
    (Dict.lookup cron_id (restore_entity_states env "recurfile:/r" states [] registered.0).triggers
      ≡ some (record saved { last_fired = 7000000000 }))
    × ((k : String) (other : Trigger)
        → Dict.lookup k registered.0.triggers ≡ some other
        → (other.recurfile_id == "recurfile:/r") ≡ false
        → Dict.lookup k (restore_entity_states env "recurfile:/r" states [] registered.0).triggers
          ≡ some other)
restore_entity_states-snapshot_example =
    restore_entity_states-snapshot env "recurfile:/r" states [] registered.0 saved cron_trigger
      times_test trigger_test refl refl saved_test

register_resolved-counts_test :
    ((register_resolved env [] none [] file [] registered.0).1.trigger_count
      ≡ all_triggers file.groups)
    × ((register_resolved env [] none [] file [] registered.0).1.action_count
        ≡ all_actions file.groups)
register_resolved-counts_test = register_resolved-counts env [] none [] file [] registered.0

abbrev recurfile : Recurfile
recurfile = record {
  id = "recurfile:/r";
  file_path = "/r";
  groups = "group:recurfile:/r:g" ∷ [];
  secrets = [];
}

unlocked_deregister_recurfile_lem_example :
    ((gid k : String) (g : Group)
      → In gid recurfile.groups
      → Dict.lookup gid registered.0.groups ≡ some g
      → In k g.trigger_ids
      → Dict.lookup k (unlocked_deregister_recurfile env recurfile registered.0).0.triggers ≡ none)
    × ((k : String)
        → IsElsewhere k recurfile.groups registered.0.groups
        → Dict.lookup k (unlocked_deregister_recurfile env recurfile registered.0).0.triggers
          ≡ Dict.lookup k registered.0.triggers)
    × (Dict.lookup "recurfile:/r"
          (unlocked_deregister_recurfile env recurfile registered.0).0.recurfiles
        ≡ none)
unlocked_deregister_recurfile_lem_example =
    unlocked_deregister_recurfile_lem env recurfile registered.0

abbrev tick : TriggerEvent
tick = record { trigger_type = "cron"; context = [] }

dispatch-suspend_trigger_example :
    (dispatch (get_trigger (suspend_trigger env registered.0 "nightly").0 cron_id) tick activated
      ≡ ok activated)
    × (dispatch (get_trigger (resume_trigger env registered.0 "nightly").0 cron_id) tick activated
        ≡ dispatch_with_concurrency "" (pos 0) tick activated)
dispatch-suspend_trigger_example =
    dispatch-suspend_trigger env registered.0 "nightly" cron_ref cron_trigger tick activated
      finds_test trigger_test
