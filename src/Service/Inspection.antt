-- ===== src/Service/Inspection.antt =====
-- InspectPlugin, InspectTrigger, InspectAction, InspectGroup and InspectRecurfile of
-- src/app/recurd/daemon/api.go, with sensitiveOptionNames; PluginToDetail of
-- src/infra/grpc/server/convert.go.
pub mod Masking
use Prim.Native.String.{◌++◌ as concat}
use Prim.Native.Nat.{◌%◌}
use recur.Prelude.{
  ℕ, String, Option, none, some, Bool, true, false, List, [], ◌∷◌, ◌++◌, ◌==◌, String_eq,
  if◌then◌else◌, map,
}
use recur.Prelude.Dict
use recur.Prelude.Dict.{Dict}
use recur.Prelude.Int.{ℤ}
use recur.Config.{Value, Fields, no_fields, field}
use recur.Domain.{Trigger, Action, Group, Recurfile}
use recur.Plugins.{
  InstalledPlugin, OptionDef, ContextDef, ConfigEntry, TriggerDef, ActionDef, find_by_identifier,
}
use recur.Registry.{Registry}
use recur.Registry.Queries.{
  find_in, group_triggers, group_actions, recurfile_path_for_group, groups_for_recurfile,
  recurfile_triggers, recurfile_actions, trigger_action_ids,
}
use recur.Actions.Plugin.{has, sensitive_of}
use recur.Daemon.{World, Daemon}
use recur.Service.{Reply, reply, refused, crashed, Code, code_invalid_argument, code_not_found}
use recur.Service.Events.{context_of}
use recur.Service.Views.{
  EntityStatus, active, Summary, GroupSummary, trigger_summary, action_summary, group_summary,
}

pub names_of_trigger : List TriggerDef → String → Option (Dict String Bool)
names_of_trigger [] type = none
names_of_trigger (def ∷ defs) type =
    if def.name == type then some (sensitive_of def.options []) else names_of_trigger defs type

pub names_of_action : List ActionDef → String → Dict String Bool
names_of_action [] type = []
names_of_action (def ∷ defs) type =
    if def.name == type then sensitive_of def.options [] else names_of_action defs type

pub sensitive_in : Option InstalledPlugin → String → Dict String Bool
unfolding names_of_trigger names_of_action
sensitive_in none type = []
sensitive_in (some p) type = elim (names_of_trigger p.manifest.triggers type) [
  | some names ↦ names
  | none ↦ names_of_action p.manifest.actions type
]

-- sensitiveOptionNames
unfoldable pub sensitive_option_names : World → Daemon → String → String → Dict String Bool
unfolding sensitive_in
sensitive_option_names w d plugin_id type =
    if plugin_id == ""
    then []
    else sensitive_in (find_by_identifier w.env.equal_fold d.plugins plugin_id) type

-- The loop over the options of a trigger or an action
unfoldable pub option_values : World → Dict String Bool → Fields → List (String × String)
option_values w names no_fields = []
option_values w names (field k v m) =
    (k, if has names k then "***" else w.rt.print_value v) ∷ option_values w names m

-- TriggerDetail and ActionDetail: `refs` are the ids of a trigger's actions, or the id of an action's trigger.
pub record Detail : Type 0 where
  pub summary : Summary
  pub options : List (String × String)
  pub context : List ContextDef
  pub refs : List String
  pub error_count : ℤ

unfoldable pub trigger_detail : World → Daemon → Trigger → Detail
unfolding sensitive_option_names option_values
trigger_detail w d t = record {
  summary = trigger_summary t;
  options = option_values w (sensitive_option_names w d t.plugin_id t.type) t.options;
  context = context_of w d t;
  refs = trigger_action_ids t.id d.registry.actions;
  error_count = t.error_count;
}

unfoldable pub action_detail : World → Daemon → Action → Detail
unfolding sensitive_option_names option_values
action_detail w d a = record {
  summary = action_summary a;
  options = option_values w (sensitive_option_names w d a.plugin_id a.type) a.options;
  context = [];
  refs = a.trigger_id ∷ [];
  error_count = a.error_count;
}

-- The reply for an entity that the registry may not find
unfoldable pub reply_found : {A B : Type 0} → String → (A → B) → Option (Option A) → Reply B
reply_found message f none = crashed
reply_found message f (some none) = refused code_not_found message
reply_found message f (some (some x)) = reply (f x)

-- InspectTrigger
unfoldable pub inspect_trigger_request : World → String → Daemon → Reply Detail
unfolding reply_found trigger_detail
inspect_trigger_request w identifier d =
    reply_found (concat "trigger not found: " identifier) (trigger_detail w d)
      (find_in w.env d.registry "trigger" identifier d.registry.triggers)

-- InspectAction
unfoldable pub inspect_action_request : World → String → Daemon → Reply Detail
unfolding reply_found action_detail
inspect_action_request w identifier d =
    reply_found (concat "action not found: " identifier) (action_detail w d)
      (find_in w.env d.registry "action" identifier d.registry.actions)

-- GroupDetail
pub record GroupDetail : Type 0 where
  pub id : String
  pub name : String
  pub recurfiles : List String
  pub aliases : Dict String String
  pub options : List (String × String)
  pub triggers : List Summary
  pub actions : List Summary

-- A summary in the detail of a group has the group's name, and neither plugin, recurfile nor time.
in_group : Group → Summary → Summary
in_group g s = record s { group = g.name; plugin = ""; recurfile = ""; last = none }

path_list : String → List String
path_list path = if path == "" then [] else path ∷ []

group_detail : World → Daemon → Group → GroupDetail
unfolding in_group path_list option_values
group_detail w d g = record {
  id = g.id;
  name = g.name;
  recurfiles = path_list (recurfile_path_for_group d.registry g.recurfile_id);
  aliases = g.aliases;
  options = option_values w [] g.options;
  triggers = map (λ t. in_group g (trigger_summary t)) (group_triggers d.registry g.id);
  actions = map (λ a. in_group g (action_summary a)) (group_actions d.registry g.id);
}

-- InspectGroup
unfoldable pub inspect_group_request : World → String → Daemon → Reply GroupDetail
unfolding reply_found group_detail
inspect_group_request w identifier d =
    reply_found (concat "group not found: " identifier) (group_detail w d)
      (find_in w.env d.registry "group" identifier d.registry.groups)

-- RecurfileDetail
pub record RecurfileDetail : Type 0 where
  pub id : String
  pub path : String
  pub groups : List GroupSummary
  pub triggers : List Summary
  pub actions : List Summary

without_time : Summary → Summary
without_time s = record s { last = none }

recurfile_detail : Daemon → Recurfile → RecurfileDetail
unfolding without_time
recurfile_detail d wf = record {
  id = wf.id;
  path = wf.file_path;
  groups = map group_summary (groups_for_recurfile d.registry wf.id);
  triggers =
      map (λ t. without_time (trigger_summary t)) (recurfile_triggers wf.id d.registry.triggers);
  actions = map (λ a. without_time (action_summary a)) (recurfile_actions wf.id d.registry.actions);
}

-- InspectRecurfile
unfoldable pub inspect_recurfile_request : World → String → Daemon → Reply RecurfileDetail
unfolding reply_found recurfile_detail
inspect_recurfile_request w identifier d =
    reply_found (concat "recurfile not found: " identifier) (recurfile_detail d)
      (find_in w.env d.registry "recurfile" identifier d.registry.recurfiles)

-- PluginDetail: the configuration as key, type, default and description; the triggers and actions as
-- id and name
pub record PluginDetail : Type 0 where
  pub id : String
  pub name : String
  pub namespace : String
  pub version : String
  pub description : String
  pub status : EntityStatus
  pub dependencies : List String
  pub configuration : List (String × String × String × String)
  pub triggers : List Summary
  pub actions : List Summary

type_summary : String → String → Summary
type_summary namespace name = record {
  id = concat namespace (concat "." name);
  name = name;
  group = "";
  plugin = namespace;
  status = active;
  recurfile = "";
  last = none;
}

-- PluginToDetail
unfoldable pub plugin_to_detail : World → InstalledPlugin → PluginDetail
unfolding type_summary
plugin_to_detail w p = record {
  id = p.id;
  name = p.manifest.name;
  namespace = p.manifest.namespace;
  version = p.manifest.version;
  description = p.manifest.description;
  status = active;
  dependencies = p.manifest.dependencies;
  configuration =
      map (λ c. (c.key, c.type, w.rt.print_value c.default, c.description))
        p.manifest.configuration;
  triggers = map (λ t. type_summary p.manifest.namespace t.name) p.manifest.triggers;
  actions = map (λ a. type_summary p.manifest.namespace a.name) p.manifest.actions;
}

-- InspectPlugin
unfoldable pub inspect_plugin_request : World → String → Daemon → Reply PluginDetail
unfolding reply_found plugin_to_detail
inspect_plugin_request w identifier d =
    if identifier == ""
    then refused code_invalid_argument "identifier is required"
    else reply_found (concat "plugin not found: " identifier) (plugin_to_detail w)
        (some (find_by_identifier w.env.equal_fold d.plugins identifier))
