-- ===== src/Service/Views.antt =====
-- Counts and lists of src/app/recurd/daemon/api.go, with src/infra/grpc/server/convert.go: GetStatus,
-- VerifyRecurfile, ListPlugins, ListTriggers, ListActions, ListGroups and ListRecurfiles. An int32 is
-- written modulo 2 ^ 32, as the bits of the number.
use Prim.Native.Nat.{◌%◌}
use recur.Prelude.{
  ℕ, ◌+◌, String, Option, none, some, Bool, true, false, List, [], ◌∷◌, ◌++◌, ◌==◌, String_eq, ℕ_eq,
  if◌then◌else◌, length, map,
}
use recur.Prelude.Result.{Resolved, resolved, unresolved}
use recur.Domain.{Trigger, Action, Group, Recurfile, Status}
use recur.Recurfile.{RawGroup, RawTrigger, RawFile}
use recur.Plugins.{InstalledPlugin}
use recur.Registry.{Registry}
use recur.Registry.Queries.{values, get_recurfile_counts}
use recur.Daemon.{World, Daemon, LaunchArgs}
use recur.Service.{Reply, reply, refused, code_invalid_argument}
use recur.Yaml.Parse.File.{load}

-- The conversion int32(n) of a number that is not negative
abbrev pub int32 : ℕ → ℕ
int32 n = n % 4294967296

-- EntityStatus
pub data EntityStatus : Type 0 where
  unspecified active suspended error_status : EntityStatus

-- DomainStatusToProto
abbrev pub domain_status_to_proto : String → EntityStatus
domain_status_to_proto s =
    if s == "active"
    then active
    else if s == "suspended"
    then suspended
    else if s == "error"
    then error_status
    else unspecified

-- DisplayName
abbrev pub shown_name : String → String → String
shown_name name entity_type = if name == "" then entity_type else name

-- TriggerSummary and ActionSummary; the time is that of the last event or of the last run, if any.
pub record Summary : Type 0 where
  pub id : String
  pub name : String
  pub group : String
  pub plugin : String
  pub status : EntityStatus
  pub recurfile : String
  pub last : Option ℕ

pub record GroupSummary : Type 0 where
  pub id : String
  pub name : String
  pub trigger_count : ℕ
  pub action_count : ℕ

pub record RecurfileSummary : Type 0 where
  pub id : String
  pub path : String
  pub group_count : ℕ
  pub trigger_count : ℕ
  pub action_count : ℕ

pub record PluginSummary : Type 0 where
  pub id : String
  pub name : String
  pub namespace : String
  pub version : String
  pub status : EntityStatus
  pub trigger_count : ℕ
  pub action_count : ℕ

-- nil for the zero time
abbrev pub time_at : ℕ → Option ℕ
time_at time = if time == 0 then none else some time

unfoldable pub trigger_summary : Trigger → Summary
trigger_summary t = record {
  id = t.id;
  name = shown_name t.name t.type;
  group = t.group_name;
  plugin = t.plugin_id;
  status = domain_status_to_proto t.status;
  recurfile = t.recurfile_path;
  last = time_at t.last_fired;
}

unfoldable pub action_summary : Action → Summary
action_summary a = record {
  id = a.id;
  name = shown_name a.name a.type;
  group = a.group_name;
  plugin = a.plugin_id;
  status = domain_status_to_proto a.status;
  recurfile = a.recurfile_path;
  last = time_at a.last_executed;
}

unfoldable pub group_summary : Group → GroupSummary
group_summary g = record {
  id = g.id;
  name = g.name;
  trigger_count = int32 (length g.trigger_ids);
  action_count = int32 (length g.action_ids);
}

recurfile_summary : Registry → Recurfile → RecurfileSummary
recurfile_summary r wf =
    let counts = get_recurfile_counts r wf.id in
    record {
      id = wf.id;
      path = wf.file_path;
      group_count = int32 (length wf.groups);
      trigger_count = int32 counts.trigger_count;
      action_count = int32 counts.action_count;
    }

-- PluginToSummary
unfoldable pub plugin_to_summary : InstalledPlugin → PluginSummary
plugin_to_summary p = record {
  id = p.id;
  name = p.manifest.name;
  namespace = p.manifest.namespace;
  version = p.manifest.version;
  status = active;
  trigger_count = int32 (length p.manifest.triggers);
  action_count = int32 (length p.manifest.actions);
}

-- ListTriggers
unfoldable pub list_triggers_request : Daemon → List Summary
unfolding trigger_summary
list_triggers_request d = map trigger_summary (values d.registry.triggers)

-- ListActions
unfoldable pub list_actions_request : Daemon → List Summary
unfolding action_summary
list_actions_request d = map action_summary (values d.registry.actions)

-- ListGroups
unfoldable pub list_groups_request : Daemon → List GroupSummary
unfolding group_summary
list_groups_request d = map group_summary (values d.registry.groups)

-- ListRecurfiles
unfoldable pub list_recurfiles_request : Daemon → List RecurfileSummary
unfolding recurfile_summary
list_recurfiles_request d = map (recurfile_summary d.registry) (values d.registry.recurfiles)

-- ListPlugins
unfoldable pub list_plugins_request : Daemon → List PluginSummary
unfolding plugin_to_summary
list_plugins_request d = map plugin_to_summary d.plugins

-- The loops of GetStatus: the numbers of active and of suspended entities
count_statuses : List Status → ℕ → ℕ → ℕ × ℕ
count_statuses [] n_active n_suspended = (n_active, n_suspended)
count_statuses (s ∷ ss) n_active n_suspended =
    if s == "active"
    then count_statuses ss (int32 (n_active + 1)) n_suspended
    else if s == "suspended"
    then count_statuses ss n_active (int32 (n_suspended + 1))
    else count_statuses ss n_active n_suspended

-- GetStatusResponse, less what it says of the process (`Running`, `Pid`, `Uptime`) and the version
pub record StatusResponse : Type 0 where
  pub active_triggers : ℕ
  pub suspended_triggers : ℕ
  pub active_actions : ℕ
  pub suspended_actions : ℕ
  pub registered_plugins : ℕ
  pub registered_recurfiles : ℕ
  pub launch_args : Option LaunchArgs

-- GetStatus
unfoldable pub get_status_request : Daemon → StatusResponse
unfolding count_statuses
get_status_request d =
    let (n_active, n_suspended) =
      count_statuses (map (λ t. t.status) (values d.registry.triggers)) 0 0 in
    let (m_active, m_suspended) =
      count_statuses (map (λ a. a.status) (values d.registry.actions)) 0 0 in
    record {
      active_triggers = n_active;
      suspended_triggers = n_suspended;
      active_actions = m_active;
      suspended_actions = m_suspended;
      registered_plugins = int32 (length d.plugins);
      registered_recurfiles = int32 (length (values d.registry.recurfiles));
      launch_args = d.launch_args;
    }

-- VerifyRecurfileResponse
pub record Verification : Type 0 where
  pub valid : Bool
  pub errors : List String
  pub warnings : List (String × String)
  pub trigger_count : ℕ
  pub action_count : ℕ

-- The inner loop of VerifyRecurfile: a trigger has its own actions, or else those of its group.
verify_triggers : RawGroup → List RawTrigger → Verification → Verification
verify_triggers g [] v = v
verify_triggers g (t ∷ ts) v = verify_triggers g ts (elim t.actions [
  | a ∷ as' ↦ record v { action_count = int32 (v.action_count + int32 (length t.actions)) }
  | [] ↦ elim g.actions [
    | a ∷ as' ↦ record v { action_count = int32 (v.action_count + int32 (length g.actions)) }
    | [] ↦ record v { warnings = v.warnings ++ (g.name, t.type) ∷ [] }
  ]
])

-- The outer loop
verify_groups : List RawGroup → Verification → Verification
unfolding verify_triggers
verify_groups [] v = v
verify_groups (g ∷ gs) v = verify_groups gs (
    verify_triggers g g.triggers
      (record v { trigger_count = int32 (v.trigger_count + int32 (length g.triggers)) }))

verify_loaded : Resolved RawFile → Verification
unfolding verify_groups
verify_loaded (unresolved e) = record {
  valid = false;
  errors = e ∷ [];
  warnings = [];
  trigger_count = 0;
  action_count = 0;
}
verify_loaded (resolved f) =
    verify_groups f.groups
      (record { valid = true; errors = []; warnings = []; trigger_count = 0; action_count = 0 })

-- VerifyRecurfile
unfoldable pub verify_recurfile_request : World → String → Reply Verification
unfolding verify_loaded
verify_recurfile_request w path =
    if path == ""
    then refused code_invalid_argument "path is required"
    else reply (verify_loaded (load w.yaml path))
