-- ===== src/Registry/Register.antt =====
-- registerRecurfile and registerResolved of registry.go: a parsed file becomes entities under stable
-- ids. The ids are computed by EntityID of src/domain/recurfile/builder.go.
pub mod Counts
use Prim.Native.String.{◌++◌ as concat}
use recur.Prelude.{
  ℕ, String, ◌+◌, Option, none, some, Bool, true, false, List, [], ◌∷◌, ◌++◌, ◌==◌, String_eq,
  if◌then◌else◌,
}
use recur.Prelude.Dict
use recur.Prelude.Dict.{Dict}
use recur.Config.{Fields}
use recur.Prelude.Int.{pos}
use recur.Domain.{Trigger, Action, Group, Recurfile, status_active}
use recur.EntityIndex
use recur.EntityIndex.{EntityRef}
use recur.Plugins.{
  InstalledPlugin, domain_all, trigger_defaults_for, resolve_plugin_for_trigger,
  resolve_plugin_for_action,
}
use recur.Recurfile.{RawAction, RawTrigger, RawGroup, RawFile, resolve, validate, Warning}
use recur.Recurfile.Seeds.{group_seed, trigger_seed, action_seed}
use recur.Recurfile.Settings.{TriggerSettings, build_trigger_settings}
use recur.Registry.{
  Env, Registry, recurfile_of_path, unlocked_trigger_ids, unlocked_deregister_recurfile,
}

-- registerResult
pub record RegisterResult : Type 0 where
  pub recurfile_id : String
  pub trigger_count : ℕ
  pub action_count : ℕ
  pub warnings : List Warning
  pub reloaded : Bool
  pub old_trigger_ids : List String

-- EntityID
unfoldable pub entity_id : Env → String → String → String
entity_id env entity_type seed = env.sha256_prefix (concat entity_type (concat ":" seed))

-- m[k] of a map of counts, and m[k]++
abbrev pub count_of : Dict String ℕ → String → ℕ
count_of m k = elim (Dict.lookup k m) [ none ↦ 0 | some n ↦ n ]

abbrev pub bump : String → Dict String ℕ → Dict String ℕ
bump k m = Dict.insert k (count_of m k + 1) m

-- The display name: the label if there is one, else the type
abbrev pub display_name : String → String → String
display_name type name = if name == "" then type else name

-- What the loops over groups, triggers and actions carry along
pub record Progress : Type 0 where
  pub registry : Registry
  pub group : Group
  pub trigger_count : ℕ
  pub action_count : ℕ

-- The names that are fixed within one file
pub record Source : Type 0 where
  pub env : Env
  pub plugins : List InstalledPlugin
  pub defaults : Option Fields
  pub plugin_overrides : Dict String Fields
  pub recurfile_id : String
  pub path : String

-- The entity of an action entry
unfoldable pub new_action : Source → Group → String → TriggerSettings → ℕ → RawAction → Action
unfolding entity_id
new_action src grp trigger_id settings occurrence a = record {
  id = entity_id src.env "action" (action_seed trigger_id a.type occurrence);
  type = a.type;
  name = a.name;
  group_id = grp.id;
  group_name = grp.name;
  trigger_id = trigger_id;
  recurfile_id = src.recurfile_id;
  recurfile_path = src.path;
  plugin_id = resolve_plugin_for_action src.env.equal_fold src.plugins a.type;
  options = a.options;
  status = status_active;
  error_count = pos 0;
  error_threshold = settings.action_error_threshold;
  last_executed = 0;
}

-- The body of the loop over a trigger's actions
unfoldable pub add_action : Source → Action → Progress → Progress
add_action src act p =
    let r = p.registry in
    record p {
      registry = record r {
        actions = Dict.insert act.id act r.actions;
        index =
            EntityIndex.add src.env.to_lower
              (record {
                entity_type = "action";
                id = act.id;
                name = display_name act.type act.name;
              })
              r.index;
      };
      group = record p.group { action_ids = p.group.action_ids ++ act.id ∷ [] };
      action_count = p.action_count + 1;
    }

-- The loop over a trigger's actions, with the occurrences of each type so far
unfoldable pub add_actions :
    Source → String → TriggerSettings → Dict String ℕ → List RawAction → Progress → Progress
unfolding new_action add_action
add_actions src trigger_id settings counts [] p = p
add_actions src trigger_id settings counts (a ∷ as') p =
    add_actions src trigger_id settings (bump a.type counts) as'
      (add_action src (new_action src p.group trigger_id settings (count_of counts a.type) a) p)

-- pluginOverrides[pluginNamespace], nil for a namespace that is not there
pub settings_for : Source → RawGroup → RawTrigger → TriggerSettings
settings_for src g t =
    let (namespace, plugin_defaults) = trigger_defaults_for (domain_all src.plugins) t.type in
    build_trigger_settings src.env.parse_duration src.defaults plugin_defaults
      (Dict.lookup namespace src.plugin_overrides) (some g.options) (some t.options)

-- The entity of a trigger entry
unfoldable pub new_trigger : Source → Group → TriggerSettings → ℕ → RawTrigger → Trigger
unfolding entity_id
new_trigger src grp settings occurrence t = record {
  id = entity_id src.env "trigger" (trigger_seed grp.id t.type occurrence);
  type = t.type;
  name = t.name;
  group_id = grp.id;
  group_name = grp.name;
  recurfile_id = src.recurfile_id;
  recurfile_path = src.path;
  plugin_id = resolve_plugin_for_trigger src.env.equal_fold src.plugins t.type;
  options = t.options;
  status = status_active;
  error_count = pos 0;
  error_threshold = settings.error_threshold;
  last_fired = 0;
  concurrency_mode = settings.concurrency_mode;
  max_queue_size = settings.max_queue_size;
  debounce = settings.debounce;
}

-- The body of the loop over a group's triggers, before its actions
unfoldable pub add_trigger : Source → Trigger → Progress → Progress
add_trigger src tr p =
    let r = p.registry in
    record p {
      registry = record r {
        triggers = Dict.insert tr.id tr r.triggers;
        index =
            EntityIndex.add src.env.to_lower
              (record { entity_type = "trigger"; id = tr.id; name = display_name tr.type tr.name })
              r.index;
      };
      group = record p.group { trigger_ids = p.group.trigger_ids ++ tr.id ∷ [] };
      trigger_count = p.trigger_count + 1;
    }

-- The loop over a group's triggers
unfoldable pub add_triggers :
    Source → RawGroup → Dict String ℕ → List RawTrigger → Progress → Progress
unfolding add_actions new_trigger add_trigger settings_for
add_triggers src g counts [] p = p
add_triggers src g counts (t ∷ ts) p =
    let settings = settings_for src g t in
    let tr = new_trigger src p.group settings (count_of counts t.type) t in
    add_triggers src g (bump t.type counts) ts
      (add_actions src tr.id settings [] t.actions (add_trigger src tr p))

-- The group entity before its triggers
unfoldable pub new_group : Source → RawGroup → Group
unfolding entity_id
new_group src g = record {
  id = entity_id src.env "group" (group_seed src.recurfile_id g.name);
  name = g.name;
  recurfile_id = src.recurfile_id;
  trigger_ids = [];
  action_ids = [];
  options = g.options;
  aliases = g.aliases;
}

-- The loop over the file's groups: the registry, both counts and the ids of the groups
unfoldable pub add_groups :
    Source → List RawGroup → Registry → ℕ → ℕ → List String → Registry × ℕ × ℕ × List String
unfolding add_triggers new_group
add_groups src [] r trigger_count action_count ids = (r, trigger_count, action_count, ids)
add_groups src (g ∷ gs) r trigger_count action_count ids =
    let p = add_triggers src g [] g.triggers (record {
      registry = r;
      group = new_group src g;
      trigger_count = trigger_count;
      action_count = action_count;
    }) in
    let grp = p.group in
    let r' = p.registry in
    add_groups src gs
      (record r' {
        groups = Dict.insert grp.id grp r'.groups;
        index =
            EntityIndex.add src.env.to_lower
              (record { entity_type = "group"; id = grp.id; name = g.name }) r'.index;
      })
      p.trigger_count p.action_count (ids ++ grp.id ∷ [])

-- A file under a path that is registered already replaces what was registered.
pub unload : Env → Option Recurfile → Registry → Registry × List String × Bool
unload env none r = (r, [], false)
unload env (some wf) r =
    ((unlocked_deregister_recurfile env wf r).0, unlocked_trigger_ids wf.groups r.groups, true)

pub or_path : String → Option String → String
or_path path none = path
or_path path (some abs) = abs

-- registerResolved
unfoldable pub register_resolved :
    Env
    → List InstalledPlugin
    → Option Fields
    → Dict String Fields
    → RawFile
    → List Warning
    → Registry
    → Registry × RegisterResult
unfolding unload or_path add_groups entity_id
register_resolved env plugins defaults plugin_overrides f warnings r =
    let path = or_path f.path (env.clean_abs f.path) in
    let (r1, old, reloaded) = unload env (recurfile_of_path env path r.recurfiles) r in
    let wf_id = entity_id env "recurfile" path in
    let src : Source = record {
      env = env;
      plugins = plugins;
      defaults = defaults;
      plugin_overrides = plugin_overrides;
      recurfile_id = wf_id;
      path = path;
    } in
    let (r2, trigger_count, action_count, ids) = add_groups src f.groups r1 0 0 [] in
    let wf : Recurfile = record {
      id = wf_id;
      file_path = path;
      groups = ids;
      secrets = f.secrets;
    } in
    (
      record r2 {
        recurfiles = Dict.insert wf_id wf r2.recurfiles;
        index =
            EntityIndex.add env.to_lower
              (record { entity_type = "recurfile"; id = wf_id; name = path }) r2.index;
      },
      record {
        recurfile_id = wf_id;
        trigger_count = trigger_count;
        action_count = action_count;
        warnings = warnings;
        reloaded = reloaded;
        old_trigger_ids = old;
      },
    )

-- registerRecurfile
unfoldable pub register_recurfile :
    Env
    → List InstalledPlugin
    → Option Fields
    → Dict String Fields
    → RawFile
    → Registry
    → Registry × RegisterResult
unfolding register_resolved
register_recurfile env plugins defaults plugin_overrides f r =
    let resolved = resolve f in
    register_resolved env plugins defaults plugin_overrides resolved (validate resolved) r
