-- ===== src/Actions/Plugin.antt =====
-- The actions of plugins: pluginExecutor, buildActionEnv and actionDispatcher of
-- src/app/recurd/daemon/action.go.
pub mod Environment
use Prim.Native.String
use Prim.Native.String.{len, slice, ◌++◌ as concat}
use recur.EntityIndex.{has_prefix}
use recur.Prelude.{
  ℕ, suc, ◌+◌, String, Option, none, some, Bool, true, false, not, ◌&&◌, ◌||◌, List, [], ◌∷◌, ◌++◌,
  ◌==◌, String_eq, ℕ_eq, if◌then◌else◌,
}
use recur.Prelude.Result.{Resolved, resolved, unresolved}
use recur.Prelude.Dict
use recur.Prelude.Dict.{Dict}
use recur.Prelude.Int.{ℤ, pos}
use recur.Config.{
  Value, Fields, no_fields, field, get, put, delete, str, bool, object, null, int, float, duration,
  list,
}
use recur.Domain.{Action}
use recur.Plugins.{
  InstalledPlugin, FileSystem, binary_path, OptionDef, ActionDef, find_by_identifier,
  find_action_definition, find_shorthand_option,
}
use recur.Actions.{
  Context, Request, ProcessResult, PluginInput, PluginOutput, Runtime, ResolveResult,
  resolve_options, ExecutionResult, fail_result, raw_result, timeout_at, working_dir,
  friendly_template_error, shell_execute,
}

-- The loop that names the shorthand value by the manifest's shorthand option
pub rename_from :
    Runtime → InstalledPlugin → String → Fields → Fields → List String → Fields × List String
rename_from rt p type no_fields options warnings = (options, warnings)
rename_from rt p type (field k v m) options warnings =
    let (name, is_fallback) = find_shorthand_option rt.equal_fold p type in
    if k == "_shorthand"
    then (if name == ""
        then rename_from rt p type m options
            (warnings ++ "shorthand value present but no shorthand option in manifest" ∷ [])
        else rename_from rt p type m (put name v options) (
            if is_fallback
            then warnings
              ++ concat "action " (
                  concat (rt.quote type)
                    (concat ": no shorthand option declared, using first option " (rt.quote name)))
                ∷ []
            else warnings))
    else rename_from rt p type m (put k v options) warnings

unfoldable pub sensitive_of : List OptionDef → Dict String Bool → Dict String Bool
sensitive_of [] names = names
sensitive_of (o ∷ os) names =
    sensitive_of os (if o.sensitive then Dict.insert o.name true names else names)

-- manifestSensitive
unfoldable pub manifest_sensitive : Option ActionDef → Dict String Bool
unfolding sensitive_of
manifest_sensitive none = []
manifest_sensitive (some d) = sensitive_of d.options []

-- names[k] of a set of names
abbrev pub has : Dict String Bool → String → Bool
has names k = elim (Dict.lookup k names) [ none ↦ false | some b ↦ b ]

-- The loop of buildActionEnv over the options
pub option_lines : Runtime → Dict String Bool → Dict String Bool → Fields → List String
option_lines rt template_sensitive manifest_sensitive no_fields = []
option_lines rt template_sensitive manifest_sensitive (field k v m) =
    let lines = option_lines rt template_sensitive manifest_sensitive m in
    if has template_sensitive k || has manifest_sensitive k
    then lines
    else concat "RECUR_OPT_" (concat (rt.to_upper k) (concat "=" (rt.print_value v))) ∷ lines

-- buildActionEnv
unfoldable pub build_action_env :
    Runtime → String → String → Bool → Fields → Dict String Bool → Dict String Bool → List String
unfolding option_lines
build_action_env rt action_type log_level test options template_sensitive manifest_sensitive =
    (concat "RECUR_ACTION_TYPE=" action_type ∷ concat "RECUR_LOG_LEVEL=" log_level ∷ [])
    ++ ((if test then "RECUR_TEST=true" ∷ [] else [])
        ++ option_lines rt template_sensitive manifest_sensitive options)

-- The options that the plugin gets: `env`, `command` and `timeout` are taken out.
abbrev pub plugin_options : Fields → Fields
plugin_options options = delete "timeout" (delete "command" (delete "env" options))

plugin_output :
    Action → List String → ProcessResult → Option PluginOutput → ExecutionResult × List String
unfolding raw_result
plugin_output a warnings p none = (raw_result a p, warnings)
plugin_output a warnings p (some o) = (
  record {
    action_id = a.id;
    action_type = a.type;
    success = o.success;
    exit_code = p.exit_code;
    output = o.output;
    error = o.error;
    duration = p.duration;
  },
  warnings,
)

plugin_done :
    Runtime → Action → List String → Resolved ProcessResult → ExecutionResult × List String
unfolding plugin_output fail_result
plugin_done rt a warnings (unresolved e) = (fail_result a e, warnings)
plugin_done rt a warnings (resolved p) = plugin_output a warnings p (rt.parse_output p.stdout)

plugin_send :
    Runtime
    → InstalledPlugin
    → Action
    → List String
    → ℤ
    → List String
    → Resolved String
    → ExecutionResult × List String
unfolding plugin_done fail_result working_dir
plugin_send rt p a env timeout warnings (unresolved e) =
    (fail_result a (concat "building plugin request: " e), warnings)
plugin_send rt p a env timeout warnings (resolved payload) = plugin_done rt a warnings (
    rt.execute (record {
      command = binary_path rt.files p;
      args = [];
      stdin = payload;
      working_dir = working_dir rt a;
      env = env;
      timeout = timeout;
    }))

-- The environment of the plugin process, from the options that ResolveOptions returned
unfoldable pub plugin_env :
    Runtime → String → InstalledPlugin → Action → Bool → ResolveResult → List String
unfolding rename_from build_action_env manifest_sensitive
plugin_env rt log_level p a test r =
    let (options, warnings) = rename_from rt p a.type r.options no_fields [] in
    build_action_env rt a.type log_level test (plugin_options options) r.sensitive_keys
      (manifest_sensitive (find_action_definition rt.equal_fold p a.type))

plugin_run :
    Runtime
    → String
    → Dict String Fields
    → InstalledPlugin
    → Action
    → Bool
    → Resolved ResolveResult
    → ExecutionResult × List String
unfolding rename_from timeout_at plugin_env plugin_send fail_result friendly_template_error
plugin_run rt log_level configs p a test (unresolved e) =
    (fail_result a (friendly_template_error rt e), [])
plugin_run rt log_level configs p a test (resolved r) =
    let (options, warnings) = rename_from rt p a.type r.options no_fields [] in
    let (timeout, more) =
      timeout_at rt (get "timeout" (delete "command" (delete "env" options))) (pos 30000000000) in
    plugin_send rt p a (plugin_env rt log_level p a test r) timeout (warnings ++ more) (
      rt.marshal (record {
        action_type = a.type;
        options = plugin_options options;
        config = Dict.lookup p.manifest.namespace configs;
        test = test;
      }))

-- pluginExecutor.Execute
unfoldable pub plugin_execute :
    Runtime
    → String
    → Dict String Fields
    → List InstalledPlugin
    → Action
    → Context
    → ExecutionResult × List String
unfolding plugin_run fail_result
plugin_execute rt log_level configs plugins a ctx =
    elim (find_by_identifier rt.equal_fold plugins a.plugin_id) [
      | none ↦ (fail_result a (concat "plugin " (concat (rt.quote a.plugin_id) " not found")), [])
      | some p ↦ plugin_run rt log_level configs p a ctx.test (resolve_options rt a.options ctx)
    ]

-- The configuration that the executors read: DefaultShell, LogLevel and Plugins
pub record ExecutorConfig : Type 0 where
  pub default_shell : String
  pub log_level : String
  pub plugins : Dict String Fields

-- actionDispatcher.Execute
unfoldable pub execute_action :
    Runtime
    → ExecutorConfig
    → List InstalledPlugin
    → Action
    → Context
    → ExecutionResult × List String
unfolding plugin_execute shell_execute
execute_action rt cfg plugins a ctx =
    if a.plugin_id == ""
    then shell_execute rt cfg.default_shell a ctx
    else plugin_execute rt cfg.log_level cfg.plugins plugins a ctx
