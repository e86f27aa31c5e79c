-- ===== src/Actions/Tests.antt =====
-- A plugin action with a shorthand option, on a runtime that substitutes one secret.
use recur.Prelude.{◌≡◌, refl, none, some, true, false, [], ◌∷◌, ◌==◌, String_eq, if◌then◌else◌, In}
use recur.Prelude.Result.{resolved, unresolved}
use recur.Prelude.Dict
use recur.Prelude.Dict.{Dict}
use recur.Prelude.Int.{pos}
use recur.Config.{no_fields, field, str, null, put}
use recur.Domain.{Action, status_active}
use recur.Plugins.{InstalledPlugin, find_shorthand_option, find_action_definition}
use recur.Actions.{Runtime, Context, ResolveResult, Rendered, resolve_options, template_data}
use recur.Actions.Plugin.{plugin_env, manifest_sensitive, has}
use recur.Actions.Plugin.Environment.{changed, left_out, plugin_env-changed, plugin_env_shorthand}

abbrev pub runtime : Runtime
runtime = record {
  render = λ s data' secret.
      if s == "{{secret \"token\"}}"
      then record { output = "s3cret"; error = none; called = "token" ∷ [] }
      else record { output = s; error = none; called = [] };
  print_value = λ v. elim v [ str s ↦ s | _ ↦ "" ];
  quote = λ s. s;
  to_upper = λ s. s;
  words = λ s. [];
  equal_fold = λ a b. a == b;
  dir = λ path. path;
  parse_duration = λ s. unresolved "no duration";
  execute = λ req. unresolved "no process";
  marshal = λ i. resolved "{}";
  parse_output = λ s. none;
  trim_space = λ s. s;
  trim_quotes = λ s. s;
  files = record { join = λ a b. b; is_windows = false; exists = λ path. true };
  default_shell_command = "sh -c";
}

abbrev pub notify_plugin : InstalledPlugin
notify_plugin = record {
  id = "p1";
  dir = "/p";
  manifest = record {
    name = "notify";
    namespace = "recur.notify";
    version = "1";
    description = "";
    dependencies = [];
    configuration = [];
    triggers = [];
    actions =
        (record {
          name = "notify";
          options =
              (record {
                name = "MESSAGE";
                type = "string";
                default = null;
                shorthand = true;
                sensitive = false;
              })
              ∷ (record {
                name = "TOKEN";
                type = "string";
                default = null;
                shorthand = false;
                sensitive = true;
              })
              ∷ [];
        })
        ∷ [];
  };
}

abbrev pub notify_action : Action
notify_action = record {
  id = "a";
  type = "notify";
  name = "";
  group_id = "g";
  group_name = "g";
  trigger_id = "t";
  recurfile_id = "r";
  recurfile_path = "/r";
  plugin_id = "recur.notify";
  options = field "_shorthand" (str "{{secret \"token\"}}") no_fields;
  status = status_active;
  error_count = pos 0;
  error_threshold = pos 2;
  last_executed = 0;
}

abbrev leaked : ResolveResult
leaked = record {
  options = field "_shorthand" (str "s3cret") no_fields;
  sensitive_keys = ("_shorthand", true) ∷ [];
}

-- ResolveOptions marks the shorthand as read from a secret.
resolve_options_test :
    resolve_options runtime notify_action.options
      (record { test = false; set = []; secrets = some (("token", "s3cret") ∷ []) })
    ≡ resolved leaked
unfolding resolve_options put Dict.lookup Dict.insert recur.Actions.resolve_template
resolve_options_test = refl

abbrev with_token : ResolveResult
with_token = record {
  options = field "MESSAGE" (str "hello") (field "TOKEN" (str "s3cret") no_fields);
  sensitive_keys = [];
}

plugin_env-changed_example :
    plugin_env runtime "info" notify_plugin notify_action false (record with_token {
      options =
          changed
            (left_out runtime notify_plugin notify_action with_token)
            (λ v. null)
            with_token.options;
    })
    ≡ plugin_env runtime "info" notify_plugin notify_action false with_token
plugin_env-changed_example =
    plugin_env-changed runtime "info" notify_plugin notify_action false with_token (λ v. null)
      (refl, (refl, tt))

shorthand_test :
    find_shorthand_option runtime.equal_fold notify_plugin "notify" ≡ ("MESSAGE", false)
unfolding find_shorthand_option find_action_definition
shorthand_test = refl

clear_test :
    has
      (manifest_sensitive (find_action_definition runtime.equal_fold notify_plugin "notify"))
      "MESSAGE"
    ≡ false
unfolding manifest_sensitive find_action_definition Dict.lookup Dict.insert
clear_test = refl

plugin_env_shorthand_example :
    In "RECUR_OPT_MESSAGE=s3cret"
      (plugin_env runtime "info" notify_plugin notify_action false leaked)
plugin_env_shorthand_example =
    plugin_env_shorthand runtime "info" notify_plugin notify_action false false "MESSAGE" "s3cret"
      shorthand_test refl refl refl refl refl clear_test
