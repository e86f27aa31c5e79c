-- ===== src/Actions.antt =====
-- The execution of an action: src/infra/subprocess/executor/template.go and
-- src/app/recurd/daemon/action.go. Processes, the template language and the print of values are
-- parameters.
pub mod Plugin
pub mod Tests
pub mod Template
unfoldable pub use Template.*
use Prim.Native.String
use Prim.Native.String.{len, slice, ◌++◌ as concat}
use recur.EntityIndex.{has_prefix}
use recur.Prelude.{
  ℕ, suc, ◌+◌, String, Option, none, some, Bool, true, false, not, ◌&&◌, ◌||◌, List, [], ◌∷◌, ◌++◌,
  ◌==◌, String_eq, ℕ_eq, if◌then◌else◌,
}
use recur.Prelude.Result.{Resolved, resolved, unresolved}
use recur.Prelude.Dict
use recur.Prelude.Dict.{Dict}
use recur.Prelude.Int.{ℤ, pos}
use recur.Config.{
  Value, Fields, no_fields, field, get, put, delete, str, bool, object, null, int, float, duration,
  list,
}
use recur.Domain.{Action}
use recur.Plugins.{
  InstalledPlugin, FileSystem, binary_path, OptionDef, ActionDef, find_by_identifier,
  find_action_definition, find_shorthand_option,
}

-- ExecutionResult
pub record ExecutionResult : Type 0 where
  pub action_id : String
  pub action_type : String
  pub success : Bool
  pub exit_code : ℤ
  pub output : String
  pub error : String
  pub duration : String

-- failResult
unfoldable pub fail_result : Action → String → ExecutionResult
fail_result a message = record {
  action_id = a.id;
  action_type = a.type;
  success = false;
  exit_code = pos 0;
  output = "";
  error = message;
  duration = "";
}

is_zero : ℤ → Bool
is_zero (pos n) = n == 0
is_zero _ = false

-- The result of a process whose output is taken as it is
unfoldable pub raw_result : Action → ProcessResult → ExecutionResult
unfolding is_zero
raw_result a p = record {
  action_id = a.id;
  action_type = a.type;
  success = is_zero p.exit_code;
  exit_code = p.exit_code;
  output = p.stdout;
  error = p.stderr;
  duration = p.duration;
}

timeout_or_warn : Runtime → String → ℤ → Resolved ℤ → ℤ × List String
timeout_or_warn rt s default (resolved d) = (d, [])
timeout_or_warn rt s default (unresolved e) =
    (default, concat "invalid timeout " (concat (rt.quote s) (concat ": " e)) ∷ [])

-- The timeout option: a text that is neither empty nor "0" is parsed
timeout_at : Runtime → Option Value → ℤ → ℤ × List String
unfolding timeout_or_warn
timeout_at rt (some (str s)) default =
    if s == "" || s == "0"
    then (default, [])
    else timeout_or_warn rt s default (rt.parse_duration s)
timeout_at rt _ default = (default, [])

-- text, _ = v.(string)
as_text : Option Value → String
as_text (some (str s)) = s
as_text _ = ""

-- The command: the shorthand, else the option `command`
command_of : Fields → String
unfolding as_text
command_of opts =
    let shorthand = as_text (get "_shorthand" opts) in
    if shorthand == "" then as_text (get "command" opts) else shorthand

-- The loop over the map under `env`
env_lines : Runtime → Fields → List String
env_lines rt no_fields = []
env_lines rt (field k v m) = concat k (concat "=" (rt.print_value v)) ∷ env_lines rt m

env_of : Runtime → Option Value → List String
unfolding env_lines
env_of rt (some (object m)) = env_lines rt m
env_of rt _ = []

working_dir : Runtime → Action → String
working_dir rt a = if a.recurfile_path == "" then "" else rt.dir a.recurfile_path

-- ShellRequest: the words of the shell, with the command as the last argument
shell_words : Runtime → List String → List String
shell_words rt [] = rt.words rt.default_shell_command
shell_words rt (w ∷ ws) = w ∷ ws

request_of : List String → String → Request → Request
request_of [] command req = req
request_of (w ∷ ws) command req = record req { command = w; args = ws ++ command ∷ [] }

process_done : Action → List String → Resolved ProcessResult → ExecutionResult × List String
unfolding raw_result fail_result
process_done a warnings (unresolved e) = (fail_result a e, warnings)
process_done a warnings (resolved p) = (raw_result a p, warnings)

shell_run : Runtime → String → Action → Resolved ResolveResult → ExecutionResult × List String
unfolding command_of timeout_at env_of working_dir process_done fail_result shell_words request_of
    friendly_template_error
shell_run rt shell a (unresolved e) = (fail_result a (friendly_template_error rt e), [])
shell_run rt shell a (resolved r) =
    let command = command_of r.options in
    let (timeout, warnings) = timeout_at rt (get "timeout" r.options) (pos 0) in
    if command == ""
    then (fail_result a "no command specified in action options", [])
    else process_done a warnings (
        rt.execute (
          request_of (shell_words rt (rt.words shell)) command (record {
            command = "";
            args = [];
            stdin = "";
            working_dir = working_dir rt a;
            env = env_of rt (get "env" r.options);
            timeout = timeout;
          })))

-- shellExecutor.Execute
unfoldable pub shell_execute : Runtime → String → Action → Context → ExecutionResult × List String
unfolding shell_run
shell_execute rt shell a ctx = shell_run rt shell a (resolve_options rt a.options ctx)
