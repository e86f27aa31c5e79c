-- ===== src/Actions/Template.antt =====
-- Templates and their secrets: src/infra/subprocess/executor/template.go.
use Prim.Native.String.{len, slice, ◌++◌ as concat}
use recur.EntityIndex.{has_prefix}
use recur.Prelude.{
  ℕ, suc, ◌+◌, String, Option, none, some, Bool, true, false, List, [], ◌∷◌, String_eq, ℕ_eq,
  if◌then◌else◌,
}
use recur.Prelude.Result.{Resolved, resolved, unresolved}
use recur.Prelude.Dict
use recur.Prelude.Dict.{Dict}
use recur.Prelude.Int.{ℤ}
use recur.Config.{Value, Fields, no_fields, field, put, str, bool}
use recur.Plugins.{FileSystem}

-- Context; `secrets` is nil without a secrets section
pub record Context : Type 0 where
  pub test : Bool
  pub set : Dict String String
  pub secrets : Option (Dict String String)

-- What text/template does with a text, given its data and the function `secret`: the output or an
-- error, and the names on which `secret` was called, in order.
pub record Rendered : Type 0 where
  pub output : String
  pub error : Option String
  pub called : List String

-- Request of executor.go
pub record Request : Type 0 where
  pub command : String
  pub args : List String
  pub stdin : String
  pub working_dir : String
  pub env : List String
  pub timeout : ℤ

pub record ProcessResult : Type 0 where
  pub exit_code : ℤ
  pub stdout : String
  pub stderr : String
  pub duration : String

-- ActionPluginInput and ActionPluginOutput, which are JSON on the plugin's stdin and stdout
pub record PluginInput : Type 0 where
  pub action_type : String
  pub options : Fields
  pub config : Option Fields
  pub test : Bool

pub record PluginOutput : Type 0 where
  pub success : Bool
  pub output : String
  pub error : String

-- What the executors call and do not implement: text/template; the formats %v and %q of fmt;
-- strings.ToUpper, strings.Fields and strings.EqualFold; filepath.Dir; time.ParseDuration; processes;
-- JSON; strings.TrimSpace and strings.Trim with quotes.
-- `default_shell_command` is the constant of the platform.
pub record Runtime : Type 0 where
  pub render : String → Fields → (String → Option String) → Rendered
  pub print_value : Value → String
  pub quote : String → String
  pub to_upper : String → String
  pub words : String → List String
  pub equal_fold : String → String → Bool
  pub dir : String → String
  pub parse_duration : String → Resolved ℤ
  pub execute : Request → Resolved ProcessResult
  pub marshal : PluginInput → Resolved String
  pub parse_output : String → Option PluginOutput
  pub trim_space : String → String
  pub trim_quotes : String → String
  pub files : FileSystem
  pub default_shell_command : String

-- data[k] = v for the variables of ctx.Set
pub add_vars : Dict String String → Fields → Fields
add_vars [] m = m
add_vars ((k, v) ∷ vars) m = add_vars vars (put k (str v) m)

-- templateData
unfoldable pub template_data : Context → Fields
unfolding add_vars
template_data ctx = add_vars ctx.set (put "Test" (bool ctx.test) no_fields)

-- The function `secret`: it fails on a name that is not there
pub secret_of : Option (Dict String String) → String → Option String
secret_of none name = none
secret_of (some secrets) name = Dict.lookup name secrets

-- secretAccessed was called: some call found its secret
pub accessed : Option (Dict String String) → List String → Bool
unfolding secret_of
accessed secrets [] = false
accessed secrets (name ∷ names) = elim (secret_of secrets name) [
  | none ↦ accessed secrets names
  | some v ↦ true
]

-- The result of ResolveTemplate, with whether a secret was read
pub rendered : Option (Dict String String) → Rendered → Resolved (String × Bool)
unfolding accessed
rendered secrets r = elim r.error [
  | none ↦ resolved (r.output, accessed secrets r.called)
  | some e ↦ unresolved e
]

-- ResolveTemplate
unfoldable pub resolve_template : Runtime → String → Context → Resolved (String × Bool)
unfolding rendered secret_of template_data
resolve_template rt s ctx =
    rendered ctx.secrets (rt.render s (template_data ctx) (secret_of ctx.secrets))

-- ResolveResult
pub record ResolveResult : Type 0 where
  pub options : Fields
  pub sensitive_keys : Dict String Bool

-- The body of the loop of ResolveOptions for a text
pub text_option :
    Runtime → String → Resolved (String × Bool) → ResolveResult → Resolved ResolveResult
text_option rt k (unresolved e) r =
    unresolved (concat "option " (concat (rt.quote k) (concat ": " e)))
text_option rt k (resolved (text, secret)) r = resolved (record {
  options = put k (str text) r.options;
  sensitive_keys = if secret then Dict.insert k true r.sensitive_keys else r.sensitive_keys;
})

-- The body of the loop for any value
pub option_at : Runtime → Context → String → Value → ResolveResult → Resolved ResolveResult
unfolding text_option
option_at rt ctx k (str s) r = text_option rt k (resolve_template rt s ctx) r
option_at rt ctx k v r = resolved (record r { options = put k v r.options })

-- The loop: the first error ends it
pub resolve_from : Runtime → Context → Fields → ResolveResult → Resolved ResolveResult
unfolding option_at
resolve_from rt ctx no_fields r = resolved r
resolve_from rt ctx (field k v opts) r = elim (option_at rt ctx k v r) [
  | unresolved e ↦ unresolved e
  | resolved r' ↦ resolve_from rt ctx opts r'
]

-- ResolveOptions
unfoldable pub resolve_options : Runtime → Fields → Context → Resolved ResolveResult
unfolding resolve_from
resolve_options rt opts ctx =
    resolve_from rt ctx opts (record { options = no_fields; sensitive_keys = [] })

-- strings.Index
pub index_of : String → String → Option ℕ
index_of part String.[] = none
index_of part (String.◌∷◌ c s) =
    let rest = index_of part s in
    if has_prefix part (String.◌∷◌ c s)
    then some 0
    else elim rest [ none ↦ none | some i ↦ some (suc i) ]

-- friendlyTemplateError
unfoldable pub friendly_template_error : Runtime → String → String
unfolding index_of
friendly_template_error rt message = elim (index_of "map has no entry for key" message) [
  | none ↦ concat "template error: " message
  | some i ↦
      let key =
        rt.trim_quotes
          (rt.trim_space (slice message (i + len "map has no entry for key") (len message))) in
      concat "context variable " (
        concat (rt.quote key) (
          concat " not found — provide it with --set "
            (concat key "=<value> when testing, or ensure the trigger sets it")))
]
