-- ===== src/Actions/Plugin/Environment.antt =====
-- Which option values reach the environment of a plugin's process.
use Prim.Native.String.{◌++◌ as concat}
use recur.Prelude.{
  String, ◌≡◌, refl, sym, ap, ◌∙◌, subst, Bool, true, false, ◌||◌, List, [], ◌∷◌, ◌++◌, ◌==◌,
  String_eq, if◌then◌else◌, Bool-cases, inl, inr, In, In-append_right,
}
use recur.Prelude.Dict
use recur.Prelude.Dict.{Dict}
use recur.Config.{Value, Fields, no_fields, field, put, delete, str}
use recur.Domain.{Action}
use recur.Plugins.{InstalledPlugin, find_action_definition, find_shorthand_option}
use recur.Actions.{Runtime, ResolveResult}
use recur.Actions.Plugin.{
  rename_from, has, manifest_sensitive, option_lines, build_action_env, plugin_options, plugin_env,
}

-- The options with every value under a key that passes the test changed by `f`.
abbrev pub changed : (String → Bool) → (Value → Value) → Fields → Fields
changed sensitive f no_fields = no_fields
changed sensitive f (field k v m) = field k (if sensitive k then f v else v) (changed sensitive f m)

-- No option is given in shorthand.
abbrev pub HasNoShorthand : Fields → Type 0
HasNoShorthand no_fields = Unit {0}
HasNoShorthand (field k v m) = ((k == "_shorthand") ≡ false) × HasNoShorthand m

-- The keys that buildActionEnv leaves out
abbrev pub left_out : Runtime → InstalledPlugin → Action → ResolveResult → String → Bool
left_out rt p a r k =
    has r.sensitive_keys k
    || has (manifest_sensitive (find_action_definition rt.equal_fold p a.type)) k

module _ (sensitive : String → Bool) (f : Value → Value) where
  put-changed :
      (k : String) (v : Value) (m : Fields)
      → put k (if sensitive k then f v else v) (changed sensitive f m)
        ≡ changed sensitive f (put k v m)
  unfolding put
  put-changed k v no_fields = refl
  put-changed k v (field j w m) = elim (Bool-cases (j == k)) [
    | inl e ↦ rw e refl
    | inr e ↦ rw e (ap (field j (if sensitive j then f w else w)) (put-changed k v m))
  ]

  delete-changed :
      (k : String) (m : Fields)
      → delete k (changed sensitive f m) ≡ changed sensitive f (delete k m)
  unfolding delete
  delete-changed k no_fields = refl
  delete-changed k (field j w m) = elim (Bool-cases (j == k)) [
    | inl e ↦ rw e (delete-changed k m)
    | inr e ↦ rw e (ap (field j (if sensitive j then f w else w)) (delete-changed k m))
  ]

  rename_from-changed :
      (rt : Runtime) (p : InstalledPlugin) (type : String) (m options : Fields)
      (warnings : List String)
      → HasNoShorthand m
      → (rename_from rt p type (changed sensitive f m) (changed sensitive f options) warnings).0
        ≡ changed sensitive f (rename_from rt p type m options warnings).0
  unfolding rename_from
  rename_from-changed rt p type no_fields options warnings h = refl
  rename_from-changed rt p type (field k v m) options warnings h = rw h.0 (
      ap (λ o. (rename_from rt p type (changed sensitive f m) o warnings).0)
        (put-changed k v options)
      ∙ rename_from-changed rt p type m (put k v options) warnings h.1)

option_lines-changed :
    (rt : Runtime) (ts ms : Dict String Bool) (f : Value → Value) (m : Fields)
    → option_lines rt ts ms (changed (λ k. has ts k || has ms k) f m) ≡ option_lines rt ts ms m
unfolding option_lines
option_lines-changed rt ts ms f no_fields = refl
option_lines-changed rt ts ms f (field k v m) = elim (Bool-cases (has ts k || has ms k)) [
  | inl s ↦ rw s (option_lines-changed rt ts ms f m)
  | inr s ↦ rw s (
      ap (λ l. concat "RECUR_OPT_" (concat (rt.to_upper k) (concat "=" (rt.print_value v))) ∷ l)
        (option_lines-changed rt ts ms f m))
]

plugin_options-changed :
    (sensitive : String → Bool) (f : Value → Value) (m : Fields)
    → plugin_options (changed sensitive f m) ≡ changed sensitive f (plugin_options m)
plugin_options-changed sensitive f m =
    ap (λ l. delete "timeout" (delete "command" l)) (delete-changed sensitive f "env" m)
    ∙ ap (delete "timeout") (delete-changed sensitive f "command" (delete "env" m))
    ∙ delete-changed sensitive f "timeout" (delete "command" (delete "env" m))

-- Without a shorthand option, the environment of a plugin's process does not depend on the value of any
-- option that read a secret or that the manifest declares sensitive.
pub plugin_env-changed :
    (rt : Runtime) (log_level : String) (p : InstalledPlugin) (a : Action) (test : Bool)
    (r : ResolveResult) (f : Value → Value)
    → HasNoShorthand r.options
    → plugin_env rt log_level p a test
        (record r { options = changed (left_out rt p a r) f r.options })
      ≡ plugin_env rt log_level p a test r
unfolding plugin_env build_action_env
plugin_env-changed rt log_level p a test r f h =
    ap env_with (
      ap plugin_options
        (rename_from-changed (left_out rt p a r) f rt p a.type r.options no_fields [] h)
      ∙ plugin_options-changed (left_out rt p a r) f
          (rename_from rt p a.type r.options no_fields []).0)
    ∙ ap (λ l. start ++ ((if test then "RECUR_TEST=true" ∷ [] else []) ++ l))
        (option_lines-changed rt r.sensitive_keys
          (manifest_sensitive (find_action_definition rt.equal_fold p a.type)) f
          (plugin_options (rename_from rt p a.type r.options no_fields []).0))
  where
    start : List String
    start = concat "RECUR_ACTION_TYPE=" a.type ∷ concat "RECUR_LOG_LEVEL=" log_level ∷ []

    env_with : Fields → List String
    env_with options =
        build_action_env rt a.type log_level test options r.sensitive_keys
          (manifest_sensitive (find_action_definition rt.equal_fold p a.type))

plugin_options_single :
    (k : String) (v : Value)
    → (k == "env") ≡ false
    → (k == "command") ≡ false
    → (k == "timeout") ≡ false
    → plugin_options (field k v no_fields) ≡ field k v no_fields
unfolding delete
plugin_options_single k v h1 h2 h3 = rw h1 (rw h2 (rw h3 refl))

rename_from_shorthand :
    (rt : Runtime) (p : InstalledPlugin) (type name : String) (is_fallback : Bool) (v : Value)
    → find_shorthand_option rt.equal_fold p type ≡ (name, is_fallback)
    → (name == "") ≡ false
    → (rename_from rt p type (field "_shorthand" v no_fields) no_fields []).0
      ≡ field name v no_fields
unfolding rename_from put
rename_from_shorthand rt p type name is_fallback v found h = rw found (rw h refl)

has_shorthand :
    (k : String) → ("_shorthand" == k) ≡ false → has (("_shorthand", true) ∷ []) k ≡ false
unfolding Dict.lookup
has_shorthand k h = rw (h, has) refl

option_lines_single :
    (rt : Runtime) (ts ms : Dict String Bool) (k : String) (v : Value)
    → (has ts k || has ms k) ≡ false
    → option_lines rt ts ms (field k v no_fields)
      ≡ concat "RECUR_OPT_" (concat (rt.to_upper k) (concat "=" (rt.print_value v))) ∷ []
unfolding option_lines
option_lines_single rt ts ms k v h = rw h refl

-- Where the shorthand is the only option of an action and its value read a secret, the environment of the
-- plugin's process has that value, printed, as RECUR_OPT_ and the name of the manifest's shorthand
-- option, or of its first option where none is marked shorthand, if that name is not empty and none of
-- _shorthand, env, command and timeout, and the manifest does not declare the option sensitive.
pub plugin_env_shorthand :
    (rt : Runtime) (log_level : String) (p : InstalledPlugin) (a : Action) (test is_fallback : Bool)
    (name secret : String)
    → find_shorthand_option rt.equal_fold p a.type ≡ (name, is_fallback)
    → (name == "") ≡ false
    → ("_shorthand" == name) ≡ false
    → (name == "env") ≡ false
    → (name == "command") ≡ false
    → (name == "timeout") ≡ false
    → has (manifest_sensitive (find_action_definition rt.equal_fold p a.type)) name ≡ false
    → In
        (concat "RECUR_OPT_" (concat (rt.to_upper name) (concat "=" (rt.print_value (str secret)))))
        (plugin_env rt log_level p a test (record {
          options = field "_shorthand" (str secret) no_fields;
          sensitive_keys = ("_shorthand", true) ∷ [];
        }))
unfolding plugin_env build_action_env
plugin_env_shorthand rt log_level p a test is_fallback name secret found n1 n2 n3 n4 n5 clear =
    inr (
      inr (
        In-append_right line (if test then "RECUR_TEST=true" ∷ [] else [])
          (lines (
            plugin_options
              (rename_from rt p a.type (field "_shorthand" (str secret) no_fields) no_fields []).0))
          (subst (λ l. In line l)
            (sym (
              ap (λ m. lines (plugin_options m))
                (rename_from_shorthand rt p a.type name is_fallback (str secret) found n1)
              ∙ ap lines (plugin_options_single name (str secret) n3 n4 n5)
              ∙ option_lines_single rt (("_shorthand", true) ∷ []) sensitive name (str secret)
                  (rw (has_shorthand name n2) clear)))
            (inl refl))))
  where
    line : String
    line =
        concat "RECUR_OPT_" (concat (rt.to_upper name) (concat "=" (rt.print_value (str secret))))

    sensitive : Dict String Bool
    sensitive = manifest_sensitive (find_action_definition rt.equal_fold p a.type)

    lines : Fields → List String
    lines m = option_lines rt (("_shorthand", true) ∷ []) sensitive m
