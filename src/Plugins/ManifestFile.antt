-- ===== src/Plugins/ManifestFile.antt =====
-- The validation of a plugin's manifest: src/infra/yaml/manifest/manifest.go.
pub mod Validity
pub mod Acceptance
pub mod Tests
use Prim.Native.String.{◌++◌ as concat}
use recur.Prelude.{
  ℕ, zero, suc, ◌+◌, ltb, String, String_eq, Option, none, some, Bool, true, false, not, ◌&&◌, ◌||◌,
  List, [], ◌∷◌, ◌++◌, ◌==◌, if◌then◌else◌,
}
use recur.Prelude.Result.{Resolved, resolved, unresolved}
use recur.Config.{
  Value, null, str, int, float, bool, duration, list, object, Fields, no_fields, field,
}
use recur.Plugins.{OptionDef, ContextDef, TriggerDef, ConfigEntry, ActionDef, Manifest}

-- The formats %q of a text, %T of a value and %d of an index; yaml.Unmarshal at the type Manifest
pub record ManifestLibrary : Type 0 where
  pub quote : String → String
  pub type_name : Value → String
  pub decimal : ℕ → String
  pub unmarshal : String → Resolved Manifest

-- validTypes
unfoldable pub is_valid_type : String → Bool
is_valid_type typ =
    typ == "string" || typ == "bool" || typ == "number" || typ == "list" || typ == "map"

-- triggerDefaultsKeys
unfoldable pub trigger_defaults_key : String → Option String
trigger_defaults_key key =
    if key == "debounce"
    then some "string"
    else if key == "concurrency_mode"
    then some "string"
    else if key == "max_queue_size"
    then some "number"
    else if key == "error_threshold"
    then some "number"
    else none

is_string : Value → Bool
is_string (str s) = true
is_string v = false

is_bool : Value → Bool
is_bool (bool b) = true
is_bool v = false

is_number : Value → Bool
is_number (int n) = true
is_number (float n p) = true
is_number v = false

is_list : Value → Bool
is_list (list l) = true
is_list v = false

is_map : Value → Bool
is_map (object m) = true
is_map v = false

-- The switch of checkDefaultType: whether the value has the declared type
unfoldable pub has_type : String → Value → Bool
unfolding is_string is_bool is_number is_list is_map
has_type typ value =
    if typ == "string"
    then is_string value
    else if typ == "bool"
    then is_bool value
    else if typ == "number"
    then is_number value
    else if typ == "list"
    then is_list value
    else if typ == "map"
    then is_map value
    else true

is_nil : Value → Bool
is_nil null = true
is_nil v = false

-- An error appended under a condition
abbrev pub error_if : Bool → String → List String
error_if true e = e ∷ []
error_if false e = []

no_entries : List TriggerDef → List ActionDef → Bool
no_entries [] [] = true
no_entries [] (a ∷ as') = false
no_entries (t ∷ ts) as' = false

module _ (lib : ManifestLibrary) where
  -- checkDefaultType
  pub check_default_type : String → Value → List String
  unfolding has_type
  check_default_type typ value =
      error_if (not (has_type typ value))
        (concat "default value must be a " (concat typ (concat ", got " (lib.type_name value))))

  pub with_prefix : String → List String → List String
  with_prefix p [] = []
  with_prefix p (e ∷ es) = concat p (concat ": " e) ∷ with_prefix p es

  check_default : String → String → Value → List String
  unfolding check_default_type with_prefix is_nil
  check_default p typ value =
      if is_nil value then [] else with_prefix p (check_default_type typ value)

  indexed : String → ℕ → String
  indexed p i = concat p (concat "[" (concat (lib.decimal i) "]"))

  pub check_name : String → String → String → List String
  check_name p what name =
      error_if (name == "") (concat p (concat ": " (concat what " is required")))

  pub check_type : String → String → List String
  unfolding is_valid_type
  check_type p typ =
      error_if (not (is_valid_type typ)) (concat p (concat ": invalid type " (lib.quote typ)))

  pub check_config : ℕ → List ConfigEntry → List String
  unfolding indexed check_name check_type check_default
  check_config i [] = []
  check_config i (c ∷ cs) =
      let p = indexed "configuration" i in
      check_name p "key" c.key
      ++ (check_type p c.type ++ (check_default p c.type c.default ++ check_config (suc i) cs))

  -- The loop of validateOptions
  pub check_options : String → Bool → ℕ → List OptionDef → List String
  unfolding indexed check_name check_type check_default
  check_options p allow_shorthand j [] = []
  check_options p allow_shorthand j (opt ∷ opts) =
      let q = indexed (concat p ".options") j in
      check_name q "name" opt.name
      ++ (check_type q opt.type
          ++ (error_if (opt.shorthand && not allow_shorthand)
                (concat q ": shorthand is only valid on action options")
              ++ (check_default q opt.type opt.default
                  ++ check_options p allow_shorthand (suc j) opts)))

  pub shorthand_count : List OptionDef → ℕ
  shorthand_count [] = 0
  shorthand_count (opt ∷ opts) =
      let rest = shorthand_count opts in if opt.shorthand then suc rest else rest

  -- validateOptions
  validate_options : List OptionDef → String → Bool → List String
  unfolding check_options shorthand_count
  validate_options opts p allow_shorthand =
      check_options p allow_shorthand 0 opts
      ++ error_if (allow_shorthand && ltb 1 (shorthand_count opts))
          (concat p ": at most one option may be marked shorthand")

  check_trigger_default : String → String → Value → Option String → List String
  unfolding with_prefix check_default_type
  check_trigger_default p key val none =
      concat p (concat ".defaults: unknown key " (lib.quote key)) ∷ []
  check_trigger_default p key val (some typ) =
      with_prefix (concat p (concat ".defaults." key)) (check_default_type typ val)

  check_defaults : String → Fields → List String
  unfolding check_trigger_default trigger_defaults_key
  check_defaults p no_fields = []
  check_defaults p (field key val m) =
      check_trigger_default p key val (trigger_defaults_key key) ++ check_defaults p m

  check_context : String → ℕ → List ContextDef → List String
  unfolding indexed check_name check_type
  check_context p j [] = []
  check_context p j (ctx ∷ ctxs) =
      let q = indexed (concat p ".context") j in
      check_name q "name" ctx.name ++ (check_type q ctx.type ++ check_context p (suc j) ctxs)

  check_triggers : ℕ → List TriggerDef → List String
  unfolding indexed check_name validate_options check_defaults check_context
  check_triggers i [] = []
  check_triggers i (tr ∷ trs) =
      let p = indexed "triggers" i in
      check_name p "name" tr.name
      ++ (validate_options tr.options p false
          ++ (check_defaults p tr.defaults
              ++ (check_context p 0 tr.context ++ check_triggers (suc i) trs)))

  check_actions : ℕ → List ActionDef → List String
  unfolding indexed check_name validate_options
  check_actions i [] = []
  check_actions i (act ∷ acts) =
      let p = indexed "actions" i in
      check_name p "name" act.name
      ++ (validate_options act.options p true ++ check_actions (suc i) acts)

  -- validate: the errors that it joins
  unfoldable pub validate : Manifest → List String
  unfolding check_config check_triggers check_actions no_entries
  validate m =
      error_if (m.name == "") "name is required"
      ++ (error_if (m.namespace == "") "namespace is required"
          ++ (error_if (m.version == "") "version is required"
              ++ (error_if (no_entries m.triggers m.actions)
                    "at least one trigger or action is required"
                  ++ (check_config 0 m.configuration
                      ++ (check_triggers 0 m.triggers ++ check_actions 0 m.actions)))))

  joined_errors : List String → String
  joined_errors [] = ""
  joined_errors (e ∷ []) = e
  joined_errors (e ∷ f ∷ es) = concat e (concat "\n  - " (joined_errors (f ∷ es)))

  accept : Manifest → List String → Resolved Manifest
  unfolding joined_errors
  accept m [] = resolved m
  accept m (e ∷ es) = unresolved (concat "invalid manifest:\n  - " (joined_errors (e ∷ es)))

  parsed : Resolved Manifest → Resolved Manifest
  unfolding accept validate
  parsed (unresolved e) = unresolved (concat "could not parse manifest: " e)
  parsed (resolved m) = accept m (validate m)

  -- Parse
  unfoldable pub parse_manifest : String → Resolved Manifest
  unfolding parsed
  parse_manifest text = parsed (lib.unmarshal text)

  -- Load, from what os.ReadFile returns
  unfoldable pub load_manifest : Resolved String → Resolved Manifest
  unfolding parse_manifest
  load_manifest (unresolved e) = unresolved (concat "could not read manifest: " e)
  load_manifest (resolved text) = parse_manifest text
