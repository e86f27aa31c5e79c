-- ===== src/Yaml/Parse.antt =====
-- Actions, triggers and groups of a recurfile: src/infra/yaml/recurfile/parse.go. A parser returns its
-- value, if any, with its errors in order.
pub mod File
use Prim.Native.String.{◌++◌ as concat}
use recur.Prelude.{
  ℕ, suc, String, Option, none, some, Bool, true, false, ◌||◌, List, [], ◌∷◌, ◌++◌, ◌==◌, String_eq,
  if◌then◌else◌, map,
}
use recur.Prelude.Result.{Resolved, resolved, unresolved}
use recur.Prelude.Dict
use recur.Prelude.Dict.{Dict, keys}
use recur.Config.{Fields, no_fields, field, str}
use recur.Recurfile.{RawAction, RawTrigger, RawGroup}
use recur.Yaml.{
  Node, Nodes, document, sequence, mapping, scalar, alias_node, YamlLibrary, value_of, items, pairs,
  raw_of, resolve_node, node_kind_number,
}

abbrev pub Parsed : Type 0 → Type 0
Parsed A = Option A × List String

-- append for a pointer that is not nil
abbrev pub cons_some : {A : Type 0} → Option A → List A → List A
cons_some none xs = xs
cons_some (some x) xs = x ∷ xs

-- fmt.Sprintf("<label>: %s") for each error
abbrev pub labelled : String → List String → List String
labelled label errs = map (λ e. concat label (concat ": " e)) errs

-- n.Value of a key that may be missing
abbrev pub value_at : Option Node → String
value_at none = ""
value_at (some n) = value_of n

options_result : Resolved Fields → Fields × List String
options_result (resolved opts) = (opts, [])
options_result (unresolved e) = (no_fields, concat "options: " e ∷ [])

-- The key `options`
unfoldable pub options_at : YamlLibrary → Option Node → Fields × List String
unfolding options_result
options_at lib none = (no_fields, [])
options_at lib (some n) = options_result (lib.decode n)

-- "type must be a non-empty string"
abbrev pub type_errors : String → List String
type_errors type = if type == "" then "type must be a non-empty string" ∷ [] else []

is_one_of : String → List String → Bool
is_one_of k [] = false
is_one_of k (j ∷ js) = k == j || is_one_of k js

-- The loop that reports the keys other than the known ones
unfoldable pub unknown_keys : (String → String) → List String → List String → List String
unfolding is_one_of
unknown_keys message known [] = []
unknown_keys message known (k ∷ ks) =
    let rest = unknown_keys message known ks in if is_one_of k known then rest else message k ∷ rest

-- parseDetailedAction
unfoldable pub parse_detailed_action : YamlLibrary → Dict String Node → Parsed RawAction
unfolding options_at unknown_keys
parse_detailed_action lib raw =
    let type = value_at (Dict.lookup "type" raw) in
    let (options, option_errs) = options_at lib (Dict.lookup "options" raw) in
    (
      some (record { type = type; name = value_at (Dict.lookup "name" raw); options = options }),
      type_errors type
          ++ (option_errs
              ++ unknown_keys
                  (λ k.
                    concat "unknown key "
                      (concat (lib.quote k) " in detailed action (has both 'type' and other keys)"))
                  ("type" ∷ "name" ∷ "options" ∷ []) (keys raw)),
    )

-- The value of a shorthand action that is a mapping
mapping_action : String → Resolved Fields → Parsed RawAction
mapping_action k (resolved opts) = (some (record { type = k; name = ""; options = opts }), [])
mapping_action k (unresolved e) = (none, concat "options: " e ∷ [])

bad_value : YamlLibrary → Node → Parsed RawAction
bad_value lib n = (
  none,
  concat "shorthand action value must be a scalar or mapping, got "
        (lib.decimal (node_kind_number n))
      ∷ [],
)

shorthand_value : YamlLibrary → String → Node → Parsed RawAction
unfolding mapping_action bad_value
shorthand_value lib k (scalar tag value) =
    (some (record { type = k; name = ""; options = field "_shorthand" (str value) no_fields }), [])
shorthand_value lib k (mapping content) = mapping_action k (lib.decode (mapping content))
shorthand_value lib k (document content) = bad_value lib (document content)
shorthand_value lib k (sequence content) = bad_value lib (sequence content)
shorthand_value lib k (alias_node name target) = bad_value lib (alias_node name target)

-- strings.Join
unfoldable pub join : String → List String → String
join separator [] = ""
join separator (s ∷ []) = s
join separator (s ∷ t ∷ ss) = concat s (concat separator (join separator (t ∷ ss)))

-- parseShorthandAction, with reservedActionKeys
unfoldable pub parse_shorthand_action : YamlLibrary → Dict String Node → Parsed RawAction
unfolding shorthand_value join is_one_of
parse_shorthand_action lib [] = (none, "empty action entry" ∷ [])
parse_shorthand_action lib ((k, v) ∷ []) =
    if is_one_of k ("type" ∷ "name" ∷ "options" ∷ [])
    then (none, concat (lib.quote k) " is a reserved key and cannot be used as a plugin name" ∷ [])
    else shorthand_value lib k v
parse_shorthand_action lib (kv ∷ kv' ∷ kvs) = (
  none,
  concat "shorthand action must have exactly one key, got: " (join ", " (keys (kv ∷ kv' ∷ kvs)))
      ∷ [],
)

action_of_raw : YamlLibrary → Dict String Node → Parsed RawAction
unfolding parse_detailed_action parse_shorthand_action
action_of_raw lib raw = elim (Dict.lookup "type" raw) [
  | none ↦ parse_shorthand_action lib raw
  | some n ↦ parse_detailed_action lib raw
]

action_of_node : YamlLibrary → Node → Parsed RawAction
unfolding action_of_raw raw_of
action_of_node lib (mapping content) = action_of_raw lib (raw_of content)
action_of_node lib _ = (none, "expected mapping" ∷ [])

-- parseAction
unfoldable pub parse_action : YamlLibrary → Node → Parsed RawAction
unfolding action_of_node resolve_node
parse_action lib n = action_of_node lib (resolve_node n)

-- A loop over a list of nodes that labels the errors of each with its index
unfoldable pub parse_each :
    {A : Type 0} → YamlLibrary → String → (Node → Parsed A) → ℕ → List Node → List A × List String
parse_each lib label parse i [] = ([], [])
parse_each lib label parse i (n ∷ ns) =
    let (x, errs) = parse n in
    let (xs, rest) = parse_each lib label parse (suc i) ns in
    (cons_some x xs, labelled (concat label (concat "[" (concat (lib.decimal i) "]"))) errs ++ rest)

-- parseActions
unfoldable pub parse_actions : YamlLibrary → Node → List RawAction × List String
unfolding parse_each parse_action
parse_actions lib (sequence content) = parse_each lib "do" (parse_action lib) 0 (items content)
parse_actions lib _ = ([], "do: expected list" ∷ [])

-- The key `do`
unfoldable pub actions_at : YamlLibrary → Option Node → List RawAction × List String
unfolding parse_actions
actions_at lib none = ([], [])
actions_at lib (some n) = parse_actions lib n

-- The key `type` of a trigger
trigger_type : Option Node → String × List String
trigger_type none = ("", "missing required key: type" ∷ [])
trigger_type (some n) = (value_of n, type_errors (value_of n))

trigger_of_raw : YamlLibrary → Dict String Node → Parsed RawTrigger
unfolding trigger_type options_at actions_at unknown_keys
trigger_of_raw lib raw =
    let (type, errs) = trigger_type (Dict.lookup "type" raw) in
    let (options, option_errs) = options_at lib (Dict.lookup "options" raw) in
    let (actions, action_errs) = actions_at lib (Dict.lookup "do" raw) in
    (
      some (record {
        type = type;
        name = value_at (Dict.lookup "name" raw);
        options = options;
        actions = actions;
      }),
      errs
          ++ (option_errs
              ++ (action_errs
                  ++ unknown_keys (λ k. concat "unknown key: " (lib.quote k))
                      ("type" ∷ "name" ∷ "options" ∷ "do" ∷ []) (keys raw))),
    )

trigger_of_node : YamlLibrary → Node → Parsed RawTrigger
unfolding trigger_of_raw raw_of
trigger_of_node lib (mapping content) = trigger_of_raw lib (raw_of content)
trigger_of_node lib _ = (none, "expected mapping" ∷ [])

-- parseTrigger
unfoldable pub parse_trigger : YamlLibrary → Node → Parsed RawTrigger
unfolding trigger_of_node resolve_node
parse_trigger lib n = trigger_of_node lib (resolve_node n)

triggers_of : YamlLibrary → List Node → List RawTrigger × List String
unfolding parse_each parse_trigger
triggers_of lib [] = ([], "on: must not be empty" ∷ [])
triggers_of lib (n ∷ ns) = parse_each lib "trigger" (parse_trigger lib) 0 (n ∷ ns)

-- parseTriggers
unfoldable pub parse_triggers : YamlLibrary → Node → List RawTrigger × List String
unfolding triggers_of items
parse_triggers lib (sequence content) = triggers_of lib (items content)
parse_triggers lib _ = ([], "on: expected list" ∷ [])
