-- ===== src/Yaml/Parse/File.antt =====
-- Aliases, secrets, groups and the file itself: parseAliases, parseSecretDef, parseSecrets, parseGroup,
-- Parse and Load of src/infra/yaml/recurfile/parse.go.
pub mod Validity
use Prim.Native.String.{◌++◌ as concat}
use text.Mathlib.Text.{find?}
use recur.Prelude.{
  ℕ, String, Option, none, some, Bool, true, false, not, ◌&&◌, ◌||◌, List, [], ◌∷◌, ◌++◌, ◌==◌,
  String_eq, if◌then◌else◌, map,
}
use recur.Prelude.Result.{Resolved, resolved, unresolved}
use recur.Prelude.Dict
use recur.Prelude.Dict.{Dict, keys}
use recur.Recurfile.{RawGroup, RawFile, SecretDef, RawTrigger}
use recur.Yaml.{
  Node, Nodes, document, sequence, mapping, scalar, alias_node, YamlLibrary, value_of, items, end,
  item, pairs, raw_of, node_kind_name,
}
use recur.Yaml.Parse.{
  Parsed, cons_some, labelled, options_at, unknown_keys, join, actions_at, parse_triggers,
}

-- The loop of parseAliases: it ends at the first error.
aliases_from : List (String × Node) → Dict String String → Resolved (Dict String String)
aliases_from [] aliases = resolved aliases
aliases_from ((k, v) ∷ kvs) aliases =
    let rest = aliases_from kvs (Dict.insert k (value_of v) aliases) in
    if k == "" || value_of v == ""
    then unresolved "alias key and value must be non-empty strings"
    else rest

-- parseAliases
unfoldable pub parse_aliases : Node → Resolved (Dict String String)
unfolding aliases_from items pairs
parse_aliases (mapping content) = aliases_from (pairs (items content)) []
parse_aliases _ = unresolved "expected mapping"

secret : String → String → String → SecretDef
secret name source ref = record {
  name = name;
  source = source;
  ref = ref;
  default = "";
  required = false;
  error_msg = "";
}

file_secret : String → String → Resolved SecretDef
unfolding secret
file_secret name ref =
    if ref == "" then unresolved "!file requires a file path" else resolved (secret name "file" ref)

keyring_secret : YamlLibrary → String → String → Resolved SecretDef
unfolding secret
keyring_secret lib name ref =
    if ref == ""
    then unresolved "!keyring requires a service/key reference"
    else elim (find? ref "/") [
      | none ↦
          unresolved (concat "!keyring value must be in service/key format, got " (lib.quote ref))
      | some i ↦ resolved (secret name "keyring" ref)
    ]

env_secret : YamlLibrary → String → String → Option (String × String × String) → Resolved SecretDef
unfolding secret
env_secret lib name value none = unresolved (
    concat "unrecognized secret format " (
      concat (lib.quote value)
        " — expected ${VAR}, ${VAR:-default}, ${VAR:?error}, !file path, or !keyring service/key"))
env_secret lib name value (some (var, operator, text)) = resolved (
    if operator == ":-"
    then record (secret name "env" var) { default = text }
    else if operator == ":?"
    then record (secret name "env" var) { required = true; error_msg = text }
    else secret name "env" var)

-- parseSecretDef
unfoldable pub parse_secret_def : YamlLibrary → String → Node → Resolved SecretDef
unfolding file_secret keyring_secret env_secret
parse_secret_def lib name (scalar tag value) =
    let text = lib.trim_space value in
    if tag == "!file"
    then file_secret name text
    else if tag == "!keyring"
    then keyring_secret lib name text
    else env_secret lib name text (lib.env_var text)
parse_secret_def lib name _ = unresolved "expected scalar value"

add_secret :
    YamlLibrary
    → String
    → Resolved SecretDef
    → List SecretDef × List String
    → List SecretDef × List String
add_secret lib name (unresolved e) (defs, errs) =
    (defs, concat (lib.quote name) (concat ": " e) ∷ errs)
add_secret lib name (resolved def) (defs, errs) = (def ∷ defs, errs)

-- The loop of parseSecrets
secrets_from : YamlLibrary → List (String × Node) → List SecretDef × List String
unfolding parse_secret_def add_secret
secrets_from lib [] = ([], [])
secrets_from lib ((name, n) ∷ kvs) =
    let (defs, errs) = secrets_from lib kvs in
    if name == ""
    then (defs, "secret name must be non-empty" ∷ errs)
    else add_secret lib name (parse_secret_def lib name n) (defs, errs)

-- parseSecrets
unfoldable pub parse_secrets : YamlLibrary → Node → List SecretDef × List String
unfolding secrets_from items pairs
parse_secrets lib (mapping content) = secrets_from lib (pairs (items content))
parse_secrets lib _ = ([], "expected mapping" ∷ [])

aliases_result : Resolved (Dict String String) → Dict String String × List String
aliases_result (resolved aliases) = (aliases, [])
aliases_result (unresolved e) = ([], concat "aliases: " e ∷ [])

-- The key `aliases` of a group
aliases_at : Option Node → Dict String String × List String
unfolding aliases_result parse_aliases
aliases_at none = ([], [])
aliases_at (some n) = aliases_result (parse_aliases n)

-- The keys `on` and `triggers`
unfoldable pub triggers_at : YamlLibrary → Option Node → Option Node → List RawTrigger × List String
unfolding parse_triggers
triggers_at lib (some n) triggers = parse_triggers lib n
triggers_at lib none (some n) = parse_triggers lib n
triggers_at lib none none = ([], "missing required key: on" ∷ [])

unfoldable pub group_of_raw : YamlLibrary → String → Dict String Node → Parsed RawGroup
unfolding aliases_at options_at triggers_at actions_at unknown_keys
group_of_raw lib name raw =
    let (aliases, alias_errs) = aliases_at (Dict.lookup "aliases" raw) in
    let (options, option_errs) = options_at lib (Dict.lookup "options" raw) in
    let (triggers, trigger_errs) =
      triggers_at lib (Dict.lookup "on" raw) (Dict.lookup "triggers" raw) in
    let (actions, action_errs) = actions_at lib (Dict.lookup "do" raw) in
    (
      some (record {
        name = name;
        aliases = aliases;
        options = options;
        triggers = triggers;
        actions = actions;
      }),
      alias_errs
          ++ (option_errs
              ++ (trigger_errs
                  ++ (action_errs
                      ++ unknown_keys (λ k. concat "unknown key: " (lib.quote k))
                          ("aliases" ∷ "options" ∷ "on" ∷ "triggers" ∷ "do" ∷ []) (keys raw)))),
    )

-- parseGroup
unfoldable pub parse_group : YamlLibrary → String → Node → Parsed RawGroup
unfolding group_of_raw raw_of
parse_group lib name (mapping content) = group_of_raw lib name (raw_of content)
parse_group lib name _ = (none, "expected mapping" ∷ [])

file_aliases : Resolved (Dict String String) → RawFile × List String → RawFile × List String
file_aliases (resolved aliases) (f, errs) = (record f { aliases = aliases }, errs)
file_aliases (unresolved e) (f, errs) = (f, errs ++ concat "aliases: " e ∷ [])

file_secrets : List SecretDef × List String → RawFile × List String → RawFile × List String
file_secrets (defs, secret_errs) (f, errs) =
    (record f { secrets = defs }, errs ++ labelled "secrets" secret_errs)

unfoldable pub file_group :
    YamlLibrary → String → Parsed RawGroup → RawFile × List String → RawFile × List String
file_group lib key (g, group_errs) (f, errs) = (
  record f { groups = f.groups ++ cons_some g [] },
  errs ++ labelled (concat "group " (lib.quote key)) group_errs,
)

-- The body of the loop of Parse: the file so far, with the errors so far
unfoldable pub parse_key :
    YamlLibrary → String → Node → RawFile × List String → RawFile × List String
unfolding file_aliases file_secrets file_group parse_aliases parse_secrets parse_group
parse_key lib key n (f, errs) =
    if key == "aliases"
    then file_aliases (parse_aliases n) (f, errs)
    else if key == "secrets"
    then file_secrets (parse_secrets lib n) (f, errs)
    else file_group lib key (parse_group lib key n) (f, errs)

unfoldable pub parse_keys :
    YamlLibrary → List (String × Node) → RawFile × List String → RawFile × List String
unfolding parse_key
parse_keys lib [] p = p
parse_keys lib ((key, n) ∷ kvs) p = parse_keys lib kvs (parse_key lib key n p)

abbrev pub new_file : RawFile
new_file = record { path = ""; aliases = []; secrets = []; groups = [] }

-- After the loop: a file without a group is an error.
unfoldable pub checked : RawFile → List String → Resolved RawFile
unfolding join
checked f (e ∷ errs) = unresolved (concat "validation errors:\n  - " (join "\n  - " (e ∷ errs)))
checked f [] = elim f.groups [
  | [] ↦ unresolved (concat "validation errors:\n  - " "recurfile must define at least one group")
  | g ∷ gs ↦ resolved f
]

unfoldable pub parse_mapping : YamlLibrary → Node → Resolved RawFile
unfolding parse_keys items pairs checked
parse_mapping lib (mapping content) =
    let (f, errs) = parse_keys lib (pairs (items content)) (new_file, []) in checked f errs
parse_mapping lib n = unresolved (concat "expected top-level mapping, got " (node_kind_name n))

parse_root : YamlLibrary → Resolved (Option Node) → Resolved RawFile
unfolding parse_mapping
parse_root lib (unresolved e) = unresolved (concat "invalid YAML: " e)
parse_root lib (resolved (some (document (item n ns)))) = parse_mapping lib n
parse_root lib (resolved _) = unresolved "expected YAML document"

-- Parse
unfoldable pub parse : YamlLibrary → String → Resolved RawFile
unfolding parse_root
parse lib data' = parse_root lib (lib.unmarshal data')

-- A relative path of a !file secret is relative to the recurfile.
rebased : YamlLibrary → String → SecretDef → SecretDef
rebased lib dir s =
    if s.source == "file" && not (lib.is_abs s.ref)
    then record s { ref = lib.join dir s.ref }
    else s

load_parsed : YamlLibrary → String → Resolved RawFile → Resolved RawFile
unfolding rebased
load_parsed lib path (unresolved e) = unresolved (concat "recurfile " (concat path (concat ": " e)))
load_parsed lib path (resolved f) =
    resolved (record f { path = path; secrets = map (rebased lib (lib.dir path)) f.secrets })

load_data : YamlLibrary → String → Resolved String → Resolved RawFile
unfolding load_parsed parse
load_data lib path (unresolved e) = unresolved (concat "could not read recurfile: " e)
load_data lib path (resolved data') = load_parsed lib path (parse lib data')

-- Load
unfoldable pub load : YamlLibrary → String → Resolved RawFile
unfolding load_data
load lib path = load_data lib path (lib.read_file path)
