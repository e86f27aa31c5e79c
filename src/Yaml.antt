-- ===== src/Yaml.antt =====
-- The YAML documents that src/infra/yaml/recurfile/parse.go reads: yaml.Node, as a finite tree.
pub mod Parse
pub mod Tests
use recur.Prelude.{
  ℕ, String, Option, none, some, Bool, true, false, List, [], ◌∷◌, ◌++◌, ◌==◌, String_eq,
  if◌then◌else◌,
}
use recur.Prelude.Result.{Resolved}
use recur.Prelude.Dict
use recur.Prelude.Dict.{Dict}
use recur.Config.{Fields}

-- yaml.Node, with Kind as the constructor: a scalar has its tag and its value, an alias its name and
-- its target; a mapping has its keys and values in turn.
mutual
  pub data Node : Type 0 where
    document : Nodes → Node
    sequence : Nodes → Node
    mapping : Nodes → Node
    scalar : String → String → Node
    alias_node : String → Node → Node

  pub data Nodes : Type 0 where
    end : Nodes
    item : Node → Nodes → Nodes

-- What the parser calls and does not implement: Unmarshal into a node and Decode into a map, os.ReadFile,
-- the formats %q and %d of fmt, strings.TrimSpace, the submatches 1, 2 and 3 of envVarPattern, and
-- IsAbs, Dir and Join of filepath.
pub record YamlLibrary : Type 0 where
  pub unmarshal : String → Resolved (Option Node)
  pub decode : Node → Resolved Fields
  pub read_file : String → Resolved String
  pub quote : String → String
  pub decimal : ℕ → String
  pub trim_space : String → String
  pub env_var : String → Option (String × String × String)
  pub is_abs : String → Bool
  pub dir : String → String
  pub join : String → String → String

-- Node.Value
abbrev pub value_of : Node → String
value_of (scalar tag value) = value
value_of (alias_node name target) = name
value_of _ = ""

unfoldable pub items : Nodes → List Node
items end = []
items (item n ns) = n ∷ items ns

-- The loop `for i := 0; i < len(node.Content)-1; i += 2`: a last key without a value is passed over.
unfoldable pub pairs : List Node → List (String × Node)
pairs [] = []
pairs (k ∷ []) = []
pairs (k ∷ v ∷ ns) = (value_of k, v) ∷ pairs ns

raw_from : List (String × Node) → Dict String Node → Dict String Node
raw_from [] raw = raw
raw_from ((k, v) ∷ kvs) raw = raw_from kvs (Dict.insert k v raw)

-- raw[key] = value for every pair: a later value of a key replaces an earlier one.
unfoldable pub raw_of : Nodes → Dict String Node
unfolding raw_from items pairs
raw_of content = raw_from (pairs (items content)) []

-- resolveNode
unfoldable pub resolve_node : Node → Node
resolve_node (alias_node name target) = resolve_node target
resolve_node n = n

-- nodeKindName
abbrev pub node_kind_name : Node → String
node_kind_name (document ns) = "document"
node_kind_name (sequence ns) = "sequence"
node_kind_name (mapping ns) = "mapping"
node_kind_name (scalar tag value) = "scalar"
node_kind_name (alias_node name target) = "alias"

-- The number of a Kind, which %v prints
abbrev pub node_kind_number : Node → ℕ
node_kind_number (document ns) = 1
node_kind_number (sequence ns) = 2
node_kind_number (mapping ns) = 4
node_kind_number (scalar tag value) = 8
node_kind_number (alias_node name target) = 16
