-- ===== src/Recurfile.antt =====
-- src/domain/recurfile: the parsed recurfile (raw.go), alias expansion (aliases.go), resolution
-- (resolve.go) and validation (validate.go). A nil map is the empty map where the code only looks
-- keys up or ranges over it.
pub mod Settings
pub mod Seeds
pub mod Resolution
pub mod Tests
use Prim.Native.String.{len, slice, ◌++◌ as concat}
use text.Mathlib.Text.{find?}
use recur.Prelude.{
  ℕ, String, Option, none, some, Bool, true, false, List, [], ◌∷◌, ◌++◌, ◌==◌, String_eq,
  if◌then◌else◌, map,
}
use recur.Prelude.Dict
use recur.Prelude.Dict.{Dict}
use recur.Config.{Value, Fields, no_fields, field, get, put, overlay_layers}

-- RawAction
pub record RawAction : Type 0 where
  pub type : String
  pub name : String
  pub options : Fields

-- RawTrigger
pub record RawTrigger : Type 0 where
  pub type : String
  pub name : String
  pub options : Fields
  pub actions : List RawAction

-- RawGroup
pub record RawGroup : Type 0 where
  pub name : String
  pub aliases : Dict String String
  pub options : Fields
  pub triggers : List RawTrigger
  pub actions : List RawAction

-- SecretDef of src/domain/secret/secret.go
pub record SecretDef : Type 0 where
  pub name : String
  pub source : String
  pub ref : String
  pub default : String
  pub required : Bool
  pub error_msg : String

-- RawFile
pub record RawFile : Type 0 where
  pub path : String
  pub aliases : Dict String String
  pub secrets : List SecretDef
  pub groups : List RawGroup

-- A loop `for k, v := range m { result[k] = v }`
unfoldable pub copy_aliases : Dict String String → Dict String String → Dict String String
copy_aliases result [] = result
copy_aliases result ((k, v) ∷ m) = copy_aliases (Dict.insert k v result) m

-- MergeAliases
unfoldable pub merge_aliases : Dict String String → Dict String String → Dict String String
unfolding copy_aliases
merge_aliases file_aliases group_aliases = copy_aliases (copy_aliases [] file_aliases) group_aliases

or_name : String → Option String → String
or_name name none = name
or_name name (some expanded) = expanded

with_rest : String → String → Option String → String
with_rest name rest none = name
with_rest name rest (some expanded) = concat expanded rest

expand_at : Option ℕ → String → Dict String String → String
unfolding or_name with_rest
expand_at none name aliases = or_name name (Dict.lookup name aliases)
expand_at (some i) name aliases =
    with_rest name (slice name i (len name)) (Dict.lookup (slice name 0 i) aliases)

-- ExpandAlias. The test for an empty map is left out: no key is found in one.
unfoldable pub expand_alias : Dict String String → String → String
unfolding expand_at
expand_alias aliases name = expand_at (find? name ".") name aliases

-- The loop of ExpandOptionAliases
unfoldable pub expand_keys : Dict String String → Fields → Fields → Fields
expand_keys aliases result no_fields = result
expand_keys aliases result (field k v m) =
    expand_keys aliases (put (expand_alias aliases k) v result) m

-- ExpandOptionAliases
unfoldable pub expand_option_aliases : Dict String String → Fields → Fields
unfolding expand_keys
expand_option_aliases [] opts = opts
expand_option_aliases (a ∷ aliases) opts = expand_keys (a ∷ aliases) no_fields opts

pub expand_type : Dict String String → RawAction → RawAction
expand_type aliases a = record a { type = expand_alias aliases a.type }

-- The body of the loop over a trigger's actions
resolve_action : Dict String String → Fields → RawAction → RawAction
resolve_action aliases group_options a = record a {
  type = expand_alias aliases a.type;
  options = overlay_layers no_fields (some group_options ∷ some a.options ∷ []);
}

-- Trigger actions, or a copy of the group's if there are none
inherited : List RawAction → List RawAction → List RawAction
inherited [] group_actions = group_actions
inherited (a ∷ as') group_actions = a ∷ as'

-- The body of the loop over a group's triggers
unfoldable pub resolve_trigger :
    Dict String String → Fields → List RawAction → RawTrigger → RawTrigger
unfolding inherited resolve_action
resolve_trigger aliases group_options group_actions t = record t {
  type = expand_alias aliases t.type;
  options =
      overlay_layers no_fields
        (some group_options ∷ some (expand_option_aliases aliases t.options) ∷ []);
  actions = map (resolve_action aliases group_options) (inherited t.actions group_actions);
}

-- The body of the loop over the groups
unfoldable pub resolve_group : Dict String String → RawGroup → RawGroup
unfolding resolve_trigger expand_type merge_aliases expand_option_aliases
resolve_group file_aliases g =
    let aliases = merge_aliases file_aliases g.aliases in
    let options = expand_option_aliases aliases g.options in
    let actions = map (expand_type aliases) g.actions in
    record g {
      options = options;
      actions = actions;
      triggers = map (resolve_trigger aliases options actions) g.triggers;
    }

-- Resolve
unfoldable pub resolve : RawFile → RawFile
unfolding resolve_group
resolve f = record f { groups = map (resolve_group f.aliases) f.groups }

-- A warning of Validate: the group's name and the trigger's type. Its text is left out.
abbrev pub Warning : Type 0
Warning = String × String

validate_triggers : String → List RawTrigger → List Warning
validate_triggers group [] = []
validate_triggers group (t ∷ ts) =
    let rest = validate_triggers group ts in
    elim t.actions [ [] ↦ (group, t.type) ∷ rest | a ∷ as' ↦ rest ]

validate_groups : List RawGroup → List Warning
unfolding validate_triggers
validate_groups [] = []
validate_groups (g ∷ gs) = validate_triggers g.name g.triggers ++ validate_groups gs

-- Validate
unfoldable pub validate : RawFile → List Warning
unfolding validate_groups
validate f = validate_groups f.groups
