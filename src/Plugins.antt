-- ===== src/Plugins.antt =====
-- Installed plugins as the registry reads them: the lookups of src/infra/fs/plugin/discovery.go and
-- of src/domain/plugin (lookup.go, validate.go). `strings.EqualFold` is the parameter `equal_fold`.
pub mod Conflicts
pub mod ManifestFile
pub mod Discovery
use Prim.Native.String.{len, ◌++◌ as concat}
use recur.Prelude.{
  String, Option, none, some, Bool, true, false, ◌&&◌, ◌||◌, List, [], ◌∷◌, ◌++◌, leb, ◌==◌,
  String_eq, if◌then◌else◌,
}
use recur.Config.{Value, Fields, no_fields, field}
use recur.EntityIndex.{has_prefix}

-- OptionDef, ContextDef, TriggerDef, ActionDef, ConfigEntry and Manifest of
-- src/infra/yaml/manifest/manifest.go, as far as they are read; a default that is nil is `null`
pub record OptionDef : Type 0 where
  pub name : String
  pub type : String
  pub default : Value
  pub shorthand : Bool
  pub sensitive : Bool

pub record ContextDef : Type 0 where
  pub name : String
  pub type : String
  pub description : String

pub record TriggerDef : Type 0 where
  pub name : String
  pub defaults : Fields
  pub options : List OptionDef
  pub context : List ContextDef

pub record ConfigEntry : Type 0 where
  pub key : String
  pub type : String
  pub default : Value
  pub description : String

pub record ActionDef : Type 0 where
  pub name : String
  pub options : List OptionDef

pub record Manifest : Type 0 where
  pub name : String
  pub namespace : String
  pub version : String
  pub description : String
  pub dependencies : List String
  pub configuration : List ConfigEntry
  pub triggers : List TriggerDef
  pub actions : List ActionDef

-- InstalledPlugin
pub record InstalledPlugin : Type 0 where
  pub id : String
  pub dir : String
  pub manifest : Manifest

-- filepath.Join, the operating system, and whether os.Stat finds a file
pub record FileSystem : Type 0 where
  pub join : String → String → String
  pub is_windows : Bool
  pub exists : String → Bool

first_existing : FileSystem → String → List String → String
first_existing fs default [] = default
first_existing fs default (path ∷ paths) =
    if fs.exists path then path else first_existing fs default paths

-- BinaryPath
unfoldable pub binary_path : FileSystem → InstalledPlugin → String
unfolding first_existing
binary_path fs p =
    let plain = fs.join p.dir p.manifest.name in
    let exe = fs.join p.dir (concat p.manifest.name ".exe") in
    if fs.is_windows
    then first_existing fs exe (exe ∷ [])
    else first_existing fs plain (plain ∷ exe ∷ [])

-- TriggerType, ActionType and Plugin of src/domain/plugin/plugin.go
pub record TriggerType : Type 0 where
  pub name : String
  pub defaults : Fields

pub record ActionType : Type 0 where
  pub name : String

pub record Plugin : Type 0 where
  pub id : String
  pub name : String
  pub namespace : String
  pub triggers : List TriggerType
  pub actions : List ActionType

module _ (equal_fold : String → String → Bool) where
  unfoldable pub find_trigger_def : List TriggerDef → String → Option TriggerDef
  find_trigger_def [] trigger_type = none
  find_trigger_def (d ∷ ds) trigger_type =
      if equal_fold d.name trigger_type then some d else find_trigger_def ds trigger_type

  -- FindTriggerDefinition
  unfoldable pub find_trigger_definition : InstalledPlugin → String → Option TriggerDef
  unfolding find_trigger_def
  find_trigger_definition p trigger_type = find_trigger_def p.manifest.triggers trigger_type

  unfoldable pub find_action_def : List ActionDef → String → Option ActionDef
  find_action_def [] action_name = none
  find_action_def (d ∷ ds) action_name =
      if equal_fold d.name action_name then some d else find_action_def ds action_name

  -- FindActionDefinition
  unfoldable pub find_action_definition : InstalledPlugin → String → Option ActionDef
  unfolding find_action_def
  find_action_definition p action_name = find_action_def p.manifest.actions action_name

  first_shorthand : List OptionDef → Option String
  first_shorthand [] = none
  first_shorthand (o ∷ os) = if o.shorthand then some o.name else first_shorthand os

  shorthand_or_first : Option String → List OptionDef → String × Bool
  shorthand_or_first (some name) os = (name, false)
  shorthand_or_first none [] = ("", false)
  shorthand_or_first none (o ∷ os) = (o.name, true)

  -- FindShorthandOption
  unfoldable pub find_shorthand_option : InstalledPlugin → String → String × Bool
  unfolding first_shorthand shorthand_or_first
  find_shorthand_option p action_name = elim (find_action_definition p action_name) [
    | none ↦ ("", false)
    | some d ↦ shorthand_or_first (first_shorthand d.options) d.options
  ]

  -- ResolvePluginForTrigger
  unfoldable pub resolve_plugin_for_trigger : List InstalledPlugin → String → String
  unfolding find_trigger_definition
  resolve_plugin_for_trigger [] trigger_type = ""
  resolve_plugin_for_trigger (p ∷ ps) trigger_type =
      let rest = resolve_plugin_for_trigger ps trigger_type in
      elim (find_trigger_definition p trigger_type) [ none ↦ rest | some d ↦ p.manifest.namespace ]

  -- ResolvePluginForAction
  unfoldable pub resolve_plugin_for_action : List InstalledPlugin → String → String
  unfolding find_action_definition
  resolve_plugin_for_action [] action_name = ""
  resolve_plugin_for_action (p ∷ ps) action_name =
      let rest = resolve_plugin_for_action ps action_name in
      elim (find_action_definition p action_name) [ none ↦ rest | some d ↦ p.manifest.namespace ]

  exact_match : List InstalledPlugin → String → Option InstalledPlugin
  exact_match [] identifier = none
  exact_match (p ∷ ps) identifier =
      if p.id == identifier
        || equal_fold p.manifest.name identifier
        || equal_fold p.manifest.namespace identifier
      then some p
      else exact_match ps identifier

  prefix_match : List InstalledPlugin → String → Option InstalledPlugin
  prefix_match [] identifier = none
  prefix_match (p ∷ ps) identifier =
      if leb 3 (len identifier) && has_prefix identifier p.id
      then some p
      else prefix_match ps identifier

  -- FindByIdentifier
  unfoldable pub find_by_identifier : List InstalledPlugin → String → Option InstalledPlugin
  unfolding exact_match prefix_match
  find_by_identifier ps identifier = elim (exact_match ps identifier) [
    | none ↦ prefix_match ps identifier
    | some p ↦ some p
  ]

  -- The function `known` of UnknownTypes
  unfoldable pub known : String → List String → Bool
  known needle [] = false
  known needle (h ∷ hs) = if equal_fold h needle then true else known needle hs

  unknown_of : List String → List String → List String
  unfolding known
  unknown_of names [] = []
  unknown_of names (t ∷ ts) =
      let rest = unknown_of names ts in if known t names then rest else t ∷ rest

unfoldable pub domain_triggers : List TriggerDef → List TriggerType
domain_triggers [] = []
domain_triggers (t ∷ ts) = (record { name = t.name; defaults = t.defaults }) ∷ domain_triggers ts

unfoldable pub domain_actions : List ActionDef → List ActionType
domain_actions [] = []
domain_actions (a ∷ as') = (record { name = a.name }) ∷ domain_actions as'

-- Domain, for a plugin that is not nil
unfoldable pub domain : InstalledPlugin → Plugin
unfolding domain_triggers domain_actions
domain p = record {
  id = p.id;
  name = p.manifest.name;
  namespace = p.manifest.namespace;
  triggers = domain_triggers p.manifest.triggers;
  actions = domain_actions p.manifest.actions;
}

-- DomainAll
unfoldable pub domain_all : List InstalledPlugin → List Plugin
unfolding domain
domain_all [] = []
domain_all (p ∷ ps) = domain p ∷ domain_all ps

-- if len(t.Defaults) == 0 { return p.Namespace, nil }
defaults_or_nil : Fields → Option Fields
defaults_or_nil no_fields = none
defaults_or_nil (field k v m) = some (field k v m)

trigger_of : List TriggerType → String → Option TriggerType
trigger_of [] trigger_type = none
trigger_of (t ∷ ts) trigger_type =
    if t.name == trigger_type then some t else trigger_of ts trigger_type

-- TriggerDefaultsFor: the names are compared as they are
unfoldable pub trigger_defaults_for : List Plugin → String → String × Option Fields
unfolding trigger_of defaults_or_nil
trigger_defaults_for [] trigger_type = ("", none)
trigger_defaults_for (p ∷ ps) trigger_type =
    let rest = trigger_defaults_for ps trigger_type in
    elim (trigger_of p.triggers trigger_type) [
      | none ↦ rest
      | some t ↦ (p.namespace, defaults_or_nil t.defaults)
    ]

trigger_names : List TriggerType → List String
trigger_names [] = []
trigger_names (t ∷ ts) = t.name ∷ trigger_names ts

action_names : List ActionType → List String
action_names [] = []
action_names (a ∷ as') = a.name ∷ action_names as'

-- KnownTriggerNames
unfoldable pub known_trigger_names : List Plugin → List String
unfolding trigger_names
known_trigger_names [] = []
known_trigger_names (p ∷ ps) = trigger_names p.triggers ++ known_trigger_names ps

declared_action_names : List Plugin → List String
unfolding action_names
declared_action_names [] = []
declared_action_names (p ∷ ps) = action_names p.actions ++ declared_action_names ps

-- KnownActionNames, after BuiltinActionNames
unfoldable pub known_action_names : List Plugin → List String
unfolding declared_action_names
known_action_names ps = "shell" ∷ declared_action_names ps

-- UnknownTypes
unfoldable pub unknown_types :
    (String → String → Bool) → List Plugin → List String → List String → List String × List String
unfolding unknown_of known_trigger_names known_action_names
unknown_types equal_fold ps triggers actions = (
  unknown_of equal_fold (known_trigger_names ps) triggers,
  unknown_of equal_fold (known_action_names ps) actions,
)
