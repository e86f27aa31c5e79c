-- ===== src/Engine/External.antt =====
-- src/app/recurd/triggerengine/external.go: the driver of a plugin, what it is made of, and the process
-- that it starts.
use Prim.Native.String.{◌++◌ as concat}
use recur.Prelude.{
  String, Option, none, some, Bool, false, ◌||◌, List, [], ◌∷◌, ◌++◌, ◌==◌, String_eq,
  if◌then◌else◌,
}
use recur.Prelude.Dict.{Dict}
use recur.Config.{
  Value, null, str, int, float, bool, duration, list, object, Items, no_items, item, Fields,
  no_fields, field,
}
use recur.Domain.{Trigger}
use recur.Plugins.{InstalledPlugin, TriggerDef, FileSystem, binary_path, find_trigger_definition}
use recur.Actions.Plugin.{has, sensitive_of}
use recur.Engine.Lifecycle.{Made, driver, not_handled}

-- The process that a driver starts: its command, its variables besides those of the daemon, its
-- directory, and what it reads as JSON
pub record Launch : Type 0 where
  pub command : String
  pub env : List String
  pub working_dir : String
  pub trigger_type : String
  pub options : Fields
  pub config : Fields

-- What the driver calls and does not implement: strings.ToLower, strings.ToUpper, strings.EqualFold,
-- filepath.Dir, the file system, the print of a value by its format, and the start of a process.
-- `start` is given the process and answers with its error, if it does not start.
pub record DriverLibrary : Type 0 where
  pub to_lower : String → String
  pub to_upper : String → String
  pub equal_fold : String → String → Bool
  pub dir : String → String
  pub print_value : Value → String
  pub files : FileSystem
  pub start : Launch → Option String

-- externalDriver, as it is made; the process, the channels and the router come with its start.
pub record ExternalDriver : Type 0 where
  pub binary_path : String
  pub socket_path : String
  pub trigger_id : String
  pub trigger_type : String
  pub options : Fields
  pub sensitive_keys : Dict String Bool
  pub config : Fields
  pub work_dir : String
  pub plugin_name : String
  pub log_level : String

handles : DriverLibrary → String → List TriggerDef → Bool
handles lib type [] = false
handles lib type (def ∷ defs) = lib.to_lower def.name == lib.to_lower type || handles lib type defs

sensitive_keys_of : Option TriggerDef → Dict String Bool
unfolding sensitive_of
sensitive_keys_of none = []
sensitive_keys_of (some def) = sensitive_of def.options []

or_empty : Option Fields → Fields
or_empty none = no_fields
or_empty (some m) = m

-- The function that ExternalPluginFactory returns: nil for a type that the plugin does not have
unfoldable pub make_driver :
    DriverLibrary
    → InstalledPlugin
    → String
    → (String → Option Fields)
    → String
    → Trigger
    → Option ExternalDriver
unfolding handles sensitive_keys_of or_empty
make_driver lib p socket_path config_lookup log_level t =
    if handles lib t.type p.manifest.triggers
    then some (record {
      binary_path = binary_path lib.files p;
      socket_path = socket_path;
      trigger_id = t.id;
      trigger_type = t.type;
      options = t.options;
      sensitive_keys = sensitive_keys_of (find_trigger_definition lib.equal_fold p t.type);
      config = or_empty (config_lookup p.manifest.namespace);
      work_dir = if t.recurfile_path == "" then "" else lib.dir t.recurfile_path;
      plugin_name = p.manifest.name;
      log_level = log_level;
    })
    else none

-- The items of a list, with commas between them
abbrev pub joined : DriverLibrary → Items → String
joined lib no_items = ""
joined lib (item v no_items) = lib.print_value v
joined lib (item v (item w vs)) = concat (lib.print_value v) (concat "," (joined lib (item w vs)))

-- The variable of a key under a prefix
abbrev pub env_key : DriverLibrary → String → String → String
env_key lib prefix k =
    if prefix == ""
    then concat "RECUR_" (lib.to_upper k)
    else concat prefix (concat "_" (lib.to_upper k))

-- flattenToEnvVars, with the switch on the value
unfoldable mutual
  pub flatten_value : DriverLibrary → String → Value → List String
  flatten_value lib key null = concat key (concat "=" (lib.print_value null)) ∷ []
  flatten_value lib key (str s) = concat key (concat "=" s) ∷ []
  flatten_value lib key (int n) = concat key (concat "=" (lib.print_value (int n))) ∷ []
  flatten_value lib key (float n f) = concat key (concat "=" (lib.print_value (float n f))) ∷ []
  flatten_value lib key (bool b) = concat key (concat "=" (lib.print_value (bool b))) ∷ []
  flatten_value lib key (duration d) = concat key (concat "=" (lib.print_value (duration d))) ∷ []
  flatten_value lib key (list vs) = concat key (concat "=" (joined lib vs)) ∷ []
  flatten_value lib key (object m) = flatten_to_env_vars lib key m

  pub flatten_to_env_vars : DriverLibrary → String → Fields → List String
  flatten_to_env_vars lib prefix no_fields = []
  flatten_to_env_vars lib prefix (field k v m) =
      flatten_value lib (env_key lib prefix k) v ++ flatten_to_env_vars lib prefix m

-- The options without the sensitive ones
filtered : Dict String Bool → Fields → Fields
filtered sensitive no_fields = no_fields
filtered sensitive (field k v m) =
    let rest = filtered sensitive m in if has sensitive k then rest else field k v rest

-- buildEnvVars
unfoldable pub build_env_vars : DriverLibrary → ExternalDriver → List String
unfolding flatten_to_env_vars filtered
build_env_vars lib d =
    (concat "RECUR_SOCKET=" d.socket_path
      ∷ concat "RECUR_TRIGGER_ID=" d.trigger_id
      ∷ concat "RECUR_TRIGGER_TYPE=" d.trigger_type
      ∷ concat "RECUR_LOG_LEVEL=" d.log_level
      ∷ [])
    ++ (flatten_to_env_vars lib "" (filtered d.sensitive_keys d.options)
        ++ flatten_to_env_vars lib "" d.config)

-- Start, up to the register with the router: the process that is started, which reads the type, the
-- options and the configuration as JSON
unfoldable pub start : DriverLibrary → ExternalDriver → Option String
unfolding build_env_vars
start lib d = lib.start (record {
  command = d.binary_path;
  env = build_env_vars lib d;
  working_dir = d.work_dir;
  trigger_type = d.trigger_type;
  options = d.options;
  config = d.config;
})

made_of : DriverLibrary → Option ExternalDriver → Made
unfolding start
made_of lib none = not_handled
made_of lib (some d) = driver (start lib d)

-- ExternalPluginFactory, with the start of the driver that it makes
unfoldable pub external_plugin_factory :
    DriverLibrary → InstalledPlugin → String → (String → Option Fields) → String → Trigger → Made
unfolding made_of make_driver
external_plugin_factory lib p socket_path config_lookup log_level t =
    made_of lib (make_driver lib p socket_path config_lookup log_level t)
