-- ===== src/Daemon/Tests.antt =====
-- A daemon with one trigger and its action.
use recur.Prelude.{◌≡◌, refl, none, some, true, false, [], ◌∷◌, ◌==◌, String_eq}
use recur.Prelude.Result.{unresolved}
use recur.Prelude.Dict
use recur.Prelude.Int.{pos, is_reached, succ}
use recur.Config.{null, no_fields}
use recur.Config.Store.{new_store}
use recur.Domain.{Trigger, status_active}
use recur.EntityIndex.{new_entity_index}
use recur.Engine.Lifecycle.{Engine, new_watched}
use recur.Registry.{Env}
use recur.Registry.Queries.{get_trigger}
use recur.Secrets.{value}
use recur.Plugins.{InstalledPlugin}
use recur.Actions.Tests.{runtime, notify_plugin, notify_action}
use recur.Yaml.Tests.{library}
use recur.Daemon.{World, Daemon}
use recur.Daemon.Execution.Errors.{run_results, failures, status_at, run_results-failures}

abbrev pub env : Env
env = record {
  sha256_prefix = λ s. s;
  to_lower = λ s. s;
  equal_fold = λ a b. a == b;
  clean_abs = λ path. some path;
  same_file = λ a b. false;
  parse_duration = λ s. none;
  format_time = λ n. "0001-01-01T00:00:07Z";
  parse_time = λ s. none;
}

abbrev pub world : World
world = record {
  env = env;
  rt = runtime;
  yaml = library;
  resolver = record { env = λ def. value ""; file = λ def. value ""; keyring = none };
  drivers = record {
    to_lower = λ s. s;
    to_upper = λ s. s;
    equal_fold = λ a b. a == b;
    dir = λ path. path;
    print_value = λ v. "";
    files = runtime.files;
    start = λ launch. none;
  };
  socket_path = "/recur.sock";
  write_state = λ f. true;
  read_state = unresolved "no state";
  keys = record { to_lower = λ s. s; atoi = λ s. none; quote = λ s. s };
  write_config = λ layer. true;
}

abbrev pub watcher : InstalledPlugin
watcher = record notify_plugin {
  id = "p2";
  manifest = record notify_plugin.manifest {
    name = "files";
    namespace = "recur.files";
    triggers =
        (record {
          name = "FileCreated";
          defaults = no_fields;
          options =
              (record {
                name = "TOKEN";
                type = "string";
                default = null;
                shorthand = false;
                sensitive = true;
              })
              ∷ [];
          context = (record { name = "Path"; type = "string"; description = "" }) ∷ [];
        })
        ∷ [];
  };
}

abbrev pub file_created : Trigger
file_created = record {
  id = "t";
  type = "FileCreated";
  name = "";
  group_id = "g";
  group_name = "g";
  recurfile_id = "r";
  recurfile_path = "/r";
  plugin_id = "recur.files";
  options = no_fields;
  status = status_active;
  error_count = pos 0;
  error_threshold = pos 2;
  last_fired = 0;
  concurrency_mode = "queue";
  max_queue_size = pos 4;
  debounce = pos 0;
}

abbrev pub engine : Engine
engine = record {
  active = ("t", new_watched) ∷ [];
  stopped = false;
  drivers = "t" ∷ [];
  timers = [];
  timers_made = 0;
  awaited = [];
}

abbrev pub daemon : Daemon
daemon = record {
  config = record {
    default_shell = "";
    error_threshold = pos 2;
    trigger_error_threshold = none;
    action_error_threshold = none;
    concurrency_mode = "queue";
    max_queue_size = pos 4;
    debounce = "";
    log_level = "info";
    plugins = [];
  };
  config_store = new_store ("default" ∷ "file" ∷ []);
  config_path = "/config.yaml";
  plugins = watcher ∷ notify_plugin ∷ [];
  registry = record {
    recurfiles = ("r", record { id = "r"; file_path = "/r"; groups = "g" ∷ []; secrets = [] }) ∷ [];
    groups =
        (
          "g",
          record {
            id = "g";
            name = "g";
            recurfile_id = "r";
            trigger_ids = "t" ∷ [];
            action_ids = "a" ∷ [];
            options = no_fields;
            aliases = [];
          },
        )
        ∷ [];
    triggers = ("t", file_created) ∷ [];
    actions = ("a", notify_action) ∷ [];
    index = record new_entity_index {
      entries = (record { entity_type = "trigger"; id = "t"; name = "FileCreated" }) ∷ [];
      by_id = ("t", 0) ∷ [];
      by_name = ("FileCreated", 0 ∷ []) ∷ [];
    };
  };
  engine = some engine;
  router = some (record {
    channels = ("t", 0) ∷ [];
    opened = (0, record { buffer = []; capacity = 16; closed = false }) ∷ [];
  });
  factory_plugins = watcher ∷ [];
  executor_plugins = watcher ∷ notify_plugin ∷ [];
  executor_config = record { default_shell = ""; log_level = "info"; plugins = [] };
  launch_args = none;
  state_path = "/state.json";
  saved = none;
  saved_config = none;
}

run_results-failures_example :
    let a' = run_results (false ∷ true ∷ []) notify_action in
    let a'' = run_results (false ∷ true ∷ failures 2) notify_action in
    (a''.error_count ≡ pos 2) × (a''.status ≡ status_at a'.error_threshold 2 a'.status)
run_results-failures_example = run_results-failures (false ∷ []) 2 notify_action

found_test : get_trigger daemon.registry "t" ≡ some file_created
unfolding Dict.lookup
found_test = refl

active_test : Dict.lookup "t" engine.active ≡ some new_watched
unfolding Dict.lookup
active_test = refl

below_test : is_reached (pos 2) (succ (pos 0)) ≡ false
unfolding is_reached succ
below_test = refl
