-- ===== src/Plugins/ManifestFile/Tests.antt =====
-- Manifests that Parse of manifest.go accepts and refuses, and the folder of one of them.
use Prim.Native.String.{◌++◌ as concat}
use recur.Prelude.{
  inl, In, ◌≡◌, refl, String, String_eq, Bool, true, false, [], ◌∷◌, ◌==◌, if◌then◌else◌,
}
use recur.Prelude.Result.{resolved, unresolved}
use recur.Prelude.Int.{pos}
use recur.Config.{Value, null, int, no_fields, field}
use recur.Plugins.Discovery.{DirEntry, entries, Folder, discover_in, IsLoaded, discover_in-IsLoaded}
use recur.Plugins.{InstalledPlugin, OptionDef, TriggerDef, Manifest}
use recur.Plugins.ManifestFile.{ManifestLibrary, parse_manifest}
use recur.Plugins.ManifestFile.Validity.{IsManifest}
use recur.Plugins.ManifestFile.Acceptance.{parse_manifest-IsManifest}

abbrev option_of : String → Value → Bool → OptionDef
option_of typ default shorthand = record {
  name = "PATH";
  type = typ;
  default = default;
  shorthand = shorthand;
  sensitive = false;
}

abbrev watcher : TriggerDef
watcher = record {
  name = "FileCreated";
  defaults = field "max_queue_size" (int (pos 10)) no_fields;
  options = option_of "string" null false ∷ [];
  context = [];
}

abbrev manifest : Manifest
manifest = record {
  name = "watch";
  namespace = "dev.watch";
  version = "1";
  description = "";
  dependencies = [];
  configuration = [];
  triggers = watcher ∷ [];
  actions = [];
}

abbrev faulty : Manifest
faulty = record manifest {
  version = "";
  triggers =
      (record watcher {
        defaults = field "debounce" (int (pos 10)) no_fields;
        options = option_of "text" null true ∷ [];
      })
      ∷ [];
}

abbrev lib : ManifestLibrary
lib = record {
  quote = λ s. s;
  type_name = λ v. "int";
  decimal = λ n. "0";
  unmarshal = λ s. if s == "good" then resolved manifest else resolved faulty;
}

accepted_test : parse_manifest lib "good" ≡ resolved manifest
unfolding parse_manifest
accepted_test = refl

refused_test :
    parse_manifest lib "bad"
    ≡ unresolved
        "invalid manifest:\n  - version is required\n  - triggers[0].options[0]: invalid type text\n  - triggers[0].options[0]: shorthand is only valid on action options\n  - triggers[0].defaults.debounce: default value must be a string, got int"
unfolding parse_manifest
refused_test = refl

parse_manifest-IsManifest_example : IsManifest manifest
parse_manifest-IsManifest_example =
    parse_manifest-IsManifest lib "good" {m = manifest} accepted_test

abbrev entry : String → Bool → DirEntry
entry name is_dir = record { name = name; is_dir = is_dir; is_link = false }

abbrev folder : Folder
folder = record {
  join = λ a b. concat a (concat "/" b);
  read_file = λ path.
      if path == "plugins/watch/manifest.yaml"
      then resolved "good"
      else unresolved "no such file or directory";
  read_dir = λ dir. entries (entry "empty" true ∷ entry "notes" false ∷ entry "watch" true ∷ []);
  generate_id = λ namespace. "1f";
  quote = λ s. s;
  yaml = lib;
  sort_by_name = λ ps. ps;
}

abbrev watch : InstalledPlugin
watch = record { id = "1f"; dir = "plugins/watch"; manifest = manifest }

discover_in_test :
    discover_in folder "plugins"
    ≡ (watch ∷ [], "plugin empty: could not read manifest: no such file or directory" ∷ [])
unfolding discover_in parse_manifest
discover_in_test = refl

watch_found : In watch (discover_in folder "plugins").0
unfolding discover_in parse_manifest
watch_found = inl refl

discover_in-IsLoaded_example : IsLoaded folder watch
discover_in-IsLoaded_example = discover_in-IsLoaded folder "plugins" (λ ps q i. i) watch watch_found
