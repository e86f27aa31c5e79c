-- ===== src/Lib.antt =====
-- The core of Recur, a daemon (src/app/recurd) that runs actions when triggers fire, as its
-- configuration files ("recurfiles") say.
--
-- The parts and how they interact:
--
-- A recurfile is parsed to a RawFile (src/domain/recurfile/raw.go). Resolve (resolve.go, aliases.go)
-- expands aliases and lets triggers and actions inherit from their group; its options are merged by
-- OverlayMaps (pkg/config/overlay.go). registerRecurfile (src/app/recurd/daemon/registry.go) gives
-- each group, trigger and action a stable id and stores the entities of src/domain; the settings of a
-- trigger come from five layers in a MapStore (pkg/config/map_store.go, builder.go). Users name
-- entities by id, by name or by a prefix of an id, which the entity index (entity_index.go) resolves.
-- The engine (src/app/recurd/triggerengine/engine.go) runs the events of a trigger in one of four
-- concurrency modes.
--
-- Files, by the part that each models (records keep the fields, functions the names, in snake_case):
--   Prelude, Prelude/Tests, Prelude/Lists, Prelude/Dict, Prelude/Int, Prelude/Result: shared names,
--   Boolean tests, list and dictionary lemmas. A Go map is an association list with one entry per key.
--   EntityIndex: entityIndex with Add, Lookup (here `resolve`), Remove and flush. WellFormed is its
--   invariant, Live the list of refs it stands for, Changes and Flush the operations against that
--   list, Resolution the lookup against a description of it (Resolution/Scan).
--   Config: the values of a configuration and OverlayMaps. Config/Overlay: its laws. Config/MapStore:
--   MapStore with its cache; Coherence: that the cache is never stale. Config/Store: Store at the struct
--   Config (pkg/config/store.go), with Keys its YAML keys (src/domain/config/keys.go; Reading: GetByKey),
--   Inspection on Inspect  and RoundTrip what a written field reads as.
--   Recurfile: Resolve and Validate. Recurfile/Seeds: the seeds of ids. Recurfile/Settings:
--   BuildTriggerSettings, with Precedence its order. Recurfile/Resolution: what Resolve does.
--   Domain: the entities. Plugins: the lookups in installed plugins, with Conflicts of their names and
--   Discovery on disk.
--   Registry: the registry's state, paths and deregistration. Registry/Register: registerRecurfile.
--   Registry/Queries: reads. Registry/Control: suspend and resume. Registry/Snapshot: save and restore
--   of entity states. Laws, Counts, Removal and RoundTrip hold their theorems.
--   Engine: dispatchWithConcurrency, enqueueAndDrain and the goroutines that they start, as moves of a
--   system; any interleaving is a list of moves. Queue, Drop and Abort: one mode
--   each; Queue/Draining and Termination: what is left once no event arrives; Dispatch: the lookup of the
--   trigger at each event. Registry/Control/Dispatch joins the parts.
--   Engine/Lifecycle: Activate, Deactivate and StopAll, with Tracked on their drivers and Timers on the
--   debounce timers. Engine/Debounce: submitEvent and its timers, with Coalescing their invariant.
--   Lifecycle/Keys holds lemmas on maps. Engine/Router: PluginEventRouter (router.go) and the end of a
--   plugin's process (external.go). Engine/External: the drivers of plugins and the environment of their
--   processes (external.go).
--   Actions: the shell executor (src/app/recurd/daemon/action.go); Actions/Template: templates and their
--   secrets (src/infra/subprocess/executor/template.go). Actions/Plugin: the plugin executor and the
--   environment it builds; Environment: what of the secrets gets into it.
--   Yaml: the nodes of the YAML library. Yaml/Parse: actions and triggers, and Yaml/Parse/File: groups,
--   secrets and files (src/infra/yaml/recurfile/parse.go); Validity: what an accepted file has.
--   Daemon: the daemon's state, the callbacks it gives to the engine, its state file and the scan of the
--   app folder (src/app/recurd/daemon/daemon.go, appscan.go). Daemon holds the records and the save,
--   Daemon/Execution the callbacks, with Errors on error counts and thresholds, Daemon/Startup the rest.
--   Service: the handlers of api.go that change entities, from a daemon and a request to a daemon and a
--   reply; Suspension: what SuspendTrigger leaves. Service/Plugins: installation, with Removal.
--   Service/Events: ReportTriggerEvent, with Acceptance. Service/Views and Service/Inspection: lists,
--   counts and details, with Masking. Service/Testing: test runs. Service/Entities: the handlers that
--   first resolve an identifier. Service/Configuration: GetConfig, SetConfig, DeleteConfig.
--   Suggest: Levenshtein of src/app/recur/text/suggest.go, with Suggest/Distance its laws.
--   Merge: the insertion of lines in src/domain/recurfile/merge.go; Merge/Group: Merge,
--   MergeGroupIntoYAML and RenderGroupContent, with the capacities of the slices.
--   Secrets: Resolve and ResolveAll of src/infra/secret/composite. Secrets/Sources: the resolvers of the
--   sources. Secrets/Redactor: what is taken out of logs (redactor.go).
--   Plugins/ManifestFile: the validation of manifests (src/infra/yaml/manifest/manifest.go), with
--   Acceptance.
--   Files: the disk. Files/Atomic: src/infra/fs/atomicfile/atomicfile.go, with Writing on its errors and
--   Crashes on what Recover makes of a Write that failed or was cut short. Files/State: src/infra/jsonfile/state/state.go, with RoundTrip.
--   Bundle: Unpack of src/infra/fs/appbundle/bundle.go, with Bundle/Containment on where it writes.
--   Files named Tests hold concrete inputs.
--
-- Bounds and fuel: the only fuel is that of the decimal print of an occurrence in Seeds, the number
-- itself plus one, which is enough since each digit divides by ten. Loops over slices and maps are
-- structural. An index that the source reads out of range is `none` of an Option; a call of a nil
-- function is `panicked`. Go's 64-bit int is read as an integer without bound: the numbers here are
-- sizes and settings. A time is the number of nanoseconds since Go's zero time, so that 0 is the
-- zero time.
--
-- A handler of the service and a callback of the daemon is one step: the daemon's own locks do not span
-- them, and calls that overlap are modelled only inside the engine and for the router. In
-- Engine/Lifecycle the look of submitEvent at an entry and the timer that it sets there are one step.
--
-- Not modelled: the command line, gRPC, process control and terminal output, which are input and output;
-- the copying of plugins, the extraction of archives and the packing of bundles, which only move files;
-- logs, but for what is taken out of them; the start and the shutdown of the daemon (Run); the wait for
-- the end of a plugin's process; the similarity of names, which is floating point; the YAML of the
-- configuration. Parameters, as arguments or as the fields of `Env`, `Runtime`, `YamlLibrary`,
-- `MergeLibrary`, `ManifestLibrary`, `Folder`, `Disk` and `World`: SHA-256, functions of strings,
-- filepath, os, fmt, regexp, time, text/template and encoding/json, the YAML library, the start of
-- processes and what they answer, and the resolvers of secrets.
pub mod Prelude
pub mod EntityIndex
pub mod Engine
pub mod Config
pub mod Recurfile
pub mod Domain
pub mod Plugins
pub mod Registry
pub mod Suggest
pub mod Secrets
pub mod Merge
pub mod Actions
pub mod Yaml
pub mod Daemon
pub mod Service
pub mod Bundle
pub mod Files
