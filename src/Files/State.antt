-- ===== src/Files/State.antt =====
-- Load and Save of src/infra/jsonfile/state/state.go, over the files of the disk.
pub mod RoundTrip
pub mod Tests
use Prim.Native.String.{◌++◌ as concat}
use recur.Prelude.{String, String_eq, Option, none, some, []}
use recur.Prelude.Dict.{lookup}
use recur.Prelude.Result.{Resolved, resolved, unresolved}
use recur.Daemon.{LaunchArgs, StateFile}
use recur.Files.{Disk}
use recur.Files.Atomic.{PathLibrary, WriteFaults, write}

-- json.MarshalIndent and json.Unmarshal at the type File
pub record JsonLibrary : Type 0 where
  pub marshal : StateFile → Resolved String
  pub unmarshal : String → Resolved StateFile

abbrev pub empty_file : StateFile
empty_file = record { launch_args = none; recurfiles = [] }

parsed : Resolved StateFile → Resolved StateFile
parsed (unresolved e) = unresolved (concat "parsing state file: " e)
parsed (resolved f) = resolved f

load_text : JsonLibrary → Option String → Resolved StateFile
unfolding parsed
load_text json none = resolved empty_file
load_text json (some text) = parsed (json.unmarshal text)

-- Load, with an error of os.ReadFile other than that there is no file
unfoldable pub load : JsonLibrary → Option String → String → Disk → Resolved StateFile
unfolding load_text lookup
load json (some e) path disk = unresolved (concat "reading state file: " e)
load json none path disk = load_text json (lookup path disk)

launch_args_of : Resolved StateFile → Resolved (Option LaunchArgs)
launch_args_of (unresolved e) = unresolved e
launch_args_of (resolved f) = resolved f.launch_args

-- LoadLaunchArgs
unfoldable pub load_launch_args :
    JsonLibrary → Option String → String → Disk → Resolved (Option LaunchArgs)
unfolding launch_args_of load
load_launch_args json read_error path disk = launch_args_of (load json read_error path disk)

save_text :
    PathLibrary → WriteFaults → String → String → Resolved String → Disk → Disk × Option String
unfolding write
save_text lib faults timestamp path (unresolved e) disk =
    (disk, some (concat "marshaling state: " e))
save_text lib faults timestamp path (resolved text) disk =
    write lib faults timestamp path (concat text "\n") disk

-- Save
unfoldable pub save :
    PathLibrary
    → JsonLibrary
    → WriteFaults
    → String
    → String
    → StateFile
    → Disk
    → Disk × Option String
unfolding save_text
save lib json faults timestamp path f disk =
    save_text lib faults timestamp path (json.marshal f) disk
