-- ===== src/Files/Atomic.antt =====
-- src/infra/fs/atomicfile/atomicfile.go: Write by a temporary file, and Recover at the next start.
pub mod Crashes
pub mod Writing
pub mod Tests
use Prim.Native.String.{◌++◌ as concat}
use recur.Prelude.{
  String, Option, none, some, Bool, true, false, List, [], ◌∷◌, ◌==◌, String_eq, if◌then◌else◌,
  keep,
}
use recur.Prelude.Dict.{Dict, insert, remove, keys}
use recur.Files.{Disk, rename}

-- filepath.Dir, Base, Ext, Join and Match, strings.TrimSuffix and sort.Strings
pub record PathLibrary : Type 0 where
  pub dir : String → String
  pub base : String → String
  pub ext : String → String
  pub join : String → String → String
  pub matches : String → String → Bool
  pub trim_suffix : String → String → String
  pub sort : List String → List String

-- How the calls of one Write end: the error of os.MkdirAll, what os.WriteFile wrote before its error,
-- and the error of os.Rename
pub record WriteFaults : Type 0 where
  pub mkdir_error : Option String
  pub write_error : Option (String × String)
  pub rename_error : Option String

-- No call fails.
abbrev pub intact : WriteFaults
intact = record { mkdir_error = none; write_error = none; rename_error = none }

-- The name up to its extension
unfoldable pub file_prefix : PathLibrary → String → String
file_prefix lib path = lib.trim_suffix (lib.base path) (lib.ext (lib.base path))

-- tmpPath, from the time as it is printed
unfoldable pub temp_path : PathLibrary → String → String → String
unfolding file_prefix
temp_path lib timestamp path = lib.join (lib.dir path) (
    concat (file_prefix lib path)
      (concat "-" (concat timestamp (concat (lib.ext (lib.base path)) ".tmp"))))

-- if err := os.Rename(tmpPath, path); err != nil { os.Remove(tmpPath); ... }
renamed : String → Disk × Option String → Disk × Option String
unfolding remove
renamed tmp (disk, some e) = (remove tmp disk, some (concat "renaming temp file: " e))
renamed tmp (disk, none) = (disk, none)

write_temp :
    String
    → Option (String × String)
    → Option String
    → String
    → String
    → Disk
    → Disk × Option String
unfolding insert rename renamed
write_temp tmp (some (part, e)) rename_error path text disk =
    (insert tmp part disk, some (concat "writing temp file: " e))
write_temp tmp none rename_error path text disk =
    renamed tmp (rename rename_error tmp path (insert tmp text disk))

-- Write
unfoldable pub write :
    PathLibrary → WriteFaults → String → String → String → Disk → Disk × Option String
unfolding temp_path write_temp
write lib faults timestamp path text disk = elim faults.mkdir_error [
  | some e ↦ (disk, some (concat "creating directory: " e))
  | none ↦
      write_temp (temp_path lib timestamp path) faults.write_error faults.rename_error path text
        disk
]

-- The pattern of the temporary files of a path
unfoldable pub temp_pattern : PathLibrary → String → String
unfolding file_prefix
temp_pattern lib path =
    lib.join (lib.dir path)
      (concat (file_prefix lib path) (concat "-*" (concat (lib.ext (lib.base path)) ".tmp")))

-- filepath.Glob
unfoldable pub glob : PathLibrary → String → Disk → List String
unfolding keep
glob lib pattern disk = keep (lib.matches pattern) (keys disk)

-- entries[len(entries)-1]
last_entry : String → List String → String
last_entry entry [] = entry
last_entry entry (next ∷ rest) = last_entry next rest

remove_others : String → List String → Disk → Disk
unfolding remove
remove_others newest [] disk = disk
remove_others newest (entry ∷ rest) disk =
    remove_others newest rest (if entry == newest then disk else remove entry disk)

cleaned : String → List String → Disk × Option String → Disk × Option String
unfolding remove_others
cleaned newest entries (disk, some e) = (disk, some (concat "promoting temp file: " e))
cleaned newest entries (disk, none) = (remove_others newest entries disk, none)

-- The newest temporary file takes the place of the file, whether that exists or not: both branches of
-- the source rename.
promote : Option String → String → List String → Disk → Disk × Option String
unfolding last_entry cleaned rename
promote rename_error path [] disk = (disk, none)
promote rename_error path (entry ∷ rest) disk =
    let newest = last_entry entry rest in
    cleaned newest (entry ∷ rest) (rename rename_error newest path disk)

-- Recover, with the errors of filepath.Glob and os.Rename
unfoldable pub recover :
    PathLibrary → Option String → Option String → String → Disk → Disk × Option String
unfolding temp_pattern glob promote
recover lib (some e) rename_error path disk = (disk, some (concat "scanning for temp files: " e))
recover lib none rename_error path disk =
    promote rename_error path (lib.sort (glob lib (temp_pattern lib path) disk)) disk
