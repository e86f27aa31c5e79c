-- ===== src/Bundle.antt =====
-- Unpack of src/infra/fs/appbundle/bundle.go. What is written to the disk is a list of changes, the last
-- one first. What a call that fails leaves behind is recorded only where the call is io.Copy.
pub mod Containment
pub mod Tests
use Prim.Native.String.{◌++◌ as concat}
use recur.EntityIndex.{has_prefix}
use recur.Prelude.{
  String, Option, none, some, Bool, true, false, not, ◌&&◌, ◌||◌, List, [], ◌∷◌, ◌==◌, String_eq,
  if◌then◌else◌,
}
use recur.Prelude.Result.{Resolved, resolved, unresolved}

-- A new directory; a file opened with O_CREATE|O_TRUNC; what io.Copy wrote to a file
pub data Change : Type 0 where
  made_dir : String → Change
  created : String → Change
  filled : String → String → Change

-- filepath.Join, Clean, Dir, Base and ToSlash, strings.Contains of a slash, strings.ToLower, the test
-- for a suffix, IsRecurfileName, and the errors of os.MkdirAll, os.OpenFile and Close after the changes
-- so far
pub record Disk : Type 0 where
  pub join : String → String → String
  pub clean : String → String
  pub dir : String → String
  pub base : String → String
  pub to_slash : String → String
  pub has_slash : String → Bool
  pub to_lower : String → String
  pub has_suffix : String → String → Bool
  pub is_recurfile_name : String → Bool
  pub mkdir_all : List Change → String → Option String
  pub open_file : List Change → String → Option String
  pub close_file : List Change → String → Option String

-- zip.File: its name, whether it is a directory, the error of Open, what a reader gives, and its error
pub record ZipFile : Type 0 where
  pub name : String
  pub is_dir : Bool
  pub open_error : Option String
  pub content : String
  pub read_error : Option String

-- The changes and the error that a function returns
abbrev pub DiskOutcome : Type 0
DiskOutcome = List Change × Option String

-- if err != nil { return err }
unfoldable pub and_then : DiskOutcome → (List Change → DiskOutcome) → DiskOutcome
and_then (changes, some e) next = (changes, some e)
and_then (changes, none) next = next changes

-- The same where the call that may fail is the first
unfoldable pub unless_error : Option String → List Change → DiskOutcome → DiskOutcome
unless_error (some e) changes next = (changes, some e)
unless_error none changes next = next

unfoldable pub made : Disk → String → List Change → DiskOutcome
unfolding unless_error
made disk path changes =
    unless_error (disk.mkdir_all changes path) changes (made_dir path ∷ changes, none)

or_error : Option String → Option String → Option String
or_error none next = next
or_error (some e) next = some e

unfoldable pub copy_content : Disk → ZipFile → String → List Change → DiskOutcome
unfolding or_error unless_error
copy_content disk f target changes =
    let changes' = filled target f.content ∷ changes in
    unless_error f.open_error changes
      (changes', or_error f.read_error (disk.close_file changes' target))

unfoldable pub create_file : Disk → ZipFile → String → List Change → DiskOutcome
unfolding copy_content unless_error
create_file disk f target changes =
    unless_error (disk.open_file changes target) changes
      (copy_content disk f target (created target ∷ changes))

-- extractEntry
unfoldable pub extract_entry : Disk → ZipFile → String → List Change → DiskOutcome
unfolding made and_then create_file
extract_entry disk f target changes =
    if f.is_dir
    then made disk target changes
    else and_then (made disk (disk.dir target) changes) (create_file disk f target)

-- The destination itself, or a path below it
unfoldable pub is_inside : String → String → Bool
is_inside clean_dest target = target == clean_dest || has_prefix (concat clean_dest "/") target

-- The loop over the files of the bundle
unfoldable pub unpack_files : Disk → String → List ZipFile → List Change → DiskOutcome
unfolding extract_entry is_inside has_prefix
unpack_files disk clean_dest [] changes = (changes, none)
unpack_files disk clean_dest (f ∷ fs) changes =
    let target = disk.join clean_dest (disk.clean f.name) in
    if is_inside clean_dest target
    then and_then (extract_entry disk f target changes) (unpack_files disk clean_dest fs)
    else (changes, some (concat "bundle entry escapes destination: " f.name))

-- isYAMLName
is_yaml_name : Disk → String → Bool
is_yaml_name disk basename =
    disk.has_suffix ".yaml" (disk.to_lower basename)
    || disk.has_suffix ".yml" (disk.to_lower basename)

-- The names of the YAML files at the root
root_yamls : Disk → List ZipFile → List String
unfolding is_yaml_name
root_yamls disk [] = []
root_yamls disk (f ∷ fs) =
    let rest = root_yamls disk fs in
    let name = disk.to_slash (disk.clean f.name) in
    if not f.is_dir && not (disk.has_slash name) && is_yaml_name disk name
    then name ∷ rest
    else rest

conventional_names : Disk → List String → List String
conventional_names disk [] = []
conventional_names disk (n ∷ ns) =
    let rest = conventional_names disk ns in if disk.is_recurfile_name n then n ∷ rest else rest

joined_names : List String → String
joined_names [] = ""
joined_names (n ∷ []) = n
joined_names (n ∷ m ∷ ns) = concat n (concat ", " (joined_names (m ∷ ns)))

conventional_one : List String → List String → Resolved String
unfolding joined_names
conventional_one names (n ∷ []) = resolved n
conventional_one names ns = unresolved (
    concat "ambiguous bundle: multiple root YAML files ("
      (concat (joined_names names) "); keep a single root YAML or name one recurfile.yaml"))

-- selectRecurfile
unfoldable pub select_recurfile : Disk → List String → Resolved String
unfolding conventional_names conventional_one
select_recurfile disk [] =
    unresolved "no recurfile found: a bundle must contain a YAML file at its root"
select_recurfile disk (n ∷ []) = resolved n
select_recurfile disk (n ∷ m ∷ ns) =
    conventional_one (n ∷ m ∷ ns) (conventional_names disk (n ∷ m ∷ ns))

-- hasRootRecurfile
unfoldable pub has_root_recurfile : Disk → List ZipFile → Bool
unfolding root_yamls select_recurfile
has_root_recurfile disk files = elim (select_recurfile disk (root_yamls disk files)) [
  | resolved n ↦ true
  | unresolved e ↦ false
]

unpack_opened : Disk → String → String → List ZipFile → DiskOutcome
unfolding has_root_recurfile and_then made unpack_files
unpack_opened disk bundle_path dest_dir files =
    if has_root_recurfile disk files
    then and_then (made disk dest_dir []) (unpack_files disk (disk.clean dest_dir) files)
    else (
      [],
      some (concat "not a valid app bundle: no recurfile at the root of " (disk.base bundle_path)),
    )

-- Unpack, from what zip.OpenReader returns
unfoldable pub unpack : Disk → String → String → Resolved (List ZipFile) → DiskOutcome
unfolding unpack_opened
unpack disk bundle_path dest_dir (unresolved e) =
    ([], some (concat "not a valid app bundle (" (concat (disk.base bundle_path) (concat "): " e))))
unpack disk bundle_path dest_dir (resolved files) = unpack_opened disk bundle_path dest_dir files
