-- ===== src/Files/Atomic/Crashes.antt =====
-- What Recover of atomicfile.go makes of what a Write left. A crash of Write is one of its failures to the
-- disk: before os.WriteFile nothing has changed, as when os.MkdirAll fails; inside os.WriteFile a part
-- of the text stands under the temporary name, as when os.WriteFile fails; between it and os.Rename
-- this part is the whole text; and after os.Rename nothing is left to do.
use recur.Prelude.{◌≡◌, String, Option, none, some, Bool, true, false, [], ◌∷◌, String_eq}
use recur.Prelude.Dict.{lookup, insert, remove}
use recur.Files.{Disk}
use recur.Files.Atomic.{PathLibrary, temp_path, temp_pattern, glob, recover}

module _ (lib : PathLibrary) (timestamp path text : String) (disk : Disk) where
  abbrev pub tmp : String
  tmp = temp_path lib timestamp path

  abbrev pub is_temp : String → Bool
  is_temp = lib.matches (temp_pattern lib path)

  -- What the file is to hold after the next start, by the errors of os.MkdirAll, os.WriteFile and
  -- os.Rename
  abbrev pub found : Option String → Option (String × String) → Option String → Option String
  found (some e) write_error rename_error = lookup path disk
  found none (some (part, e)) rename_error = some part
  found none none (some e) = lookup path disk
  found none none none = some text

  -- The temporary name fits the pattern of Recover, the file's own name does not, nothing was left
  -- behind before, and sort.Strings keeps a list of at most one name.
  pub record IsFresh : Type 0 where
    pub temp_fits : is_temp tmp ≡ true
    pub path_misses : is_temp path ≡ false
    pub none_left : glob lib (temp_pattern lib path) disk ≡ []
    pub sort_none : lib.sort [] ≡ []
    pub sort_one : lib.sort (tmp ∷ []) ≡ tmp ∷ []

  module _ (fresh : IsFresh) where
    -- The disk, once the temporary file was made and has gone again
    abbrev cleared : Disk
    cleared = remove tmp (insert tmp text disk)

    -- Recover then succeeds and leaves the file with this.
    abbrev Finds : Disk → Option String → Type 0
    Finds d text' =
        (lookup path (recover lib none none path d).0 ≡ text')
        × ((recover lib none none path d).1 ≡ none)
