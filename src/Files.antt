-- ===== src/Files.antt =====
-- The files that recur reads and writes: src/infra/fs and what uses it. A disk maps the paths of its
-- files to their contents.
pub mod Atomic
pub mod State
use recur.Prelude.{String, String_eq, Option, none, some}
use recur.Prelude.Dict.{Dict, lookup, insert, remove}

abbrev pub Disk : Type 0
Disk = Dict String String

-- os.Rename of a file, whose error is given: over the file that stands at the new path, if any
unfoldable pub rename : Option String → String → String → Disk → Disk × Option String
unfolding lookup insert remove
rename (some e) old_path new_path disk = (disk, some e)
rename none old_path new_path disk = elim (lookup old_path disk) [
  | none ↦ (disk, some "no such file or directory")
  | some text ↦ (insert new_path text (remove old_path disk), none)
]
