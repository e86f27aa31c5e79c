-- ===== src/Files/Atomic/Writing.antt =====
-- What Write of atomicfile.go leaves, whichever of its calls fails.
use recur.Prelude.{
  ◌≡◌, ◌≢◌, refl, ◌∙◌, String, String_eq, Option, Option-cases, none, some, inl, inr,
}
use recur.Prelude.Dict.{
  lookup, insert, remove, lookup-insert_self, lookup-insert_ne, lookup-remove_ne,
}
use recur.Files.{Disk, rename}
use recur.Files.Atomic.{PathLibrary, WriteFaults, temp_path, write_temp, write}

module _ (tmp path text : String) (disk : Disk) where
  -- With no error the file holds the text; with one it holds what it held.
  abbrev pub IsAtomic : Disk × Option String → Type 0
  IsAtomic (d, none) = lookup path d ≡ some text
  IsAtomic (d, some e) = lookup path d ≡ lookup path disk

  write_temp-IsAtomic :
      (write_error : Option (String × String)) (rename_error : Option String)
      → tmp ≢ path
      → IsAtomic (write_temp tmp write_error rename_error path text disk)
  unfolding write_temp
  write_temp-IsAtomic (some (part, e)) r ne = lookup-insert_ne part disk ne
  write_temp-IsAtomic none (some e) ne =
      lookup-remove_ne (insert tmp text disk) ne ∙ lookup-insert_ne text disk ne
  write_temp-IsAtomic none none ne =
      rw (lookup-insert_self tmp text disk, rename)
        (lookup-insert_self path text (remove tmp (insert tmp text disk)))

-- Whichever of its calls fails, Write leaves the file with all of the new text if it returns no error,
-- and as it was if it returns one, where the temporary name is another one.
pub write-IsAtomic :
    (lib : PathLibrary) (faults : WriteFaults) (timestamp path text : String) (disk : Disk)
    → temp_path lib timestamp path ≢ path
    → IsAtomic
        (temp_path lib timestamp path)
        path
        text
        disk
        (write lib faults timestamp path text disk)
unfolding write
write-IsAtomic lib faults timestamp path text disk ne = elim (Option-cases faults.mkdir_error) [
  | inl ok ↦
      rw (ok, write)
        (write_temp-IsAtomic (temp_path lib timestamp path) path text disk faults.write_error
          faults.rename_error ne)
  | inr (e, failed) ↦ rw (failed, write) refl
]
