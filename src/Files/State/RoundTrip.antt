-- ===== src/Files/State/RoundTrip.antt =====
-- What Load of src/infra/jsonfile/state/state.go reads after a Save, whichever call of it fails.
use Prim.Native.String.{◌++◌ as concat}
use recur.Prelude.{◌≡◌, ◌≢◌, refl, ap, String, String_eq, Option, none, some}
use recur.Prelude.Result.{Resolved, resolved, unresolved}
use recur.Daemon.{StateFile}
use recur.Files.{Disk}
use recur.Files.Atomic.{PathLibrary, WriteFaults, temp_path, write}
use recur.Files.Atomic.Writing.{IsAtomic, write-IsAtomic}
use recur.Files.State.{JsonLibrary, load_text, load, save_text, save}

module _ (lib : PathLibrary) (json : JsonLibrary) (timestamp path : String) (f : StateFile)
    (disk : Disk) where
  -- With no error Load reads the state that was saved; with one it reads what it read before.
  abbrev pub IsSaved : Disk × Option String → Type 0
  IsSaved (d, none) = load json none path d ≡ resolved f
  IsSaved (d, some e) = load json none path d ≡ load json none path disk

  load-IsAtomic :
      (tmp text : String)
      → json.unmarshal text ≡ resolved f
      → (r : Disk × Option String) → IsAtomic tmp path text disk r
      → IsSaved r
  unfolding load
  load-IsAtomic tmp text back (d, none) h = rw h (rw back)
  load-IsAtomic tmp text back (d, some e) h = ap (load_text json) h

  save_text-IsSaved :
      (faults : WriteFaults) (r : Resolved String)
      → ((text : String) → r ≡ resolved text → json.unmarshal (concat text "\n") ≡ resolved f)
      → temp_path lib timestamp path ≢ path
      → IsSaved (save_text lib faults timestamp path r disk)
  unfolding save_text
  save_text-IsSaved faults (unresolved e) back ne = refl
  save_text-IsSaved faults (resolved text) back ne =
      load-IsAtomic (temp_path lib timestamp path) (concat text "\n") (back text refl)
        (write lib faults timestamp path (concat text "\n") disk)
        (write-IsAtomic lib faults timestamp path (concat text "\n") disk ne)

  -- Where what json.MarshalIndent writes of the state, with a line end, is read back by
  -- json.Unmarshal, and the temporary name is not the file's: if Save returns no error, Load then reads
  -- the state that was saved, and if it returns one, Load reads what it read before.
  pub load-save :
      (faults : WriteFaults)
      → ((text : String)
          → json.marshal f ≡ resolved text
          → json.unmarshal (concat text "\n") ≡ resolved f)
      → temp_path lib timestamp path ≢ path
      → IsSaved (save lib json faults timestamp path f disk)
  unfolding save
  load-save faults back ne = save_text-IsSaved faults (json.marshal f) back ne
