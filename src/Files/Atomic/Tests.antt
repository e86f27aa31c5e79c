-- ===== src/Files/Atomic/Tests.antt =====
-- Writes of one file by atomicfile.go, and what the next start finds.
use recur.EntityIndex.{has_prefix}
use recur.Prelude.{String_eq, ◌≡◌, refl, none, some, [], ◌∷◌}
use recur.Files.{Disk}
use recur.Files.Atomic.{PathLibrary, WriteFaults, intact, write, recover}
use Prim.Native.String.{◌++◌ as concat}

abbrev pub lib : PathLibrary
lib = record {
  dir = λ s. "run";
  base = λ s. "state.json";
  ext = λ s. ".json";
  join = λ a b. concat a (concat "/" b);
  matches = λ pattern s. has_prefix "run/state-" s;
  trim_suffix = λ s suffix. "state";
  sort = λ names. names;
}

abbrev pub disk : Disk
disk = ("run/state.json", "{old}") ∷ []

write_test :
    write lib intact "1" "run/state.json" "{new}" disk ≡ (("run/state.json", "{new}") ∷ [], none)
unfolding write
write_test = refl

-- A full disk: the part that was written stays, and the next start takes it for the file.
abbrev pub full_disk : WriteFaults
full_disk = record {
  mkdir_error = none;
  write_error = some ("{n", "no space left on device");
  rename_error = none;
}

write-full_test : write lib full_disk "1" "run/state.json" "{new}" disk ≡ (
  ("run/state.json", "{old}") ∷ ("run/state-1.json.tmp", "{n") ∷ [],
  some "writing temp file: no space left on device",
)
unfolding write
write-full_test = refl

recover-full_test :
    recover lib none none "run/state.json" (write lib full_disk "1" "run/state.json" "{new}" disk).0
    ≡ (("run/state.json", "{n") ∷ [], none)
unfolding write recover has_prefix
recover-full_test = refl
