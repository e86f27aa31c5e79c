-- ===== src/Files/State/Tests.antt =====
-- A state file that is saved to a small disk, where it is encoded by a fixed text.
use Prim.Native.String.{◌++◌ as concat}
use recur.Prelude.{
  ◌≡◌, ◌≢◌, refl, ap, subst, true, false, String, String_eq, ◌==◌, if◌then◌else◌, none, [], ◌∷◌,
}
use recur.Prelude.Result.{resolved, unresolved}
use recur.Daemon.{StateFile}
use recur.Files.Atomic.{temp_path}
use recur.Files.Atomic.Tests.{lib, disk, full_disk}
use recur.Files.State.{JsonLibrary, empty_file, save}
use recur.Files.State.RoundTrip.{IsSaved, load-save}

abbrev one_recurfile : StateFile
one_recurfile = record {
  launch_args = none;
  recurfiles = (record { id = "r1"; file_path = "/w/recurfile"; triggers = []; actions = [] }) ∷ [];
}

abbrev json : JsonLibrary
json = record {
  marshal = λ f. resolved "{r1}";
  unmarshal = λ s.
      if s == "{r1}\n"
      then resolved one_recurfile
      else (if s == "{old}"
          then resolved empty_file
          else unresolved "unexpected end of JSON input");
}

reads_back :
    (text : String)
    → json.marshal one_recurfile ≡ resolved text
    → json.unmarshal (concat text "\n") ≡ resolved one_recurfile
reads_back text e =
    let same : ◌≡◌ {A = String} "{r1}" text = cc e in
    subst (λ t. json.unmarshal (concat t "\n") ≡ resolved one_recurfile) same refl

temp_path-ne : temp_path lib "1" "run/state.json" ≢ "run/state.json"
unfolding temp_path
temp_path-ne e = let h : false ≡ true = ap (λ s. s == "run/state.json") e in cc h

load-save_example :
    IsSaved lib json "1" "run/state.json" one_recurfile disk
      (save lib json full_disk "1" "run/state.json" one_recurfile disk)
load-save_example =
    load-save lib json "1" "run/state.json" one_recurfile disk full_disk reads_back temp_path-ne
