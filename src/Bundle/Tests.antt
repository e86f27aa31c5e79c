-- ===== src/Bundle/Tests.antt =====
-- A bundle with a recurfile, an entry that escapes, and a script, on a disk where no call fails.
use recur.Prelude.{
  ◌≡◌, refl, String, none, some, false, [], ◌∷◌, ◌==◌, ◌&&◌, if◌then◌else◌, String_eq,
}
use recur.Prelude.Result.{resolved}
use recur.Bundle.{Disk, ZipFile, made_dir, created, filled, unpack}
use recur.Bundle.Containment.{AreContained, unpack-AreContained}
use Prim.Native.String.{◌++◌ as concat}

-- Paths of one directory level; every name is printed as it is.
abbrev disk : Disk
disk = record {
  join = λ a b. concat a (concat "/" b);
  clean = λ s. s;
  dir = λ s. "/apps/a";
  base = λ s. s;
  to_slash = λ s. s;
  has_slash = λ s. s == "sub/run.sh";
  to_lower = λ s. s;
  has_suffix = λ suffix s. suffix == ".yaml" && s == "a.yaml";
  is_recurfile_name = λ s. false;
  mkdir_all = λ cs s. none;
  open_file = λ cs s. none;
  close_file = λ cs s. none;
}

abbrev file : String → ZipFile
file name = record {
  name = name;
  is_dir = false;
  open_error = none;
  content = "x";
  read_error = none;
}

abbrev sibling_disk : Disk
sibling_disk = record disk {
  join = λ a b. if b == ".." then "/apps/ab" else concat a (concat "/" b);
}

unpack_test : unpack disk "a.recur" "/apps/a" (resolved (file "a.yaml" ∷ [])) ≡ (
  filled "/apps/a/a.yaml" "x"
      ∷ created "/apps/a/a.yaml"
      ∷ made_dir "/apps/a"
      ∷ made_dir "/apps/a"
      ∷ [],
  none,
)
unfolding unpack
unpack_test = refl

-- A directory beside the destination that shares its first letters is outside.
unpack-sibling_test :
    unpack sibling_disk "a.recur" "/apps/a" (resolved (file "a.yaml" ∷ file ".." ∷ [])) ≡ (
      filled "/apps/a/a.yaml" "x"
          ∷ created "/apps/a/a.yaml"
          ∷ made_dir "/apps/a"
          ∷ made_dir "/apps/a"
          ∷ [],
      some "bundle entry escapes destination: ..",
    )
unfolding unpack
unpack-sibling_test = refl

unpack-no_recurfile_test :
    unpack disk "a.recur" "/apps/a" (resolved (file "sub/run.sh" ∷ []))
    ≡ ([], some "not a valid app bundle: no recurfile at the root of a.recur")
unfolding unpack
unpack-no_recurfile_test = refl

unpack-AreContained_example :
    AreContained sibling_disk "/apps/a"
      (unpack sibling_disk "a.recur" "/apps/a" (resolved (file "a.yaml" ∷ file ".." ∷ []))).0
unpack-AreContained_example =
    unpack-AreContained sibling_disk "a.recur" "/apps/a" (resolved (file "a.yaml" ∷ file ".." ∷ []))
