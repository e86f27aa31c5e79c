-- ===== src/Merge/Group/Tests.antt =====
-- Merge of src/domain/recurfile/merge.go on a small file, where the functions of strings are tables.
use recur.Prelude.{◌≡◌, refl, String, false, List, [], ◌∷◌, ◌==◌, String_eq, if◌then◌else◌}
use recur.Prelude.Result.{resolved}
use recur.Config.{no_fields}
use recur.Recurfile.{RawTrigger, RawGroup, RawFile}
use recur.Merge.Group.{MergeLibrary, merge}

abbrev cron : RawTrigger
cron = record { type = "cron"; name = ""; options = no_fields; actions = [] }

abbrev group : String → List RawTrigger → RawGroup
group name triggers = record {
  name = name;
  aliases = [];
  options = no_fields;
  triggers = triggers;
  actions = [];
}

abbrev file_of : List RawGroup → RawFile
file_of groups = record { path = ""; aliases = []; secrets = []; groups = groups }

abbrev existing : String
existing = "g:\n  on:\n  do:\n    - a"

abbrev lib : MergeLibrary
lib = record {
  trim_space = λ s. if s == "  on:" then "on:" else (if s == "  do:" then "do:" else s);
  split_lines = λ s. "g:" ∷ "  on:" ∷ "  do:" ∷ "    - a" ∷ [];
  ends_line = λ s. false;
  print_quoted = λ v. "";
  parse = λ s. resolved (
      file_of (
        if s == "new"
        then group "h" [] ∷ []
        else (if s == "both"
            then group "h" [] ∷ group "g" (cron ∷ []) ∷ group "k" [] ∷ []
            else group "g" [] ∷ [])));
  grow = λ capacity n. n;
}

-- A new group is appended as it is written.
merge-new_test : merge lib existing "new" ≡ resolved "g:\n  on:\n  do:\n    - a\n\nnew"
unfolding merge
merge-new_test = refl

-- The trigger of the group that exists is written twice in place of `do:`, and the groups "h" and "k"
-- of the fragment are lost.
merge-both_test :
    merge lib existing "both" ≡ resolved "g:\n  on:\n    - type: cron\n    - type: cron\n    - a"
unfolding merge
merge-both_test = refl
