-- ===== src/Merge/Tests.antt =====
-- The insertion of a trigger line into a small file.
use recur.Prelude.{String, ◌+◌, ◌≡◌, ◌≤◌, ◌<◌, refl, List, [], ◌∷◌, ◌++◌, length}
use recur.Merge.{before, after, insert_lines, insert_lines_lem}

abbrev file : List String
file = "g:" ∷ "  on:" ∷ "  do:" ∷ "    - a" ∷ []

abbrev cron : List String
cron = "    - cron" ∷ []

-- "  do:" is lost.
lost_test : insert_lines 2 cron file ≡ "g:" ∷ "  on:" ∷ "    - cron" ∷ "    - cron" ∷ "    - a" ∷ []
unfolding insert_lines
lost_test = refl

insert_lines_lem_example :
    (2 + length cron ≤ length file
      → insert_lines 2 cron file
        ≡ (before 2 file ++ cron) ++ (cron ++ after (length cron) (after 2 file)))
    × (length file < 2 + length cron
        → insert_lines 2 cron file ≡ (before 2 file ++ cron) ++ after 2 file)
insert_lines_lem_example = insert_lines_lem 2 cron file
