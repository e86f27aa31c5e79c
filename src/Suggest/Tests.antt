-- ===== src/Suggest/Tests.antt =====
-- Levenshtein on concrete texts, given by their code points.
use recur.Prelude.{ℕ, ◌≡◌, ◌≤◌, refl, List, [], ◌∷◌, length}
use recur.Suggest.{levenshtein}
use recur.Suggest.Distance.{distance, onto, levenshtein-distance, levenshtein_metric}

abbrev cron : List ℕ
cron = 99 ∷ 114 ∷ 111 ∷ 110 ∷ []

abbrev crom : List ℕ
crom = 99 ∷ 114 ∷ 111 ∷ 109 ∷ 101 ∷ []

levenshtein_test : levenshtein cron crom ≡ 2
unfolding levenshtein
levenshtein_test = refl

levenshtein-distance_example : levenshtein cron crom ≡ distance (onto cron []) (onto crom [])
levenshtein-distance_example = levenshtein-distance cron crom

levenshtein_metric_example :
    (levenshtein cron crom ≡ levenshtein crom cron)
    × (levenshtein cron cron ≡ 0)
    × ((n : ℕ) → length cron ≤ n → length crom ≤ n → levenshtein cron crom ≤ n)
levenshtein_metric_example = levenshtein_metric cron crom
