-- ===== src/Suggest.antt =====
-- src/app/recur/text/suggest.go: the edit distance behind the suggestions of the command line. A text
-- is the list of its runes.
pub mod Distance
pub mod Tests
use recur.Prelude.{ℕ, suc, ◌+◌, List, [], ◌∷◌, length, ltb, ◌==◌, ℕ_eq, if◌then◌else◌}

-- min3
unfoldable pub min3 : ℕ → ℕ → ℕ → ℕ
min3 a b c = let m = if ltb b a then b else a in if ltb c m then c else m

-- cost
abbrev pub cost : ℕ → ℕ → ℕ
cost r b = if r == b then 0 else 1

-- The loop over j, from 1: curr[j] is computed from curr[j-1] (`left`), prev[j-1] (`diag`) and prev[j].
unfoldable pub fill_row : ℕ → ℕ → ℕ → List ℕ → List ℕ → List ℕ
unfolding min3
fill_row r left diag [] bs = []
fill_row r left diag (up ∷ prev) [] = []
fill_row r left diag (up ∷ prev) (b ∷ bs) =
    let cell = min3 (up + 1) (left + 1) (diag + cost r b) in cell ∷ fill_row r cell up prev bs

-- The loop over i: a row is its first cell and the others. It returns the last row.
unfoldable pub fill_rows : ℕ → ℕ → List ℕ → List ℕ → List ℕ → ℕ × List ℕ
unfolding fill_row
fill_rows i first prev [] rb = (first, prev)
fill_rows i first prev (r ∷ ra) rb = fill_rows (suc i) i (fill_row r i first prev rb) ra rb

-- The loop that sets prev[j] to j, for j from n + 1
unfoldable pub first_row : ℕ → List ℕ → List ℕ
first_row n [] = []
first_row n (b ∷ bs) = suc n ∷ first_row (suc n) bs

-- The last cell of a row
unfoldable pub last_cell : ℕ → List ℕ → ℕ
last_cell first [] = first
last_cell first (x ∷ xs) = last_cell x xs

-- Levenshtein
unfoldable pub levenshtein : List ℕ → List ℕ → ℕ
unfolding fill_rows first_row last_cell
levenshtein [] rb = length rb
levenshtein (r ∷ ra) [] = length (r ∷ ra)
levenshtein (r ∷ ra) (b ∷ rb) =
    let (first, row) = fill_rows 1 0 (first_row 0 (b ∷ rb)) (r ∷ ra) (b ∷ rb) in last_cell first row
