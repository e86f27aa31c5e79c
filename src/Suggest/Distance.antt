-- ===== src/Suggest/Distance.antt =====
-- The two rows of Levenshtein against the recurrence of the edit distance.
use recur.Prelude.{
  ℕ, zero, suc, ◌+◌, ◌≡◌, ◌≤◌, refl, sym, ap, ◌∙◌, List, [], ◌∷◌, length, arith, ℕ_eq, beq_refl,
}
use recur.Suggest.{min3, cost, fill_row, fill_rows, first_row, last_cell, levenshtein}

-- The edit distance of two texts, each given with its last rune first: at the last runes, the least of
-- a removal, an insertion, and a change or a match.
unfoldable pub distance : List ℕ → List ℕ → ℕ
unfolding min3
distance [] ys = length ys
distance (x ∷ xs) [] = suc (length xs)
distance (x ∷ xs) (y ∷ ys) =
    min3 (distance xs (y ∷ ys) + 1) (distance (x ∷ xs) ys + 1) (distance xs ys + cost x y)

-- `xs` turned round, before `ys`
unfoldable pub onto : List ℕ → List ℕ → List ℕ
onto [] ys = ys
onto (x ∷ xs) ys = onto xs (x ∷ ys)

-- The cells of a row: the distances of `xs` to the texts that reach `ys` and more of `bs`.
cells : List ℕ → List ℕ → List ℕ → List ℕ
unfolding distance
cells xs ys [] = []
cells xs ys (b ∷ bs) = distance xs (b ∷ ys) ∷ cells xs (b ∷ ys) bs

fill_row-cells :
    (r : ℕ) (xs ys bs : List ℕ)
    → fill_row r (distance (r ∷ xs) ys) (distance xs ys) (cells xs ys bs) bs ≡ cells (r ∷ xs) ys bs
unfolding fill_row cells distance
fill_row-cells r xs ys [] = refl
fill_row-cells r xs ys (b ∷ bs) =
    ap (λ l. distance (r ∷ xs) (b ∷ ys) ∷ l) (fill_row-cells r xs (b ∷ ys) bs)

first_row-cells : (ys bs : List ℕ) → first_row (length ys) bs ≡ cells [] ys bs
unfolding first_row cells distance
first_row-cells ys [] = refl
first_row-cells ys (b ∷ bs) = ap (λ l. suc (length ys) ∷ l) (first_row-cells (b ∷ ys) bs)

fill_rows-cells :
    (xs ra bs : List ℕ)
    → fill_rows (suc (length xs)) (distance xs []) (cells xs [] bs) ra bs
      ≡ (distance (onto ra xs) [], cells (onto ra xs) [] bs)
unfolding fill_rows distance onto
fill_rows-cells xs [] bs = refl
fill_rows-cells xs (r ∷ ra) bs =
    ap (λ row. fill_rows (suc (suc (length xs))) (suc (length xs)) row ra bs)
      (fill_row-cells r xs [] bs)
    ∙ fill_rows-cells (r ∷ xs) ra bs

last_cell-cells :
    (xs ys bs : List ℕ) → last_cell (distance xs ys) (cells xs ys bs) ≡ distance xs (onto bs ys)
unfolding last_cell cells onto
last_cell-cells xs ys [] = refl
last_cell-cells xs ys (b ∷ bs) = last_cell-cells xs (b ∷ ys) bs

length-onto : (xs ys : List ℕ) → length (onto xs ys) ≡ length xs + length ys
unfolding onto
length-onto [] ys = omega arith
length-onto (x ∷ xs) ys = omega (arith, length-onto xs (x ∷ ys))

distance-nil : (xs : List ℕ) → distance xs [] ≡ length xs
unfolding distance
distance-nil [] = refl
distance-nil (x ∷ xs) = refl

-- Levenshtein, with its two rows, computes the edit distance.
pub levenshtein-distance : (a b : List ℕ) → levenshtein a b ≡ distance (onto a []) (onto b [])
unfolding levenshtein distance onto
levenshtein-distance [] b = omega (arith, length-onto b [])
levenshtein-distance (r ∷ a) [] =
    omega (arith, length-onto (r ∷ a) [], distance-nil (onto (r ∷ a) []))
levenshtein-distance (r ∷ a) (c ∷ b) =
    ap
      (λ row. last_cell (fill_rows 1 0 row (r ∷ a) (c ∷ b)).0 (fill_rows 1 0 row (r ∷ a) (c ∷ b)).1)
      (first_row-cells [] (c ∷ b))
    ∙ ap (λ p. last_cell p.0 p.1) (fill_rows-cells [] (r ∷ a) (c ∷ b))
    ∙ last_cell-cells (onto (r ∷ a) []) [] (c ∷ b)

distance_self : (xs : List ℕ) → distance xs xs ≡ 0
unfolding distance
distance_self [] = refl
distance_self (x ∷ xs) = ground (arith, distance_self xs, beq_refl x)

min3_swap : (a b c : ℕ) → min3 a b c ≡ min3 b a c
unfolding min3
min3_swap a b c = ground arith

cost_sym : (x y : ℕ) → cost x y ≡ cost y x
cost_sym x y = ground arith

distance_sym : (xs ys : List ℕ) → distance xs ys ≡ distance ys xs
unfolding distance
distance_sym [] [] = refl
distance_sym [] (y ∷ ys) = refl
distance_sym (x ∷ xs) [] = refl
distance_sym (x ∷ xs) (y ∷ ys) =
    ap (λ d. min3 (d + 1) (distance (x ∷ xs) ys + 1) (distance xs ys + cost x y))
      (distance_sym xs (y ∷ ys))
    ∙ ap (λ d. min3 (distance (y ∷ ys) xs + 1) (d + 1) (distance xs ys + cost x y))
        (distance_sym (x ∷ xs) ys)
    ∙ ap (λ d. min3 (distance (y ∷ ys) xs + 1) (distance ys (x ∷ xs) + 1) (d + cost x y))
        (distance_sym xs ys)
    ∙ ap (λ c. min3 (distance (y ∷ ys) xs + 1) (distance ys (x ∷ xs) + 1) (distance ys xs + c))
        (cost_sym x y)
    ∙ min3_swap (distance (y ∷ ys) xs + 1) (distance ys (x ∷ xs) + 1) (distance ys xs + cost y x)

distance_bound : (xs ys : List ℕ) (n : ℕ) → length xs ≤ n → length ys ≤ n → distance xs ys ≤ n
unfolding distance
distance_bound [] ys n h k = k
distance_bound (x ∷ xs) [] n h k = h
distance_bound (x ∷ xs) (y ∷ ys) zero h k = omega arith
distance_bound (x ∷ xs) (y ∷ ys) (suc n) h k =
    ground (arith, distance_bound xs ys n (omega arith) (omega arith))

-- Levenshtein is symmetric, is 0 from a text to itself, and is at most the length of the longer text, so
-- that Similarity divides by a length that it does not exceed.
pub levenshtein_metric :
    (a b : List ℕ)
    → (levenshtein a b ≡ levenshtein b a)
      × (levenshtein a a ≡ 0)
      × ((n : ℕ) → length a ≤ n → length b ≤ n → levenshtein a b ≤ n)
levenshtein_metric a b = (
  levenshtein-distance a b ∙ distance_sym (onto a []) (onto b []) ∙ sym (levenshtein-distance b a),
  levenshtein-distance a a ∙ distance_self (onto a []),
  λ n h k. rw (levenshtein-distance a b) (
      distance_bound (onto a []) (onto b []) n (omega (arith, length-onto a []))
        (omega (arith, length-onto b []))),
)
