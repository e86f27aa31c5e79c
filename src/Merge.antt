-- ===== src/Merge.antt =====
-- The insertion of lines by src/domain/recurfile/merge.go. `before` and `after` are slices of one array
-- that is full, as strings.Split returns it, and the inner append writes into it where it has room.
pub mod Group
pub mod Tests
use recur.Prelude.{
  ℕ, zero, suc, ◌+◌, ◌≡◌, ◌≤◌, ◌<◌, refl, sym, ap, ◌∙◌, String, List, [], ◌∷◌, ◌++◌, length, leb,
  Bool, true, false, if◌then◌else◌, Bool-cases, inl, inr, arith,
}

-- lines[:n] and lines[n:]
unfoldable pub before : ℕ → List String → List String
before zero lines = []
before (suc n) [] = []
before (suc n) (line ∷ lines) = line ∷ before n lines

unfoldable pub after : ℕ → List String → List String
after zero lines = lines
after (suc n) [] = []
after (suc n) (line ∷ lines) = after n lines

-- The array after the new lines are written from position n on
unfoldable pub write : ℕ → List String → List String → List String
write zero [] lines = lines
write zero (x ∷ xs) [] = []
write zero (x ∷ xs) (line ∷ lines) = x ∷ write zero xs lines
write (suc n) xs [] = []
write (suc n) xs (line ∷ lines) = line ∷ write n xs lines

-- append(append(before, insertLines...), after...)
unfoldable pub insert_lines : ℕ → List String → List String → List String
unfolding before after write
insert_lines n inserted lines =
    let array =
      if leb (n + length inserted) (length lines) then write n inserted lines else lines in
    (before n lines ++ inserted) ++ after n array

after-write :
    (n : ℕ) (inserted lines : List String)
    → n + length inserted ≤ length lines
    → after n (write n inserted lines) ≡ inserted ++ after (length inserted) (after n lines)
unfolding after write
after-write zero [] lines h = refl
after-write zero (x ∷ xs) [] h = absurd (omega arith)
after-write zero (x ∷ xs) (line ∷ lines) h =
    ap (λ l. x ∷ l) (after-write zero xs lines (omega arith))
after-write (suc n) [] [] h = refl
after-write (suc n) (x ∷ xs) [] h = absurd (omega arith)
after-write (suc n) xs (line ∷ lines) h = after-write n xs lines (omega arith)

-- Where the array has room for the new lines after the position, they appear twice, and as many of the
-- lines that followed are lost; where it has no room, the lines are inserted.
pub insert_lines_lem :
    (n : ℕ) (inserted lines : List String)
    → (n + length inserted ≤ length lines
        → insert_lines n inserted lines
          ≡ (before n lines ++ inserted) ++ (inserted ++ after (length inserted) (after n lines)))
      × (length lines < n + length inserted
          → insert_lines n inserted lines ≡ (before n lines ++ inserted) ++ after n lines)
unfolding insert_lines
insert_lines_lem n inserted lines = (
  λ h.
      ap
        (λ b. (before n lines ++ inserted) ++ after n (if b then write n inserted lines else lines))
        (fits h)
      ∙ ap (λ l. (before n lines ++ inserted) ++ l) (after-write n inserted lines h),
  λ h.
      ap
        (λ b. (before n lines ++ inserted) ++ after n (if b then write n inserted lines else lines))
        (full h),
)
  where
    fits : n + length inserted ≤ length lines → leb (n + length inserted) (length lines) ≡ true
    fits h = ground arith

    full : length lines < n + length inserted → leb (n + length inserted) (length lines) ≡ false
    full h = ground arith
