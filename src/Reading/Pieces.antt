-- ===== src/Reading/Pieces.antt =====
-- How `matrix_read` cuts the rows of a matrix into pieces.
use university_coursework.Base.{
  ℕ, zero, suc, ◌+◌, ◌-◌, ◌*◌, ◌/◌, ◌%◌, ◌≤◌, ◌<◌, ◌≡◌, refl, sym, ap, ◌∙◌, subst, true, false,
  List, [], ◌∷◌, ◌++◌, append-nil, ◌==◌, length, length-append, arith, take, drop,
}
use university_coursework.Matrix.{Row, word}
use university_coursework.Reading.Listing.{IsFitting}
use university_coursework.Reading.Deal.{last_row}

-- The rows that each of `rounds` processes gets: `size` of them, and the last one all that are left.
abbrev pub pieces : (size rounds : ℕ) → List (Row ℕ) → List (List (Row ℕ))
pieces size zero rows = []
pieces size (suc zero) rows = rows ∷ []
pieces size (suc (suc rounds)) rows = take size rows ∷ pieces size (suc rounds) (drop size rows)

take-drop : (k : ℕ) (rows : List (Row ℕ)) → rows ≡ take k rows ++ drop k rows
take-drop zero rows = refl
take-drop (suc k) [] = refl
take-drop (suc k) (row ∷ rows) = ap (λ rest. row ∷ rest) (take-drop k rows)

length-take : (k : ℕ) (rows : List (Row ℕ)) → k ≤ length rows → length (take k rows) ≡ k
length-take zero rows h = refl
length-take (suc k) [] h = absurd (omega arith)
length-take (suc k) (row ∷ rows) h = ap suc (length-take k rows (omega arith))

fit_take : (n k : ℕ) (rows : List (Row ℕ)) → IsFitting n rows → IsFitting n (take k rows)
fit_take n zero rows fit = tt
fit_take n (suc k) [] fit = tt
fit_take n (suc k) (row ∷ rows) (narrow, cols, fit) = (narrow, cols, fit_take n k rows fit)

fit_drop : (n k : ℕ) (rows : List (Row ℕ)) → IsFitting n rows → IsFitting n (drop k rows)
fit_drop n zero rows fit = fit
fit_drop n (suc k) [] fit = tt
fit_drop n (suc k) (row ∷ rows) (narrow, cols, fit) = fit_drop n k rows fit

-- The rows of the process `to_r`, and what is left for the `rounds` processes after it.
pub record IsPiece (p m n to_r rounds : ℕ) (rows own others : List (Row ℕ)) : Type 0 where
  pub parts : rows ≡ own ++ others
  pub first : pieces (m / p) (suc rounds) rows ≡ own ∷ pieces (m / p) rounds others
  pub some_row : 0 < length own
  pub enough : m / p ≤ length own
  pub few : length own < 2 * (m / p)
  pub last : last_row p m to_r ≡ to_r * (m / p) + length own - 1
  pub sizes : to_r * (m / p) + length own + length others ≡ m
  pub fit : IsFitting n own
  pub fit' : IsFitting n others
  pub follows : 0 < rounds → to_r * (m / p) + length own ≡ (to_r + 1) * (m / p)

pub piece_lem :
    (p m n to_r rounds : ℕ) (rows : List (Row ℕ))
    → 0 < m / p
    → p * (m / p) ≤ m
    → m < p * (m / p) + m / p
    → m < word
    → to_r + suc rounds ≡ p
    → to_r * (m / p) + length rows ≡ m
    → IsFitting n rows
    → (own : List (Row ℕ)) × (others : List (Row ℕ)) × IsPiece p m n to_r rounds rows own others
piece_lem p m n to_r zero rows positive covered slack bounded turn size fit =
    let before : p * (m / p) ≡ to_r * (m / p) + m / p =
      ap (λ k. k * (m / p)) (sym turn) ∙ one_more to_r (m / p) in
    let is_last : (to_r == p - 1) ≡ true = same to_r p turn in
    (
      rows,
      [],
      record {
        parts = sym (append-nil rows);
        first = refl;
        some_row = omega arith;
        enough = omega arith;
        few = omega arith;
        last = rw is_last (omega arith);
        sizes = omega arith;
        fit = fit;
        fit' = tt;
        follows = λ h. absurd (omega arith);
      },
    )
  where
    one_more : (a b : ℕ) → (a + 1) * b ≡ a * b + b
    one_more a b = grind arith

    same : (a b : ℕ) → a + 1 ≡ b → (a == b - 1) ≡ true
    same a b h = ground arith
piece_lem p m n to_r (suc rounds) rows positive covered slack bounded turn size fit =
    let ps = m / p in
    let next : (to_r + 1) * ps ≡ to_r * ps + ps = one_more to_r ps in
    let room : to_r * ps + 2 * ps ≤ p * ps =
      subst (λ k. to_r * ps + 2 * ps ≤ k * ps) turn (two_more to_r rounds ps) in
    let count = length-take ps rows (omega arith) in
    let parts = take-drop ps rows in
    let total = ap length parts ∙ length-append (take ps rows) (drop ps rows) in
    let is_last : (to_r == p - 1) ≡ false = apart to_r rounds p turn in
    (
      take ps rows,
      drop ps rows,
      record {
        parts = parts;
        first = refl;
        some_row = omega arith;
        enough = omega arith;
        few = omega arith;
        last = rw is_last (
            wraps (to_r * ps) ps (length (take ps rows)) ((to_r + 1) * ps) next count (omega arith)
              positive);
        sizes = omega arith;
        fit = fit_take n ps rows fit;
        fit' = fit_drop n ps rows fit;
        follows = λ h. omega arith;
      },
    )
  where
    one_more : (a b : ℕ) → (a + 1) * b ≡ a * b + b
    one_more a b = grind arith

    two_more : (a r b : ℕ) → a * b + 2 * b ≤ (a + suc (suc r)) * b
    two_more a r b = grind arith

    apart : (a r b : ℕ) → a + suc (suc r) ≡ b → (a == b - 1) ≡ false
    apart a r b h = ground arith

    wraps : (a b c d : ℕ) → d ≡ a + b → c ≡ b → d < word → 0 < b → (d + word - 1) % word ≡ a + c - 1
    wraps a b c d e f h k = omega arith
