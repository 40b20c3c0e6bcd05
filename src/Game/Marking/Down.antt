-- ===== src/Game/Marking/Down.antt =====
-- `mark_destroyed_ship` of game/shipsGame.c for a vertical ship.
use ups_sp.Prelude.{
  ℕ, zero, suc, ◌+◌, ◌-◌, ◌≤◌, ◌<◌, ◌≡◌, refl, not, ◌&&◌, ◌||◌, ltb, leb, ◌==◌, arith, Bool-cases,
  inl, inr,
}
use ups_sp.Game.Board.{in_board}
use ups_sp.Game.Marking.{mark_left_right, mark_row, mark_along_rows, mark_vertical}
use ups_sp.Game.Marking.Marks.{Squares, Marks, mark-Marks, Marks-bind, Marks-when, Marks-congr}

abbrev beside : ℕ → ℕ → Squares
beside y x j i = j == y && (i + 1 == x || i == x + 1) && ltb i 10

mark_left_right-Marks : (y x : ℕ) → y < 10 → x < 10 → Marks (mark_left_right y x) (beside y x)
unfolding mark_left_right
mark_left_right-Marks y x hy hx =
    Marks-congr _ _ _
      (Marks-bind _ _ _ _ (Marks-when (ltb 0 x) _ _ (λ c. mark-Marks y (x - 1) (ground arith)))
        (Marks-when (ltb x 9) _ _ (λ c. mark-Marks y (x + 1) (ground arith))))
      (λ j i. ground arith)

abbrev row_of : ℕ → ℕ → Squares
row_of y x j i = j == y && leb x (i + 1) && leb i (x + 1) && ltb i 10

mark_row-Marks : (y x : ℕ) → y < 10 → x < 10 → Marks (mark_row y x) (row_of y x)
unfolding mark_row
mark_row-Marks y x hy hx =
    Marks-congr _ _ _
      (Marks-bind _ _ _ _ (mark-Marks y x (ground arith)) (mark_left_right-Marks y x hy hx))
      (λ j i. ground arith)

abbrev sides : ℕ → ℕ → ℕ → Squares
sides n y x j i = leb y j && ltb j (y + n) && (i + 1 == x || i == x + 1) && ltb i 10

mark_along_rows-Marks :
    (n y x : ℕ) → y + n ≤ 10 → x < 10 → Marks (mark_along_rows n y x) (sides n y x)
unfolding mark_along_rows
mark_along_rows-Marks zero y x hy hx b = (b, refl, λ j i. ground arith)
mark_along_rows-Marks (suc n) y x hy hx b =
    Marks-congr _ _ _
      (Marks-bind _ _ _ _ (mark_left_right-Marks y x (omega arith) hx)
        (mark_along_rows-Marks n (y + 1) x (omega arith) hx))
      (λ j i. ground arith) b

-- the squares next to a line of n squares down from (y, x), corners included, within the board
abbrev pub ring_down : ℕ → ℕ → ℕ → Squares
ring_down n y x j i =
    leb y (j + 1)
    && leb j (y + n)
    && leb x (i + 1)
    && leb i (x + 1)
    && not (i == x && leb y j && ltb j (y + n))
    && in_board j i

abbrev rows_marked : ℕ → ℕ → ℕ → Squares
rows_marked n y x j i =
    ltb 0 y && row_of (y - 1) x j i || (sides n y x j i || ltb (y + n) 10 && row_of (y + n) x j i)

module _ (n y x j i : ℕ) (fits : y + n ≤ 10) where
  rows_above : j + 1 ≡ y → rows_marked n y x j i ≡ ring_down n y x j i
  rows_above e = ground arith

  rows_within : y ≤ j → j < y + n → rows_marked n y x j i ≡ ring_down n y x j i
  rows_within l h = ground arith

  rows_below : j ≡ y + n → rows_marked n y x j i ≡ ring_down n y x j i
  rows_below e = ground arith

  rows_off_above : j + 1 < y → rows_marked n y x j i ≡ ring_down n y x j i
  rows_off_above l = ground arith

  rows_off_below : y + n < j → rows_marked n y x j i ≡ ring_down n y x j i
  rows_off_below l = ground arith

rows_ring : (n y x j i : ℕ) → y + n ≤ 10 → rows_marked n y x j i ≡ ring_down n y x j i
rows_ring n y x j i fits = elim (Bool-cases (ltb (j + 1) y)) [
  | inl a ↦ rows_off_above n y x j i fits (ground arith)
  | inr a ↦ elim (Bool-cases (ltb j y)) [
    | inl b ↦ rows_above n y x j i fits (ground arith)
    | inr b ↦ elim (Bool-cases (ltb j (y + n))) [
      | inl c ↦ rows_within n y x j i fits (ground arith) (ground arith)
      | inr c ↦ elim (Bool-cases (j == y + n)) [
        | inl d ↦ rows_below n y x j i fits (ground arith)
        | inr d ↦ rows_off_below n y x j i fits (ground arith)
      ]
    ]
  ]
]

pub mark_vertical-Marks :
    (n y x : ℕ) → y + n ≤ 10 → x < 10 → Marks (mark_vertical n y x) (ring_down n y x)
unfolding mark_vertical
mark_vertical-Marks n y x hy hx =
    Marks-congr _ _ _
      (Marks-bind _ _ _ _
        (Marks-when (ltb 0 y) _ _ (λ c. mark_row-Marks (y - 1) x (ground arith) hx))
        (Marks-bind _ _ _ _ (mark_along_rows-Marks n y x hy hx)
          (Marks-when (ltb (y + n) 10) _ _ (λ c. mark_row-Marks (y + n) x (ground arith) hx))))
      (λ j i. rows_ring n y x j i hy)
