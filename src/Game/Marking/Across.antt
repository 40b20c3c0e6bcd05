-- ===== src/Game/Marking/Across.antt =====
-- `mark_destroyed_ship` of game/shipsGame.c for a horizontal ship.
use ups_sp.Prelude.{
  ℕ, zero, suc, ◌+◌, ◌-◌, ◌≤◌, ◌<◌, ◌≡◌, refl, not, ◌&&◌, ◌||◌, ltb, leb, ◌==◌, arith, Bool-cases,
  inl, inr,
}
use ups_sp.Game.Board.{in_board}
use ups_sp.Game.Marking.{mark_up_down, mark_column, mark_along_columns, mark_horizontal}
use ups_sp.Game.Marking.Marks.{Squares, Marks, mark-Marks, Marks-bind, Marks-when, Marks-congr}

abbrev beside : ℕ → ℕ → Squares
beside y x j i = i == x && (j + 1 == y || j == y + 1) && ltb j 10

mark_up_down-Marks : (y x : ℕ) → y < 10 → x < 10 → Marks (mark_up_down y x) (beside y x)
unfolding mark_up_down
mark_up_down-Marks y x hy hx =
    Marks-congr _ _ _
      (Marks-bind _ _ _ _ (Marks-when (ltb 0 y) _ _ (λ c. mark-Marks (y - 1) x (ground arith)))
        (Marks-when (ltb y 9) _ _ (λ c. mark-Marks (y + 1) x (ground arith))))
      (λ j i. ground arith)

abbrev column_of : ℕ → ℕ → Squares
column_of y x j i = i == x && leb y (j + 1) && leb j (y + 1) && ltb j 10

mark_column-Marks : (y x : ℕ) → y < 10 → x < 10 → Marks (mark_column y x) (column_of y x)
unfolding mark_column
mark_column-Marks y x hy hx =
    Marks-congr _ _ _
      (Marks-bind _ _ _ _ (mark-Marks y x (ground arith)) (mark_up_down-Marks y x hy hx))
      (λ j i. ground arith)

abbrev sides : ℕ → ℕ → ℕ → Squares
sides n y x j i = leb x i && ltb i (x + n) && (j + 1 == y || j == y + 1) && ltb j 10

mark_along_columns-Marks :
    (n y x : ℕ) → x + n ≤ 10 → y < 10 → Marks (mark_along_columns n y x) (sides n y x)
unfolding mark_along_columns
mark_along_columns-Marks zero y x hx hy b = (b, refl, λ j i. ground arith)
mark_along_columns-Marks (suc n) y x hx hy b =
    Marks-congr _ _ _
      (Marks-bind _ _ _ _ (mark_up_down-Marks y x hy (omega arith))
        (mark_along_columns-Marks n y (x + 1) (omega arith) hy))
      (λ j i. ground arith) b

-- the squares next to a line of n squares to the right from (y, x), corners included, within the board
abbrev pub ring_right : ℕ → ℕ → ℕ → Squares
ring_right n y x j i =
    leb x (i + 1)
    && leb i (x + n)
    && leb y (j + 1)
    && leb j (y + 1)
    && not (j == y && leb x i && ltb i (x + n))
    && in_board j i

abbrev columns_marked : ℕ → ℕ → ℕ → Squares
columns_marked n y x j i =
    ltb 0 x && column_of y (x - 1) j i
    || (sides n y x j i || ltb (x + n) 10 && column_of y (x + n) j i)

module _ (n y x j i : ℕ) (fits : x + n ≤ 10) where
  columns_before : i + 1 ≡ x → columns_marked n y x j i ≡ ring_right n y x j i
  columns_before e = ground arith

  columns_within : x ≤ i → i < x + n → columns_marked n y x j i ≡ ring_right n y x j i
  columns_within l h = ground arith

  columns_after : i ≡ x + n → columns_marked n y x j i ≡ ring_right n y x j i
  columns_after e = ground arith

  columns_off_before : i + 1 < x → columns_marked n y x j i ≡ ring_right n y x j i
  columns_off_before l = ground arith

  columns_off_after : x + n < i → columns_marked n y x j i ≡ ring_right n y x j i
  columns_off_after l = ground arith

columns_ring : (n y x j i : ℕ) → x + n ≤ 10 → columns_marked n y x j i ≡ ring_right n y x j i
columns_ring n y x j i fits = elim (Bool-cases (ltb (i + 1) x)) [
  | inl a ↦ columns_off_before n y x j i fits (ground arith)
  | inr a ↦ elim (Bool-cases (ltb i x)) [
    | inl b ↦ columns_before n y x j i fits (ground arith)
    | inr b ↦ elim (Bool-cases (ltb i (x + n))) [
      | inl c ↦ columns_within n y x j i fits (ground arith) (ground arith)
      | inr c ↦ elim (Bool-cases (i == x + n)) [
        | inl d ↦ columns_after n y x j i fits (ground arith)
        | inr d ↦ columns_off_after n y x j i fits (ground arith)
      ]
    ]
  ]
]

pub mark_horizontal-Marks :
    (n y x : ℕ) → x + n ≤ 10 → y < 10 → Marks (mark_horizontal n y x) (ring_right n y x)
unfolding mark_horizontal
mark_horizontal-Marks n y x hx hy =
    Marks-congr _ _ _
      (Marks-bind _ _ _ _
        (Marks-when (ltb 0 x) _ _ (λ c. mark_column-Marks y (x - 1) hy (ground arith)))
        (Marks-bind _ _ _ _ (mark_along_columns-Marks n y x hx hy)
          (Marks-when (ltb (x + n) 10) _ _ (λ c. mark_column-Marks y (x + n) hy (ground arith)))))
      (λ j i. columns_ring n y x j i hx)
