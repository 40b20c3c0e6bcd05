-- ===== src/Game/Marking.antt =====
-- `mark_destroyed_ship` of game/shipsGame.c: the squares around a sunk ship are marked as missed.
-- The source has each branch twice, for the boards of the two players; here the board is an argument.
-- `none` as a result is a write outside the board.
pub mod Marks
pub mod Down
pub mod Across
pub mod Ring
use ups_sp.Prelude.{
  ℕ, zero, suc, ◌+◌, ◌-◌, Bool, true, false, ◌&&◌, ltb, ◌==◌, if◌then◌else◌, Option, none, some,
  ◌>>=◌,
}
use ups_sp.Prelude.Int.{ℤ, pos, negsuc}
use ups_sp.Game.Board.{Board, board_size, missed_square, in_board, put_square}
use ups_sp.Game.Ship.{Ship}

-- `board[y][x] = 'M'`
unfoldable pub mark : ℕ → ℕ → Board → Option Board
mark y x b = if in_board y x then some (put_square b y x missed_square) else none

abbrev pub when : Bool → (Board → Option Board) → Board → Option Board
when test step b = if test then step b else some b

-- the squares left and right of column x in row y
unfoldable pub mark_left_right : ℕ → ℕ → Board → Option Board
mark_left_right y x b = do
  b' ← when (ltb 0 x) (mark y (x - 1)) b
  when (ltb x (board_size - 1)) (mark y (x + 1)) b'

-- the squares above and below row y in column x
unfoldable pub mark_up_down : ℕ → ℕ → Board → Option Board
mark_up_down y x b = do
  b' ← when (ltb 0 y) (mark (y - 1) x) b
  when (ltb y (board_size - 1)) (mark (y + 1) x) b'

-- the row y at an end of a vertical ship
unfoldable pub mark_row : ℕ → ℕ → Board → Option Board
mark_row y x b = do b' ← mark y x b; mark_left_right y x b'

-- the column x at an end of a horizontal ship
unfoldable pub mark_column : ℕ → ℕ → Board → Option Board
mark_column y x b = do b' ← mark y x b; mark_up_down y x b'

-- the loop along a vertical ship, `y++` in each round
unfoldable pub mark_along_rows : ℕ → ℕ → ℕ → Board → Option Board
mark_along_rows zero y x b = some b
mark_along_rows (suc n) y x b = do b' ← mark_left_right y x b; mark_along_rows n (y + 1) x b'

-- the loop along a horizontal ship, `x++` in each round
unfoldable pub mark_along_columns : ℕ → ℕ → ℕ → Board → Option Board
mark_along_columns zero y x b = some b
mark_along_columns (suc n) y x b = do b' ← mark_up_down y x b; mark_along_columns n y (x + 1) b'

-- After the loop and `y--` the source's y is y + length - 1; it tests that this is below
-- `board_size - 1` and marks the row after it, which is y + length. So for x in the other branch.
unfoldable pub mark_vertical : ℕ → ℕ → ℕ → Board → Option Board
mark_vertical n y x b = do
  above ← when (ltb 0 y) (mark_row (y - 1) x) b
  along ← mark_along_rows n y x above
  when (ltb (y + n) board_size) (mark_row (y + n) x) along

unfoldable pub mark_horizontal : ℕ → ℕ → ℕ → Board → Option Board
mark_horizontal n y x b = do
  before ← when (ltb 0 x) (mark_column y (x - 1)) b
  along ← mark_along_columns n y x before
  when (ltb (x + n) board_size) (mark_column y (x + n)) along

-- from a start below 0 the first write is outside the board
unfoldable pub mark_from : Ship → ℤ → ℤ → Board → Option Board
mark_from ship (pos y) (pos x) b =
    if ship.vertical then mark_vertical ship.length y x b else mark_horizontal ship.length y x b
mark_from ship (pos y) (negsuc x) b = none
mark_from ship (negsuc y) x b = none

unfoldable pub mark_destroyed_ship : Ship → Board → Option Board
mark_destroyed_ship ship b = mark_from ship ship.start_y ship.start_x b
