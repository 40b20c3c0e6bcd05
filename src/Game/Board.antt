-- ===== src/Game/Board.antt =====
-- The boards of game/shipsGame.h: a square holds a ship's digit, or E (empty), H (hit), M (missed).
use ups_sp.Prelude.{ℕ, Bool, ◌&&◌, ◌==◌, ltb, leb, if◌then◌else◌}

abbrev pub board_size : ℕ
board_size = 10

-- AMOUNT_OF_SHIP
abbrev pub ship_count : ℕ
ship_count = 7

-- A board by row y and column x, both below `board_size`.
abbrev pub Board : Type 0
Board = ℕ → ℕ → ℕ

abbrev pub empty_square : ℕ
empty_square = b'E'

abbrev pub hit_square : ℕ
hit_square = b'H'

abbrev pub missed_square : ℕ
missed_square = b'M'

-- `isdigit`
abbrev pub is_digit : ℕ → Bool
is_digit c = leb b'0' c && leb c b'9'

abbrev pub in_board : ℕ → ℕ → Bool
in_board y x = ltb y board_size && ltb x board_size

-- `board[y][x] = c`
unfoldable pub put_square : Board → ℕ → ℕ → ℕ → Board
put_square b y x c j i = if j == y && i == x then c else b j i
