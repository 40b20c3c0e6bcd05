-- ===== src/Game/Placement.antt =====
-- The loop of `cmd_game_prepared` in communication/commands.c over the squares of a sent board. The
-- source has it twice, for the boards and ships of the two players.
pub mod Lines
pub mod Neighbours
pub mod Scans
pub mod Fleets
pub mod Retries
use ups_sp.Prelude.{
  ℕ, zero, suc, ◌+◌, ◌-◌, Bool, true, false, not, ◌&&◌, ◌||◌, ltb, leb, ◌==◌, if◌then◌else◌, Option,
  none, some, List, [], ◌∷◌, Bytes,
}
use ups_sp.Game.Board.{Board, board_size, ship_count, empty_square, is_digit, put_square}
use ups_sp.Game.Ship.{Ship, ship_init, ship_place, ship_lengths}

-- The ships of a player by number, below `ship_count`.
abbrev pub Fleet : Type 0
Fleet = ℕ → Ship

-- the loop that `game_init` and `clean_client_ships` run
unfoldable pub clean_ships : Fleet
clean_ships i = ship_init i

unfoldable pub put_ship : Fleet → ℕ → Ship → Fleet
put_ship f n s i = if i == n then s else f i

-- communication/errors.h
abbrev pub error_format : ℕ
error_format = 2

abbrev pub error_ship_placement : ℕ
error_ship_placement = 10

abbrev pub error_ship_number : ℕ
error_ship_number = 11

abbrev pub error_ships_wrong_length : ℕ
error_ships_wrong_length = 13

-- a neighbour that holds another ship
unfoldable pub foreign : ℕ → ℕ → Bool
foreign c n = is_digit c && not (c - b'0' == n)

-- the four neighbours that the loop has passed already
unfoldable pub touches : Board → ℕ → ℕ → ℕ → Bool
touches b y x n =
    (ltb 0 y && foreign (b (y - 1) x) n)
    || (ltb 0 x && foreign (b y (x - 1)) n)
    || (ltb 0 x && ltb 0 y && foreign (b (y - 1) (x - 1)) n)
    || (ltb x (board_size - 1) && ltb 0 y && foreign (b (y - 1) (x + 1)) n)

-- what a sent character asks for
pub data Square : Type 0 where
  bad_number : Square
  bad_format : Square
  water : Square
  part : ℕ → Square

unfoldable pub square : ℕ → Square
square c =
    if is_digit c
    then (if ltb (c - b'0') ship_count then part (c - b'0') else bad_number)
    else if c == empty_square
    then water
    else bad_format

-- The player's board and ships after the loop. After an error the ships are clean, and the board
-- keeps the squares that were written.
pub record Scan : Type 0 where
  pub board : Board
  pub fleet : Fleet
  pub error : Option ℕ

abbrev rejected : Board → ℕ → Scan
rejected b e = record { board = b; fleet = clean_ships; error = some e }

abbrev pub next_x : ℕ → ℕ
next_x x = if leb board_size (x + 1) then 0 else x + 1

abbrev pub next_y : ℕ → ℕ → ℕ
next_y y x = if leb board_size (x + 1) then y + 1 else y

unfoldable pub scan : Bytes → ℕ → ℕ → Board → Fleet → Scan
scan [] y x b f = record { board = b; fleet = f; error = none }
scan (c ∷ cs) y x b f = elim (square c) [
  | bad_number ↦ rejected b error_ship_number
  | bad_format ↦ rejected b error_format
  | water ↦ scan cs (next_y y x) (next_x x) (put_square b y x c) f
  | part n ↦ elim (touches b y x n) [
    | true ↦ rejected b error_ship_placement
    | false ↦ elim (ship_place (f n) x y).0 [
      | true ↦
          scan cs (next_y y x) (next_x x) (put_square b y x c)
            (put_ship f n (ship_place (f n) x y).1)
      | false ↦ rejected b error_ship_placement
    ]
  ]
]

-- `player1Ships[0].length != SHIP_0_L || …`
unfoldable pub lengths_from : ℕ → List ℕ → Fleet → Bool
lengths_from i [] f = true
lengths_from i (n ∷ ns) f = (f i).length == n && lengths_from (i + 1) ns f

-- the error for wrong lengths is not the same for the two players
unfoldable pub length_error : ℕ → ℕ
length_error player = if player == 1 then error_ships_wrong_length else error_ship_placement

-- The loop, and the check of the lengths after it, for the player's number.
unfoldable pub place_fleet : ℕ → Bytes → Board → Fleet → Scan
place_fleet player text b f =
    let r = scan text 0 0 b f in
    elim r.error [
      | some e ↦ r
      | none ↦
          if lengths_from 0 ship_lengths r.fleet
          then r
          else record { board = r.board; fleet = clean_ships; error = some (length_error player) }
    ]
