-- ===== src/Commands/Fire.antt =====
-- `cmd_game_fire`. The source has the code for a shot twice, for player 1 and player 2; here the
-- side is an argument.
pub mod Shots
pub mod Strikes
pub mod Turns
pub mod Wins
pub mod Sides
pub mod Moves
pub mod Battles
pub mod Rallies
pub mod Hunts
pub mod Openings
mod Duels
mod Examples
use ups_sp.Prelude.{
  ℕ, ◌+◌, ◌-◌, Bool, true, false, not, ◌&&◌, ◌||◌, Option, none, some, List, [], ◌∷◌, Bytes, codes,
  ltb, leb, ◌==◌, if◌then◌else◌,
}
use ups_sp.Prelude.Int.{ℤ, pos, negsuc}
use ups_sp.Game.Board.{
  Board, board_size, ship_count, empty_square, hit_square, missed_square, is_digit, put_square,
}
use ups_sp.Game.Ship.{Ship, ship_hit}
use ups_sp.Game.Marking.{mark_destroyed_ship}
use ups_sp.Game.Placement.{Fleet, put_ship, error_format}
use ups_sp.Server.{
  Ref, Client, Game, World, Libc, M, ◌>>=◌, ◌>>◌, pure, need, in_game, playing, ClientState,
  load_client, set_state, load_game, store_game, Exit, success,
}
use ups_sp.Server.Send.{message, decimal, send_message, refuse}
use ups_sp.Commands.Args.{
  Args, coordinates, error_internal, error_user_state, error_out_of_play_field, error_already_hit,
}
use ups_sp.Commands.Ends.{game_end}

abbrev pub is_playing : ClientState → Bool
is_playing playing = true
is_playing _ = false

-- the board and the ships that a player shoots at, and the pointer to their owner
unfoldable pub target_board : ℕ → Game → Board
target_board player game = if player == 1 then game.player2_board else game.player1_board

unfoldable pub target_ships : ℕ → Game → Fleet
target_ships player game = if player == 1 then game.player2_ships else game.player1_ships

unfoldable pub opponent : ℕ → Game → Option Ref
opponent player game = if player == 1 then game.player2 else game.player1

unfoldable pub with_target : ℕ → Board → Fleet → Game → Game
with_target player b f game =
    if player == 1
    then record game { player2_board = b; player2_ships = f }
    else record game { player1_board = b; player1_ships = f }

-- `p1_count++` for player 1, `p2_count++` for player 2
unfoldable pub count_sunk : ℕ → Game → Game
count_sunk player game =
    if player == 1
    then record game { p1_count = game.p1_count + 1 }
    else record game { p2_count = game.p2_count + 1 }

-- a hit on the ship with that number, below `ship_count`: the ship, and whether it is destroyed
unfoldable pub hit_ship : ℕ → ℕ → ℕ → ℕ → Game → Option (Bool × Game)
hit_ship player n y x game =
    let b = put_square (target_board player game) y x hit_square in
    let (destroyed, ship) = ship_hit (target_ships player game n) in
    let f = put_ship (target_ships player game) n ship in
    if not (ltb n ship_count)
    then none
    else if destroyed
    then elim (mark_destroyed_ship ship b) [
      | none ↦ none
      | some b' ↦ some (true, count_sunk player (with_target player b' f game))
    ]
    else some (false, with_target player b f game)

-- the text of an answer: name, x, y, result and 1 for a destroyed ship
unfoldable pub shot_message : Bytes → ℕ → ℕ → ℕ → Bool → Bytes
shot_message name x y result destroyed =
    message
      (name ∷ decimal x ∷ decimal y ∷ (result ∷ []) ∷ decimal (if destroyed then 1 else 0) ∷ [])

-- the test `x >= SHIP_GAME_BOARD_SIZE || x < 0 || …`
abbrev pub on_field : ℤ × ℤ → Option (ℕ × ℕ)
on_field (pos x, pos y) = if leb board_size x || leb board_size y then none else some (x, y)
on_field (pos x, negsuc y) = none
on_field (negsuc x, y) = none

module _ (libc : Libc) where
  -- the opponent is told, and it is his turn
  unfoldable pub pass_turn : Ref → ℕ → Ref → Bytes → M (Unit {0})
  pass_turn c player g text = do
    set_state c in_game
    game ← load_game g
    opp ← need (opponent player game)
    set_state opp playing
    send_message libc opp text

  unfoldable pub miss : Ref → ℕ → Ref → Game → ℕ → ℕ → M Exit
  miss c player g game x y = do
    store_game g (
        with_target player (put_square (target_board player game) y x missed_square)
          (target_ships player game) game)
    send_message libc c (shot_message (codes "game_fire_ok") x y missed_square false)
    pass_turn c player g (shot_message (codes "game_opp_fire") x y missed_square false)
    pure success

  -- `if (p1_count >= AMOUNT_OF_SHIP || p2_count >= AMOUNT_OF_SHIP) game_end(…)`
  unfoldable pub end_if_won : Ref → Bytes → M Exit
  end_if_won g name = do
    game ← load_game g
    if leb ship_count game.p1_count || leb ship_count game.p2_count
        then (do game_end libc g (some name); pure success)
        else pure success

  unfoldable pub hit : Ref → Bytes → ℕ → Ref → Game → ℕ → ℕ → ℕ → M Exit
  hit c name player g game n x y = do
    (destroyed, game') ← need (hit_ship player n y x game)
    store_game g game'
    send_message libc c (shot_message (codes "game_fire_ok") x y hit_square destroyed)
    pass_turn c player g (shot_message (codes "game_opp_fire") x y hit_square destroyed)
    end_if_won g name

  -- the answer to a shot at a square with that content
  unfoldable pub fire_at : Ref → Bytes → ℕ → Ref → Game → ℕ → ℕ → ℕ → M Exit
  fire_at c name player g game x y square =
      if square == hit_square || square == missed_square
      then refuse libc c (codes "game_fire_err") error_already_hit
      else if square == empty_square
      then miss c player g game x y
      else if is_digit square
      then hit c name player g game (square - b'0') x y
      else refuse libc c (codes "game_fire_err") error_internal

  unfoldable pub cmd_game_fire : Ref → Args → M Exit
  cmd_game_fire c argv = do
    me ← load_client c
    if not (is_playing me.state)
        then refuse libc c (codes "game_fire_err") error_user_state
        else elim (coordinates libc argv) [
          | none ↦ refuse libc c (codes "game_fire_err") error_format
          | some xy ↦ elim (on_field xy) [
            | none ↦ refuse libc c (codes "game_fire_err") error_out_of_play_field
            | some (x, y) ↦ do
              g ← need me.game
              game ← load_game g
              fire_at c me.name me.player_num g game x y (target_board me.player_num game y x)
          ]
        ]
