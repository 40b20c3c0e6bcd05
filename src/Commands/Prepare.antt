-- ===== src/Commands/Prepare.antt =====
-- `cmd_game_prepared`: a player sends his board, and the game starts when both have.
pub mod Starts
mod Examples
use ups_sp.Prelude.{
  ℕ, Bool, true, false, not, Option, none, some, List, [], ◌∷◌, Bytes, codes, length, ◌==◌,
  if◌then◌else◌,
}
use ups_sp.Game.Board.{Board}
use ups_sp.Game.Placement.{Fleet, Scan, place_fleet, error_format}
use ups_sp.Server.{
  Ref, Client, Game, World, Libc, M, ◌>>=◌, ◌>>◌, pure, need, ClientState, preparing, in_game,
  playing, load_client, set_state, load_game, store_game, Exit, success,
}
use ups_sp.Server.Send.{message, send_message, refuse}
use ups_sp.Commands.Args.{Args, error_user_state}

abbrev pub is_preparing : ClientState → Bool
is_preparing preparing = true
is_preparing _ = false

abbrev pub is_in_game : ClientState → Bool
is_in_game in_game = true
is_in_game _ = false

-- GAME_BOARD_STRING_SIZE
abbrev pub board_string_size : ℕ
board_string_size = 100

-- the sent board; `none` is answered by ERROR_FORMAT
unfoldable pub board_text : Args → Option Bytes
board_text (some text ∷ rest) = if length text == board_string_size then some text else none
board_text _ = none

-- the player's own board and ships
unfoldable pub own_board : ℕ → Game → Board
own_board player game = if player == 1 then game.player1_board else game.player2_board

unfoldable pub own_ships : ℕ → Game → Fleet
own_ships player game = if player == 1 then game.player1_ships else game.player2_ships

unfoldable pub with_own : ℕ → Board → Fleet → Game → Game
with_own player b f game =
    if player == 1
    then record game { player1_board = b; player1_ships = f }
    else record game { player2_board = b; player2_ships = f }

module _ (libc : Libc) where
  -- both players are ready: player 1 is to play
  unfoldable pub start_play : Ref → ℕ → Ref → Ref → M (Unit {0})
  start_play c player p1 p2 = do
    set_state p1 playing
    set_state p2 in_game
    send_message libc (if player == 1 then c else p1) (message (codes "game_play" ∷ []))

  -- `if (player1->state == STATE_IN_GAME && player2->state == STATE_IN_GAME)`
  unfoldable pub start_if_ready : Ref → ℕ → Ref → M (Unit {0})
  start_if_ready c player g = do
    game ← load_game g
    p1 ← need game.player1
    first ← load_client p1
    if not (is_in_game first.state) then pure tt else do
      p2 ← need game.player2
      second ← load_client p2
      if is_in_game second.state then start_play c player p1 p2 else pure tt

  unfoldable pub answer_placement : Ref → ℕ → Ref → Option ℕ → M Exit
  answer_placement c player g error = elim error [
    | some code ↦ refuse libc c (codes "game_prepared_err") code
    | none ↦ do
      set_state c in_game
      send_message libc c (message (codes "game_prepared_ok" ∷ []))
      start_if_ready c player g
      pure success
  ]

  unfoldable pub cmd_game_prepared : Ref → Args → M Exit
  cmd_game_prepared c argv = do
    me ← load_client c
    if not (is_preparing me.state)
        then refuse libc c (codes "game_prepared_err") error_user_state
        else elim (board_text argv) [
          | none ↦ refuse libc c (codes "game_prepared_err") error_format
          | some text ↦ do
            g ← need me.game
            game ← load_game g
            let r =
                place_fleet me.player_num text (own_board me.player_num game)
                  (own_ships me.player_num game)
            store_game g (with_own me.player_num r.board r.fleet game)
            answer_placement c me.player_num g r.error
        ]
