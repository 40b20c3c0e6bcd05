-- ===== src/Commands/Info.antt =====
-- `cmd_game_info`: a player asks for the two boards.
pub mod Answers
mod Examples
use ups_sp.Prelude.{
  ℕ, zero, suc, ◌+◌, ◌/◌, ◌%◌, Bool, true, false, not, Option, none, some, List, [], ◌∷◌, ◌++◌,
  Bytes, codes, ltb, if◌then◌else◌, length,
}
use ups_sp.Game.Board.{Board, board_size, empty_square, is_digit}
use ups_sp.Server.{
  Ref, Client, Game, World, Libc, M, ◌>>=◌, ◌>>◌, pure, need, load_client, load_game, Exit, success,
}
use ups_sp.Server.Send.{message, decimal, send_message, refuse}
use ups_sp.Commands.Args.{error_user_state}
use ups_sp.Commands.Login.{state_number}
use ups_sp.Commands.Rooms.{is_pointer, is_gaming}

-- the size of `buff`
abbrev pub info_size : ℕ
info_size = 250

-- a square of the opponent's board as the client sees it
abbrev pub seen : ℕ → ℕ
seen c = if is_digit c then empty_square else c

-- n squares from the k-th on, row by row
unfoldable pub squares_from : (ℕ → ℕ) → Board → ℕ → ℕ → Bytes
squares_from f b k zero = []
squares_from f b k (suc n) = f (b (k / board_size) (k % board_size)) ∷ squares_from f b (k + 1) n

-- the loops over i and j
unfoldable pub own_squares : Board → Bytes
unfolding squares_from
own_squares b = squares_from (λ c. c) b 0 100

unfoldable pub seen_squares : Board → Bytes
unfolding squares_from
seen_squares b = squares_from seen b 0 100

-- the client's board, the opponent's board and the opponent
abbrev pub sides : Ref → Game → Option (Board × Board × Option Ref)
sides c game =
    if is_pointer c game.player1
    then some (game.player1_board, game.player2_board, game.player2)
    else if is_pointer c game.player2
    then some (game.player2_board, game.player1_board, game.player1)
    else none

-- What `%s` prints after the two arrays, up to a zero, since the code does not close them by one.
pub record Tails : Type 0 where
  pub after_own : Bytes
  pub after_seen : Bytes

-- the answer; the squares of a board are never 0
unfoldable pub info_text : Tails → Client → Client → Board → Board → Bytes
info_text tails me opp mine other = message (
    codes "game_info_data"
    ∷ decimal (state_number me.state)
    ∷ (own_squares mine ++ tails.after_own)
    ∷ opp.name
    ∷ (seen_squares other ++ tails.after_seen)
    ∷ [])

module _ (libc : Libc) where
  unfoldable pub print_info : Ref → Bytes → M Exit
  print_info c text =
      if ltb (length text) info_size
      then (do send_message libc c text; pure success)
      else (λ w. none)

  unfoldable pub cmd_game_info : Tails → Ref → M Exit
  cmd_game_info tails c = do
    me ← load_client c
    if not (is_gaming me.state) then refuse libc c (codes "game_info_err") error_user_state else do
      g ← need me.game
      game ← load_game g
      (mine, other, o) ← need (sides c game)
      p ← need o
      opp ← load_client p
      print_info c (info_text tails me opp mine other)
