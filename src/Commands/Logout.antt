-- ===== src/Commands/Logout.antt =====
-- `cmd_logout`. `server_close_connection` does not take the client out of the array `clients`.
pub mod Leaves
mod Examples
use ups_sp.Prelude.{
  ℕ, Bool, true, false, not, ◌||◌, Option, none, some, List, [], ◌∷◌, ◌++◌, Bytes, codes,
  if◌then◌else◌,
}
use ups_sp.HashMap
use ups_sp.Server.{
  Ref, Client, Game, World, Libc, M, ◌>>=◌, ◌>>◌, pure, need, ClientState, unlogged, erased,
  load_client, store_client, load_game, store_game, Exit, success, failure,
}
use ups_sp.Server.Send.{split_symbol, message, decimal, send_message, refuse}
use ups_sp.Commands.Args.{error_user_state}
use ups_sp.Commands.Ends.{game_end, drop_room, free_game}
use ups_sp.Commands.Rooms.{is_pointer, other_player, is_in_room, is_gaming}
use ups_sp.Connections.{close_connection}

abbrev pub is_unlogged : ClientState → Bool
is_unlogged unlogged = true
is_unlogged _ = false

-- `ht_remove(server->players, name)`
unfoldable pub remove_player : Bytes → M (Unit {0})
remove_player name w = elim (HashMap.remove w.players name) [
  | none ↦ none
  | some (old, players) ↦ some (tt, record w { players = players })
]

abbrev pub vacate : Ref → Game → Game
vacate c room =
    if is_pointer c room.player1
    then record room { player1 = none }
    else if is_pointer c room.player2
    then record room { player2 = none }
    else room

abbrev pub is_full_room : Game → Bool
is_full_room room = elim room.player1 [
  | none ↦ false
  | some p ↦ elim room.player2 [ none ↦ false | some q ↦ true ]
]

module _ (libc : Libc) where
  -- the room is closed if the client sits in it
  unfoldable pub close_room : Ref → Ref → Game → M (Unit {0})
  close_room c g room =
      if is_pointer c room.player1 || is_pointer c room.player2
      then (do
        store_game g (record room { state = erased })
        drop_room room.id
        free_game g
        me ← load_client c
        store_client c (record me { game = none }))
      else pure tt

  unfoldable pub logout_room : Ref → M (Unit {0})
  logout_room c = do
    me ← load_client c
    g ← need me.game
    room ← load_game g
    if is_full_room room
        then (do
          store_game g (vacate c room)
          o ← need (other_player c room)
          send_message libc o (codes "room_leave_opp" ++ (split_symbol ∷ me.name)))
        else close_room c g room

  -- the name given as the winner is the leaver's
  unfoldable pub logout_game : Ref → M (Unit {0})
  logout_game c = do
    me ← load_client c
    g ← need me.game
    game ← load_game g
    o ← need (other_player c game)
    send_message libc o (message (codes "room_leave_opp" ∷ me.name ∷ []))
    game_end libc g (some me.name)

  unfoldable pub logout_logged : Ref → M Exit
  logout_logged c = do
    me ← load_client c
    (if is_in_room me.state
        then logout_room c
        else if is_gaming me.state
        then logout_game c
        else pure tt)
    me' ← load_client c
    remove_player me'.name
    send_message libc c (message (codes "logout_ok" ∷ []))
    close_connection me'.fd
    pure success

  unfoldable pub cmd_logout : Ref → M Exit
  cmd_logout c = do
    me ← load_client c
    if not me.connected
        then refuse libc c (codes "logout_err") error_user_state
        else if is_unlogged me.state
        then (do
          close_connection me.fd
          send_message libc c (message (codes "logout_ok" ∷ []))
          pure success)
        else logout_logged c
