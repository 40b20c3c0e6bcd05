-- ===== src/Commands/Login.antt =====
-- `cmd_login`, with `client_set_name` of communication/client.c.
pub mod Names
pub mod Denials
pub mod Logs
pub mod Rejoins
mod Examples
use ups_sp.Prelude.{
  ℕ, ◌+◌, Bool, true, false, not, ◌||◌, ◌&&◌, Option, none, some, List, [], ◌∷◌, Bytes, codes, ltb,
  leb, ◌==◌, if◌then◌else◌, length, take,
}
use ups_sp.Prelude.Int.{ℤ, pos, ◌+ℤ◌, leb_ℤ}
use ups_sp.HashMap
use ups_sp.Game.Board.{is_digit}
use ups_sp.Game.Placement.{error_format}
use ups_sp.Server.{
  Ref, Client, Game, World, Libc, M, ◌>>=◌, ◌>>◌, pure, need, update, ClientState, unlogged,
  in_lobby, in_room, preparing, in_game, playing, load_client, store_client, load_game, Exit,
  success, failure,
}
use ups_sp.Server.Send.{message, decimal, send_message}
use ups_sp.Commands.Args.{Args, error_internal}
use ups_sp.Commands.Rooms.{other_player, is_gaming}
use ups_sp.Connections.{set_connection, server_disconnect, server_get_client_by_name}

abbrev pub error_username_wrong_format : ℕ
error_username_wrong_format = 3

abbrev pub error_used_username : ℕ
error_used_username = 4

-- NAME_MAX_LENGTH
abbrev pub name_max_length : ℕ
name_max_length = 20

-- the numbers of the states in communication/client.h
abbrev pub state_number : ClientState → ℕ
state_number unlogged = 0
state_number in_lobby = 1
state_number in_room = 2
state_number preparing = 3
state_number in_game = 4
state_number playing = 5

abbrev pub is_alnum : ℕ → Bool
is_alnum c = is_digit c || leb b'A' c && leb c b'Z' || leb b'a' c && leb c b'z'

unfoldable pub all_alnum : Bytes → Bool
all_alnum [] = true
all_alnum (c ∷ cs) = is_alnum c && all_alnum cs

-- the conditions on a name: not empty, not too long, and only letters and digits
unfoldable pub is_name : Bytes → Bool
is_name [] = false
is_name (c ∷ cs) = leb (length (c ∷ cs)) name_max_length && all_alnum (c ∷ cs)

abbrev pub logged_state : ClientState → ClientState
logged_state unlogged = in_lobby
logged_state s = s

-- the function has no `return` at its end: what its caller reads is not determined by the code
unfoldable pub client_set_name : Ref → Bytes → M (Unit {0})
client_set_name c name = do
  me ← load_client c
  store_client c (record me { state = logged_state me.state; name = take name_max_length name })

-- `ht_put(server->players, name, c)`
unfoldable pub put_player : Bytes → Ref → M (Unit {0})
put_player name c w = elim (HashMap.put w.players name (some c)) [
  | none ↦ none
  | some (old, players) ↦ some (tt, record w { players = players })
]

unfoldable pub count_player : M (Unit {0})
count_player w = some (tt, record w { curr_players = w.curr_players +ℤ pos 1 })

abbrev free_client : Ref → M (Unit {0})
free_client c w = some (tt, record w { clients = update w.clients c none })

abbrev pub players_full : World → Bool
players_full w = not (leb_ℤ (w.curr_players +ℤ pos 1) w.max_players)

module _ (libc : Libc) where
  unfoldable pub disconnect_login_err : Ref → M (Unit {0})
  disconnect_login_err c = do
    me ← load_client c
    set_connection me.fd (some c)
    server_disconnect libc me.fd

  unfoldable pub reject_login : Ref → ℕ → Exit → M Exit
  reject_login c code exit = do
    send_message libc c (message (codes "login_err" ∷ decimal code ∷ []))
    disconnect_login_err c
    pure exit

  unfoldable pub tell_player : Client → Option Ref → M (Unit {0})
  tell_player me none = pure tt
  tell_player me (some o) = do
    opp ← load_client o
    if opp.connected
        then send_message libc o (message (codes "room_join_opp" ∷ me.name ∷ []))
        else pure tt

  unfoldable pub tell_in_game : Ref → Client → Option Ref → M (Unit {0})
  tell_in_game c me none = pure tt
  tell_in_game c me (some g) =
      if not (is_gaming me.state)
      then pure tt
      else (do game ← load_game g; tell_player me (other_player c game))

  -- the opponent in a game that has started, if the client is in one
  unfoldable pub tell_opponent : Ref → M (Unit {0})
  tell_opponent c = do me ← load_client c; tell_in_game c me me.game

  -- `named` says whether the caller of `client_set_name` reads a value other than 0
  unfoldable pub finish_login : Bool → Ref → Bytes → M Exit
  finish_login named c name = do
    client_set_name c name
    if not named then reject_login c error_internal failure else do
      count_player
      me ← load_client c
      put_player me.name c
      send_message libc c
          (message (codes "login_ok" ∷ me.name ∷ decimal (state_number me.state) ∷ []))
      tell_opponent c
      pure success

  -- the client p of that name takes the socket of c over
  unfoldable pub reconnect : Ref → Ref → M (Unit {0})
  reconnect c p = do
    me ← load_client c
    logged ← load_client p
    store_client p (record logged { fd = me.fd })
    me' ← load_client c
    set_connection me'.fd (some p)
    free_client c
    logged' ← load_client p
    store_client p (record logged' { connected = true })

  unfoldable pub login_as : Bool → Ref → Bytes → M Exit
  login_as named c name = do
    found ← server_get_client_by_name name
    elim found [
      | none ↦ finish_login named c name
      | some p ↦ do
        logged ← load_client p
        if logged.connected
            then reject_login c error_used_username success
            else (do reconnect c p; finish_login named p name)
    ]

  unfoldable pub login_checked : Bool → Ref → Option Bytes → M Exit
  login_checked named c none = reject_login c error_username_wrong_format failure
  login_checked named c (some name) =
      if is_name name
      then login_as named c name
      else reject_login c error_username_wrong_format failure

  -- the pointers that the first test of the code looks at are not NULL
  unfoldable pub cmd_login : Bool → Ref → Args → M Exit
  cmd_login named c [] = reject_login c error_format failure
  cmd_login named c (arg ∷ args) = do
    full ← λ w. pure (players_full w) w
    if full
        then (do count_player; reject_login c error_internal failure)
        else login_checked named c arg
