-- ===== src/Commands/Rooms.antt =====
-- `cmd_room_create`, `cmd_room_join` and `cmd_room_leave`, with `room_create` and `game_init` of
-- game/shipsGame.c.
pub mod Joins
pub mod Refusals
pub mod Waiting
pub mod Leaving
mod Examples
use ups_sp.Prelude.{
  ℕ, ◌+◌, Bool, true, false, not, ◌||◌, ◌&&◌, Option, none, some, List, [], ◌∷◌, Bytes, codes, ◌==◌,
  if◌then◌else◌,
}
use ups_sp.Prelude.Int.{ℤ, pos, ◌+ℤ◌, leb_ℤ}
use ups_sp.ArrayList
use ups_sp.Game.Board.{empty_square}
use ups_sp.Game.Placement.{clean_ships, error_format}
use ups_sp.Server.{
  Ref, Client, Game, World, Libc, M, ◌>>=◌, ◌>>◌, pure, need, ClientState, GameState, in_lobby,
  in_room, preparing, in_game, playing, lobby, started, erased, update, load_client, store_client,
  set_state, load_game, store_game, Exit, success, failure,
}
use ups_sp.Server.Send.{message, decimal, send_message, refuse}
use ups_sp.Commands.Args.{
  Args, number, error_user_state, error_room_full, error_room_not_accessible,
  error_server_limit_reached,
}
use ups_sp.Commands.Ends.{game_end, drop_room, free_game}

abbrev pub is_in_lobby : ClientState → Bool
is_in_lobby in_lobby = true
is_in_lobby _ = false

abbrev pub is_in_room : ClientState → Bool
is_in_room in_room = true
is_in_room _ = false

-- STATE_IN_GAME, STATE_IN_GAME_PLAYING or STATE_IN_GAME_PREPARING
abbrev pub is_gaming : ClientState → Bool
is_gaming in_game = true
is_gaming playing = true
is_gaming preparing = true
is_gaming _ = false

abbrev pub is_erased : GameState → Bool
is_erased erased = true
is_erased _ = false

abbrev pub is_lobby : GameState → Bool
is_lobby lobby = true
is_lobby _ = false

abbrev pub is_pointer : Ref → Option Ref → Bool
is_pointer c none = false
is_pointer c (some p) = p == c

-- the player in the other seat, if c has one
abbrev pub other_player : Ref → Game → Option Ref
other_player c game =
    if is_pointer c game.player1
    then game.player2
    else if is_pointer c game.player2
    then game.player1
    else none

-- `malloc` of a game: the next address, with what the memory held before
unfoldable pub new_game : Game → M Ref
new_game game w =
    some (w.fresh, record w { games = update w.games w.fresh (some game); fresh = w.fresh + 1 })

-- `s_curr_rooms = s_curr_rooms + 1; id = arraylist_insert(server->rooms, game)`
unfoldable pub add_room : Ref → M ℕ
add_room g w = elim (ArrayList.insert w.rooms g) [
  | none ↦ none
  | some (rooms, id) ↦ some (id, record w { rooms = rooms; curr_rooms = w.curr_rooms +ℤ pos 1 })
]

-- `coin` is `rand() % 2 == 0`, and `junk` is what the memory of the new game held before
unfoldable pub room_create : Bool → Game → Ref → M (Unit {0})
room_create coin junk c = do
  g ← new_game (record junk {
    player1 = if coin then some c else none;
    player2 = if coin then none else some c;
    state = lobby;
  })
  me ← load_client c
  store_client c (record me { game = some g })
  id ← add_room g
  game ← load_game g
  store_game g (record game { id = id })

-- `player->playerNum = n`
unfoldable pub set_number : Ref → ℕ → M (Unit {0})
set_number p n = do player ← load_client p; store_client p (record player { player_num = n })

unfoldable pub game_init : Ref → M (Unit {0})
game_init g = do
  game ← load_game g
  p1 ← need game.player1
  set_number p1 1
  p2 ← need game.player2
  set_number p2 2
  store_game g (record game {
    p1_count = 0;
    p2_count = 0;
    player1_board = λ j i. empty_square;
    player2_board = λ j i. empty_square;
    player1_ships = clean_ships;
    player2_ships = clean_ships;
  })

-- the room with the client in its first free seat, and the player in the other one
unfoldable pub take_seat : Ref → Game → Option (Game × Option Ref)
take_seat c room = elim room.player1 [
  | none ↦ some (record room { player1 = some c }, room.player2)
  | some p ↦ elim room.player2 [
    | none ↦ some (record room { player2 = some c }, some p)
    | some q ↦ none
  ]
]

module _ (libc : Libc) where
  unfoldable pub cmd_room_create : Bool → Game → Ref → M Exit
  cmd_room_create coin junk c = do
    full ← λ w. pure (not (leb_ℤ (w.curr_rooms +ℤ pos 1) w.max_rooms)) w
    me ← load_client c
    if full
        then (do
          send_message libc c
              (message (codes "room_create_err" ∷ decimal error_server_limit_reached ∷ []))
          pure success)
        else if not (is_in_lobby me.state)
        then refuse libc c (codes "room_create_err") error_user_state
        else do
          room_create coin junk c
          set_state c in_room
          send_message libc c (message (codes "room_create_ok" ∷ []))
          pure success

  -- both players of the room start to prepare
  unfoldable pub start_preparing : Ref → Ref → Ref → Ref → Ref → M (Unit {0})
  start_preparing g c opp p1 p2 = do
    set_state p1 preparing
    set_state p2 preparing
    set_number p1 1
    set_number p2 2
    room ← load_game g
    store_game g (record room { state = started })
    send_message libc c (message (codes "game_conn" ∷ []))
    send_message libc opp (message (codes "game_conn" ∷ []))
    game_init g

  -- `if (player1->state == STATE_IN_ROOM && player2->state == STATE_IN_ROOM)`
  unfoldable pub start_if_full : Ref → Ref → Ref → M (Unit {0})
  start_if_full g c opp = do
    room ← load_game g
    p1 ← need room.player1
    first ← load_client p1
    if not (is_in_room first.state) then pure tt else do
      p2 ← need room.player2
      second ← load_client p2
      if is_in_room second.state then start_preparing g c opp p1 p2 else pure tt

  unfoldable pub enter_room : Ref → Ref → Game → M Exit
  enter_room c g room = elim (take_seat c room) [
    | none ↦ refuse libc c (codes "room_join_err") error_room_full
    | some (room', waiting) ↦ do
      store_game g room'
      me ← load_client c
      store_client c (record me { game = some g; state = in_room })
      opp ← need waiting
      opponent ← load_client opp
      send_message libc c (message (codes "room_join_ok" ∷ opponent.name ∷ []))
      send_message libc opp (message (codes "room_join_opp" ∷ me.name ∷ []))
      start_if_full g c opp
      pure success
  ]

  -- the room's pointer is followed: a cell that was never written, or a freed game, is undefined
  unfoldable pub join_room : Ref → Option (Option Ref) → M Exit
  join_room c slot = elim slot [
    | none ↦ refuse libc c (codes "room_join_err") error_room_not_accessible
    | some cell ↦ do
      g ← need cell
      room ← load_game g
      if is_erased room.state
          then refuse libc c (codes "room_join_err") error_room_not_accessible
          else if not (is_lobby room.state)
          then refuse libc c (codes "room_join_err") error_room_full
          else enter_room c g room
  ]

  abbrev pub room_number : Args → Option ℤ
  room_number (some a ∷ rest) = number libc a
  room_number _ = none

  unfoldable pub cmd_room_join : Ref → Args → M Exit
  unfolding number
  cmd_room_join c argv = do
    me ← load_client c
    if not (is_in_lobby me.state)
        then refuse libc c (codes "room_join_err") error_user_state
        else elim (room_number argv) [
          | none ↦ refuse libc c (codes "room_join_err") error_format
          | some id ↦ λ w. join_room c (ArrayList.get w.rooms id) w
        ]

  -- leaving a game ends it; the name given as the winner is the leaver's
  unfoldable pub leave_started : Ref → M (Unit {0})
  leave_started c = do
    me ← load_client c
    g ← need me.game
    game ← load_game g
    opp ← need (if is_pointer c game.player1 then game.player2 else game.player1)
    send_message libc opp (message (codes "room_leave_opp" ∷ me.name ∷ []))
    game_end libc g (some me.name)

  -- the room without the client, and the player that stays
  unfoldable pub give_up_seat : Ref → Game → Game × Option Ref
  give_up_seat c room =
      let room1 = if is_pointer c room.player1 then record room { player1 = none } else room in
      let opp1 = if is_pointer c room.player1 then room.player2 else none in
      if is_pointer c room1.player2
      then (record room1 { player2 = none }, room1.player1)
      else (room1, opp1)

  abbrev is_empty_room : Game → Bool
  is_empty_room room = elim room.player1 [
    | some p ↦ false
    | none ↦ elim room.player2 [ some q ↦ false | none ↦ true ]
  ]

  unfoldable pub leave_waiting : Ref → M (Unit {0})
  leave_waiting c = do
    me ← load_client c
    g ← need me.game
    room ← load_game g
    let (room', opp) = give_up_seat c room
    store_game g room'
    (if is_empty_room room'
        then (do store_game g (record room' { state = erased }); drop_room room'.id; free_game g)
        else pure tt)
    store_client c (record me { game = none; state = in_lobby })
    send_message libc c (message (codes "room_leave_ok" ∷ []))
    elim opp [
      | none ↦ pure tt
      | some p ↦ send_message libc p (message (codes "room_leave_opp" ∷ me.name ∷ []))
    ]

  unfoldable pub cmd_room_leave : Ref → M Exit
  cmd_room_leave c = do
    me ← load_client c
    if is_gaming me.state
        then (do leave_started c; pure success)
        else if is_in_room me.state
        then (do leave_waiting c; pure success)
        else refuse libc c (codes "room_leave_err") error_user_state
