-- ===== src/Connections.antt =====
-- communication/server.c: the start of the server, and the opening and closing of connections.
pub mod Drops
pub mod Starts
mod Examples
use ups_sp.Prelude.{
  ℕ, ◌+◌, Bool, true, false, not, ◌||◌, Option, none, some, List, [], ◌∷◌, Bytes, codes, ltb, ◌==◌,
  if◌then◌else◌, length, get_or, set, replicate,
}
use ups_sp.Prelude.Int.{ℤ, pos, negsuc, ◌+ℤ◌, ◌-ℤ◌, leb_ℤ}
use ups_sp.ArrayList
use ups_sp.HashMap
use ups_sp.Server.{
  Ref, Client, Game, World, Libc, M, ◌>>=◌, ◌>>◌, pure, need, update, ClientState, unlogged,
  load_client, store_client, load_game,
}
use ups_sp.Server.Send.{message, send_message}
use ups_sp.Commands.Ends.{game_end}
use ups_sp.Commands.Rooms.{is_pointer, is_in_room, is_gaming, cmd_room_leave}

-- the state after `server_init`, with nothing else in the heap
unfoldable pub server_init : ℕ → ℕ → Option World
server_init max_rooms max_player_num = elim (ArrayList.create {A = Ref} max_rooms) [
  | none ↦ none
  | some rooms ↦ some (record {
    clients = λ p. none;
    games = λ p. none;
    fresh = 0;
    rooms = rooms;
    players = HashMap.create max_player_num;
    connections = replicate max_player_num none;
    max_players = pos max_player_num;
    curr_players = pos 0;
    max_rooms = pos max_rooms;
    curr_rooms = pos 0;
    messages_out = pos 0;
    messages_in = pos 0;
    bytes_out = pos 0;
    bytes_in = pos 0;
    fail_requests = pos 0;
    unknown_commands = pos 0;
    sent = [];
    closed = [];
  })
]

-- the cell of the array, if it was written
abbrev pub connection : List (Option (Option Ref)) → ℤ → Option (Option Ref)
connection cs (pos fd) = get_or cs fd none
connection cs (negsuc n) = none

-- `server->clients[fd]`
unfoldable pub read_connection : ℤ → M (Option Ref)
read_connection fd w = need (connection w.connections fd) w

-- the test `fd > 0 || fd < server->clients_size`
unfoldable pub server_get_client_by_socket : ℤ → M (Option Ref)
server_get_client_by_socket fd w =
    if not (leb_ℤ fd (pos 0)) || not (leb_ℤ (pos (length w.connections)) fd)
    then read_connection fd w
    else some (none, w)

-- `server->clients[fd] = c`
unfoldable pub set_connection : ℤ → Option Ref → M (Unit {0})
set_connection (pos fd) c w =
    if ltb fd (length w.connections)
    then some (tt, record w { connections = set w.connections fd (some c) })
    else none
set_connection (negsuc n) c w = none

unfoldable pub close_connection : ℤ → M (Unit {0})
close_connection fd w =
    some (tt, record w { curr_players = w.curr_players -ℤ pos 1; closed = fd ∷ w.closed })

-- `malloc` of a client: the next address, with what the memory held before
unfoldable pub new_client : Client → M Ref
new_client client w =
    some
      (w.fresh, record w { clients = update w.clients w.fresh (some client); fresh = w.fresh + 1 })

-- `ht_get(server->players, name)`
unfoldable pub server_get_client_by_name : Bytes → M (Option Ref)
server_get_client_by_name name w = need (HashMap.get w.players name) w

module _ (libc : Libc) where
  -- `junk` is what the memory of the client held before. For a descriptor outside the array the code
  -- frees `&server->clients`, the address of the server structure, and goes on using that structure.
  unfoldable pub server_new_connection : Client → ℕ → M (Unit {0})
  server_new_connection junk fd = do
    c ← new_client junk
    wide ← λ w. pure (ltb fd (length w.connections)) w
    if not wide then (λ w. none) else do
      store_client c
          (record junk { fd = pos fd; state = unlogged; connected = true; invalid_count = 0 })
      set_connection (pos fd) (some c)
      send_message libc c (message (codes "connected" ∷ []))

  -- the player of a started game goes: the opponent is told, or the game ends
  unfoldable pub lose_player : Ref → Ref → M (Unit {0})
  lose_player c g = do
    game ← load_game g
    elim (if is_pointer c game.player1 then game.player2 else game.player1) [
      | none ↦ game_end libc g none
      | some o ↦ do
        opp ← load_client o
        me ← load_client c
        if opp.connected
            then send_message libc o (message (codes "room_leave_opp" ∷ me.name ∷ []))
            else game_end libc g none
    ]

  unfoldable pub leave_waiting_room : Ref → ClientState → Option Ref → M (Unit {0})
  leave_waiting_room c state none = pure tt
  leave_waiting_room c state (some g) =
      if is_in_room state then (do r ← cmd_room_leave libc c; pure tt) else pure tt

  -- with the game that the client had at the start
  unfoldable pub leave_started_game : Ref → Option Ref → M (Unit {0})
  leave_started_game c none = pure tt
  leave_started_game c (some g) = do
    me ← load_client c
    if is_gaming me.state then lose_player c g else pure tt

  unfoldable pub disconnect : Ref → ℤ → M (Unit {0})
  disconnect c fd = do
    me ← load_client c
    leave_waiting_room c me.state me.game
    leave_started_game c me.game
    me' ← load_client c
    store_client c (record me' { connected = false; fd = negsuc 0 })
    set_connection fd none
    close_connection fd

  unfoldable pub server_disconnect : ℤ → M (Unit {0})
  server_disconnect fd = do
    found ← read_connection fd
    elim found [ none ↦ pure tt | some c ↦ disconnect c fd ]
