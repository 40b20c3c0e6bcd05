-- ===== src/Lobby/Runs.antt =====
-- A run of the server: it starts, a client connects, logs in and creates a room.
use ups_sp.Prelude.{◌≡◌, refl, ◌∙◌, true, none, some, [], ◌∷◌, codes, arith}
use ups_sp.Prelude.Int.{pos}
use ups_sp.ArrayList
use ups_sp.HashMap
use ups_sp.Server.{Ref, Client, World, in_lobby}
use ups_sp.Commands.Login.{is_name, all_alnum}
use ups_sp.Commands.Login.Logs.{Logged, login-Logged}
use ups_sp.Commands.Rooms.Waiting.{cmd_room_create-Created}
use ups_sp.Commands.Samples.{libc, guest, battle}
use ups_sp.Connections.{server_init}
use ups_sp.Connections.Starts.{Started, server_init-Started}
use ups_sp.Lobby.Connects.{connected, new_connection_wide}
use ups_sp.Lobby.Reached.{Reached, starts, connects, logs_in, creates, Sound, Reached-Sound}

abbrev two_free : ArrayList.ArrayList Ref
two_free = record {
  capacity = 2;
  size = 0;
  empty = ArrayList.at 0;
  first = ArrayList.nil;
  items = none ∷ none ∷ [];
  next = some (ArrayList.at 1) ∷ some ArrayList.nil ∷ [];
}

abbrev fresh_server : World
fresh_server = record {
  clients = λ p. none;
  games = λ p. none;
  fresh = 0;
  rooms = two_free;
  players = HashMap.create 4;
  connections = none ∷ none ∷ none ∷ none ∷ [];
  max_players = pos 4;
  curr_players = pos 0;
  max_rooms = pos 2;
  curr_rooms = pos 0;
  messages_out = pos 0;
  messages_in = pos 0;
  bytes_out = pos 0;
  bytes_in = pos 0;
  fail_requests = pos 0;
  unknown_commands = pos 0;
  sent = [];
  closed = [];
}

server_starts : server_init 2 4 ≡ some fresh_server
unfolding server_init ArrayList.create ArrayList.links
server_starts = refl

fresh-Started : Started 2 4 fresh_server
fresh-Started =
    let (w, run, started) = server_init-Started 1 4 (omega arith) in
    let same : w ≡ fresh_server = ground (arith, run, server_starts) in rw same at started

abbrev greeted : World
greeted = connected libc fresh_server guest 3

greeted-Reached : Reached libc greeted
greeted-Reached =
    connects fresh_server greeted guest 3 (starts 2 4 fresh_server fresh-Started) refl refl
      (new_connection_wide libc fresh_server guest 3 (ground arith))

ann_is_name : is_name (codes "ann") ≡ true
unfolding is_name all_alnum
ann_is_name = refl

abbrev newcomer : Client
newcomer = record guest { fd = pos 3 }

-- after the login
entered :
    (w : World) × Reached libc w
    × Logged greeted w 0 (record newcomer { state = in_lobby; name = codes "ann" }) (codes "ann")
entered =
    let table = fresh-Started.table in
    let unknown = fresh-Started.no_name (codes "ann") in
    let (w, run, logged, others, sent) =
      login-Logged libc greeted 0 newcomer (codes "ann") [] refl refl ann_is_name refl table
        unknown in
    (
      w,
      logs_in greeted w 0 newcomer (codes "ann") [] _ greeted-Reached refl refl ann_is_name refl
          table unknown run,
      logged,
    )

room_inserted : (rooms : ArrayList.ArrayList Ref) × (ArrayList.insert two_free 1 ≡ some (rooms, 0))
unfolding ArrayList.insert ArrayList.insert_slot
room_inserted = (_, refl)

-- and after the creation of a room
created : (w : World) × Reached libc w × (w.curr_rooms ≡ pos 1)
created =
    let (w, reached, logged) = entered in
    let (rooms, inserted) = room_inserted in
    let (same_rooms, same_count, same_limit, same_next) = logged.list in
    let (w', run, made) =
      cmd_room_create-Created libc true battle w 0 _ rooms 0 logged.client refl
        (rw (same_count, same_limit) refl) (rw (same_rooms, same_next) inserted) in
    (
      w',
      creates w w' 0 _ true battle _ reached logged.client run,
      made.counted ∙ rw same_count refl,
    )

Reached-Sound_example : Sound created.0
Reached-Sound_example = Reached-Sound libc created.0 created.1
