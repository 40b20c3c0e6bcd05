-- ===== src/Requests.antt =====
-- `process_message` of main.c, `get_handler` of communication/commands.c, and what the loop of
-- `server_listen` in communication/server.c does with each event on a socket.
pub mod Fields
pub mod Unknown
mod Examples
use ups_sp.Prelude.{
  ℕ, zero, suc, ◌+◌, ◌-◌, Bool, true, false, not, ◌&&◌, Option, none, some, List, [], ◌∷◌, ◌++◌,
  Bytes, codes, same, ltb, leb, ◌==◌, if◌then◌else◌, length, take, map,
}
use ups_sp.Prelude.Int.{ℤ, pos, ◌+ℤ◌}
use ups_sp.Server.{
  Ref, Client, Game, World, Libc, M, ◌>>=◌, ◌>>◌, pure, need, load_client, store_client, Exit,
  success, failure,
}
use ups_sp.Server.Send.{split_symbol, message, send_message}
use ups_sp.Commands.Args.{Args}
use ups_sp.Commands.Fire.{cmd_game_fire}
use ups_sp.Commands.Prepare.{cmd_game_prepared}
use ups_sp.Commands.Rooms.{cmd_room_create, cmd_room_join, cmd_room_leave}
use ups_sp.Commands.Login.{cmd_login}
use ups_sp.Commands.Logout.{cmd_logout}
use ups_sp.Commands.Info.{Tails, cmd_game_info}
use ups_sp.Commands.Listing.{cmd_room_list}
use ups_sp.Connections.{read_connection, server_new_connection, server_disconnect, close_connection}

-- the commands of the table COMMANDS
pub data Command : Type 0 where
  login room_create room_list room_join room_leave prepared fire info logout : Command

abbrev pub commands : List (Bytes × Command)
commands =
    (codes "login_req", login)
    ∷ (codes "room_create_req", room_create)
    ∷ (codes "room_list_req", room_list)
    ∷ (codes "room_join_req", room_join)
    ∷ (codes "room_leave_req", room_leave)
    ∷ (codes "game_prepared", prepared)
    ∷ (codes "game_fire_req", fire)
    ∷ (codes "game_info_req", info)
    ∷ (codes "logout_req", logout)
    ∷ []

-- `tolower`
abbrev pub to_lower : ℕ → ℕ
to_lower c = if leb b'A' c && leb c b'Z' then c + 32 else c

unfoldable pub search_command : List (Bytes × Command) → Bytes → Option Command
search_command [] name = none
search_command ((cmd, handler) ∷ rest) name =
    if same cmd name then some handler else search_command rest name

unfoldable pub get_handler : Bytes → Option Command
unfolding search_command
get_handler name = search_command commands (map to_lower name)

-- What `strtok` gives, call by call: the runs of characters between separators, of which none is
-- empty.
abbrev close_token : Bytes → List Bytes → List Bytes
close_token [] ts = ts
close_token (c ∷ cs) ts = (c ∷ cs) ∷ ts

-- the run at the front, and what follows its separator
abbrev push_front : ℕ → Bytes × List Bytes → Bytes × List Bytes
push_front c (t, ts) = (c ∷ t, ts)

unfoldable pub runs : Bytes → Bytes × List Bytes
runs [] = ([], [])
runs (c ∷ cs) =
    let rest = runs cs in
    if c == split_symbol then ([], close_token rest.0 rest.1) else push_front c rest

unfoldable pub tokens : Bytes → List Bytes
unfolding runs
tokens text = close_token (runs text).0 (runs text).1

-- the number of separators
unfoldable pub count_splits : Bytes → ℕ
count_splits [] = 0
count_splits (c ∷ cs) = (if c == split_symbol then 1 else 0) + count_splits cs

-- `argc` calls of `strtok`, which give NULL when no token is left
unfoldable pub arguments : ℕ → List Bytes → Args
arguments zero ts = []
arguments (suc n) [] = none ∷ arguments n []
arguments (suc n) (t ∷ ts) = some t ∷ arguments n ts

-- the last character of a text
abbrev pub last_char : Bytes → Option ℕ
last_char [] = none
last_char (c ∷ []) = some c
last_char (c ∷ d ∷ cs) = last_char (d ∷ cs)

abbrev pub is_char : ℕ → Option ℕ → Bool
is_char x none = false
is_char x (some c) = c == x

abbrev pub ends_in : ℕ → Bytes → Bool
ends_in x text = is_char x (last_char text)

abbrev pub drop_last : Bytes → Bytes
drop_last text = take (length text - 1) text

-- A line feed at the end is cut off, and then everything from a carriage return on that stands at
-- the last place but one of the received text.
unfoldable pub strip_line : Bytes → Bytes
strip_line text =
    if ends_in 13 (drop_last text)
    then drop_last (drop_last text)
    else if ends_in 10 text
    then drop_last text
    else text

-- One split symbol at the end is cut off. For an empty text the code reads before the array.
unfoldable pub strip_split : Bytes → Option Bytes
strip_split [] = none
strip_split (c ∷ cs) = some (if ends_in split_symbol (c ∷ cs) then drop_last (c ∷ cs) else c ∷ cs)

-- the type of the message, or NULL, and the arguments
unfoldable pub parse : Bytes → Option Bytes × Args
parse text =
    let n = count_splits text in
    if n == 0
    then (some text, [])
    else elim (tokens text) [ [] ↦ (none, arguments n []) | t ∷ ts ↦ (some t, arguments n ts) ]

-- What the code does not determine: the coin of `rand`, the memory of a new game, what the caller of
-- `client_set_name` reads, and what follows the arrays of `cmd_game_info`.
pub record Chance : Type 0 where
  pub coin : Bool
  pub junk : Game
  pub named : Bool
  pub tails : Tails

-- what `select` and `recv` report: a new socket, with what the memory of its client held before; a
-- text up to its zero, and the number of its bytes; the end of a connection; a socket that cannot
-- be read
pub data Event : Type 0 where
  connect : Client → ℕ → Event
  receive : ℕ → Bytes → ℕ → Event
  hang_up : ℕ → Event
  unreadable : ℕ → Event

module _ (libc : Libc) (chance : Chance) where
  unfoldable pub run_handler : Command → Ref → Args → M Exit
  run_handler login c argv = cmd_login libc chance.named c argv
  run_handler room_create c argv = cmd_room_create libc chance.coin chance.junk c
  run_handler room_list c argv = cmd_room_list libc c
  run_handler room_join c argv = cmd_room_join libc c argv
  run_handler room_leave c argv = cmd_room_leave libc c
  run_handler prepared c argv = cmd_game_prepared libc c argv
  run_handler fire c argv = cmd_game_fire libc c argv
  run_handler info c argv = cmd_game_info libc chance.tails c
  run_handler logout c argv = cmd_logout libc c

  unfoldable pub count_exit : Exit → M (Unit {0})
  count_exit success w = some (tt, w)
  count_exit failure w = some (tt, record w { fail_requests = w.fail_requests +ℤ pos 1 })

  -- `if (server->clients[fd]) server->clients[fd]->invalid_count = f(…)`
  unfoldable pub set_invalid : ℕ → (ℕ → ℕ) → M (Unit {0})
  set_invalid fd f = do
    found ← read_connection (pos fd)
    elim found [
      | none ↦ pure tt
      | some c ↦ do
        me ← load_client c
        store_client c (record me { invalid_count = f me.invalid_count })
    ]

  unfoldable pub count_unknown : M (Unit {0})
  count_unknown w = some (tt, record w { unknown_commands = w.unknown_commands +ℤ pos 1 })

  unfoldable pub dispatch : ℕ → Option Command → Args → M (Unit {0})
  dispatch fd (some cmd) argv = do
    found ← read_connection (pos fd)
    c ← need found
    exit ← run_handler cmd c argv
    count_exit exit
    set_invalid fd (λ n. 0)
  dispatch fd none argv = do
    found ← read_connection (pos fd)
    c ← need found
    send_message libc c (message (codes "error" ∷ codes " unknown_command" ∷ []))
    set_invalid fd (λ n. n + 1)
    count_unknown

  -- a text that is not empty up to its zero; for an empty one the code reads before the array
  unfoldable pub process_message : ℕ → Bytes → M (Unit {0})
  process_message fd [] = λ w. none
  process_message fd (x ∷ xs) = do
    text ← need (strip_split (strip_line (x ∷ xs)))
    elim text [
      | [] ↦ pure tt
      | c ∷ cs ↦ do
        let (type, argv) = parse (c ∷ cs)
        name ← need type
        dispatch fd (get_handler name) argv
    ]

  -- MAX_INVALID_MESSAGES
  abbrev max_invalid_messages : ℕ
  max_invalid_messages = 5

  unfoldable pub drop_invalid : ℕ → M (Unit {0})
  drop_invalid fd = do
    found ← read_connection (pos fd)
    elim found [
      | none ↦ pure tt
      | some c ↦ do
        me ← load_client c
        if leb max_invalid_messages me.invalid_count
            then (do
              send_message libc c (message (codes "logout_ok" ∷ []))
              server_disconnect libc (pos fd))
            else pure tt
    ]

  unfoldable pub count_received : ℕ → M (Unit {0})
  count_received n w =
      some (tt, record w { messages_in = w.messages_in +ℤ pos 1; bytes_in = w.bytes_in +ℤ pos n })

  -- the body of the loop of `server_listen`
  unfoldable pub handle_event : Event → M (Unit {0})
  handle_event (connect junk fd) = server_new_connection libc junk fd
  handle_event (receive fd text n) = do count_received n; process_message fd text; drop_invalid fd
  handle_event (hang_up fd) = server_disconnect libc (pos fd)
  handle_event (unreadable fd) = close_connection (pos fd)
