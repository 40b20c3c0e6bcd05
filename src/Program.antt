-- ===== src/Program.antt =====
-- `main` of main.c up to the call of `server_listen`, and what the program does on SIGINT.
pub mod Options
mod Examples
use Prim.Native.String.{String}
use ups_sp.Prelude.{
  ℕ, ◌+◌, Bool, true, false, not, ◌&&◌, ◌||◌, Option, none, some, ◌>>=◌, List, [], ◌∷◌, ◌++◌, Bytes,
  codes, same, ltb, leb, ◌==◌, if◌then◌else◌, length,
}
use ups_sp.Prelude.Int.{ℤ, pos, negsuc, leb_ℤ, eqb_ℤ}
use ups_sp.HashMap.Clear.{destroy}
use ups_sp.Game.Ship.{minus_one}
use ups_sp.Server.{Ref, Client, World, Libc, update}
use ups_sp.Server.Send.{decimal}
use ups_sp.Commands.Args.{all_digits}
use ups_sp.Connections.{server_init}

-- MAX_PORT_NUMBER and the defaults and limits
abbrev pub max_port_number : ℕ
max_port_number = 65535

abbrev pub default_port : ℕ
default_port = 9123

abbrev pub default_max_rooms : ℕ
default_max_rooms = 10

abbrev pub default_max_players_num : ℕ
default_max_players_num = 20

abbrev pub min_rooms : ℕ
min_rooms = 1

abbrev pub min_players : ℕ
min_players = 2

-- what the options set
pub record Settings : Type 0 where
  pub port : ℤ
  pub max_rooms : ℤ
  pub max_players : ℤ
  pub ip : Option Bytes

abbrev pub defaults : Settings
defaults = record {
  port = pos 0;
  max_rooms = pos default_max_rooms;
  max_players = pos default_max_players_num;
  ip = none;
}

abbrev pub is_flag : String → String → Bytes → Bool
is_flag short long arg = same arg (codes short) || same arg (codes long)

-- A number takes the place of the old value. A text with another character than a digit marks it by
-- -1 first, and a marked value becomes the default.
unfoldable pub read_number : Libc → ℕ → ℤ → Bytes → ℤ
read_number libc default old arg =
    let marked = if all_digits arg then old else minus_one in
    if eqb_ℤ marked minus_one then pos default else libc.atoi arg

-- the copy of an address takes a byte more than was reserved for it
abbrev pub read_ip : Bytes → Settings → Option Settings
read_ip [] s = some s
read_ip (c ∷ cs) s = none

-- one round of the loop over the options: the new settings, and whether the next text was its value
unfoldable pub read_option : Libc → Bytes → Bytes → Settings → Option (Bool × Settings)
read_option libc arg value s =
    let port = is_flag "-p" "--port" arg in
    let rooms = is_flag "-r" "--rooms" arg in
    let players = is_flag "-pl" "--players" arg in
    let s1 = if port then record s { port = read_number libc default_port s.port value } else s in
    let s2 =
      if rooms
      then record s1 { max_rooms = read_number libc default_max_rooms s1.max_rooms value }
      else s1 in
    let s3 =
      if players
      then record s2 { max_players = read_number libc default_max_players_num s2.max_players value }
      else s2 in
    if same arg (codes "-ip")
    then (do s4 ← read_ip value s3; some (true, s4))
    else some (port || rooms || players, s3)

-- the loop, from `argv[i]` on; `cont` says that this text was a value, and the last text is only a value
unfoldable pub read_options : Libc → Bool → List Bytes → Settings → Option Settings
read_options libc cont [] s = some s
read_options libc cont (arg ∷ []) s = some s
read_options libc true (arg ∷ value ∷ rest) s = read_options libc false (value ∷ rest) s
read_options libc false (arg ∷ value ∷ rest) s = do
  (used, s') ← read_option libc arg value s
  read_options libc used (value ∷ rest) s'

-- how `main` ends, or the call of `server_listen`
pub data Start : Type 0 where
  usage bad_port few_rooms few_players no_server : Start
  listen : World → Bytes → Option Bytes → Start

-- `server_init`, for numbers that are not negative
abbrev pub init : ℤ → ℤ → Option World
init (pos rooms) (pos players) = server_init rooms players
init _ _ = none

-- `%d`
abbrev pub decimal_ℤ : ℤ → Bytes
decimal_ℤ (pos n) = decimal n
decimal_ℤ (negsuc n) = b'-' ∷ decimal (n + 1)

unfoldable pub start_with : Settings → Start
start_with s =
    if leb_ℤ s.port (pos 0) || not (leb_ℤ s.port (pos max_port_number))
    then bad_port
    else if not (leb_ℤ (pos min_rooms) s.max_rooms)
    then few_rooms
    else if not (leb_ℤ (pos min_players) s.max_players)
    then few_players
    else elim (init s.max_rooms s.max_players) [
      | none ↦ no_server
      | some w ↦ listen w (decimal_ℤ s.port) s.ip
    ]

-- The texts of the command line, that of the program among them.
unfoldable pub main : Libc → List Bytes → Option Start
main libc [] = some usage
main libc (program ∷ args) =
    if ltb (length args) 2
    then some usage
    else (do s ← read_options libc false args defaults; some (start_with s))

-- the lines of the statistics file
abbrev pub stats_line : String → ℤ → Bytes
stats_line name n = codes name ++ (codes ": " ++ (decimal_ℤ n ++ (10 ∷ [])))

unfoldable pub save_stats : World → Bytes
save_stats w =
    stats_line "Sent messages" w.messages_out
    ++ (stats_line "Transmitted bytes" w.bytes_out
        ++ (stats_line "Received messages" w.messages_in
            ++ (stats_line "Received bytes" w.bytes_in
                ++ (stats_line "Fail requests" w.fail_requests
                    ++ stats_line "Unknown commands count" w.unknown_commands))))

-- the clients that the table of players leads to
abbrev pub free_clients : List Ref → (Ref → Option Client) → Ref → Option Client
free_clients [] clients = clients
free_clients (c ∷ cs) clients = free_clients cs (update clients c none)

-- what is left of the clients after `server_free`
unfoldable pub server_free : World → Option (Ref → Option Client)
server_free w = do freed ← destroy w.players; some (free_clients freed w.clients)

-- the file's text, and the clients that are left
unfoldable pub int_handler : World → Option (Bytes × (Ref → Option Client))
int_handler w = do clients ← server_free w; some (save_stats w, clients)
