-- ===== src/Commands/Samples.antt =====
-- A server with two clients and a game between them.
use ups_sp.Prelude.{
  ℕ, ◌+◌, ◌*◌, ◌-◌, true, ◌&&◌, Option, none, some, [], ◌∷◌, Bytes, codes, length, leb, ◌==◌,
  if◌then◌else◌, arith, ◌≡◌, refl,
}
use ups_sp.Prelude.Int.{ℤ, pos}
use ups_sp.ArrayList
use ups_sp.HashMap
use ups_sp.HashMap.Buckets.{IsValid}
use ups_sp.HashMap.Entries.{view-create}
use ups_sp.Game.Ship.{ship_init}
use ups_sp.Game.Board.{Board, empty_square}
use ups_sp.Game.Placement.{Fleet}
use ups_sp.Game.Samples.{sea, cruiser}
use ups_sp.Server.{Ref, Client, Game, World, Libc, ClientState, unlogged, in_game, playing, started}
use ups_sp.Commands.Args.{Args}

-- the value of a text of digits
unfoldable pub read_from : ℕ → Bytes → ℕ
read_from n [] = n
read_from n (c ∷ cs) = read_from (n * 10 + (c - b'0')) cs

-- a `send` that always sends the whole text
unfoldable pub libc : Libc
unfolding read_from
libc = record { send = λ fd text. pos (length text); atoi = λ text. pos (read_from 0 text) }

abbrev pub client : ℤ → Bytes → ClientState → ℕ → Option Ref → Client
client fd name state n game = record {
  fd = fd;
  name = name;
  state = state;
  player_num = n;
  game = game;
  connected = true;
  invalid_count = 0;
}

-- ship 1 goes down from row 4, column 9
abbrev pub with_cruiser : Board
with_cruiser j i = if i == 9 && leb 4 j && leb j 6 then b'1' else empty_square

abbrev pub one_ship : Fleet
one_ship n = if n == 1 then record cruiser { health = pos 3 } else ship_init n

abbrev pub battle : Game
battle = record {
  id = 0;
  player1 = some 0;
  player2 = some 1;
  player1_board = sea;
  player2_board = with_cruiser;
  player1_ships = one_ship;
  player2_ships = one_ship;
  p1_count = 0;
  p2_count = 0;
  state = started;
}

-- a list of two slots with the game 5 in the first
abbrev pub rooms : ArrayList.ArrayList Ref
rooms = record {
  capacity = 2;
  size = 1;
  empty = ArrayList.at 1;
  first = ArrayList.at 0;
  items = some 5 ∷ none ∷ [];
  next = some ArrayList.nil ∷ some ArrayList.nil ∷ [];
}

-- clients 0 and 1, and game 5
abbrev pub world : Client → Client → Game → World
world a b game = record {
  clients = λ p. if p == 0 then some a else if p == 1 then some b else none;
  games = λ p. if p == 5 then some game else none;
  fresh = 6;
  rooms = rooms;
  players = record { capacity = 2; e_num = 0; table = [] ∷ [] ∷ [] };
  connections = none ∷ none ∷ none ∷ none ∷ some (some 0) ∷ some none ∷ none ∷ some (some 1) ∷ [];
  max_players = pos 4;
  curr_players = pos 2;
  max_rooms = pos 2;
  curr_rooms = pos 1;
  messages_out = pos 0;
  messages_in = pos 0;
  bytes_out = pos 0;
  bytes_in = pos 0;
  fail_requests = pos 0;
  unknown_commands = pos 0;
  sent = [];
  closed = [];
}

abbrev pub ann : Client
ann = client (pos 4) (codes "ann") playing 1 (some 5)

abbrev pub bob : Client
bob = client (pos 7) (codes "bob") in_game 2 (some 5)

abbrev pub at_cruiser : Args
at_cruiser = some (codes "9") ∷ some (codes "4") ∷ []

-- and after the deletion of that slot
abbrev pub rooms_of_none : ArrayList.ArrayList Ref
rooms_of_none = record rooms {
  empty = ArrayList.at 0;
  first = ArrayList.nil;
  next = some (ArrayList.at 1) ∷ some ArrayList.nil ∷ [];
}

-- a new client at the socket 4
abbrev pub guest : Client
guest = client (pos 4) [] unlogged 0 none

pub IsValid-players : IsValid (world ann bob battle).players
unfolding HashMap.create
IsValid-players = (view-create 2 (omega arith)).0

pub no_ann : HashMap.get (world ann bob battle).players (codes "ann") ≡ some none
unfolding HashMap.get HashMap.slot HashMap.calc_hash HashMap.find
no_ann = refl
