-- ===== src/Server.antt =====
-- The state that the handlers of communication/commands.c share: the heap's clients and games, the
-- server structure of communication/server.h and its global counters, and what was sent.
pub mod Send
use ups_sp.Prelude.{
  ◌≡◌, ℕ, ◌+◌, Bool, Option, none, some, List, [], ◌∷◌, Bytes, ◌==◌, if◌then◌else◌,
}
use ups_sp.Prelude.Int.{ℤ, pos, ◌+ℤ◌}
use ups_sp.ArrayList.{ArrayList}
use ups_sp.HashMap.{HashTable}
use ups_sp.Game.Board.{Board}
use ups_sp.Game.Placement.{Fleet}

-- STATE_UNLOGGED to STATE_IN_GAME_PLAYING of communication/client.h
pub data ClientState : Type 0 where
  unlogged in_lobby in_room preparing in_game playing : ClientState

-- GAME_STATE_LOBBY, GAME_STATE_GAME and GAME_STATE_ERASED of game/shipsGame.h
pub data GameState : Type 0 where
  lobby started erased : GameState

-- An address in the heap. A pointer that may be NULL is an `Option Ref`.
abbrev pub Ref : Type 0
Ref = ℕ

-- `struct client`; `connected` is 1 for true
pub record Client : Type 0 where
  pub fd : ℤ
  pub name : Bytes
  pub state : ClientState
  pub player_num : ℕ
  pub game : Option Ref
  pub connected : Bool
  pub invalid_count : ℕ

-- `struct game`
pub record Game : Type 0 where
  pub id : ℕ
  pub player1 : Option Ref
  pub player2 : Option Ref
  pub player1_board : Board
  pub player2_board : Board
  pub player1_ships : Fleet
  pub player2_ships : Fleet
  pub p1_count : ℕ
  pub p2_count : ℕ
  pub state : GameState

-- `struct server_`, the counters of communication/server.c, and the heap. `connections` is the
-- array `clients`, whose cells hold a pointer, NULL, or were never written; `sent` is what went to
-- sockets, and `closed` the sockets that were closed, the newest first.
pub record World : Type 0 where
  pub clients : Ref → Option Client
  pub games : Ref → Option Game
  pub fresh : Ref
  pub rooms : ArrayList Ref
  pub players : HashTable Ref
  pub connections : List (Option (Option Ref))
  pub max_players : ℤ
  pub curr_players : ℤ
  pub max_rooms : ℤ
  pub curr_rooms : ℤ
  pub messages_out : ℤ
  pub messages_in : ℤ
  pub bytes_out : ℤ
  pub bytes_in : ℤ
  pub fail_requests : ℤ
  pub unknown_commands : ℤ
  pub sent : List (ℤ × Bytes)
  pub closed : List ℤ

-- What the program takes from the C library: `send` gives the number of bytes sent, or -1; `atoi`
-- reads a decimal number.
pub record Libc : Type 0 where
  pub send : ℤ → Bytes → ℤ
  pub atoi : Bytes → ℤ

-- Code on the state. `none` is undefined behaviour: a read through NULL or a dangling pointer, or
-- an access outside an array.
abbrev pub M : Type 0 → Type 0
M A = World → Option (A × World)

abbrev pub pure : {A : Type 0} → A → M A
pure a w = some (a, w)

infixl 5 ◌>>=◌ ◌>>◌
abbrev pub ◌>>=◌ : {A B : Type 0} → M A → (A → M B) → M B
◌>>=◌ m f w = elim (m w) [ none ↦ none | some (a, w') ↦ f a w' ]

abbrev pub ◌>>◌ : {B : Type 0} → M (Unit {0}) → M B → M B
m >> k = m >>= λ _. k

-- a value that must be there, such as a pointer that is followed
abbrev pub need : {A : Type 0} → Option A → M A
need none w = none
need (some a) w = some (a, w)

abbrev pub update : {A : Type 0} → (Ref → Option A) → Ref → Option A → Ref → Option A
update h p v q = if q == p then v else h q

unfoldable pub load_client : Ref → M Client
load_client c w = need (w.clients c) w

unfoldable pub store_client : Ref → Client → M (Unit {0})
store_client c v w = some (tt, record w { clients = update w.clients c (some v) })

unfoldable pub set_state : Ref → ClientState → M (Unit {0})
unfolding load_client store_client
set_state c s = do me ← load_client c; store_client c (record me { state = s })

unfoldable pub load_game : Ref → M Game
load_game g w = need (w.games g) w

unfoldable pub store_game : Ref → Game → M (Unit {0})
store_game g v w = some (tt, record w { games = update w.games g (some v) })

-- the value of a command: EXIT_SUCCESS or EXIT_FAILURE
pub data Exit : Type 0 where
  success failure : Exit

-- the list of rooms with its counts, and the next address, are as before
abbrev pub SameRooms : World → World → Type 0
SameRooms w w' =
    (w'.rooms ≡ w.rooms)
    × (w'.curr_rooms ≡ w.curr_rooms)
    × (w'.max_rooms ≡ w.max_rooms)
    × (w'.fresh ≡ w.fresh)
