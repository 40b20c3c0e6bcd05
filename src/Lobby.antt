-- ===== src/Lobby.antt =====
-- The invariant that links the list of rooms, the games and the clients.
pub mod Touches
pub mod Places
pub mod Opens
pub mod Closes
pub mod Leaves
pub mod Seats
pub mod Joins
pub mod Moves
pub mod Prepares
pub mod Shots
pub mod Enters
pub mod Connects
pub mod Reached
mod Runs
mod Examples
use ups_sp.Prelude.{
  ℕ, ◌+◌, ◌<◌, ◌≡◌, ◌≢◌, ◌⊎◌, inl, inr, refl, sym, ap, ◌∙◌, Bool, true, false, Option, none, some,
  List, Bytes, ◌==◌, if◌then◌else◌, arith, Bool-cases, length, count,
}
use ups_sp.Prelude.Int.{ℤ, pos}
use ups_sp.ArrayList.{ArrayList, cell}
use ups_sp.ArrayList.Chains.{IsValid}
use ups_sp.Server.{
  Ref, Client, Game, World, Libc, Exit, ClientState, in_lobby, in_room, lobby, started,
}
use ups_sp.Server.Send.{record_sent}
use ups_sp.Commands.Rooms.{is_in_lobby, is_in_room, is_gaming}

-- who sits in a room: one player who waits, or the two players of a started game
pub data Seated (w : World) (g : Ref) (game : Game) : Type 0 where
  first_waits :
      (p : Ref) (a : Client)
      → game.state ≡ lobby
      → game.player1 ≡ some p
      → game.player2 ≡ none
      → w.clients p ≡ some a
      → a.game ≡ some g
      → a.state ≡ in_room
      → Seated w g game
  second_waits :
      (p : Ref) (a : Client)
      → game.state ≡ lobby
      → game.player1 ≡ none
      → game.player2 ≡ some p
      → w.clients p ≡ some a
      → a.game ≡ some g
      → a.state ≡ in_room
      → Seated w g game
  running :
      (p q : Ref) (a b : Client)
      → game.state ≡ started
      → game.player1 ≡ some p
      → game.player2 ≡ some q
      → q ≢ p
      → w.clients p ≡ some a
      → w.clients q ≡ some b
      → a.game ≡ some g
      → b.game ≡ some g
      → is_gaming a.state ≡ true
      → is_gaming b.state ≡ true
      → a.player_num ≡ 1
      → b.player_num ≡ 2
      → Seated w g game

-- the game g is in the slot i of the list
pub record Hosted (w : World) (used : List ℕ) (i : ℕ) (g : Ref) (game : Game) : Type 0 where
  pub is_used : count i used ≡ 1
  pub listed : cell w.rooms.items i ≡ some g
  pub at_g : w.games g ≡ some game
  pub numbered : game.id ≡ i

abbrev pub InSeat : Game → Ref → Type 0
InSeat game c = (game.player1 ≡ some c) ⊎ (game.player2 ≡ some c)

pub record Consistent (w : World) (used free : List ℕ) : Type 0 where
  pub valid : IsValid w.rooms used free
  pub counted : w.curr_rooms ≡ pos (length used)
  pub limit : w.max_rooms ≡ pos w.rooms.capacity
  -- a used slot has a game with its players
  pub slot :
      (i : ℕ)
      → count i used ≡ 1
      → (g : Ref) × (game : Game) × Hosted w used i g game × Seated w g game
  -- a client's game is in the list, and he sits in it
  pub member :
      (c : Ref) (me : Client) (g : Ref)
      → w.clients c ≡ some me
      → me.game ≡ some g
      → (i : ℕ) × (game : Game) × Hosted w used i g game × InSeat game c
  -- a client without a game is in no room
  pub idle :
      (c : Ref) (me : Client)
      → w.clients c ≡ some me
      → me.game ≡ none
      → (is_in_room me.state ≡ false) × (is_gaming me.state ≡ false)
  -- the games of the heap lie below the next address
  pub below : (g : Ref) (game : Game) → w.games g ≡ some game → g < w.fresh

pub in_lobby-of : (s : ClientState) → is_in_lobby s ≡ true → s ≡ in_lobby
in_lobby-of s h = ground arith

-- the code is defined and keeps the invariant
abbrev pub Keeps : Option (Exit × World) → Type 0
Keeps run =
    (exit : Exit) × (w' : World) × (used : List ℕ) × (free : List ℕ) × (run ≡ some (exit, w'))
    × Consistent w' used free

pub Seated-map :
    (w w' : World) (g : Ref) (game : Game)
    → ((p : Ref) (a : Client) → w.clients p ≡ some a → a.game ≡ some g → w'.clients p ≡ some a)
    → Seated w g game
    → Seated w' g game
Seated-map w w' g game kept (first_waits p a s e1 e2 hp ag sa) =
    first_waits p a s e1 e2 (kept p a hp ag) ag sa
Seated-map w w' g game kept (second_waits p a s e1 e2 hp ag sa) =
    second_waits p a s e1 e2 (kept p a hp ag) ag sa
Seated-map w w' g game kept (running p q a b s e1 e2 pq hp hq ag bg sa sb an bn) =
    running p q a b s e1 e2 pq (kept p a hp ag) (kept q b hq bg) ag bg sa sb an bn

-- an answer that is sent changes nothing of it
pub Consistent-sent :
    (libc : Libc) (fd : ℤ) (text : Bytes) (w : World) (used free : List ℕ)
    → Consistent w used free
    → Consistent (record_sent libc fd text w) used free
Consistent-sent libc fd text w used free v = record {
  valid = v.valid;
  counted = v.counted;
  limit = v.limit;
  slot = λ i u.
      let (g, game, hosted, seated) = v.slot i u in
      (g, game, Hosted-sent hosted, Seated-map w _ g game (λ p a hp ag. hp) seated);
  member = λ c me g hc hg.
      let (i, game, hosted, seat) = v.member c me g hc hg in (i, game, Hosted-sent hosted, seat);
  idle = v.idle;
  below = v.below;
}
  where
    Hosted-sent :
        {i : ℕ} {g : Ref} {game : Game}
        → Hosted w used i g game
        → Hosted (record_sent libc fd text w) used i g game
    Hosted-sent h = record {
      is_used = h.is_used;
      listed = h.listed;
      at_g = h.at_g;
      numbered = h.numbered;
    }
