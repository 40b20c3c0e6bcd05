-- ===== src/Lobby/Seats.antt =====
-- The seats of a room that `cmd_room_join` has filled.
use ups_sp.Prelude.{ℕ, ◌≡◌, ◌≢◌, inl, inr, refl, sym, some, arith}
use ups_sp.Server.{Ref, Client, Game, World}
use ups_sp.Commands.Rooms.Joins.{Free, first_free, second_free, seated, fresh_game, Joined}
use ups_sp.Lobby.{Seated, running, InSeat}

module _ (w w' : World) (c o g : Ref) (me opp : Client) (room : Game) (ne : o ≢ c)
    (og : opp.game ≡ some g) where
  pub Seated-Joined :
      (n : ℕ)
      → Free room o n
      → Joined w w' c o g me opp (fresh_game (seated n c room)) n
      → Seated w' g (fresh_game (seated n c room))
  Seated-Joined _ (first_free a b) joined =
      running c o _ _ refl refl b ne joined.client joined.opponent refl og refl refl refl refl
  Seated-Joined _ (second_free a b) joined =
      running o c _ _ refl a refl (λ same. ne (sym same)) joined.opponent joined.client og refl refl
        refl refl refl

-- the joiner and the one who waited sit in the game
pub joiner-InSeat :
    (room : Game) (o c : Ref) (n : ℕ) → Free room o n → InSeat (fresh_game (seated n c room)) c
joiner-InSeat room o c _ (first_free a b) = inl refl
joiner-InSeat room o c _ (second_free a b) = inr refl

pub waiter-InSeat :
    (room : Game) (o c : Ref) (n : ℕ) → Free room o n → InSeat (fresh_game (seated n c room)) o
waiter-InSeat room o c _ (first_free a b) = inr b
waiter-InSeat room o c _ (second_free a b) = inl a

pub seated-InSeat :
    (room : Game) (o c p : Ref) (n : ℕ)
    → Free room o n
    → InSeat room p
    → InSeat (fresh_game (seated n c room)) p
seated-InSeat room o c p _ (first_free a b) (inl x) = absurd (ground arith)
seated-InSeat room o c p _ (first_free a b) (inr x) = inr x
seated-InSeat room o c p _ (second_free a b) (inl x) = inl x
seated-InSeat room o c p _ (second_free a b) (inr x) = absurd (ground arith)

pub id-fresh_game : (room : Game) (c : Ref) (n : ℕ) → (fresh_game (seated n c room)).id ≡ room.id
id-fresh_game room c n = ground arith
