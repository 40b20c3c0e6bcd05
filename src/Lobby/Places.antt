-- ===== src/Lobby/Places.antt =====
-- Where a client is, by the invariant.
use ups_sp.Prelude.{ℕ, ◌≡◌, ◌≢◌, inl, inr, true, false, none, some, List, ◌==◌, arith, Option-cases}
use ups_sp.Server.{Ref, Client, Game, World, in_lobby, in_room, lobby, started}
use ups_sp.Commands.Rooms.{is_gaming}
use ups_sp.Commands.Rooms.Waiting.{Alone, in_first, in_second}
use ups_sp.Commands.Prepare.Starts.{Seats, first, second}
use ups_sp.Lobby.{Seated, first_waits, second_waits, running, Hosted, InSeat, Consistent}

-- a client of the game g waits alone, or plays against another one
pub data Place (w : World) (c : Ref) (me : Client) (g : Ref) (game : Game) : Type 0 where
  waits : me.state ≡ in_room → game.state ≡ lobby → Alone game c → Place w c me g game
  plays :
      (o : Ref) (opp : Client)
      → game.state ≡ started
      → Seats me game c o
      → o ≢ c
      → w.clients o ≡ some opp
      → opp.game ≡ some g
      → is_gaming me.state ≡ true
      → is_gaming opp.state ≡ true
      → Place w c me g game

module _ (w : World) (c : Ref) (me : Client) (g : Ref) (game : Game)
    (hc : w.clients c ≡ some me) where
  Place-of : Seated w g game → InSeat game c → Place w c me g game
  Place-of (first_waits p a s e1 e2 hp ag sa) (inl seat) = waits (ground arith) s (in_first seat e2)
  Place-of (first_waits p a s e1 e2 hp ag sa) (inr seat) = absurd (ground arith)
  Place-of (second_waits p a s e1 e2 hp ag sa) (inl seat) = absurd (ground arith)
  Place-of (second_waits p a s e1 e2 hp ag sa) (inr seat) =
      waits (ground arith) s (in_second e1 seat)
  Place-of (running p q a b s e1 e2 pq hp hq ag bg sa sb an bn) (inl seat) =
      let same : p ≡ c = ground arith in
      let me_a : a ≡ me = ground (arith, same) in
      plays q b s (first (ground arith) seat e2) (ground arith) hq bg (ground arith) sb
  Place-of (running p q a b s e1 e2 pq hp hq ag bg sa sb an bn) (inr seat) =
      let same : q ≡ c = ground arith in
      let me_b : b ≡ me = ground (arith, same) in
      plays p a s (second (ground arith) e1 seat) (ground arith) hp ag (ground arith) sa

module _ (w : World) (used free : List ℕ) (v : Consistent w used free) where
  -- one game for a slot, and one slot for a game
  pub slot-Hosted : (i : ℕ) (g : Ref) (game : Game) → Hosted w used i g game → Seated w g game
  slot-Hosted i g game hosted =
      let (h, game', hosted', seated) = v.slot i hosted.is_used in
      let same : h ≡ g = ground (arith, hosted'.listed, hosted.listed) in
      let same_game : game' ≡ game = ground (arith, same, hosted'.at_g, hosted.at_g) in
      rw (same, same_game) at seated

  pub alone-Hosted :
      (i j : ℕ) (g h : Ref) (game game' : Game)
      → Hosted w used i g game
      → Hosted w used j h game'
      → (j == i) ≡ false
      → (h == g) ≡ false
  alone-Hosted i j g h game game' a b ne = ground (arith, a.at_g, b.at_g, a.numbered, b.numbered)

  pub place :
      (c : Ref) (me : Client) (g : Ref)
      → w.clients c ≡ some me
      → me.game ≡ some g
      → (i : ℕ) × (game : Game) × Hosted w used i g game × Place w c me g game
  place c me g hc hg =
      let (i, game, hosted, seat) = v.member c me g hc hg in
      (i, game, hosted, Place-of w c me g game hc (slot-Hosted i g game hosted) seat)

  not_placed :
      (c : Ref) (me : Client) (g : Ref) (game : Game)
      → me.state ≡ in_lobby
      → Place w c me g game
      → ⊥
  not_placed c me g game hs (waits s t alone) = cc
  not_placed c me g game hs (plays o opp s seats ne ho og sa sb) = ground arith

  -- a client of the lobby has no game
  pub lobby-none :
      (c : Ref) (me : Client) → w.clients c ≡ some me → me.state ≡ in_lobby → me.game ≡ none
  lobby-none c me hc hs = elim (Option-cases me.game) [
    | inl e ↦ e
    | inr (g, e) ↦
        let (i, game, hosted, at) = place c me g hc e in absurd (not_placed c me g game hs at)
  ]
