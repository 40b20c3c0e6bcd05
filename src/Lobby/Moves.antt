-- ===== src/Lobby/Moves.antt =====
-- A step inside a started game.
use ups_sp.Prelude.{
  ℕ, ◌<◌, ◌≡◌, ◌≢◌, inl, inr, refl, sym, ap, ◌∙◌, true, false, none, some, List, ◌==◌, arith,
  Bool-cases,
}
use ups_sp.Prelude.Int.{pos}
use ups_sp.ArrayList.{cell}
use ups_sp.Server.{Ref, Client, ClientState, Game, World, SameRooms, started}
use ups_sp.Commands.Rooms.{is_gaming}
use ups_sp.Commands.Prepare.Starts.{Seats, first, second}
use ups_sp.Lobby.{Seated, first_waits, second_waits, running, Hosted, InSeat, Consistent}
use ups_sp.Lobby.Touches.{Touches, Consistent-Touches}
use ups_sp.Lobby.Places.{alone-Hosted, slot-Hosted}

-- the players c and o get other states of a game, and the game other boards and ships
pub record Plays (w w' : World) (c o g : Ref) (me opp : Client) (game game' : Game)
    (mine others : ClientState) : Type 0 where
  pub client : w'.clients c ≡ some (record me { state = mine })
  pub opponent : w'.clients o ≡ some (record opp { state = others })
  pub third : (q : Ref) → q ≢ c → q ≢ o → w'.clients q ≡ w.clients q
  pub played : w'.games g ≡ some game'
  pub other_games : (h : Ref) → h ≢ g → w'.games h ≡ w.games h
  pub list : SameRooms w w'
  pub gaming : is_gaming mine ≡ true
  pub gaming' : is_gaming others ≡ true
  pub first_player : game'.player1 ≡ game.player1
  pub second_player : game'.player2 ≡ game.player2
  pub number : game'.id ≡ game.id
  pub stage : game'.state ≡ game.state

module _ (w w' : World) (used free : List ℕ) (i : ℕ) (c o g : Ref) (me opp : Client)
    (game game' : Game) (mine others : ClientState) (v : Consistent w used free)
    (at : Hosted w used i g game) (hc : w.clients c ≡ some me) (ho : w.clients o ≡ some opp)
    (ne : o ≢ c) (hg : me.game ≡ some g) (og : opp.game ≡ some g) (begun : game.state ≡ started)
    (plays : Plays w w' c o g me opp game game' mine others) where
  -- a client after the step
  data After (p : Ref) (a : Client) : Type 0 where
    player : p ≡ c → a ≡ record me { state = mine } → After p a
    facing : p ≡ o → a ≡ record opp { state = others } → After p a
    third : (p ≡ c → ⊥) → (p ≡ o → ⊥) → w.clients p ≡ some a → After p a

  After-of : (p : Ref) (a : Client) → w'.clients p ≡ some a → After p a
  After-of p a hp = elim (Bool-cases (p == c)) [
    | inl same ↦ let own = plays.client in player (ground arith) (ground (arith, own))
    | inr other ↦ elim (Bool-cases (p == o)) [
      | inl same ↦ let own = plays.opponent in facing (ground arith) (ground (arith, own))
      | inr apart ↦
          let nc : p ≢ c = λ same. ground arith in
          let no' : p ≢ o = λ same. ground arith in third nc no' (sym (plays.third p nc no') ∙ hp)
    ]
  ]

  -- the client before it
  before :
      (p : Ref) (a : Client) → After p a → (b : Client) × (w.clients p ≡ some b) × (b.game ≡ a.game)
  before p a (player e own) = (me, rw e hc, sym (ap (λ b. b.game) own))
  before p a (facing e own) = (opp, rw e ho, sym (ap (λ b. b.game) own))
  before p a (third nc no' hp) = (a, hp, refl)

  back-Plays :
      (p : Ref) (a : Client) (h : Ref)
      → (h == g) ≡ false
      → a.game ≡ some h
      → After p a
      → w.clients p ≡ some a
  back-Plays p a h apart ah (player e own) = absurd (ground (arith, hg))
  back-Plays p a h apart ah (facing e own) = absurd (ground (arith, og))
  back-Plays p a h apart ah (third nc no' hp) = hp

  unbound-Plays : (p : Ref) (a : Client) → a.game ≡ none → After p a → w.clients p ≡ some a
  unbound-Plays p a idle (player e own) = absurd (ground (arith, hg))
  unbound-Plays p a idle (facing e own) = absurd (ground (arith, og))
  unbound-Plays p a idle (third nc no' hp) = hp

  Touches-Plays : Touches w w' used used i g
  Touches-Plays = record {
    slots = λ j apart. refl;
    cells = λ j apart u. ap (λ l. cell l.items j) plays.list.0;
    games = λ h apart. plays.other_games h (λ same. ground arith);
    alone =
        λ j h game'' apart hosted. alone-Hosted w used free v i j g h game game'' at hosted apart;
    own = λ h game'' hosted. ground (arith, hosted.listed, at.listed);
    forth = λ p a h apart hp ah.
        plays.third p (λ same. ground (arith, same, hp, hc)) (λ same. ground (arith, same, hp, ho))
        ∙ hp;
    back = λ p a h apart hp ah. back-Plays p a h apart ah (After-of p a hp);
    unbound = λ p a hp ag. inl (unbound-Plays p a ag (After-of p a hp));
  }

  Hosted-Plays : Hosted w' used i g game'
  Hosted-Plays = record {
    is_used = at.is_used;
    listed = rw plays.list.0 at.listed;
    at_g = plays.played;
    numbered = plays.number ∙ at.numbered;
  }

  InSeat-Plays : (p : Ref) (a : Client) → a.game ≡ some g → After p a → InSeat game' p
  InSeat-Plays p a ag now =
      let (b, hp, same) = before p a now in
      let (j, game'', hosted, seat) = v.member p b g hp (same ∙ ag) in
      let it : game'' ≡ game = ground (arith, hosted.at_g, at.at_g) in
      rw (plays.first_player, plays.second_player, sym it) seat

  Seated-Plays :
      me.player_num ≡ 1
      → opp.player_num ≡ 2
      → game.player1 ≡ some c
      → game.player2 ≡ some o
      → Seated w' g game'
  Seated-Plays n n' h1 h2 =
      running c o _ _ (plays.stage ∙ begun) (plays.first_player ∙ h1) (plays.second_player ∙ h2) ne
        plays.client plays.opponent hg og plays.gaming plays.gaming' n n'

  Seated-Plays' :
      me.player_num ≡ 2
      → opp.player_num ≡ 1
      → game.player1 ≡ some o
      → game.player2 ≡ some c
      → Seated w' g game'
  Seated-Plays' n n' h1 h2 =
      running o c _ _ (plays.stage ∙ begun) (plays.first_player ∙ h1) (plays.second_player ∙ h2)
        (λ e. ne (sym e)) plays.opponent plays.client og hg plays.gaming' plays.gaming n' n

  Seated-now : Seats me game c o → Seated w g game → Seated w' g game'
  Seated-now seats (first_waits p a s e1 e2 hp ag sa) = absurd (ground (arith, begun))
  Seated-now seats (second_waits p a s e1 e2 hp ag sa) = absurd (ground (arith, begun))
  Seated-now (first n h1 h2) (running p q a b s e1 e2 pq hp hq ag bg sa sb an bn) =
      let same : q ≡ o = ground arith in
      let it : b ≡ opp = ground (arith, same, ho) in Seated-Plays n (ground arith) h1 h2
  Seated-now (second n h1 h2) (running p q a b s e1 e2 pq hp hq ag bg sa sb an bn) =
      let same : p ≡ o = ground arith in
      let it : a ≡ opp = ground (arith, same, ho) in Seated-Plays' n (ground arith) h1 h2

  below-Plays : (h : Ref) (game'' : Game) → w'.games h ≡ some game'' → h < w'.fresh
  below-Plays h game'' at_h = elim (Bool-cases (h == g)) [
    | inl same ↦
        let e : h ≡ g = ground arith in let low = v.below g game at.at_g in rw (e, plays.list.3) low
    | inr other ↦
        rw plays.list.3 (v.below h game'' (sym (plays.other_games h (λ same. ground arith)) ∙ at_h))
  ]

  pub Consistent-Plays : Seats me game c o → Consistent w' used free
  Consistent-Plays seats =
      let seated = Seated-now seats (slot-Hosted w used free v i g game at) in
      Consistent-Touches w w' used used i g Touches-Plays free free v (rw plays.list.0 v.valid)
        (plays.list.1 ∙ v.counted)
        (plays.list.2 ∙ v.limit ∙ ap (λ l. pos l.capacity) (sym plays.list.0))
        (λ u. (game', Hosted-Plays, seated))
        (λ p a hp ag. (game', Hosted-Plays, InSeat-Plays p a ag (After-of p a hp))) below-Plays
