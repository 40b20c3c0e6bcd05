-- ===== src/Commands/Fire/Rallies.antt =====
-- A started game as a whole: the players shoot in turn until it is over.
use ups_sp.Prelude.{
  ℕ, zero, suc, ◌+◌, ◌<◌, ◌≤◌, ◌≡◌, ◌⊎◌, inl, inr, refl, true, Option, none, some, arith, ◌∙◌, sym,
  ap,
}
use ups_sp.ArrayList
use ups_sp.Game.Board.{Board, empty_square}
use ups_sp.Game.Battle.Unshot.{is_unshot, unshot, unshot_positive, unshot_bound}
use ups_sp.Server.{Ref, Client, Game, World, Libc, Exit, success, in_game, playing, in_lobby}
use ups_sp.Commands.Args.{Args}
use ups_sp.Commands.Ends.Over.{Over}
use ups_sp.Commands.Prepare.Starts.{Seats, first, second}
use ups_sp.Commands.Fire.{target_board, opponent, cmd_game_fire}
use ups_sp.Commands.Fire.Shots.{Opposed, Shot}
use ups_sp.Commands.Fire.Turns.{Aims}
use ups_sp.Commands.Fire.Sides.{Side, foe}
use ups_sp.Commands.Fire.Moves.{Moved}
use ups_sp.Commands.Fire.Battles.{Fired, missed, struck, won, cmd_game_fire-Fired}

-- it is the turn of c in a game against o, in which each of them faces a fleet that is not sunk
pub record Duel (w : World) (c o g : Ref) (me opp : Client) (game : Game)
    (rooms : ArrayList.ArrayList Ref) : Type 0 where
  pub opposed : Opposed w c o g me opp game
  pub seats : Seats me game c o
  pub turn : me.state ≡ playing
  pub opp_in_it : opp.game ≡ some g
  pub numbered : opp.player_num ≡ foe me.player_num
  pub side : Side me.player_num game
  pub side' : Side (foe me.player_num) game
  pub deleted : ArrayList.delete w.rooms game.id ≡ some rooms

-- an empty square, or one of a ship
abbrev pub Target : Board → ℕ → ℕ → Type 0
Target b y x = (b y x ≡ empty_square) ⊎ ((n : ℕ) × (n < 7) × (b y x ≡ b'0' + n))

Target-unshot : (b : Board) (y x : ℕ) → Target b y x → is_unshot (b y x) ≡ true
Target-unshot b y x (inl e) = ground arith
Target-unshot b y x (inr (n, h, e)) = ground arith

-- what a player sends whose turn it is: a shot that is accepted
abbrev pub Strategy : Type 0
Strategy = Ref → World → Args

abbrev pub AimsWell : Libc → Strategy → Type 0
AimsWell libc aim =
    (w : World) (c o g : Ref) (me opp : Client) (game : Game) (rooms : ArrayList.ArrayList Ref)
    → Duel w c o g me opp game rooms
    → (x : ℕ) × (y : ℕ) × Aims libc (aim c w) me x y × Target (target_board me.player_num game) y x

-- at most n shots, by c and o in turn, until the game g is gone
unfoldable pub play : Libc → Strategy → Ref → ℕ → Ref → Ref → World → Option World
play libc aim g zero c o w = none
play libc aim g (suc n) c o w = elim (cmd_game_fire libc c (aim c w) w) [
  | none ↦ none
  | some (exit, w') ↦ elim (w'.games g) [ none ↦ some w' | some game ↦ play libc aim g n o c w' ]
]

-- the client is in the lobby and in no game
pub record Back (w : World) (p : Ref) : Type 0 where
  pub client : Client
  pub here : w.clients p ≡ some client
  pub no_game : client.game ≡ none
  pub hall : client.state ≡ in_lobby

foe-player :
    (me : Client) (game : Game) (c o : Ref)
    → Seats me game c o
    → foe (foe me.player_num) ≡ me.player_num
foe-player me game c o (first n h1 h2) = ground arith
foe-player me game c o (second n h1 h2) = ground arith

-- after a shot that does not end the game it is the other one's turn
module _ (w w' : World) (c o g : Ref) (me opp : Client) (game game' : Game)
    (rooms : ArrayList.ArrayList Ref) (duel : Duel w c o g me opp game rooms)
    (shot : Shot w w' c o g me opp game') (now : Side me.player_num game')
    (now' : Side (foe me.player_num) game') (moved : Moved me.player_num game game') where
  abbrev next : Client
  next = record opp { state = playing }

  abbrev last : Client
  last = record me { state = in_game }

  facing_next : Seats me game c o → opponent opp.player_num game' ≡ some c
  unfolding opponent
  facing_next (first n h1 h2) = ground (arith, duel.numbered, moved.first_player)
  facing_next (second n h1 h2) = ground (arith, duel.numbered, moved.second_player)

  Opposed-next : Seats me game c o → Opposed w' o c g next last game'
  Opposed-next seats = record {
    mine = shot.plays;
    other = shot.waits;
    apart = λ e. duel.opposed.apart (sym e);
    in_it = duel.opp_in_it;
    at_g = shot.game;
    facing = facing_next seats;
  }

  Seats-next : Seats me game c o → Seats next game' o c
  Seats-next (first n h1 h2) =
      second (duel.numbered ∙ rw n refl) (moved.first_player ∙ h1) (moved.second_player ∙ h2)
  Seats-next (second n h1 h2) =
      first (duel.numbered ∙ rw n refl) (moved.first_player ∙ h1) (moved.second_player ∙ h2)

  Duel-next : Duel w' o c g next last game' rooms
  Duel-next = record {
    opposed = Opposed-next duel.seats;
    seats = Seats-next duel.seats;
    turn = refl;
    opp_in_it = duel.opposed.in_it;
    numbered = sym (ap foe duel.numbered ∙ foe-player me game c o duel.seats);
    side = rw duel.numbered now';
    side' = rw (duel.numbered, foe-player me game c o duel.seats) now;
    deleted = rw (shot.list.0, moved.number) duel.deleted;
  }

  -- the unshot squares of the two boards
  fewer_next :
      unshot (target_board next.player_num game')
        + unshot (target_board (foe next.player_num) game')
      < unshot (target_board me.player_num game) + unshot (target_board (foe me.player_num) game)
  fewer_next =
      rw (duel.numbered, foe-player me game c o duel.seats, moved.targets.board)
        (omega (arith, moved.less))

-- the game is over, and both players are in the lobby
pub record Ended (w : World) (c o g : Ref) : Type 0 where
  pub gone : w.games g ≡ none
  pub one : Back w c
  pub two : Back w o

Ended-swap : (w : World) (c o g : Ref) → Ended w o c g → Ended w c o g
Ended-swap w c o g e = record { gone = e.gone; one = e.two; two = e.one }

Ended-Over :
    (w w' : World) (c o g : Ref) (me opp : Client) (rooms : ArrayList.ArrayList Ref)
    → Over w w' c o g me opp rooms
    → Ended w' c o g
Ended-Over w w' c o g me opp rooms over = record {
  gone = over.freed;
  one = record { client = _; here = over.one; no_game = refl; hall = refl };
  two = record { client = _; here = over.two; no_game = refl; hall = refl };
}

module _ (libc : Libc) (aim : Strategy) (well : AimsWell libc aim) (g : Ref) where
  abbrev Ends : ℕ → Ref → Ref → World → Type 0
  Ends n c o w = (w' : World) × (play libc aim g n c o w ≡ some w') × Ended w' c o g

  play_won :
      (n : ℕ) (c o : Ref) (w w' : World) (exit : Exit)
      → cmd_game_fire libc c (aim c w) w ≡ some (exit, w')
      → w'.games g ≡ none
      → play libc aim g (suc n) c o w ≡ some w'
  unfolding play
  play_won n c o w w' exit run gone = ground (arith, run, gone)

  play_on :
      (n : ℕ) (c o : Ref) (w w' : World) (exit : Exit) (game : Game)
      → cmd_game_fire libc c (aim c w) w ≡ some (exit, w')
      → w'.games g ≡ some game
      → play libc aim g (suc n) c o w ≡ play libc aim g n o c w'
  unfolding play
  play_on n c o w w' exit game run on = ground (arith, run, on)

  abbrev EndsWithin : ℕ → Type 0
  EndsWithin n =
      (w : World) (c o : Ref) (me opp : Client) (game : Game) (rooms : ArrayList.ArrayList Ref)
      → Duel w c o g me opp game rooms
      → unshot (target_board me.player_num game) + unshot (target_board (foe me.player_num) game)
        ≤ n
      → Ends n c o w

  play-Shot :
      (n : ℕ) (w w' : World) (c o : Ref) (me opp : Client) (game game' : Game)
      (rooms : ArrayList.ArrayList Ref) (exit : Exit)
      → EndsWithin n
      → Duel w c o g me opp game rooms
      → unshot (target_board me.player_num game) + unshot (target_board (foe me.player_num) game)
        ≤ suc n
      → cmd_game_fire libc c (aim c w) w ≡ some (exit, w')
      → Shot w w' c o g me opp game'
      → Side me.player_num game'
      → Side (foe me.player_num) game'
      → Moved me.player_num game game'
      → Ends (suc n) c o w
  play-Shot n w w' c o me opp game game' rooms exit rest duel few run shot now now' moved =
      let less = fewer_next w w' c o g me opp game game' rooms duel shot now now' moved in
      let (w2, runs, ended) =
        rest w' o c _ _ game' rooms
          (Duel-next w w' c o g me opp game game' rooms duel shot now now' moved)
          (omega (arith, less)) in
      (w2, play_on n c o w w' exit game' run shot.game ∙ runs, Ended-swap w2 c o g ended)

  play-Fired :
      (n : ℕ) (w w' : World) (c o : Ref) (me opp : Client) (game : Game)
      (rooms : ArrayList.ArrayList Ref) (exit : Exit) (y x : ℕ)
      → EndsWithin n
      → Duel w c o g me opp game rooms
      → unshot (target_board me.player_num game) + unshot (target_board (foe me.player_num) game)
        ≤ suc n
      → cmd_game_fire libc c (aim c w) w ≡ some (exit, w')
      → Fired w w' c o g me opp game rooms y x
      → Ends (suc n) c o w
  play-Fired n w w' c o me opp game rooms exit y x rest duel few run
        (missed game' e shot now now' l moved) =
      play-Shot n w w' c o me opp game game' rooms exit rest duel few run shot now now' moved
  play-Fired n w w' c o me opp game rooms exit y x rest duel few run
        (struck k game' e shot now now' l moved) =
      play-Shot n w w' c o me opp game game' rooms exit rest duel few run shot now now' moved
  play-Fired n w w' c o me opp game rooms exit y x rest duel few run (won k e l over) =
      let ended = Ended-Over w w' c o g me opp rooms over in
      (w', play_won n c o w w' exit run ended.gone, ended)

  play-EndsWithin : (n : ℕ) → EndsWithin n
  play-EndsWithin zero w c o me opp game rooms duel few =
      let (x, y, aims, target) = well w c o g me opp game rooms duel in
      let some_unshot =
        unshot_positive (target_board me.player_num game) y x aims.y_lt aims.x_lt
          (Target-unshot (target_board me.player_num game) y x target) in
      absurd (omega (arith, some_unshot, few))
  play-EndsWithin (suc n) w c o me opp game rooms duel few =
      let (x, y, aims, target) = well w c o g me opp game rooms duel in
      let (w', run, fired) =
        cmd_game_fire-Fired libc w c o g me opp game (aim c w) x y rooms duel.opposed duel.seats
          aims duel.side duel.side' duel.deleted target in
      play-Fired n w w' c o me opp game rooms success y x (play-EndsWithin n) duel few run fired

  -- Two players of a started game, each facing a fleet that is not sunk, shoot in turn, each time at
  -- an empty square or at a ship's square. Then the game ends after at most 200 shots: it is gone, and
  -- both players are in the lobby and in no game.
  pub play-Ended :
      (w : World) (c o : Ref) (me opp : Client) (game : Game) (rooms : ArrayList.ArrayList Ref)
      → Duel w c o g me opp game rooms
      → (w' : World) × (play libc aim g 200 c o w ≡ some w') × Ended w' c o g
  play-Ended w c o me opp game rooms duel =
      let b = unshot_bound (target_board me.player_num game) in
      let b' = unshot_bound (target_board (foe me.player_num) game) in
      play-EndsWithin 200 w c o me opp game rooms duel (omega (arith, b, b'))
