-- ===== src/Commands/Fire/Moves.antt =====
-- What an accepted shot changes of a game.
use ups_sp.Prelude.{ℕ, ◌+◌, ◌<◌, ◌≡◌, Bool, some, arith}
use ups_sp.Game.Board.{Board, empty_square, missed_square, put_square}
use ups_sp.Game.Battle.Unshot.{unshot, unshot_less}
use ups_sp.Game.Placement.{Fleet}
use ups_sp.Server.{Game}
use ups_sp.Commands.Fire.{target_board, target_ships, with_target, count_sunk, hit_ship}
use ups_sp.Commands.Fire.Strikes.{Struck}
use ups_sp.Commands.Fire.Sides.{
  foe, Untouched, with_target-Untouched, hit_ship-Untouched, targets-with_target,
}

-- the player p has shot: a square less is unshot on the board he shoots at, the other board is as it
-- was, and so are the players, the number and the state of the game
pub record Moved (p : ℕ) (game game' : Game) : Type 0 where
  pub less : unshot (target_board p game') < unshot (target_board p game)
  pub targets : Untouched (foe p) game game'
  pub first_player : game'.player1 ≡ game.player1
  pub second_player : game'.player2 ≡ game.player2
  pub number : game'.id ≡ game.id
  pub stage : game'.state ≡ game.state

players-with_target :
    (p : ℕ) (b : Board) (f : Fleet) (game : Game)
    → ((with_target p b f game).player1 ≡ game.player1)
      × ((with_target p b f game).player2 ≡ game.player2)
      × ((with_target p b f game).id ≡ game.id)
      × ((with_target p b f game).state ≡ game.state)
unfolding with_target
players-with_target p b f game = (ground arith, ground arith, ground arith, ground arith)

players-hit_ship :
    (p n y x : ℕ) (game game' : Game) (d : Bool)
    → hit_ship p n y x game ≡ some (d, game')
    → (game'.player1 ≡ game.player1)
      × (game'.player2 ≡ game.player2)
      × (game'.id ≡ game.id)
      × (game'.state ≡ game.state)
unfolding hit_ship with_target count_sunk
players-hit_ship p n y x game game' d e = (ground arith, ground arith, ground arith, ground arith)

pub Moved-miss :
    (p y x : ℕ) (game : Game)
    → y < 10
    → x < 10
    → target_board p game y x ≡ empty_square
    → Moved p game (
        with_target p
          (put_square (target_board p game) y x missed_square)
          (target_ships p game)
          game)
unfolding put_square
Moved-miss p y x game hy hx water =
    let b = target_board p game in
    let b' = put_square b y x missed_square in
    let (eb, ef, es) = targets-with_target p game b' (target_ships p game) in
    let (e1, e2, e3, e4) = players-with_target p b' (target_ships p game) game in
    record {
      less =
          rw eb (
            unshot_less b b' y x hy hx (ground arith) (ground arith) (λ j i hj hi u. ground arith));
      targets = with_target-Untouched p game b' (target_ships p game);
      first_player = e1;
      second_player = e2;
      number = e3;
      stage = e4;
    }

pub Moved-hit :
    (p n sy sx y x : ℕ) (game game' : Game) (d : Bool)
    → y < 10
    → x < 10
    → n < 7
    → target_board p game y x ≡ b'0' + n
    → hit_ship p n y x game ≡ some (d, game')
    → Struck p n sy sx y x game d game'
    → Moved p game game'
unfolding put_square
Moved-hit p n sy sx y x game game' d hy hx h digit run s =
    let (e1, e2, e3, e4) = players-hit_ship p n y x game game' d run in
    record {
      less =
          unshot_less (target_board p game) (target_board p game') y x hy hx (ground arith)
            (ground (arith, s.board y x)) (λ j i hj hi u. ground (arith, s.board j i));
      targets = hit_ship-Untouched p game n y x game' d run;
      first_player = e1;
      second_player = e2;
      number = e3;
      stage = e4;
    }
