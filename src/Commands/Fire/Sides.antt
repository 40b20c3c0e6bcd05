-- ===== src/Commands/Fire/Sides.antt =====
-- What a player faces in a started game: the other one's fleet in play.
use ups_sp.Prelude.{ℕ, ◌+◌, ◌<◌, ◌≡◌, Bool, some, ◌==◌, if◌then◌else◌, arith, ◌∙◌, sym, ap}
use ups_sp.Game.Board.{Board}
use ups_sp.Game.Marking.Ring.{IsOnBoard}
use ups_sp.Game.Placement.{Fleet}
use ups_sp.Game.Battle.{InPlay, sunk_ships}
use ups_sp.Game.Battle.Hits.{InPlay-hit, sunk_ships-hit, remains-hit}
use ups_sp.Game.Battle.Remains.{remains, sunk_ships-remains}
use ups_sp.Server.{Game}
use ups_sp.Commands.Fire.{target_board, target_ships, with_target, count_sunk, hit_ship}
use ups_sp.Commands.Fire.Strikes.{sunk, Struck}

-- the squares that the player has still to hit
abbrev pub left : ℕ → Game → ℕ
left player game = remains 7 (target_board player game) (target_ships player game)

-- what a player shoots at: a fleet in play that is not sunk, with the right count of sunk ships
pub record Side (player : ℕ) (game : Game) : Type 0 where
  pub in_play : InPlay (target_board player game) (target_ships player game)
  pub counted : sunk player game ≡ sunk_ships 7 (target_ships player game)
  pub some_left : 0 < left player game

abbrev pub foe : ℕ → ℕ
foe player = if player == 1 then 2 else 1

-- the other player's targets are not touched
pub record Untouched (p : ℕ) (game game' : Game) : Type 0 where
  pub board : target_board p game' ≡ target_board p game
  pub ships : target_ships p game' ≡ target_ships p game
  pub count : sunk p game' ≡ sunk p game

pub Side-Untouched :
    (p : ℕ) (game game' : Game) → Untouched p game game' → Side p game → Side p game'
Side-Untouched p game game' u side = record {
  in_play = rw (u.board, u.ships) side.in_play;
  counted = u.count ∙ side.counted ∙ ap (sunk_ships 7) (sym u.ships);
  some_left = rw (u.board, u.ships) side.some_left;
}

module _ (p : ℕ) (game : Game) where
  pub hit_ship-Untouched :
      (n y x : ℕ) (game' : Game) (d : Bool)
      → hit_ship p n y x game ≡ some (d, game')
      → Untouched (foe p) game game'
  unfolding hit_ship with_target count_sunk target_board target_ships sunk
  hit_ship-Untouched n y x game' d e = record {
    board = (ground arith);
    ships = (ground arith);
    count = (ground arith);
  }

  pub with_target-Untouched :
      (b : Board) (f : Fleet) → Untouched (foe p) game (with_target p b f game)
  unfolding with_target target_board target_ships sunk
  with_target-Untouched b f = record {
    board = (ground arith);
    ships = (ground arith);
    count = (ground arith);
  }

  pub targets-with_target :
      (b : Board) (f : Fleet)
      → (target_board p (with_target p b f game) ≡ b)
        × (target_ships p (with_target p b f game) ≡ f)
        × (sunk p (with_target p b f game) ≡ sunk p game)
  unfolding with_target target_board target_ships sunk
  targets-with_target b f = (ground arith, ground arith, ground arith)

  pub sunk-few : Side p game → sunk p game < 7
  sunk-few side =
      let (few, same) =
        sunk_ships-remains 7 (target_board p game) (target_ships p game) side.in_play.health in
      ground (arith, few, same, side.counted, side.some_left)

  pub counts_few :
      sunk p game < 7 → sunk (foe p) game < 7 → (game.p1_count < 7) × (game.p2_count < 7)
  unfolding sunk
  counts_few a b = ground arith

-- the fleet after a hit on the ship n
module _ (p n sy sx y x : ℕ) (game game' : Game) (d : Bool) (side : Side p game) (h : n < 7)
    (hy : y < 10) (hx : x < 10) (digit : target_board p game y x ≡ b'0' + n)
    (placed : IsOnBoard (target_ships p game n) sy sx) (s : Struck p n sy sx y x game d game') where
  pub InPlay-hit_ship : InPlay (target_board p game') (target_ships p game')
  InPlay-hit_ship =
      InPlay-hit _ _ _ _ n sy sx y x d side.in_play h hy hx digit placed s.destroyed s.board
        s.target s.other_ships

  pub left-hit : left p game ≡ left p game' + 1
  left-hit =
      remains-hit _ _ _ _ n sy sx y x d side.in_play h hy hx digit placed s.destroyed s.board
        s.target s.other_ships

  pub counted-hit : sunk p game' ≡ sunk_ships 7 (target_ships p game')
  counted-hit =
      let more =
        sunk_ships-hit _ _ _ _ n sy sx y x d side.in_play h hy hx digit placed s.destroyed s.board
          s.target s.other_ships in
      s.counted ∙ ap (λ k. k + (if d then 1 else 0)) side.counted ∙ sym more

  pub sunk-left : (sunk p game' == 7) ≡ (left p game' == 0)
  sunk-left =
      rw counted-hit
        (sunk_ships-remains 7 (target_board p game') (target_ships p game')
          InPlay-hit_ship.health).1
