-- ===== src/Commands/Fire/Strikes.antt =====
-- What a hit does to the game: `ship_hit`, the ring around a sunk ship, and the count of sunk ships.
use ups_sp.Prelude.{
  ℕ, ◌+◌, ◌<◌, ◌≡◌, refl, Bool, true, false, ◌&&◌, some, ◌==◌, if◌then◌else◌, arith, Bool-cases,
  inl, inr, sym, ap, ◌∙◌, ==_iff,
}
use ups_sp.Prelude.Int.{pos, ◌-ℤ◌, leb_ℤ}
use ups_sp.Game.Board.{Board, hit_square, missed_square, put_square}
use ups_sp.Game.Ship.{Ship, ship_hit}
use ups_sp.Game.Marking.{mark_destroyed_ship}
use ups_sp.Game.Marking.Ring.{ring, IsOnBoard, mark_destroyed_ship-Marks}
use ups_sp.Game.Placement.{put_ship}
use ups_sp.Server.{Game}
use ups_sp.Commands.Fire.{target_board, target_ships, with_target, count_sunk, hit_ship}

-- the ships that a player has sunk
unfoldable pub sunk : ℕ → Game → ℕ
sunk player game = if player == 1 then game.p1_count else game.p2_count

-- the game after a hit on the ship n that stands from (sy, sx) on
pub record Struck (player n sy sx y x : ℕ) (game : Game) (d : Bool) (game' : Game) : Type 0 where
  -- the ship is destroyed when its last point of health goes
  pub destroyed : d ≡ leb_ℤ ((target_ships player game n).health -ℤ pos 1) (pos 0)
  -- the square is hit; around a destroyed ship the squares are missed; all others are as before
  pub board :
      (j i : ℕ)
      → target_board player game' j i ≡ (
          if d && ring (target_ships player game n) sy sx j i
          then missed_square
          else put_square (target_board player game) y x hit_square j i)
  -- the ship loses a point of health, and nothing else of it changes
  pub target : target_ships player game' n ≡ record (target_ships player game n) {
    health = (target_ships player game n).health -ℤ pos 1;
  }
  pub other_ships :
      (m : ℕ) → (m == n) ≡ false → target_ships player game' m ≡ target_ships player game m
  pub counted : sunk player game' ≡ sunk player game + (if d then 1 else 0)

module _ (player n sy sx y x : ℕ) (game : Game) where
  abbrev ship : Ship
  ship = target_ships player game n

  abbrev struck : Ship
  struck = (ship_hit ship).1

  abbrev board_hit : Board
  board_hit = put_square (target_board player game) y x hit_square

  target_board-with_target :
      (b : Board) (f : ℕ → Ship) → target_board player (with_target player b f game) ≡ b
  unfolding target_board with_target
  target_board-with_target b f = ground arith

  target_board-count_sunk :
      (game : Game) → target_board player (count_sunk player game) ≡ target_board player game
  unfolding target_board count_sunk
  target_board-count_sunk game = ground arith

  target_ships-with_target :
      (b : Board) (f : ℕ → Ship) → target_ships player (with_target player b f game) ≡ f
  unfolding target_ships with_target
  target_ships-with_target b f = ground arith

  target_ships-count_sunk :
      (game : Game) → target_ships player (count_sunk player game) ≡ target_ships player game
  unfolding target_ships count_sunk
  target_ships-count_sunk game = ground arith

  sunk-with_target :
      (b : Board) (f : ℕ → Ship) → sunk player (with_target player b f game) ≡ sunk player game
  unfolding sunk with_target
  sunk-with_target b f = ground arith

  sunk-count_sunk : (game : Game) → sunk player (count_sunk player game) ≡ sunk player game + 1
  unfolding sunk count_sunk
  sunk-count_sunk game = ground arith

  struck_lem : struck ≡ record ship { health = ship.health -ℤ pos 1 }
  unfolding ship_hit
  struck_lem = refl

  struck_place : IsOnBoard ship sy sx → IsOnBoard struck sy sx
  unfolding ship_hit
  struck_place p = p

  struck-ring : (j i : ℕ) → ring struck sy sx j i ≡ ring ship sy sx j i
  unfolding ship_hit
  struck-ring j i = refl

  struck_destroyed : (ship_hit ship).0 ≡ leb_ℤ (ship.health -ℤ pos 1) (pos 0)
  unfolding ship_hit
  struck_destroyed = refl

  abbrev fleet_hit : ℕ → Ship
  fleet_hit = put_ship (target_ships player game) n struck

  fleet_hit_self : fleet_hit n ≡ struck
  unfolding put_ship
  fleet_hit_self = rw ((==_iff n n).1 refl)

  fleet_hit_ne : (m : ℕ) → (m == n) ≡ false → fleet_hit m ≡ target_ships player game m
  unfolding put_ship
  fleet_hit_ne m e = rw e

  -- with the ships hit, the board b, and d for a sunk ship
  Struck-of :
      (d : Bool) (b : Board) (game' : Game)
      → (ship_hit ship).0 ≡ d
      → target_board player game' ≡ b
      → target_ships player game' ≡ fleet_hit
      → sunk player game' ≡ sunk player game + (if d then 1 else 0)
      → ((j i : ℕ) → b j i ≡ (if d && ring ship sy sx j i then missed_square else board_hit j i))
      → Struck player n sy sx y x game d game'
  Struck-of d b game' ed eb ef es at = record {
    destroyed = sym ed ∙ struck_destroyed;
    board = λ j i. ap (λ b. b j i) eb ∙ at j i;
    target = ap (λ f. f n) ef ∙ fleet_hit_self ∙ struck_lem;
    other_ships = λ m ne. ap (λ f. f m) ef ∙ fleet_hit_ne m ne;
    counted = es;
  }

  hit_ship_alive :
      n < 7
      → (ship_hit ship).0 ≡ false
      → hit_ship player n y x game ≡ some (false, with_target player board_hit fleet_hit game)
  unfolding hit_ship
  hit_ship_alive h e = ground arith

  hit_ship_dead :
      (b : Board)
      → n < 7
      → (ship_hit ship).0 ≡ true
      → mark_destroyed_ship struck board_hit ≡ some b
      → hit_ship player n y x game
        ≡ some (true, count_sunk player (with_target player b fleet_hit game))
  unfolding hit_ship
  hit_ship_dead b h e m = ground arith

  -- A hit on one of the seven ships, standing on the board, stays within the arrays. The square becomes a
  -- hit one, the ship loses a point of health, and if that was the last one the squares around it
  -- become missed ones and the shooter has sunk one ship more. Nothing else on the board changes.
  pub hit_ship-Struck :
      n < 7
      → IsOnBoard (target_ships player game n) sy sx
      → (d : Bool) × (game' : Game) × (hit_ship player n y x game ≡ some (d, game'))
        × Struck player n sy sx y x game d game'
  hit_ship-Struck h p = elim (Bool-cases (ship_hit ship).0) [
    | inr alive ↦
        let game' = with_target player board_hit fleet_hit game in
        (
          false,
          game',
          hit_ship_alive h alive,
          Struck-of false board_hit game' alive (target_board-with_target board_hit fleet_hit)
              (target_ships-with_target board_hit fleet_hit)
              (omega (arith, sunk-with_target board_hit fleet_hit)) (λ j i. refl),
        )
    | inl dead ↦
        let (b, run, at) = mark_destroyed_ship-Marks struck sy sx (struck_place p) board_hit in
        let game1 = with_target player b fleet_hit game in
        (
          true,
          count_sunk player game1,
          hit_ship_dead b h dead run,
          Struck-of true b (count_sunk player game1) dead
              (target_board-count_sunk game1 ∙ target_board-with_target b fleet_hit)
              (target_ships-count_sunk game1 ∙ target_ships-with_target b fleet_hit)
              (omega (arith, sunk-count_sunk game1, sunk-with_target b fleet_hit))
              (λ j i.
                at j i ∙ ap (λ r. if r then missed_square else board_hit j i) (struck-ring j i)),
        )
  ]
