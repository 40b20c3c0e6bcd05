-- ===== src/Commands/Fire/Openings.antt =====
-- From the boards that cmd_game_prepared accepts to the game that cmd_game_fire plays.
use ups_sp.Prelude.{ℕ, ◌≡◌, ◌⊎◌, inl, inr, sym, arith, none, length, Bytes}
use ups_sp.Game.Board.{Board}
use ups_sp.Game.Placement.{Fleet, clean_ships, place_fleet}
use ups_sp.Game.Placement.Fleets.{IsPlacement, place_fleet-IsPlacement}
use ups_sp.Game.Battle.Placed.{IsPlacement-InPlay, remains-IsPlacement, sunk_ships-IsPlacement}
use ups_sp.Server.{Game}
use ups_sp.Commands.Prepare.{with_own}
use ups_sp.Commands.Fire.{target_board, target_ships}
use ups_sp.Commands.Fire.Strikes.{sunk}
use ups_sp.Commands.Fire.Sides.{Side, foe, left}

module _ (p : ℕ) (b : Board) (f : Fleet) (game : Game) (player : (p ≡ 1) ⊎ (p ≡ 2)) where
  target-with_own :
      (target_board (foe p) (with_own p b f game) ≡ b)
      × (target_ships (foe p) (with_own p b f game) ≡ f)
      × (sunk (foe p) (with_own p b f game) ≡ sunk (foe p) game)
  unfolding with_own target_board target_ships sunk
  target-with_own = elim player [
    | inl e ↦ rw e (ground arith, ground arith, ground arith)
    | inr e ↦ rw e (ground arith, ground arith, ground arith)
  ]

  pub Side-with_own :
      IsPlacement b f
      → sunk (foe p) game ≡ 0
      → Side (foe p) (with_own p b f game) × (left (foe p) (with_own p b f game) ≡ 17)
  Side-with_own placed none_sunk =
      let (eb, ef, es) = target-with_own in
      let all = remains-IsPlacement b f placed in
      (
        record {
          in_play = rw (eb, ef) (IsPlacement-InPlay b f placed);
          counted = rw (ef, es, none_sunk) (sym (sunk_ships-IsPlacement b f placed));
          some_left = rw (eb, ef, all) (omega arith);
        },
        rw (eb, ef) all,
      )

-- When the board that player p sends is accepted and the other player has sunk no ship yet, the other player
-- has a fleet in play to shoot at, with 17 squares left.
pub place_fleet-Side :
    (p : ℕ) (text : Bytes) (b : Board) (game : Game)
    → (p ≡ 1) ⊎ (p ≡ 2)
    → length text ≡ 100
    → (place_fleet p text b clean_ships).error ≡ none
    → sunk (foe p) game ≡ 0
    → let r = place_fleet p text b clean_ships in
      Side (foe p) (with_own p r.board r.fleet game)
      × (left (foe p) (with_own p r.board r.fleet game) ≡ 17)
place_fleet-Side p text b game player l e none_sunk =
    Side-with_own p _ _ game player (place_fleet-IsPlacement p text b l e) none_sunk
