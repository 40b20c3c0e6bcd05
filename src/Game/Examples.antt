-- ===== src/Game/Examples.antt =====
-- The sample boards run, and the theorems on one game at concrete inputs.
use ups_sp.Prelude.{ℕ, ◌≡◌, refl, none, some, arith, true, if◌then◌else◌}
use ups_sp.Game.Ship.{ship_init, with_start, with_direction, continues, ship_place}
use ups_sp.Game.Samples.{sea, good_text, gap_text, cruiser}
use ups_sp.Game.Board.{Board, put_square, empty_square, missed_square}
use ups_sp.Game.Marking.{mark_destroyed_ship}
use ups_sp.Game.Marking.Ring.{ring, mark_destroyed_ship-Marks}
use ups_sp.Game.Placement.{
  clean_ships, put_ship, foreign, touches, square, scan, lengths_from, place_fleet,
}
use ups_sp.Game.Placement.Fleets.{IsPlacement, place_fleet-IsPlacement}

good_accepted : (place_fleet 1 good_text sea clean_ships).error ≡ none
unfolding place_fleet scan square touches foreign put_square put_ship clean_ships ship_init
    ship_place with_start with_direction continues lengths_from
good_accepted = refl

gap_rejected : (place_fleet 1 gap_text sea clean_ships).error ≡ some 10
unfolding place_fleet scan square touches foreign put_square put_ship clean_ships ship_init
    ship_place with_start with_direction continues lengths_from
gap_rejected = refl

place_fleet-IsPlacement_example :
    IsPlacement
      (place_fleet 1 good_text sea clean_ships).board
      (place_fleet 1 good_text sea clean_ships).fleet
place_fleet-IsPlacement_example = place_fleet-IsPlacement 1 good_text sea refl good_accepted

mark_destroyed_ship-Marks_example :
    (b' : Board) × (mark_destroyed_ship cruiser sea ≡ some b')
    × ((j i : ℕ) → b' j i ≡ (if ring cruiser 4 9 j i then missed_square else empty_square))
mark_destroyed_ship-Marks_example =
    mark_destroyed_ship-Marks cruiser 4 9 (refl, refl, omega arith, omega arith) sea

first_square : (ship_place (ship_init 3) 5 6).0 ≡ true
unfolding ship_place with_start with_direction continues ship_init
first_square = refl
