-- ===== src/Commands/Fire/Duels.antt =====
-- A game between two accepted boards, at concrete inputs.
use ups_sp.Prelude.{◌+◌, ◌≡◌, inl, inr, refl, none, some, [], ◌∷◌, codes, arith}
use ups_sp.ArrayList
use ups_sp.Game.Board.{Board}
use ups_sp.Game.Samples.{sea, good_text}
use ups_sp.Game.Ship.{ship_init, with_start, with_direction, continues, ship_place}
use ups_sp.Game.Board.{put_square}
use ups_sp.Game.Placement.{
  Fleet, clean_ships, put_ship, foreign, touches, square, scan, lengths_from, place_fleet,
}
use ups_sp.Game.Placement.Fleets.{IsPlacement, place_fleet-IsPlacement}
use ups_sp.Game.Placement.Retries.{place_fleet-board}
use ups_sp.Server.{Game, World, success}
use ups_sp.Commands.Args.{Args, coordinates, number, all_digits}
use ups_sp.Commands.Prepare.{with_own}
use ups_sp.Commands.Prepare.Starts.{first}
use ups_sp.Commands.Fire.{target_board, opponent, cmd_game_fire}
use ups_sp.Commands.Fire.Shots.{Opposed}
use ups_sp.Commands.Fire.Strikes.{sunk}
use ups_sp.Commands.Fire.Turns.{Aims}
use ups_sp.Commands.Fire.Sides.{Side, foe, left}
use ups_sp.Commands.Fire.Battles.{Fired, cmd_game_fire-Fired}
use ups_sp.Commands.Fire.Rallies.{Duel, play, Ended, play-Ended}
use ups_sp.Commands.Fire.Hunts.{hunt, ReadsDigit, hunt-AimsWell}
use ups_sp.Commands.Fire.Openings.{Side-with_own, place_fleet-Side}
use ups_sp.Commands.Samples.{libc, ann, bob, battle, world, rooms, rooms_of_none}

abbrev b : Board
b = (place_fleet 1 good_text sea clean_ships).board

abbrev f : Fleet
f = (place_fleet 1 good_text sea clean_ships).fleet

accepted : (place_fleet 1 good_text sea clean_ships).error ≡ none
unfolding place_fleet scan square touches foreign put_square put_ship clean_ships ship_init
    ship_place with_start with_direction continues lengths_from
accepted = refl

b-IsPlacement : IsPlacement b f
b-IsPlacement = place_fleet-IsPlacement 1 good_text sea refl accepted

abbrev duel : Game
duel = with_own 1 b f (with_own 2 b f battle)

none_sunk : (sunk 2 (with_own 2 b f battle) ≡ 0) × (sunk 1 (with_own 1 b f battle) ≡ 0)
unfolding sunk with_own
none_sunk = (refl, refl)

Side-ann : Side 1 duel
unfolding with_own
Side-ann = (Side-with_own 2 b f (with_own 1 b f battle) (inr refl) b-IsPlacement none_sunk.1).0

Side-bob : Side 2 duel
Side-bob = (Side-with_own 1 b f (with_own 2 b f battle) (inl refl) b-IsPlacement none_sunk.0).0

duel-Opposed : Opposed (world ann bob duel) 0 1 5 ann bob duel
unfolding opponent with_own
duel-Opposed = record {
  mine = refl;
  other = refl;
  apart = ground arith;
  in_it = refl;
  at_g = refl;
  facing = refl;
}

seats : (duel.player1 ≡ some 0) × (duel.player2 ≡ some 1)
unfolding with_own
seats = (refl, refl)

abbrev at_battleship : Args
at_battleship = some (codes "2") ∷ some (codes "0") ∷ []

pub Aims-battleship : Aims libc at_battleship ann 2 0
unfolding coordinates number all_digits libc
Aims-battleship = record { turn = refl; asked = refl; x_lt = omega arith; y_lt = omega arith }

battleship_there : target_board 1 duel 0 2 ≡ b'0' + 0
unfolding target_board with_own
battleship_there =
    place_fleet-board 1 good_text sea clean_ships refl accepted 0 2 (omega arith) (omega arith)

room_deleted : ArrayList.delete rooms duel.id ≡ some rooms_of_none
unfolding ArrayList.delete ArrayList.delete_first with_own
room_deleted = refl

cmd_game_fire-Fired_example :
    (w' : World) × (cmd_game_fire libc 0 at_battleship (world ann bob duel) ≡ some (success, w'))
    × Fired (world ann bob duel) w' 0 1 5 ann bob duel rooms_of_none 0 2
cmd_game_fire-Fired_example =
    cmd_game_fire-Fired libc (world ann bob duel) 0 1 5 ann bob duel at_battleship 2 0 rooms_of_none
      duel-Opposed (first refl seats.0 seats.1) Aims-battleship Side-ann Side-bob room_deleted
      (inr (0, omega arith, battleship_there))

none_now : sunk (foe 1) battle ≡ 0
unfolding sunk
none_now = refl

place_fleet-Side_example : Side 2 (with_own 1 b f battle) × (left 2 (with_own 1 b f battle) ≡ 17)
place_fleet-Side_example = place_fleet-Side 1 good_text sea battle (inl refl) refl accepted none_now

libc-ReadsDigit : ReadsDigit libc
unfolding libc
libc-ReadsDigit n h = ground arith

duel-Duel : Duel (world ann bob duel) 0 1 5 ann bob duel rooms_of_none
duel-Duel = record {
  opposed = duel-Opposed;
  seats = first refl seats.0 seats.1;
  turn = refl;
  opp_in_it = refl;
  numbered = refl;
  side = Side-ann;
  side' = Side-bob;
  deleted = room_deleted;
}

play-Ended_example :
    (w' : World) × (play libc hunt 5 200 0 1 (world ann bob duel) ≡ some w') × Ended w' 0 1 5
play-Ended_example =
    play-Ended libc hunt (hunt-AimsWell libc libc-ReadsDigit) 5 (world ann bob duel) 0 1 ann bob
      duel rooms_of_none duel-Duel
