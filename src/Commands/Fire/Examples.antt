-- ===== src/Commands/Fire/Examples.antt =====
-- Shots of `cmd_game_fire` at concrete states.
use ups_sp.Prelude.{inr, ◌≡◌, refl, Bool, some, [], ◌∷◌, codes, ◌==◌, if◌then◌else◌, arith}
use ups_sp.Prelude.Int.{pos}
use ups_sp.ArrayList
use ups_sp.Game.Ship.{ship_init}
use ups_sp.Game.Board.{empty_square}
use ups_sp.Game.Marking.Ring.{IsOnBoard}
use ups_sp.Game.Placement.{Fleet}
use ups_sp.Game.Samples.{cruiser}
use ups_sp.Server.{Game, World, success, failure}
use ups_sp.Server.Send.{message, decimal, record_sent}
use ups_sp.Commands.Args.{Args, all_digits, number, coordinates}
use ups_sp.Commands.Fire.{target_board, target_ships, opponent, cmd_game_fire}
use ups_sp.Commands.Fire.Shots.{Opposed, Shot}
use ups_sp.Commands.Texts.{Numeral}
use ups_sp.Commands.Fire.Strikes.{Struck, sunk}
use ups_sp.Commands.Fire.Turns.{Aims, off_field, cmd_game_fire-hit, cmd_game_fire-Refused}
use ups_sp.Commands.Prepare.Starts.{first}
use ups_sp.Commands.Ends.Over.{Over}
use ups_sp.Commands.Fire.Wins.{cmd_game_fire-Over}
use ups_sp.Commands.Samples.{
  rooms_of_none, libc, with_cruiser, one_ship, battle, rooms, world, ann, bob, at_cruiser,
}

ann-bob : Opposed (world ann bob battle) 0 1 5 ann bob battle
unfolding opponent
ann-bob = record {
  mine = refl;
  other = refl;
  apart = ground arith;
  in_it = refl;
  at_g = refl;
  facing = refl;
}

Aims-cruiser : Aims libc at_cruiser ann 9 4
unfolding coordinates number all_digits libc
Aims-cruiser = record { turn = refl; asked = refl; x_lt = omega arith; y_lt = omega arith }

board_of_bob : target_board 1 battle ≡ with_cruiser
unfolding target_board
board_of_bob = refl

ships_of_bob : target_ships 1 battle ≡ one_ship
unfolding target_ships
ships_of_bob = refl

cruiser_there : target_board 1 battle 4 9 ≡ b'1'
unfolding target_board
cruiser_there = refl

sea_there : target_board 1 battle 4 0 ≡ empty_square
unfolding target_board
sea_there = refl

cruiser-IsOnBoard : IsOnBoard (target_ships 1 battle 1) 4 9
unfolding target_ships
cruiser-IsOnBoard = (refl, refl, omega arith, omega arith)

cmd_game_fire-hit_example :
    (d : Bool) × (game' : Game) × (w' : World) × (cmd_game_fire libc 0 at_cruiser
        (world ann bob battle)
      ≡ some (success, w'))
    × Struck 1 1 4 9 4 9 battle d game'
    × Shot (world ann bob battle) w' 0 1 5 ann bob game'
cmd_game_fire-hit_example =
    cmd_game_fire-hit libc (world ann bob battle) 0 1 5 ann bob battle at_cruiser 9 4 1 4 9 ann-bob
      Aims-cruiser (omega arith) cruiser_there cruiser-IsOnBoard (omega arith) (omega arith)

-- the row 12
abbrev far_away : Args
far_away = some (codes "0") ∷ some (codes "12") ∷ []

twelve_read : libc.atoi (codes "12") ≡ pos 12
unfolding libc
twelve_read = refl

digits_sent : Numeral (codes "0") × Numeral (codes "12")
digits_sent = (
  (omega arith, (omega arith, omega arith, tt)),
  (omega arith, (omega arith, omega arith, (omega arith, omega arith, tt))),
)

cmd_game_fire-Refused_example :
    cmd_game_fire libc 0 far_away (world ann bob battle)
    ≡ some (
      failure,
      record_sent libc
          (pos 4)
          (message (codes "game_fire_err" ∷ decimal 8 ∷ []))
          (world ann bob battle),
    )
cmd_game_fire-Refused_example =
    cmd_game_fire-Refused libc (world ann bob battle) 0 ann far_away 8 refl (
      off_field (codes "0") (codes "12") [] refl refl digits_sent.0 digits_sent.1
        (inr (inr (12, twelve_read, omega arith))) refl)

game_deleted : ArrayList.delete rooms 0 ≡ some rooms_of_none
unfolding ArrayList.delete ArrayList.delete_first
game_deleted = refl

-- one shot before the end
abbrev last_ship : Fleet
last_ship n = if n == 1 then record cruiser { health = pos 1 } else ship_init n

abbrev last_round : Game
last_round = record battle { p1_count = 6; player2_ships = last_ship }

last_cruiser : (target_ships 1 last_round 1).health ≡ pos 1
unfolding target_ships
last_cruiser = refl

last-IsOnBoard : IsOnBoard (target_ships 1 last_round 1) 4 9
unfolding target_ships
last-IsOnBoard = (refl, refl, omega arith, omega arith)

last_there : target_board 1 last_round 4 9 ≡ b'1'
unfolding target_board
last_there = refl

six_sunk : sunk 1 last_round ≡ 6
unfolding sunk
six_sunk = refl

last-Opposed : Opposed (world ann bob last_round) 0 1 5 ann bob last_round
unfolding opponent
last-Opposed = record {
  mine = refl;
  other = refl;
  apart = ground arith;
  in_it = refl;
  at_g = refl;
  facing = refl;
}

cmd_game_fire-Over_example :
    (w' : World) × (cmd_game_fire libc 0 at_cruiser (world ann bob last_round) ≡ some (success, w'))
    × Over (world ann bob last_round) w' 0 1 5 ann bob rooms_of_none
cmd_game_fire-Over_example =
    cmd_game_fire-Over libc (world ann bob last_round) 0 1 5 ann bob last_round at_cruiser 9 4 1 4 9
      rooms_of_none last-Opposed (first refl refl refl) Aims-cruiser (omega arith) last_there
      last-IsOnBoard last_cruiser six_sunk game_deleted
