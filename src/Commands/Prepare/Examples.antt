-- ===== src/Commands/Prepare/Examples.antt =====
-- Boards sent to `cmd_game_prepared` at concrete states.
use ups_sp.Prelude.{◌≡◌, refl, none, some, [], ◌∷◌, codes, ◌==◌, if◌then◌else◌, arith}
use ups_sp.Prelude.Int.{pos}
use ups_sp.Game.Ship.{ship_init, ship_place, with_start, with_direction, continues}
use ups_sp.Game.Board.{put_square}
use ups_sp.Game.Placement.{
  clean_ships, put_ship, foreign, touches, square, scan, lengths_from, place_fleet,
}
use ups_sp.Game.Samples.{good_text, gap_text}
use ups_sp.Server.{Client, Game, World, preparing, in_game, playing, success, failure}
use ups_sp.Server.Send.{message, decimal, record_sent}
use ups_sp.Commands.Args.{Args}
use ups_sp.Commands.Prepare.{board_text, own_board, own_ships, cmd_game_prepared}
use ups_sp.Commands.Prepare.Starts.{
  first, second, Prepares, Accepted, checked, with_checked, cmd_game_prepared-waits,
  cmd_game_prepared-starts, cmd_game_prepared-rejected,
}
use ups_sp.Commands.Rooms.Joins.{fresh_game}
use ups_sp.Commands.Samples.{libc, battle, world, ann, bob}

-- both players prepare
abbrev before : Game
before = fresh_game battle

abbrev ann_prepares : Client
ann_prepares = record ann { state = preparing }

abbrev bob_prepares : Client
bob_prepares = record bob { state = preparing }

abbrev preparations : World
preparations = world ann_prepares bob_prepares before

abbrev good_board : Args
good_board = some good_text ∷ []

abbrev gap_board : Args
gap_board = some gap_text ∷ []

ann_sends_good : Prepares preparations 0 1 5 ann_prepares bob_prepares before good_board good_text
unfolding board_text
ann_sends_good = record {
  mine = refl;
  other = refl;
  apart = ground arith;
  in_it = refl;
  at_g = refl;
  seats = first refl refl refl;
  state = refl;
  asked = refl;
}

ann_sends_gap : Prepares preparations 0 1 5 ann_prepares bob_prepares before gap_board gap_text
unfolding board_text
ann_sends_gap = record {
  mine = refl;
  other = refl;
  apart = ground arith;
  in_it = refl;
  at_g = refl;
  seats = first refl refl refl;
  state = refl;
  asked = refl;
}

-- and bob as the second one
bob_sends_good :
    Prepares
      (world (record ann { state = in_game }) bob_prepares before)
      1
      0
      5
      bob_prepares
      (record ann { state = in_game })
      before
      good_board
      good_text
unfolding board_text
bob_sends_good = record {
  mine = refl;
  other = refl;
  apart = ground arith;
  in_it = refl;
  at_g = refl;
  seats = second refl refl refl;
  state = refl;
  asked = refl;
}

ann_is_placed : (checked ann_prepares before good_text).error ≡ none
unfolding place_fleet scan square touches foreign put_square put_ship clean_ships ship_init
    ship_place with_start with_direction continues lengths_from own_board own_ships
ann_is_placed = refl

bob_is_placed : (checked bob_prepares before good_text).error ≡ none
unfolding place_fleet scan square touches foreign put_square put_ship clean_ships ship_init
    ship_place with_start with_direction continues lengths_from own_board own_ships
bob_is_placed = refl

ann_has_gap : (checked ann_prepares before gap_text).error ≡ some 10
unfolding place_fleet scan square touches foreign put_square put_ship clean_ships ship_init
    ship_place with_start with_direction continues lengths_from own_board own_ships
ann_has_gap = refl

cmd_game_prepared-waits_example :
    (w' : World) × (cmd_game_prepared libc 0 good_board preparations ≡ some (success, w'))
    × Accepted libc preparations 0 1 5 ann_prepares bob_prepares before good_board good_text in_game
        preparing w'
cmd_game_prepared-waits_example =
    cmd_game_prepared-waits libc preparations 0 1 5 ann_prepares bob_prepares before good_board
      good_text ann_sends_good ann_is_placed refl

cmd_game_prepared-starts_example :
    (w' : World) × (cmd_game_prepared libc 1 good_board
        (world (record ann { state = in_game }) bob_prepares before)
      ≡ some (success, w'))
    × Accepted libc
        (world (record ann { state = in_game }) bob_prepares before)
        1
        0
        5
        bob_prepares
        (record ann { state = in_game })
        before
        good_board
        good_text
        in_game
        playing
        w'
cmd_game_prepared-starts_example =
    cmd_game_prepared-starts libc (world (record ann { state = in_game }) bob_prepares before) 1 0 5
      bob_prepares (record ann { state = in_game }) before good_board good_text bob_sends_good
      bob_is_placed refl

cmd_game_prepared-rejected_example :
    (cmd_game_prepared libc 0 gap_board preparations
      ≡ some (
        failure,
        record_sent libc
            (pos 4)
            (message (codes "game_prepared_err" ∷ decimal 10 ∷ []))
            (record preparations {
              games = λ h.
                  if h == 5
                  then some (with_checked ann_prepares before gap_text)
                  else preparations.games h;
            }),
      ))
    × (own_ships 1 (with_checked ann_prepares before gap_text) ≡ clean_ships)
cmd_game_prepared-rejected_example =
    cmd_game_prepared-rejected libc preparations 0 1 5 ann_prepares bob_prepares before gap_board
      gap_text 10 ann_sends_gap ann_has_gap
