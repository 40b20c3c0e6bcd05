-- ===== src/Commands/Info/Examples.antt =====
-- Answers of `cmd_game_info` at concrete states.
use ups_sp.Prelude.{ℕ, inl, inr, ◌&&◌, leb, ◌==◌, Bool-cases, ◌<◌, ◌≡◌, refl, some, [], arith}
use ups_sp.Prelude.Int.{pos}
use ups_sp.Game.Samples.{sea}
use ups_sp.Server.{World, success}
use ups_sp.Server.Send.{record_sent}
use ups_sp.Commands.Samples.{with_cruiser, libc, battle, world, ann, bob, one_ship}
use ups_sp.Commands.Prepare.Starts.{first}
use ups_sp.Commands.Fire.{target_board}
use ups_sp.Commands.Info.{Tails, cmd_game_info}
use ups_sp.Commands.Info.Answers.{
  Hidden, Alike, covered, Faces, answer, sent_in, elsewhere, cmd_game_info_bounds,
  cmd_game_info-seen,
}

abbrev state : World
state = world ann bob battle

-- a zero follows each of the arrays
abbrev closed_by_zero : Tails
closed_by_zero = record { after_own = []; after_seen = [] }

ann-Faces : Faces state 0 1 5 ann bob battle
ann-Faces = record {
  mine = refl;
  other = refl;
  apart = ground arith;
  in_it = refl;
  at_g = refl;
  seats = first refl refl refl;
  gaming = refl;
}

cmd_game_info_bounds_example :
    cmd_game_info libc closed_by_zero 0 state
    ≡ some (
      success,
      record_sent libc (pos 4) (answer libc state 0 1 5 ann bob battle closed_by_zero) state,
    )
cmd_game_info_bounds_example =
    cmd_game_info_bounds libc state 0 1 5 ann bob battle closed_by_zero ann-Faces

-- the cruiser is not seen
with_cruiser-Hidden : (j i : ℕ) → Hidden (with_cruiser j i)
with_cruiser-Hidden j i = elim (Bool-cases (i == 9 && leb 4 j && leb j 6)) [
  | inl there ↦ rw there (inr (omega arith, omega arith))
  | inr water ↦ rw water (inl refl)
]

sea-Alike : (j i : ℕ) → j < 10 → i < 10 → Alike (target_board 1 battle j i) (sea j i)
unfolding target_board
sea-Alike j i hj hi = covered (with_cruiser-Hidden j i) (inl refl)

cmd_game_info-seen_example :
    sent_in (
      cmd_game_info libc closed_by_zero 0
        (elsewhere libc state 0 1 5 ann bob battle closed_by_zero sea one_ship))
    ≡ sent_in (cmd_game_info libc closed_by_zero 0 state)
cmd_game_info-seen_example =
    cmd_game_info-seen libc state 0 1 5 ann bob battle closed_by_zero sea one_ship ann-Faces
      sea-Alike
