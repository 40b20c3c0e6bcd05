-- ===== src/Game/Samples.antt =====
-- The sample boards of game_prepared.txt, and a ship.
use ups_sp.Prelude.{true, Bytes, codes}
use ups_sp.Prelude.Int.{pos}
use ups_sp.Game.Ship.{Ship}
use ups_sp.Game.Board.{Board, empty_square}

abbrev pub sea : Board
sea j i = empty_square

-- the second board of the file
abbrev pub good_text : Bytes
good_text =
    codes
      "EE0EEE3EEEEE0EEE3EEEEE0EEEEEEEEE0E55E111EEEEEEEEEEEEEEEEEEEEEEEEEEE6EEEE2EE4EEEEEE2EE4EEEEEE2EEEEEEE"

-- the board with a gap in ship 0
abbrev pub gap_text : Bytes
gap_text =
    codes
      "EE0EEE3EEEEE0EEE3EEEEEEEEEEEEEEE0E55E111EEEEEEEEEEEEEEEEEEEEEEEEEEE6EEEE2EE4EEEEEE2EE4EEEEEE2EEEEEEE"

-- three squares down from row 4, column 9
abbrev pub cruiser : Ship
cruiser = record {
  id = 1;
  start_x = pos 9;
  start_y = pos 4;
  vertical = true;
  length = 3;
  health = pos 0;
}
