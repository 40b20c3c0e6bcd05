-- ===== src/Commands/Args.antt =====
-- Error codes of communication/errors.h and the checks of arguments.
use ups_sp.Prelude.{ℕ, Bool, true, ◌&&◌, Option, none, some, List, [], ◌∷◌, Bytes, if◌then◌else◌}
use ups_sp.Prelude.Int.{ℤ}
use ups_sp.Game.Board.{is_digit}
use ups_sp.Server.{Libc}

abbrev pub error_internal : ℕ
error_internal = 1

abbrev pub error_user_state : ℕ
error_user_state = 5

abbrev pub error_room_full : ℕ
error_room_full = 6

abbrev pub error_room_not_accessible : ℕ
error_room_not_accessible = 7

abbrev pub error_out_of_play_field : ℕ
error_out_of_play_field = 8

abbrev pub error_already_hit : ℕ
error_already_hit = 9

abbrev pub error_server_limit_reached : ℕ
error_server_limit_reached = 12

abbrev pub Args : Type 0
Args = List (Option Bytes)

unfoldable pub all_digits : Bytes → Bool
all_digits [] = true
all_digits (c ∷ cs) = is_digit c && all_digits cs

-- a number that is not empty and has only digits
unfoldable pub number : Libc → Bytes → Option ℤ
unfolding all_digits
number libc [] = none
number libc (c ∷ cs) = if all_digits (c ∷ cs) then some (libc.atoi (c ∷ cs)) else none

abbrev both : Option ℤ → Option ℤ → Option (ℤ × ℤ)
both (some x) (some y) = some (x, y)
both (some x) none = none
both none y = none

-- x and y of a shot; `none` is answered by ERROR_FORMAT
unfoldable pub coordinates : Libc → Args → Option (ℤ × ℤ)
coordinates libc (some a ∷ some b ∷ rest) = both (number libc a) (number libc b)
coordinates libc _ = none
