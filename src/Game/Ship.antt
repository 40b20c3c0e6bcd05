-- ===== src/Game/Ship.antt =====
-- game/ship.h and game/ship.c. `length` only counts up from 0; the other numbers are `int`s.
use ups_sp.Prelude.{ℕ, ◌+◌, Bool, false, ◌||◌, not, ◌==◌, if◌then◌else◌, List, [], ◌∷◌}
use ups_sp.Prelude.Int.{ℤ, pos, negsuc, ◌+ℤ◌, ◌-ℤ◌, leb_ℤ, eqb_ℤ}

-- `vertical` is 1 for true and 0 for false.
pub record Ship : Type 0 where
  pub id : ℕ
  pub start_x : ℤ
  pub start_y : ℤ
  pub vertical : Bool
  pub length : ℕ
  pub health : ℤ

-- SHIP_0_L to SHIP_6_L
abbrev pub ship_lengths : List ℕ
ship_lengths = 4 ∷ 3 ∷ 3 ∷ 2 ∷ 2 ∷ 2 ∷ 1 ∷ []

abbrev pub minus_one : ℤ
minus_one = negsuc 0

unfoldable pub ship_init : ℕ → Ship
ship_init id = record {
  id = id;
  start_x = minus_one;
  start_y = minus_one;
  vertical = false;
  length = 0;
  health = pos 0;
}

-- the first placement of a square sets the start
unfoldable pub with_start : Ship → ℕ → ℕ → Ship
with_start s x y =
    if eqb_ℤ s.start_x minus_one || eqb_ℤ s.start_y minus_one
    then record s { start_x = pos x; start_y = pos y }
    else s

-- the second one sets the direction
unfoldable pub with_direction : Ship → ℕ → Ship
with_direction s x = if s.length == 1 then record s { vertical = eqb_ℤ s.start_x (pos x) } else s

-- the square continues the line
unfoldable pub continues : Ship → ℕ → ℕ → Bool
continues s x y =
    if s.vertical
    then not (not (eqb_ℤ s.start_x (pos x)) || not (eqb_ℤ (s.start_y +ℤ pos s.length) (pos y)))
    else not (not (eqb_ℤ s.start_y (pos y)) || not (eqb_ℤ (s.start_x +ℤ pos s.length) (pos x)))

-- true for the result 0, false for -1; the ship is changed in both cases
unfoldable pub ship_place : Ship → ℕ → ℕ → Bool × Ship
ship_place ship x y =
    let s = with_direction (with_start ship x y) x in
    (continues s x y, record s { health = s.health +ℤ pos 1; length = s.length + 1 })

-- true for the result 1
unfoldable pub ship_hit : Ship → Bool × Ship
ship_hit ship =
    let left = ship.health -ℤ pos 1 in (leb_ℤ left (pos 0), record ship { health = left })
