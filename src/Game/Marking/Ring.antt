-- ===== src/Game/Marking/Ring.antt =====
-- Which squares `mark_destroyed_ship` of game/shipsGame.c changes: the ring around the ship.
use ups_sp.Prelude.{ℕ, ◌+◌, ◌≤◌, ◌≡◌, if◌then◌else◌, arith, Bool-cases, inl, inr}
use ups_sp.Prelude.Int.{pos}
use ups_sp.Game.Ship.{Ship}
use ups_sp.Game.Marking.{mark_from, mark_destroyed_ship}
use ups_sp.Game.Marking.Marks.{Squares, Marks}
use ups_sp.Game.Marking.Down.{ring_down, mark_vertical-Marks}
use ups_sp.Game.Marking.Across.{ring_right, mark_horizontal-Marks}

-- a placed ship lies on the board, from (y, x) on
abbrev pub IsOnBoard : Ship → ℕ → ℕ → Type 0
IsOnBoard s y x =
    (s.start_y ≡ pos y)
    × (s.start_x ≡ pos x)
    × ((if s.vertical then y + s.length else y + 1) ≤ 10)
    × ((if s.vertical then x + 1 else x + s.length) ≤ 10)

abbrev pub ring : Ship → ℕ → ℕ → Squares
ring s y x = if s.vertical then ring_down s.length y x else ring_right s.length y x

-- For a ship on the board no write leaves the board; exactly the squares next to the ship, corners
-- included, become missed ones, and all other squares, the ship's own too, stay as they are.
pub mark_destroyed_ship-Marks :
    (s : Ship) (y x : ℕ) → IsOnBoard s y x → Marks (mark_destroyed_ship s) (ring s y x)
unfolding mark_destroyed_ship mark_from
mark_destroyed_ship-Marks s y x (ey, ex, fy, fx) b = elim (Bool-cases s.vertical) [
  | inl v ↦
      rw (ey, ex, mark_from, v)
        (mark_vertical-Marks s.length y x (rw v at fy) (omega (arith, rw v at fx)) b)
  | inr v ↦
      rw (ey, ex, mark_from, v)
        (mark_horizontal-Marks s.length y x (rw v at fx) (omega (arith, rw v at fy)) b)
]
