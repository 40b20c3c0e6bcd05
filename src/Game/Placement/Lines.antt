-- ===== src/Game/Placement/Lines.antt =====
-- `ship_place` of game/ship.c: a ship is a straight line of squares, which a placement extends.
use ups_sp.Prelude.{
  ℕ, ◌+◌, ◌<◌, ◌≡◌, refl, ◌⊎◌, inl, inr, Bool, true, false, ◌&&◌, ◌||◌, ltb, leb, ◌==◌, arith,
}
use ups_sp.Prelude.Int.{ℤ, pos, negsuc}
use ups_sp.Game.Ship.{Ship, minus_one, ship_init, with_start, with_direction, continues, ship_place}

-- the squares of n in a line from (y, x)
abbrev pub line : Bool → ℕ → ℕ → ℕ → ℕ → ℕ → Bool
line true n y x j i = i == x && leb y j && ltb j (y + n)
line false n y x j i = j == y && leb x i && ltb i (x + n)

-- a ship without a square, or with one or more from a start on
pub data IsShape (s : Ship) : Type 0 where
  unplaced :
      s.length ≡ 0
      → s.start_x ≡ minus_one
      → s.start_y ≡ minus_one
      → s.vertical ≡ false
      → s.health ≡ pos 0
      → IsShape s
  placed :
      (y x : ℕ)
      → s.start_y ≡ pos y
      → s.start_x ≡ pos x
      → 0 < s.length
      → s.health ≡ pos s.length
      → IsShape s

-- the squares that the ship covers
abbrev covers_from : Bool → ℕ → ℤ → ℤ → ℕ → ℕ → Bool
covers_from v n (pos y) (pos x) j i = line v n y x j i
covers_from v n (pos y) (negsuc x) j i = false
covers_from v n (negsuc y) x j i = false

unfoldable pub covers : Ship → ℕ → ℕ → Bool
covers s j i = covers_from s.vertical s.length s.start_y s.start_x j i

pub ship_init-IsShape : (id : ℕ) → IsShape (ship_init id)
unfolding ship_init
ship_init-IsShape id = unplaced refl refl refl refl refl

pub covers-ship_init : (id j i : ℕ) → covers (ship_init id) j i ≡ false
unfolding ship_init covers
covers-ship_init id j i = refl

line_single : (v w : Bool) (y x j i : ℕ) → line v 1 y x j i ≡ line w 1 y x j i
line_single true true y x j i = refl
line_single false false y x j i = refl
line_single true false y x j i = ground arith
line_single false true y x j i = ground arith

line_down :
    (n y x j i : ℕ) → line true (n + 1) y x j i ≡ (line true n y x j i || j == y + n && i == x)
line_down n y x j i = ground arith

line_right :
    (n y x j i : ℕ) → line false (n + 1) y x j i ≡ (line false n y x j i || j == y && i == x + n)
line_right n y x j i = ground arith

module _ (s : Ship) (x y : ℕ) where
  covers_first :
      s.length ≡ 0
      → s.start_x ≡ minus_one
      → s.start_y ≡ minus_one
      → s.vertical ≡ false
      → (ship_place s x y).0 ≡ true
      → (j i : ℕ) → covers (ship_place s x y).1 j i ≡ (covers s j i || j == y && i == x)
  unfolding ship_place with_start with_direction continues covers
  covers_first n sx sy v good j i = ground arith

  module _ (y0 x0 : ℕ) (sy : s.start_y ≡ pos y0) (sx : s.start_x ≡ pos x0) where
    place_start : ((ship_place s x y).1.start_y ≡ pos y0) × ((ship_place s x y).1.start_x ≡ pos x0)
    unfolding ship_place with_start with_direction
    place_start = ground arith

    place_length : (ship_place s x y).1.length ≡ s.length + 1
    unfolding ship_place with_start with_direction
    place_length = ground arith

    place_turn : ((ship_place s x y).1.vertical ≡ s.vertical) ⊎ (s.length ≡ 1)
    unfolding ship_place with_start with_direction
    place_turn = ground arith

    place_end :
        (ship_place s x y).0 ≡ true
        → (((ship_place s x y).1.vertical ≡ true) × (x ≡ x0) × (y ≡ y0 + s.length))
          ⊎ (((ship_place s x y).1.vertical ≡ false) × (y ≡ y0) × (x ≡ x0 + s.length))
    unfolding ship_place with_start with_direction continues
    place_end good = ground arith

    line_turn :
        (j i : ℕ)
        → line s.vertical s.length y0 x0 j i ≡ line (ship_place s x y).1.vertical s.length y0 x0 j i
    line_turn j i = elim place_turn [ inl e ↦ rw e | inr one ↦ rw one (line_single _ _ y0 x0 j i) ]

    covers_more :
        (ship_place s x y).0 ≡ true
        → (j i : ℕ)
        → line (ship_place s x y).1.vertical (s.length + 1) y0 x0 j i
          ≡ (line s.vertical s.length y0 x0 j i || j == y && i == x)
    covers_more good j i = rw (line_turn j i) (elim (place_end good) [
      | inl (v, ex, ey) ↦ rw (v, ex, ey) (line_down s.length y0 x0 j i)
      | inr (v, ey, ex) ↦ rw (v, ey, ex) (line_right s.length y0 x0 j i)
    ])

  -- A placement that is accepted adds the square to the squares of the ship, and no other.
  pub covers-ship_place :
      IsShape s
      → (ship_place s x y).0 ≡ true
      → (j i : ℕ) → covers (ship_place s x y).1 j i ≡ (covers s j i || j == y && i == x)
  unfolding covers
  covers-ship_place (unplaced n sx sy v h) good j i = covers_first n sx sy v good j i
  covers-ship_place (placed y0 x0 sy sx n h) good j i =
      simp
        (sy, sx, (place_start y0 x0 sy sx).0, (place_start y0 x0 sy sx).1, place_length y0 x0 sy sx)
        (covers_more y0 x0 sy sx good j i)

  pub ship_place-IsShape : IsShape s → IsShape (ship_place s x y).1
  unfolding ship_place with_start with_direction
  ship_place-IsShape (unplaced n sx sy v h) =
      placed y x (ground arith) (ground arith) (ground arith) (ground arith)
  ship_place-IsShape (placed y0 x0 sy sx n h) =
      placed y0 x0 (ground arith) (ground arith) (ground arith) (ground arith)
