-- ===== src/Game/Placement/Neighbours.antt =====
-- What the test of the squares around a new one, in the loop of `cmd_game_prepared`, says.
use ups_sp.Prelude.{
  ℕ, ◌+◌, ◌-◌, ◌≤◌, ◌<◌, ◌≡◌, ◌⊎◌, inl, inr, Bool, true, false, ◌&&◌, ◌||◌, ltb, ◌==◌, arith,
}
use ups_sp.Game.Board.{Board, is_digit}
use ups_sp.Game.Placement.{foreign, touches, next_x, next_y}

-- the squares in front of (y, x), row by row
abbrev pub passed : ℕ → ℕ → ℕ → ℕ → Bool
passed y x j i = (ltb j y || j == y && ltb i x) && ltb i 10

pub passed_next :
    (y x j i : ℕ)
    → x < 10
    → passed (next_y y x) (next_x x) j i ≡ (passed y x j i || j == y && i == x)
passed_next y x j i h = ground arith

abbrev pub Near : ℕ → ℕ → Type 0
Near a b = (a ≤ b + 1) × (b ≤ a + 1)

-- the square after the passed ones, with a character that agrees with every digit around it
module _ (y x : ℕ) (b : Board) (c : ℕ) where
  abbrev pub Agrees : Type 0
  Agrees =
      (j i : ℕ)
      → passed y x j i ≡ true
      → Near j y
      → Near i x
      → is_digit (b j i) ≡ true
      → is_digit c ≡ true
      → b j i ≡ c

Near-passed :
    (y x j i : ℕ)
    → passed y x j i ≡ true
    → Near j y
    → Near i x
    → ((j ≡ y - 1) × (i ≡ x) × (0 < y))
      ⊎ ((j ≡ y) × (i ≡ x - 1) × (0 < x))
      ⊎ ((j ≡ y - 1) × (i ≡ x - 1) × (0 < x) × (0 < y))
      ⊎ ((j ≡ y - 1) × (i ≡ x + 1) × (x < 9) × (0 < y))
Near-passed y x j i p nj ni = ground arith

foreign-eq : (d n : ℕ) → foreign d n ≡ false → is_digit d ≡ true → d ≡ b'0' + n
unfolding foreign
foreign-eq d n f h = ground arith

module _ (b : Board) (y x n : ℕ) (t : touches b y x n ≡ false) where
  not_above : 0 < y → foreign (b (y - 1) x) n ≡ false
  unfolding touches
  not_above h = ground arith

  not_left : 0 < x → foreign (b y (x - 1)) n ≡ false
  unfolding touches
  not_left h = ground arith

  not_above_left : 0 < x → 0 < y → foreign (b (y - 1) (x - 1)) n ≡ false
  unfolding touches
  not_above_left h k = ground arith

  not_above_right : x < 9 → 0 < y → foreign (b (y - 1) (x + 1)) n ≡ false
  unfolding touches
  not_above_right h k = ground arith

  pub touches-Agrees : Agrees y x b (b'0' + n)
  touches-Agrees j i p nj ni d d' =
      foreign-eq (b j i) n
        (elim (Near-passed y x j i p nj ni) [
          | inl (ej, ei, h) ↦ rw (ej, ei) (not_above h)
          | inr (inl (ej, ei, h)) ↦ rw (ej, ei) (not_left h)
          | inr (inr (inl (ej, ei, h, k))) ↦ rw (ej, ei) (not_above_left h k)
          | inr (inr (inr (ej, ei, h, k))) ↦ rw (ej, ei) (not_above_right h k)
        ])
        d
