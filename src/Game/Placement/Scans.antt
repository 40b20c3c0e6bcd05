-- ===== src/Game/Placement/Scans.antt =====
-- What the loop of `cmd_game_prepared` has checked when it gets through: the invariant of its rounds.
use ups_sp.Prelude.{
  ℕ, ◌+◌, ◌*◌, ◌<◌, ◌≡◌, refl, ◌⊎◌, inl, inr, Bool, true, false, ◌&&◌, ◌||◌, ◌==◌, arith,
  Bool-cases, [], ◌∷◌, Bytes, none, ==_iff, length, ◌∙◌, sym,
}
use ups_sp.Game.Board.{Board, empty_square, is_digit, put_square}
use ups_sp.Game.Ship.{ship_place}
use ups_sp.Game.Placement.{
  Fleet, clean_ships, put_ship, touches, Square, bad_number, bad_format, water, part, square, scan,
  next_x, next_y,
}
use ups_sp.Game.Placement.Lines.{
  IsShape, covers, covers-ship_init, ship_init-IsShape, covers-ship_place, ship_place-IsShape,
}
use ups_sp.Game.Placement.Neighbours.{passed, passed_next, Near, Agrees, touches-Agrees}

-- what the rounds up to (y, x) have established
pub record Checked (y x : ℕ) (b : Board) (f : Fleet) : Type 0 where
  pub on_row : x < 10
  pub shapes : (n : ℕ) → n < 7 → IsShape (f n)
  pub lines : (n : ℕ) → n < 7 → (j i : ℕ) → covers (f n) j i ≡ (passed y x j i && b j i == b'0' + n)
  pub apart :
      (j i j' i' : ℕ)
      → passed y x j i ≡ true
      → passed y x j' i' ≡ true
      → Near j j'
      → Near i i'
      → is_digit (b j i) ≡ true
      → is_digit (b j' i') ≡ true
      → b j i ≡ b j' i'

pub start-Checked : (b : Board) → Checked 0 0 b clean_ships
unfolding clean_ships
start-Checked b = record {
  on_row = omega arith;
  shapes = λ n h. ship_init-IsShape n;
  lines = λ n h j i. covers-ship_init n j i ∙ ground arith;
  apart = λ j i j' i' p. absurd (ground arith);
}

square_water : (c : ℕ) → square c ≡ water → c ≡ empty_square
unfolding square
square_water c e = ground arith

square_part : (c n : ℕ) → square c ≡ part n → (c ≡ b'0' + n) × (n < 7)
unfolding square
square_part c n e = ground arith

water-Agrees : (y x : ℕ) (b : Board) → Agrees y x b empty_square
water-Agrees y x b j i p nj ni d d' = absurd (ground arith)

Near-symm : (a b : ℕ) → Near a b → Near b a
Near-symm a b (p, q) = (q, p)

-- one more square, the ships changed so that they cover it as its character says
module _ (y x : ℕ) (b : Board) (f f' : Fleet) (c : ℕ) (ok : Checked y x b f)
    (agrees : Agrees y x b c) where
  old :
      (j i : ℕ)
      → passed (next_y y x) (next_x x) j i ≡ true
      → (j == y && i == x) ≡ false
      → passed y x j i ≡ true
  old j i p e = ground (arith, ok.on_row, passed_next y x j i)

  new : (j i : ℕ) → (j == y && i == x) ≡ true → (j ≡ y) × (i ≡ x)
  new j i e = ground arith

  -- the value after the write, on the new square and on an old one
  new_value : (j i : ℕ) → (j == y && i == x) ≡ true → put_square b y x c j i ≡ c
  unfolding put_square
  new_value j i e = rw e

  old_value : (j i : ℕ) → (j == y && i == x) ≡ false → put_square b y x c j i ≡ b j i
  unfolding put_square
  old_value j i e = rw e

  apart_next :
      (j i j' i' : ℕ)
      → passed (next_y y x) (next_x x) j i ≡ true
      → passed (next_y y x) (next_x x) j' i' ≡ true
      → Near j j'
      → Near i i'
      → is_digit (put_square b y x c j i) ≡ true
      → is_digit (put_square b y x c j' i') ≡ true
      → put_square b y x c j i ≡ put_square b y x c j' i'
  apart_next j i j' i' p p' nj ni d d' = elim (Bool-cases (j == y && i == x)) [
    | inl e ↦ elim (Bool-cases (j' == y && i' == x)) [
      | inl e' ↦ new_value j i e ∙ sym (new_value j' i' e')
      | inr e' ↦
          let (ey, ex) = new j i e in
          new_value j i e
          ∙ sym (
              agrees j' i' (old j' i' p' e') (omega arith) (omega arith)
                (rw (old_value j' i' e') at d') (rw (new_value j i e) at d))
          ∙ sym (old_value j' i' e')
    ]
    | inr e ↦ elim (Bool-cases (j' == y && i' == x)) [
      | inl e' ↦
          let (ey, ex) = new j' i' e' in
          old_value j i e
          ∙ agrees j i (old j i p e) (omega arith) (omega arith) (rw (old_value j i e) at d)
              (rw (new_value j' i' e') at d')
          ∙ sym (new_value j' i' e')
      | inr e' ↦
          old_value j i e
          ∙ ok.apart j i j' i' (old j i p e) (old j' i' p' e') nj ni (rw (old_value j i e) at d)
              (rw (old_value j' i' e') at d')
          ∙ sym (old_value j' i' e')
    ]
  ]

  next-Checked :
      ((n : ℕ) → n < 7 → IsShape (f' n))
      → ((n : ℕ)
          → n < 7
          → (j i : ℕ)
          → covers (f' n) j i ≡ (covers (f n) j i || (j == y && i == x && c == b'0' + n)))
      → Checked (next_y y x) (next_x x) (put_square b y x c) f'
  unfolding put_square
  next-Checked shapes grow = record {
    on_row = ground (arith, ok.on_row);
    shapes = shapes;
    lines =
        λ n h j i. ground (arith, ok.on_row, grow n h j i, ok.lines n h j i, passed_next y x j i);
    apart = apart_next;
  }

water-Checked :
    (y x : ℕ) (b : Board) (f : Fleet) (c : ℕ)
    → Checked y x b f
    → square c ≡ water
    → Checked (next_y y x) (next_x x) (put_square b y x c) f
water-Checked y x b f c ok e =
    next-Checked y x b f f c ok (rw (square_water c e) (water-Agrees y x b)) ok.shapes
      (λ n h j i. ground (arith, square_water c e))

or_more : (a p q t : Bool) → t ≡ true → (a || p && q) ≡ (a || (p && q && t))
or_more a p q t e = ground arith

or_none : (a p q t : Bool) → t ≡ false → a ≡ (a || (p && q && t))
or_none a p q t e = ground arith

part-Checked :
    (y x : ℕ) (b : Board) (f : Fleet) (c n : ℕ)
    → Checked y x b f
    → square c ≡ part n
    → touches b y x n ≡ false
    → (ship_place (f n) x y).0 ≡ true
    → Checked (next_y y x) (next_x x) (put_square b y x c) (put_ship f n (ship_place (f n) x y).1)
unfolding put_ship
part-Checked y x b f c n ok e t good =
    let (ec, hn) = square_part c n e in
    next-Checked y x b f _ c ok (rw ec (touches-Agrees b y x n t)) shapes grow
  where
    shapes : (m : ℕ) → m < 7 → IsShape (put_ship f n (ship_place (f n) x y).1 m)
    shapes m h = elim (Bool-cases (m == n)) [
      | inl s ↦ rw s (ship_place-IsShape (f n) x y (ok.shapes n (square_part c n e).1))
      | inr d ↦ rw d (ok.shapes m h)
    ]

    grow :
        (m : ℕ)
        → m < 7
        → (j i : ℕ)
        → covers (put_ship f n (ship_place (f n) x y).1 m) j i
          ≡ (covers (f m) j i || (j == y && i == x && c == b'0' + m))
    grow m h j i = elim (Bool-cases (m == n)) [
      | inl s ↦
          let same = (==_iff m n).0 s in
          rw (same, (==_iff n n).1 refl)
            (covers-ship_place (f n) x y (ok.shapes n (square_part c n e).1) good j i
              ∙ or_more (covers (f n) j i) (j == y) (i == x) (c == b'0' + n)
                  (ground (arith, square_part c n e)))
      | inr d ↦ rw d (
          or_none (covers (f m) j i) (j == y) (i == x) (c == b'0' + m)
            (ground (arith, square_part c n e)))
    ]

pub Square-cases :
    (s : Square) → (s ≡ bad_number) ⊎ (s ≡ bad_format) ⊎ (s ≡ water) ⊎ ((n : ℕ) × (s ≡ part n))
Square-cases bad_number = inl refl
Square-cases bad_format = inr (inl refl)
Square-cases water = inr (inr (inl refl))
Square-cases (part n) = inr (inr (inr (n, refl)))

pub scan-water :
    (c : ℕ) (cs : Bytes) (y x : ℕ) (b : Board) (f : Fleet)
    → square c ≡ water
    → scan (c ∷ cs) y x b f ≡ scan cs (next_y y x) (next_x x) (put_square b y x c) f
unfolding scan
scan-water c cs y x b f s = rw (s, scan)

pub scan-part :
    (c n : ℕ) (cs : Bytes) (y x : ℕ) (b : Board) (f : Fleet)
    → square c ≡ part n
    → touches b y x n ≡ false
    → (ship_place (f n) x y).0 ≡ true
    → scan (c ∷ cs) y x b f
      ≡ scan cs (next_y y x) (next_x x) (put_square b y x c) (put_ship f n (ship_place (f n) x y).1)
unfolding scan
scan-part c n cs y x b f s t good = rw (s, t, good, scan)

-- The loop, if it gets through: everything checked up to where the characters end.
pub scan-Checked :
    (cs : Bytes) (y x : ℕ) (b : Board) (f : Fleet)
    → Checked y x b f
    → (scan cs y x b f).error ≡ none
    → (y' : ℕ) × (x' : ℕ) × (10 * y' + x' ≡ 10 * y + x + length cs)
      × Checked y' x' (scan cs y x b f).board (scan cs y x b f).fleet
unfolding scan
scan-Checked [] y x b f ok e = (y, x, omega arith, ok)
scan-Checked (c ∷ cs) y x b f ok e = elim (Square-cases (square c)) [
  | inl s ↦ absurd (ground arith)
  | inr (inl s) ↦ absurd (ground arith)
  | inr (inr (inl s)) ↦ rw (scan-water c cs y x b f s) (
      further _ _ (
        scan-Checked cs (next_y y x) (next_x x) _ _ (water-Checked y x b f c ok s)
          (rw (scan-water c cs y x b f s) at e)))
  | inr (inr (inr (n, s))) ↦ elim (Bool-cases (touches b y x n)) [
    | inl t ↦ absurd (ground arith)
    | inr t ↦ elim (Bool-cases (ship_place (f n) x y).0) [
      | inl good ↦ rw (scan-part c n cs y x b f s t good) (
          further _ _ (
            scan-Checked cs (next_y y x) (next_x x) _ _ (part-Checked y x b f c n ok s t good)
              (rw (scan-part c n cs y x b f s t good) at e)))
      | inr bad ↦ absurd (ground arith)
    ]
  ]
]
  where
    further :
        (b : Board) (f : Fleet)
        → (y' : ℕ) × (x' : ℕ) × (10 * y' + x' ≡ 10 * next_y y x + next_x x + length cs)
          × Checked y' x' b f
        → (y' : ℕ) × (x' : ℕ) × (10 * y' + x' ≡ 10 * y + x + length (c ∷ cs)) × Checked y' x' b f
    further b f (y', x', at, k) = (y', x', ground (arith, ok.on_row), k)
