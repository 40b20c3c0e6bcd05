-- ===== src/Game/Placement/Fleets.antt =====
-- What `cmd_game_prepared` accepts: a full set of straight, separate ships on the board.
use ups_sp.Prelude.{
  ℕ, zero, suc, ◌+◌, ◌-◌, ◌≤◌, ◌<◌, ◌≡◌, inl, inr, Bool, true, false, ◌==◌, if◌then◌else◌, arith,
  Bool-cases, List, [], ◌∷◌, Bytes, none, length, get_or, Option-cases,
}
use ups_sp.Prelude.Int.{pos}
use ups_sp.Game.Board.{Board, is_digit}
use ups_sp.Game.Ship.{Ship, ship_lengths}
use ups_sp.Game.Marking.Ring.{IsOnBoard}
use ups_sp.Game.Placement.{Fleet, clean_ships, scan, lengths_from, place_fleet}
use ups_sp.Game.Placement.Lines.{IsShape, unplaced, placed, covers, line}
use ups_sp.Game.Placement.Neighbours.{passed, Near}
use ups_sp.Game.Placement.Scans.{Checked, start-Checked, scan-Checked}

-- a full set of ships, placed by the rules of the game
pub record IsPlacement (b : Board) (f : Fleet) : Type 0 where
  -- the squares with a ship's digit are those of its line
  pub lines : (n : ℕ) → n < 7 → (j i : ℕ) → j < 10 → i < 10 → covers (f n) j i ≡ (b j i == b'0' + n)
  -- the line lies on the board
  pub on_board : (n : ℕ) → n < 7 → (y : ℕ) × (x : ℕ) × IsOnBoard (f n) y x
  -- it has the length that the rules ask for, and none of it is hit
  pub lengths : (n : ℕ) → n < 7 → (f n).length ≡ get_or ship_lengths n 0
  pub health : (n : ℕ) → n < 7 → (f n).health ≡ pos (f n).length
  -- two squares that touch, also by a corner, are not of different ships
  pub apart :
      (j i j' i' : ℕ)
      → j < 10
      → i < 10
      → j' < 10
      → i' < 10
      → Near j j'
      → Near i i'
      → is_digit (b j i) ≡ true
      → is_digit (b j' i') ≡ true
      → b j i ≡ b j' i'

lengths_from-get_or :
    (k : ℕ) (ns : List ℕ) (f : Fleet) (n : ℕ)
    → lengths_from k ns f ≡ true
    → n < length ns
    → (f (k + n)).length ≡ get_or ns n 0
unfolding lengths_from
lengths_from-get_or k [] f n e h = absurd (omega arith)
lengths_from-get_or k (m ∷ ns) f zero e h = let z : k + 0 ≡ k = omega arith in rw z (ground arith)
lengths_from-get_or k (m ∷ ns) f (suc n) e h =
    let z : k + suc n ≡ k + 1 + n = omega arith in
    rw z (lengths_from-get_or (k + 1) ns f n (ground arith) (omega arith))

length-pos : (n : ℕ) → n < 7 → 0 < get_or ship_lengths n 0
length-pos zero h = omega arith
length-pos (suc zero) h = omega arith
length-pos (suc (suc zero)) h = omega arith
length-pos (suc (suc (suc zero))) h = omega arith
length-pos (suc (suc (suc (suc zero)))) h = omega arith
length-pos (suc (suc (suc (suc (suc zero))))) h = omega arith
length-pos (suc (suc (suc (suc (suc (suc zero)))))) h = omega arith
length-pos (suc (suc (suc (suc (suc (suc (suc n))))))) h = absurd (omega arith)

line_first : (v : Bool) (n y x : ℕ) → 0 < n → line v n y x y x ≡ true
line_first true n y x h = ground arith
line_first false n y x h = ground arith

IsShape-health : (s : Ship) → IsShape s → s.health ≡ pos s.length
IsShape-health s (unplaced n sx sy v h) = rw n h
IsShape-health s (placed y x sy sx n h) = h

-- the ends of a line whose squares have all been passed when the loop is through
line_fits :
    (v : Bool) (n y x : ℕ)
    → 0 < n
    → ((j i : ℕ) → line v n y x j i ≡ true → passed 10 0 j i ≡ true)
    → ((if v then y + n else y + 1) ≤ 10) × ((if v then x + 1 else x + n) ≤ 10)
line_fits true n y x h c =
    let last : line true n y x (y + n - 1) x ≡ true = ground arith in
    let in_time = c (y + n - 1) x last in ground arith
line_fits false n y x h c =
    let last : line false n y x y (x + n - 1) ≡ true = ground arith in
    let in_time = c y (x + n - 1) last in ground arith

IsOnBoard-of :
    (s : Ship)
    → IsShape s
    → 0 < s.length
    → ((j i : ℕ) → covers s j i ≡ true → passed 10 0 j i ≡ true)
    → (y : ℕ) × (x : ℕ) × IsOnBoard s y x
unfolding covers
IsOnBoard-of s (unplaced n sx sy v h) l c = absurd (omega arith)
IsOnBoard-of s (placed y x sy sx n h) l c =
    let (fy, fx) = line_fits s.vertical s.length y x n (λ j i e. c j i (simp (sy, sx) e)) in
    (y, x, (sy, sx, fy, fx))

module _ (b : Board) (f : Fleet) (ok : Checked 10 0 b f)
    (sized : lengths_from 0 ship_lengths f ≡ true) where
  ship_length : (n : ℕ) → n < 7 → (f n).length ≡ get_or ship_lengths n 0
  ship_length n h =
      let z : 0 + n ≡ n = omega arith in rw z at (lengths_from-get_or 0 ship_lengths f n sized h)

  Checked-IsPlacement : IsPlacement b f
  Checked-IsPlacement = record {
    lines = λ n h j i hj hi. ground (arith, ok.lines n h j i);
    on_board = λ n h.
        IsOnBoard-of (f n) (ok.shapes n h) (omega (arith, ship_length n h, length-pos n h))
          (λ j i c. ground (arith, ok.lines n h j i));
    lengths = ship_length;
    health = λ n h. IsShape-health (f n) (ok.shapes n h);
    apart = λ j i j' i' hj hi hj' hi' nj ni. ok.apart j i j' i' (ground arith) (ground arith) nj ni;
  }

-- A board of 100 characters that is accepted, whatever was on the board before, is a placement by
-- the rules: each of the seven ships is a straight line of its length on the board, unhit, its
-- squares are those with its digit, and squares of different ships do not touch, not even by a corner.
pub place_fleet-IsPlacement :
    (player : ℕ) (text : Bytes) (b : Board)
    → length text ≡ 100
    → (place_fleet player text b clean_ships).error ≡ none
    → IsPlacement
        (place_fleet player text b clean_ships).board
        (place_fleet player text b clean_ships).fleet
unfolding place_fleet
place_fleet-IsPlacement player text b l e =
    elim (Option-cases (scan text 0 0 b clean_ships).error) [
      | inr (code, bad) ↦ absurd (ground arith)
      | inl through ↦
          elim (Bool-cases (lengths_from 0 ship_lengths (scan text 0 0 b clean_ships).fleet)) [
            | inr short ↦ absurd (ground arith)
            | inl sized ↦
                let (y, x, at, ok) =
                  scan-Checked text 0 0 b clean_ships (start-Checked b) through in
                let ey : y ≡ 10 = omega (arith, ok.on_row) in
                let ex : x ≡ 0 = omega (arith, ok.on_row) in
                rw (through, place_fleet, sized) (Checked-IsPlacement _ _ (rw (ey, ex) at ok) sized)
          ]
    ]
