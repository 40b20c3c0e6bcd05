-- ===== src/Game/Battle.antt =====
-- A board in play: what a placement of cmd_game_prepared becomes under the shots of cmd_game_fire.
pub mod Hits
pub mod Remains
pub mod Misses
pub mod Placed
pub mod Unshot
pub mod Targets
use ups_sp.Prelude.{
  ℕ, zero, suc, ◌+◌, ◌-◌, ◌≤◌, ◌<◌, ◌≡◌, ◌≢◌, ◌⊎◌, inl, inr, refl, sym, ap, ◌∙◌, Bool, true, false,
  ◌&&◌, ◌==◌, ltb, leb, if◌then◌else◌, arith, Bool-cases,
}
use ups_sp.Prelude.Int.{ℤ, pos, pos_part, ◌-ℤ◌, leb_ℤ}
use ups_sp.Game.Board.{Board, hit_square, missed_square, put_square}
use ups_sp.Game.Ship.{Ship}
use ups_sp.Game.Marking.Ring.{ring, IsOnBoard}
use ups_sp.Game.Marking.Down.{ring_down}
use ups_sp.Game.Marking.Across.{ring_right}
use ups_sp.Game.Placement.{Fleet}
use ups_sp.Game.Placement.Lines.{covers, line}
use ups_sp.Game.Placement.Neighbours.{Near}

-- how many of the n squares in a line from (y, x) hold the character c
unfoldable pub count_line : Bool → ℕ → ℕ → ℕ → Board → ℕ → ℕ
count_line v zero y x b c = 0
count_line true (suc n) y x b c = (if b y x == c then 1 else 0) + count_line true n (y + 1) x b c
count_line false (suc n) y x b c = (if b y x == c then 1 else 0) + count_line false n y (x + 1) b c

-- the squares of the ship n that are not hit
unfoldable pub afloat : Board → Fleet → ℕ → ℕ
afloat b f n =
    count_line (f n).vertical (f n).length (pos_part (f n).start_y) (pos_part (f n).start_x) b
      (b'0' + n)

-- the ships below n without health
unfoldable pub sunk_ships : ℕ → Fleet → ℕ
sunk_ships zero f = 0
sunk_ships (suc n) f = (if leb_ℤ (f n).health (pos 0) then 1 else 0) + sunk_ships n f

-- seven ships on the board, apart from each other, with the health that their squares say
pub record InPlay (b : Board) (f : Fleet) : Type 0 where
  pub on_board : (n : ℕ) → n < 7 → (y : ℕ) × (x : ℕ) × IsOnBoard (f n) y x
  -- a ship's squares hold its digit or are hit, and no other square has its digit
  pub own :
      (n : ℕ)
      → n < 7
      → (j i : ℕ) → covers (f n) j i ≡ true
      → (b j i ≡ b'0' + n) ⊎ (b j i ≡ hit_square)
  pub only :
      (n : ℕ) → n < 7 → (j i : ℕ) → j < 10 → i < 10 → b j i ≡ b'0' + n → covers (f n) j i ≡ true
  pub apart :
      (n m : ℕ)
      → n < 7
      → m < 7
      → (j i j' i' : ℕ) → covers (f n) j i ≡ true
      → covers (f m) j' i' ≡ true
      → Near j j'
      → Near i i'
      → n ≡ m
  pub health : (n : ℕ) → n < 7 → (f n).health ≡ pos (afloat b f n)

pub count_line-agree :
    (v : Bool) (n y x : ℕ) (b b' : Board) (c : ℕ)
    → ((j i : ℕ) → line v n y x j i ≡ true → b' j i ≡ b j i)
    → count_line v n y x b' c ≡ count_line v n y x b c
unfolding count_line
count_line-agree v zero y x b b' c at = refl
count_line-agree true (suc n) y x b b' c at =
    let first = at y x (ground arith) in
    let rest = count_line-agree true n (y + 1) x b b' c (λ j i e. at j i (ground arith)) in
    rw (first, rest)
count_line-agree false (suc n) y x b b' c at =
    let first = at y x (ground arith) in
    let rest = count_line-agree false n y (x + 1) b b' c (λ j i e. at j i (ground arith)) in
    rw (first, rest)

-- one square of the line loses the character
pub count_line-lost :
    (v : Bool) (n y x : ℕ) (b b' : Board) (c j i : ℕ)
    → line v n y x j i ≡ true
    → b j i ≡ c
    → b' j i ≢ c
    → ((k l : ℕ) → line v n y x k l ≡ true → (k == j && l == i) ≡ false → b' k l ≡ b k l)
    → count_line v n y x b c ≡ count_line v n y x b' c + 1
unfolding count_line
count_line-lost true zero y x b b' c j i e h h' at = ground arith
count_line-lost false zero y x b b' c j i e h h' at = ground arith
count_line-lost true (suc n) y x b b' c j i e h h' at = elim (Bool-cases (y == j)) [
  | inl here ↦
      let ex : x ≡ i = ground arith in
      let ey : y ≡ j = ground arith in
      let was : (b y x == c) ≡ true = rw (ey, ex) (ground arith) in
      let gone : (b' y x == c) ≡ false = rw (ey, ex) (ground arith) in
      let rest =
        count_line-agree true n (y + 1) x b b' c (λ k l m. at k l (ground arith) (ground arith)) in
      rw (rest, was, gone) (omega arith)
  | inr other ↦
      let first : b' y x ≡ b y x = at y x (ground arith) (ground arith) in
      let rest =
        count_line-lost true n (y + 1) x b b' c j i (ground arith) h h'
          (λ k l m ne. at k l (ground arith) ne) in
      rw (first, rest) (omega arith)
]
count_line-lost false (suc n) y x b b' c j i e h h' at = elim (Bool-cases (x == i)) [
  | inl here ↦
      let ex : x ≡ i = ground arith in
      let ey : y ≡ j = ground arith in
      let was : (b y x == c) ≡ true = rw (ey, ex) (ground arith) in
      let gone : (b' y x == c) ≡ false = rw (ey, ex) (ground arith) in
      let rest =
        count_line-agree false n y (x + 1) b b' c (λ k l m. at k l (ground arith) (ground arith)) in
      rw (rest, was, gone) (omega arith)
  | inr other ↦
      let first : b' y x ≡ b y x = at y x (ground arith) (ground arith) in
      let rest =
        count_line-lost false n y (x + 1) b b' c j i (ground arith) h h'
          (λ k l m ne. at k l (ground arith) ne) in
      rw (first, rest) (omega arith)
]

fits_down :
    (n y x j i : ℕ) → line true n y x j i ≡ true → y + n ≤ 10 → x + 1 ≤ 10 → (j < 10) × (i < 10)
fits_down n y x j i l fy fx = ground arith

fits_right :
    (n y x j i : ℕ) → line false n y x j i ≡ true → y + 1 ≤ 10 → x + n ≤ 10 → (j < 10) × (i < 10)
fits_right n y x j i l fy fx = ground arith

pub covers-line :
    (s : Ship) (y x : ℕ)
    → IsOnBoard s y x
    → (j i : ℕ) → covers s j i ≡ line s.vertical s.length y x j i
unfolding covers
covers-line s y x (ey, ex, fy, fx) j i = rw (ey, ex)

pub covers-board :
    (s : Ship) (y x : ℕ) → IsOnBoard s y x → (j i : ℕ) → covers s j i ≡ true → (j < 10) × (i < 10)
covers-board s y x p j i c =
    let l = sym (covers-line s y x p j i) ∙ c in
    let (ey, ex, fy, fx) = p in
    elim (Bool-cases s.vertical) [
      | inl v ↦ fits_down s.length y x j i (rw v at l) (rw v at fy) (rw v at fx)
      | inr v ↦ fits_right s.length y x j i (rw v at l) (rw v at fy) (rw v at fx)
    ]

-- the number of n from y on that is next to j
nearest : (n y j : ℕ) → 0 < n → y ≤ j + 1 → j ≤ y + n → (k : ℕ) × (y ≤ k) × (k < y + n) × Near j k
nearest n y j h l r = elim (Bool-cases (ltb j y)) [
  | inl before ↦ (y, ground arith, ground arith, ground arith)
  | inr from ↦ elim (Bool-cases (ltb j (y + n))) [
    | inl within ↦ (j, ground arith, ground arith, ground arith)
    | inr after ↦ (y + n - 1, ground arith, ground arith, ground arith)
  ]
]

ring_down-Near :
    (n y x j i : ℕ)
    → 0 < n
    → ring_down n y x j i ≡ true
    → (line true n y x j i ≡ false)
      × ((k : ℕ) × (l : ℕ) × (line true n y x k l ≡ true) × Near j k × Near i l)
ring_down-Near n y x j i h r =
    let (k, from, to, near) = nearest n y j h (ground arith) (ground arith) in
    (ground arith, (k, x, ground arith, near, ground arith))

ring_right-Near :
    (n y x j i : ℕ)
    → 0 < n
    → ring_right n y x j i ≡ true
    → (line false n y x j i ≡ false)
      × ((k : ℕ) × (l : ℕ) × (line false n y x k l ≡ true) × Near j k × Near i l)
ring_right-Near n y x j i h r =
    let (k, from, to, near) = nearest n x i h (ground arith) (ground arith) in
    (ground arith, (y, k, ground arith, ground arith, near))

-- the ring of a ship is next to its squares and has none of them
pub ring-Near :
    (s : Ship) (y x : ℕ)
    → IsOnBoard s y x
    → 0 < s.length
    → (j i : ℕ) → ring s y x j i ≡ true
    → (covers s j i ≡ false) × ((k : ℕ) × (l : ℕ) × (covers s k l ≡ true) × Near j k × Near i l)
ring-Near s y x p h j i r =
    let at = covers-line s y x p in
    elim (Bool-cases s.vertical) [
      | inl v ↦
          let (off, (k, l, on, nj, ni)) = ring_down-Near s.length y x j i h (rw v at r) in
          (at j i ∙ rw v off, (k, l, at k l ∙ rw v on, nj, ni))
      | inr v ↦
          let (off, (k, l, on, nj, ni)) = ring_right-Near s.length y x j i h (rw v at r) in
          (at j i ∙ rw v off, (k, l, at k l ∙ rw v on, nj, ni))
    ]

-- how many ships are sunk after the ship n has lost a point of health
pub sunk_ships-lost :
    (k : ℕ) (f f' : Fleet) (n h : ℕ)
    → (f n).health ≡ pos (h + 1)
    → (f' n).health ≡ pos h
    → ((m : ℕ) → (m == n) ≡ false → f' m ≡ f m)
    → sunk_ships k f' ≡ sunk_ships k f + (if ltb n k && h == 0 then 1 else 0)
unfolding sunk_ships
sunk_ships-lost zero f f' n h e e' same = ground arith
sunk_ships-lost (suc k) f f' n h e e' same =
    let rest = sunk_ships-lost k f f' n h e e' same in
    elim (Bool-cases (k == n)) [
      | inl here ↦
          let ek : k ≡ n = ground arith in
          let old : (f k).health ≡ pos (h + 1) = rw ek e in
          let new : (f' k).health ≡ pos h = rw ek e' in rw (old, new, rest) (ground arith)
      | inr other ↦ rw (same k other, rest) (ground arith)
    ]
