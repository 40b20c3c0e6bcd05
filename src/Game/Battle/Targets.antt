-- ===== src/Game/Battle/Targets.antt =====
-- A search for a square at which a shot of cmd_game_fire is accepted.
use ups_sp.Prelude.{
  ℕ, zero, suc, ◌+◌, ◌<◌, ◌≡◌, inl, inr, refl, ◌∙◌, Bool, true, false, ◌||◌, Option, none, some,
  ltb, leb, ◌&&◌, ◌==◌, if◌then◌else◌, arith, Bool-cases,
}
use ups_sp.Game.Board.{Board, empty_square}
use ups_sp.Game.Placement.{Fleet}
use ups_sp.Game.Placement.Lines.{covers, line}
use ups_sp.Game.Battle.{count_line, afloat, InPlay, covers-line, covers-board}
use ups_sp.Game.Battle.Remains.{remains}

-- an empty square, or one of the seven ships
abbrev pub is_target : ℕ → Bool
is_target c = c == empty_square || leb b'0' c && ltb c (b'0' + 7)

-- the least number below n that passes the test, from k on
unfoldable pub search_from : (ℕ → Bool) → ℕ → ℕ → Option ℕ
search_from f zero k = none
search_from f (suc n) k = let rest = search_from f n (k + 1) in if f k then some k else rest

other_place : (f : ℕ → Bool) (i k : ℕ) → f i ≡ true → f k ≡ false → (i == k) ≡ false
other_place f i k e later = elim (Bool-cases (i == k)) [
  | inl same ↦ let at : i ≡ k = ground arith in absurd (ground (arith, rw at at e, later))
  | inr other ↦ other
]

search_from_sound :
    (f : ℕ → Bool) (n k j : ℕ) → search_from f n k ≡ some j → (j < k + n) × (f j ≡ true)
unfolding search_from
search_from_sound f zero k j e = absurd (ground arith)
search_from_sound f (suc n) k j e = elim (Bool-cases (f k)) [
  | inl now ↦ let same : k ≡ j = ground (arith, e) in (omega arith, rw same at now)
  | inr later ↦
      let (below, good) = search_from_sound f n (k + 1) j (ground (arith, e)) in (omega arith, good)
]

pub search_from-found :
    (f : ℕ → Bool) (n k i : ℕ)
    → k < i + 1
    → i < k + n
    → f i ≡ true
    → (j : ℕ) × (search_from f n k ≡ some j) × (j < k + n) × (f j ≡ true)
unfolding search_from
search_from-found f zero k i low high e = absurd (omega arith)
search_from-found f (suc n) k i low high e = elim (Bool-cases (f k)) [
  | inl now ↦ (k, rw now refl, omega arith, now)
  | inr later ↦
      let ne : (i == k) ≡ false = other_place f i k e later in
      let (j, found, below, good) =
        search_from-found f n (k + 1) i (ground arith) (omega arith) e in
      (j, rw later found, omega arith, good)
]

abbrev has : Option ℕ → Bool
has none = false
has (some n) = true

abbrev pub in_row : Board → ℕ → Option ℕ
in_row b y = search_from (λ x. is_target (b y x)) 10 0

abbrev at_row : Option ℕ → Option ℕ → Option (ℕ × ℕ)
at_row (some y) (some x) = some (y, x)
at_row _ _ = none

abbrev row_of : Board → Option ℕ → Option (ℕ × ℕ)
row_of b none = none
row_of b (some y) = at_row (some y) (in_row b y)

-- the first target of the board, row by row
abbrev pub find_target : Board → Option (ℕ × ℕ)
find_target b = row_of b (search_from (λ y. has (in_row b y)) 10 0)

has-some : (o : Option ℕ) → has o ≡ true → (n : ℕ) × (o ≡ some n)
has-some none e = absurd (ground arith)
has-some (some n) e = (n, refl)

pub find_target-found :
    (b : Board) (y x : ℕ)
    → y < 10
    → x < 10
    → is_target (b y x) ≡ true
    → (j : ℕ) × (i : ℕ) × (find_target b ≡ some (j, i))
      × (j < 10)
      × (i < 10)
      × (is_target (b j i) ≡ true)
find_target-found b y x hy hx good =
    let (x1, found_x, h1, g1) =
      search_from-found (λ i. is_target (b y i)) 10 0 x (omega arith) (omega arith) good in
    let (j, found_j, hj, row) =
      search_from-found (λ k. has (in_row b k)) 10 0 y (omega arith) (omega arith)
        (rw found_x refl) in
    let (i0, here) = has-some (in_row b j) row in
    let (hi, good_i) = search_from_sound (λ x. is_target (b j x)) 10 0 i0 here in
    (j, i0, rw (found_j, here) refl, hj, hi, good_i)

line_found :
    (v : Bool) (n y x : ℕ) (b : Board) (c : ℕ)
    → 0 < count_line v n y x b c
    → (j : ℕ) × (i : ℕ) × (line v n y x j i ≡ true) × (b j i ≡ c)
unfolding count_line
line_found true zero y x b c h = absurd (omega arith)
line_found false zero y x b c h = absurd (omega arith)
line_found true (suc n) y x b c h = elim (Bool-cases (b y x == c)) [
  | inl here ↦ (y, x, ground arith, ground arith)
  | inr other ↦
      let (j, i, on, e) = line_found true n (y + 1) x b c (ground arith) in (j, i, ground arith, e)
]
line_found false (suc n) y x b c h = elim (Bool-cases (b y x == c)) [
  | inl here ↦ (y, x, ground arith, ground arith)
  | inr other ↦
      let (j, i, on, e) = line_found false n y (x + 1) b c (ground arith) in (j, i, ground arith, e)
]

ship_found :
    (k : ℕ) (b : Board) (f : Fleet) → 0 < remains k b f → (n : ℕ) × (n < k) × (0 < afloat b f n)
unfolding remains
ship_found zero b f h = absurd (omega arith)
ship_found (suc k) b f h = elim (Bool-cases (ltb 0 (afloat b f k))) [
  | inl here ↦ (k, omega arith, ground arith)
  | inr none_here ↦
      let (n, low, some_left) = ship_found k b f (ground arith) in (n, omega arith, some_left)
]

pub InPlay-target :
    (b : Board) (f : Fleet)
    → InPlay b f
    → 0 < remains 7 b f
    → (y : ℕ) × (x : ℕ) × (y < 10) × (x < 10) × (is_target (b y x) ≡ true)
unfolding afloat
InPlay-target b f play h =
    let (n, low, some_left) = ship_found 7 b f h in
    let (sy, sx, placed) = play.on_board n low in
    let (j, i, on, e) = line_found _ _ _ _ b (b'0' + n) some_left in
    let c : covers (f n) j i ≡ true =
      covers-line (f n) sy sx placed j i ∙ rw (placed.0, placed.1) at on in
    let (hj, hi) = covers-board (f n) sy sx placed j i c in (j, i, hj, hi, rw e (ground arith))
