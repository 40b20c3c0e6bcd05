-- ===== src/Game/Battle/Unshot.antt =====
-- The squares of a board at which cmd_game_fire accepts a shot.
use ups_sp.Prelude.{
  ℕ, zero, suc, ◌+◌, ◌≤◌, ◌<◌, ◌≡◌, inl, inr, refl, Bool, true, false, not, ◌||◌, ◌==◌,
  if◌then◌else◌, arith, Bool-cases,
}
use ups_sp.Game.Board.{Board, hit_square, missed_square}

-- the sum of f below n
unfoldable pub tally : (ℕ → ℕ) → ℕ → ℕ
tally f zero = 0
tally f (suc n) = f n + tally f n

pub tally_mono : (f f' : ℕ → ℕ) (n : ℕ) → ((i : ℕ) → i < n → f' i ≤ f i) → tally f' n ≤ tally f n
unfolding tally
tally_mono f f' zero le = omega arith
tally_mono f f' (suc n) le =
    let rest = tally_mono f f' n (λ i h. le i (omega arith)) in
    let last = le n (omega arith) in omega arith

pub tally_less :
    (f f' : ℕ → ℕ) (n k : ℕ)
    → k < n
    → f' k < f k
    → ((i : ℕ) → i < n → f' i ≤ f i)
    → tally f' n < tally f n
unfolding tally
tally_less f f' zero k h less le = absurd (omega arith)
tally_less f f' (suc n) k h less le = elim (Bool-cases (k == n)) [
  | inl here ↦
      let e : k ≡ n = ground arith in
      let rest = tally_mono f f' n (λ i h'. le i (omega arith)) in
      let last : f' n < f n = rw e at less in omega arith
  | inr below ↦
      let rest = tally_less f f' n k (ground arith) less (λ i h'. le i (omega arith)) in
      let last = le n (omega arith) in omega arith
]

abbrev pub is_unshot : ℕ → Bool
is_unshot c = not (c == hit_square || c == missed_square)

abbrev pub one : Bool → ℕ
one b = if b then 1 else 0

abbrev pub unshot_row : Board → ℕ → ℕ
unshot_row b y = tally (λ x. one (is_unshot (b y x))) 10

-- the squares of the board that were neither hit nor missed
abbrev pub unshot : Board → ℕ
unshot b = tally (unshot_row b) 10

pub unshot_bound : (b : Board) → unshot b ≤ 100
unfolding tally
unshot_bound b =
    tally_mono (λ y. 10) (unshot_row b) 10
      (λ y h. tally_mono (λ x. 1) (λ x. one (is_unshot (b y x))) 10 (λ x h'. ground arith))

one_mono : (a b : Bool) → (a ≡ true → b ≡ true) → one a ≤ one b
one_mono true b h = let e = h refl in rw e (omega arith)
one_mono false b h = omega arith

-- a shot at an unshot square, after which no shot square is unshot
pub unshot_less :
    (b b' : Board) (y x : ℕ)
    → y < 10
    → x < 10
    → is_unshot (b y x) ≡ true
    → is_unshot (b' y x) ≡ false
    → ((j i : ℕ) → j < 10 → i < 10 → is_unshot (b' j i) ≡ true → is_unshot (b j i) ≡ true)
    → unshot b' < unshot b
unshot_less b b' y x hy hx was now kept =
    tally_less (unshot_row b) (unshot_row b') 10 y hy
      (tally_less (λ i. one (is_unshot (b y i))) (λ i. one (is_unshot (b' y i))) 10 x hx
        (rw (was, now) (omega arith)) (λ i h. one_mono _ _ (kept y i hy h)))
      (λ j h.
        tally_mono (λ i. one (is_unshot (b j i))) (λ i. one (is_unshot (b' j i))) 10
          (λ i h'. one_mono _ _ (kept j i h h')))

pub unshot_positive :
    (b : Board) (y x : ℕ) → y < 10 → x < 10 → is_unshot (b y x) ≡ true → 0 < unshot b
unshot_positive b y x hy hx was =
    let less =
      unshot_less b (λ j i. hit_square) y x hy hx was refl (λ j i hj hi e. absurd (ground arith)) in
    omega arith
