-- ===== src/Game/Marking/Marks.antt =====
-- Steps of game/shipsGame.c's `mark_destroyed_ship` and the sets of squares that they mark.
use ups_sp.Prelude.{
  ℕ, ◌≡◌, refl, Bool, true, false, ◌&&◌, ◌||◌, ◌==◌, if◌then◌else◌, Option, some, ◌>>=◌, arith,
}
use ups_sp.Game.Board.{Board, missed_square, in_board, put_square}
use ups_sp.Game.Marking.{mark, when}

-- a set of squares
abbrev pub Squares : Type 0
Squares = ℕ → ℕ → Bool

-- the step stays on the board, marks the squares of the set, and changes no other
abbrev pub Marks : (Board → Option Board) → Squares → Type 0
Marks step s =
    (b : Board)
    → (b' : Board) × (step b ≡ some b')
      × ((j i : ℕ) → b' j i ≡ (if s j i then missed_square else b j i))

pub mark-Marks : (y x : ℕ) → in_board y x ≡ true → Marks (mark y x) (λ j i. j == y && i == x)
unfolding mark put_square
mark-Marks y x h b = (put_square b y x missed_square, ground arith, λ j i. refl)

pub Marks-bind :
    (f g : Board → Option Board) (s t : Squares)
    → Marks f s
    → Marks g t
    → Marks (λ b. f b >>= g) (λ j i. s j i || t j i)
Marks-bind f g s t p q b =
    let (b', run, at) = p b in
    let (b'', run', at') = q b' in (b'', rw run run', λ j i. ground (arith, at j i, at' j i))

pub Marks-when :
    (c : Bool) (f : Board → Option Board) (s : Squares)
    → (c ≡ true → Marks f s)
    → Marks (when c f) (λ j i. c && s j i)
Marks-when true f s p b = p refl b
Marks-when false f s p b = (b, refl, λ j i. refl)

pub Marks-congr :
    (f : Board → Option Board) (s t : Squares) → Marks f s → ((j i : ℕ) → s j i ≡ t j i) → Marks f t
Marks-congr f s t p e b = let (b', run, at) = p b in (b', run, λ j i. rw (← e j i) (at j i))
