-- ===== src/Game/Placement/Retries.antt =====
-- A rejected `game_prepared` request leaves squares on the board. What they do to the next one.
use ups_sp.Prelude.{
  ℕ, zero, suc, ◌+◌, ◌-◌, ◌*◌, ◌<◌, ◌≡◌, refl, inl, inr, true, ltb, ◌==◌, if◌then◌else◌, arith,
  Bool-cases, [], ◌∷◌, Bytes, none, some, length, ◌∙◌, sym, get_or, Option-cases,
}
use ups_sp.Game.Board.{Board, put_square}
use ups_sp.Game.Ship.{ship_place, ship_lengths}
use ups_sp.Game.Placement.{
  Fleet, Scan, clean_ships, touches, square, scan, lengths_from, place_fleet, next_x, next_y,
}
use ups_sp.Game.Placement.Neighbours.{passed, passed_next}
use ups_sp.Game.Placement.Scans.{Square-cases, scan-water, scan-part}

-- two boards that agree on the squares in front of (y, x)
abbrev Agree : ℕ → ℕ → Board → Board → Type 0
Agree y x b b' = (j i : ℕ) → passed y x j i ≡ true → b j i ≡ b' j i

touches_congr :
    (y x n : ℕ) (b b' : Board) → x < 10 → Agree y x b b' → touches b y x n ≡ touches b' y x n
unfolding touches
touches_congr y x n b b' h a =
    ground (arith, a (y - 1) x, a y (x - 1), a (y - 1) (x - 1), a (y - 1) (x + 1))

Agree-put_square :
    (y x c : ℕ) (b b' : Board)
    → x < 10
    → Agree y x b b'
    → Agree (next_y y x) (next_x x) (put_square b y x c) (put_square b' y x c)
unfolding put_square
Agree-put_square y x c b b' h a j i p = ground (arith, a j i, passed_next y x j i)

next_in_row : (x : ℕ) → x < 10 → next_x x < 10
next_in_row x h = ground arith

-- the same error and the same ships
abbrev SameResult : Scan → Scan → Type 0
SameResult r r' = (r.error ≡ r'.error) × (r.fleet ≡ r'.fleet)

scan_congr :
    (cs : Bytes) (y x : ℕ) (b b' : Board) (f : Fleet)
    → x < 10
    → Agree y x b b'
    → SameResult (scan cs y x b f) (scan cs y x b' f)
unfolding scan
scan_congr [] y x b b' f h a = (refl, refl)
scan_congr (c ∷ cs) y x b b' f h a = elim (Square-cases (square c)) [
  | inl s ↦ (rw (s, scan), rw (s, scan))
  | inr (inl s) ↦ (rw (s, scan), rw (s, scan))
  | inr (inr (inl s)) ↦
      rw (scan-water c cs y x b f s, scan-water c cs y x b' f s)
        (scan_congr cs (next_y y x) (next_x x) _ _ f (next_in_row x h)
          (Agree-put_square y x c b b' h a))
  | inr (inr (inr (n, s))) ↦
      let same = touches_congr y x n b b' h a in
      elim (Bool-cases (touches b y x n)) [
        | inl t ↦ let t' = sym same ∙ t in (rw (s, scan, t, t'), rw (s, scan, t, t'))
        | inr t ↦
            let t' = sym same ∙ t in
            elim (Bool-cases (ship_place (f n) x y).0) [
              | inr bad ↦ (rw (s, scan, t, t', bad), rw (s, scan, t, t', bad))
              | inl good ↦
                  rw (scan-part c n cs y x b f s t good, scan-part c n cs y x b' f s t' good)
                    (scan_congr cs (next_y y x) (next_x x) _ _ _ (next_in_row x h)
                      (Agree-put_square y x c b b' h a))
            ]
      ]
]

-- the number of a square, row by row
abbrev pub place : ℕ → ℕ → ℕ
place j i = 10 * j + i

place_next : (y x : ℕ) → x < 10 → place (next_y y x) (next_x x) ≡ place y x + 1
place_next y x h = ground arith

put_next :
    (y x c j i : ℕ) (cs : Bytes) (b : Board) (v : ℕ)
    → x < 10
    → i < 10
    → v ≡ (
        if ltb (place j i) (place (next_y y x) (next_x x))
        then put_square b y x c j i
        else get_or cs (place j i - place (next_y y x) (next_x x)) 0)
    → v ≡ (if ltb (place j i) (place y x) then b j i else get_or (c ∷ cs) (place j i - place y x) 0)
unfolding put_square
put_next y x c j i cs b v h hi e = elim (Bool-cases (ltb (place j i) (place y x))) [
  | inl front ↦ ground (arith, place_next y x h)
  | inr late ↦ elim (Bool-cases (place j i == place y x)) [
    | inl here ↦
        let ej : j ≡ y = ground arith in
        let ei : i ≡ x = ground arith in
        let d : place j i - place y x ≡ 0 = ground arith in
        rw (late, d) (ground (arith, place_next y x h))
    | inr past ↦
        let d : place j i - place y x ≡ suc (place j i - place (next_y y x) (next_x x)) =
          ground (arith, place_next y x h) in
        rw (late, d) (ground (arith, place_next y x h))
  ]
]

scan_rest :
    (c : ℕ) (cs : Bytes) (y x : ℕ) (b : Board) (f : Fleet)
    → (scan (c ∷ cs) y x b f).error ≡ none
    → (f' : Fleet) × (scan (c ∷ cs) y x b f
        ≡ scan cs (next_y y x) (next_x x) (put_square b y x c) f')
unfolding scan
scan_rest c cs y x b f e = elim (Square-cases (square c)) [
  | inl s ↦ absurd (ground arith)
  | inr (inl s) ↦ absurd (ground arith)
  | inr (inr (inl s)) ↦ (f, scan-water c cs y x b f s)
  | inr (inr (inr (n, s))) ↦ elim (Bool-cases (touches b y x n)) [
    | inl t ↦ absurd (ground arith)
    | inr t ↦ elim (Bool-cases (ship_place (f n) x y).0) [
      | inl good ↦ (_, scan-part c n cs y x b f s t good)
      | inr bad ↦ absurd (ground arith)
    ]
  ]
]

scan-board :
    (cs : Bytes) (y x : ℕ) (b : Board) (f : Fleet)
    → x < 10
    → (scan cs y x b f).error ≡ none
    → (j i : ℕ) → i < 10
    → place j i < place y x + length cs
    → (scan cs y x b f).board j i
      ≡ (if ltb (place j i) (place y x) then b j i else get_or cs (place j i - place y x) 0)
unfolding scan
scan-board [] y x b f h e j i hi k = ground arith
scan-board (c ∷ cs) y x b f h e j i hi k =
    let (f', go) = scan_rest c cs y x b f e in
    put_next y x c j i cs b _ h hi (
      rw go (
        scan-board cs (next_y y x) (next_x x) _ f' (next_in_row x h) (rw go at e) j i hi
          (omega (arith, place_next y x h))))

at_place :
    (text : Bytes) (v k : ℕ) → (if ltb k 0 then v else get_or text (k - 0) 0) ≡ get_or text k 0
at_place text v zero = refl
at_place text v (suc k) = ground arith

-- After a request that was accepted each square of the board holds the character sent for it.
pub place_fleet-board :
    (player : ℕ) (text : Bytes) (b : Board) (f : Fleet)
    → length text ≡ 100
    → (place_fleet player text b f).error ≡ none
    → (j i : ℕ) → j < 10
    → i < 10
    → (place_fleet player text b f).board j i ≡ get_or text (10 * j + i) 0
unfolding place_fleet
place_fleet-board player text b f l e j i hj hi = elim (Option-cases (scan text 0 0 b f).error) [
  | inr (code, bad) ↦ absurd (ground arith)
  | inl through ↦ elim (Bool-cases (lengths_from 0 ship_lengths (scan text 0 0 b f).fleet)) [
    | inr short ↦ absurd (ground arith)
    | inl sized ↦
        rw (through, place_fleet, sized)
          (scan-board text 0 0 b f (omega arith) through j i hi (omega arith)
            ∙ at_place text (b j i) (10 * j + i))
  ]
]

-- What is on the board before the request has no influence on its error and on the ships.
place_fleet_any_board :
    (player : ℕ) (text : Bytes) (b b' : Board) (f : Fleet)
    → SameResult (place_fleet player text b f) (place_fleet player text b' f)
unfolding place_fleet
place_fleet_any_board player text b b' f =
    let (ee, ef) = scan_congr text 0 0 b b' f (omega arith) (λ j i p. absurd (ground arith)) in
    elim (Option-cases (scan text 0 0 b f).error) [
      | inr (code, bad) ↦ let bad' = sym ee ∙ bad in rw (bad, bad', place_fleet) (ee, ef)
      | inl through ↦
          let through' = sym ee ∙ through in
          elim (Bool-cases (lengths_from 0 ship_lengths (scan text 0 0 b f).fleet)) [
            | inl sized ↦
                let sized' = rw ef at sized in
                rw (through, through', place_fleet, sized, sized') (ee, ef)
            | inr short ↦
                let short' = rw ef at short in
                rw (through, through', place_fleet, short, short') (refl, refl)
          ]
    ]

scan-error :
    (cs : Bytes) (y x : ℕ) (b : Board) (f : Fleet) (e : ℕ)
    → (scan cs y x b f).error ≡ some e
    → (scan cs y x b f).fleet ≡ clean_ships
unfolding scan
scan-error [] y x b f e h = cc
scan-error (c ∷ cs) y x b f e h = elim (Square-cases (square c)) [
  | inl s ↦ rw (s, scan)
  | inr (inl s) ↦ rw (s, scan)
  | inr (inr (inl s)) ↦
      rw (scan-water c cs y x b f s)
        (scan-error cs (next_y y x) (next_x x) _ f e (rw (scan-water c cs y x b f s) at h))
  | inr (inr (inr (n, s))) ↦ elim (Bool-cases (touches b y x n)) [
    | inl t ↦ rw (s, scan, t)
    | inr t ↦ elim (Bool-cases (ship_place (f n) x y).0) [
      | inr bad ↦ rw (s, scan, t, bad)
      | inl good ↦ rw (scan-part c n cs y x b f s t good) (
          scan-error cs (next_y y x) (next_x x) _ _ e (rw (scan-part c n cs y x b f s t good) at h))
    ]
  ]
]

-- After an error all the ships of the player are as in a new game.
pub place_fleet-error :
    (player : ℕ) (text : Bytes) (b : Board) (f : Fleet) (e : ℕ)
    → (place_fleet player text b f).error ≡ some e
    → (place_fleet player text b f).fleet ≡ clean_ships
unfolding place_fleet
place_fleet-error player text b f e h = elim (Option-cases (scan text 0 0 b f).error) [
  | inr (code, bad) ↦ rw (bad, place_fleet) (scan-error text 0 0 b f code bad)
  | inl through ↦ elim (Bool-cases (lengths_from 0 ship_lengths (scan text 0 0 b f).fleet)) [
    | inl sized ↦ absurd (ground arith)
    | inr short ↦ rw (through, place_fleet, short)
  ]
]
