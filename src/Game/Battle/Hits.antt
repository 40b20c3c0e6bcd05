-- ===== src/Game/Battle/Hits.antt =====
-- A hit on a board in play.
use ups_sp.Prelude.{
  ℕ, ◌+◌, ◌<◌, ◌≡◌, ◌⊎◌, inl, inr, sym, ap, ◌∙◌, Bool, true, false, ◌&&◌, ◌==◌, if◌then◌else◌,
  arith, Bool-cases,
}
use ups_sp.Prelude.Int.{pos, pos_part, ◌-ℤ◌, leb_ℤ}
use ups_sp.Game.Board.{Board, hit_square, missed_square, put_square}
use ups_sp.Game.Ship.{Ship}
use ups_sp.Game.Marking.Ring.{ring, IsOnBoard}
use ups_sp.Game.Placement.{Fleet}
use ups_sp.Game.Placement.Lines.{covers, line}
use ups_sp.Game.Battle.Remains.{remains, remains-lost}
use ups_sp.Game.Battle.{
  count_line, afloat, sunk_ships, InPlay, count_line-agree, count_line-lost, covers-line, ring-Near,
  sunk_ships-lost,
}

line_pos : (v : Bool) (n y x j i : ℕ) → line v n y x j i ≡ true → 0 < n
line_pos true n y x j i e = ground arith
line_pos false n y x j i e = ground arith

module _ (b b' : Board) (f f' : Fleet) (n sy sx y x : ℕ) (d : Bool) (ip : InPlay b f) (h : n < 7)
    (hy : y < 10) (hx : x < 10) (digit : b y x ≡ b'0' + n) (placed : IsOnBoard (f n) sy sx)
    (dies : d ≡ leb_ℤ ((f n).health -ℤ pos 1) (pos 0))
    (board : (j i : ℕ)
      → b' j i
        ≡ (if d && ring (f n) sy sx j i then missed_square else put_square b y x hit_square j i))
    (target : f' n ≡ record (f n) { health = (f n).health -ℤ pos 1 })
    (rest : (m : ℕ) → (m == n) ≡ false → f' m ≡ f m) where
  covered : covers (f n) y x ≡ true
  covered = ip.only n h y x hy hx digit

  not_empty : 0 < (f n).length
  not_empty = line_pos _ _ _ _ y x (sym (covers-line (f n) sy sx placed y x) ∙ covered)

  ring_free : (m j i : ℕ) → m < 7 → covers (f m) j i ≡ true → ring (f n) sy sx j i ≡ false
  ring_free m j i hm c = elim (Bool-cases (ring (f n) sy sx j i)) [
    | inr out ↦ out
    | inl r ↦
        let (off, (k, l, on, nj, ni)) = ring-Near (f n) sy sx placed not_empty j i r in
        let same : m ≡ n = ip.apart m n hm h j i k l c on nj ni in
        absurd (ground (arith, same, off, c))
  ]

  at_ship : (m j i : ℕ) → m < 7 → covers (f m) j i ≡ true → b' j i ≡ put_square b y x hit_square j i
  at_ship m j i hm c = let out = ring_free m j i hm c in ground (arith, out, board j i)

  at_target : b' y x ≡ hit_square
  unfolding put_square
  at_target = at_ship n y x h covered ∙ ground arith

  -- no other square of a ship changes
  at_others :
      (m j i : ℕ) → m < 7 → covers (f m) j i ≡ true → (j == y && i == x) ≡ false → b' j i ≡ b j i
  unfolding put_square
  at_others m j i hm c ne = at_ship m j i hm c ∙ rw ne

  -- the square that is hit is of no other ship
  elsewhere :
      (m j i : ℕ) → m < 7 → (m == n) ≡ false → covers (f m) j i ≡ true → (j == y && i == x) ≡ false
  elsewhere m j i hm ne c = elim (Bool-cases (j == y && i == x)) [
    | inr out ↦ out
    | inl same ↦
        let one : m ≡ n =
          ip.apart m n hm h j i y x c covered (ground arith, ground arith)
            (ground arith, ground arith) in
        absurd (ground arith)
  ]

  reshaped : (m : ℕ) → f' m ≡ record (f m) { health = (f' m).health }
  reshaped m = elim (Bool-cases (m == n)) [
    | inl here ↦ let e : m ≡ n = ground arith in rw (e, target)
    | inr other ↦ rw (rest m other)
  ]

  covers_same : (m j i : ℕ) → covers (f' m) j i ≡ covers (f m) j i
  unfolding covers
  covers_same m j i = ap (λ s. covers s j i) (reshaped m)

  abbrev count_of : Ship → Board → ℕ → ℕ
  count_of s b m =
      count_line s.vertical s.length (pos_part s.start_y) (pos_part s.start_x) b (b'0' + m)

  afloat_same : (m : ℕ) → afloat b' f' m ≡ count_of (f m) b' m
  unfolding afloat
  afloat_same m = ap (λ s. count_of s b' m) (reshaped m)

  covers_as_line :
      (m j i : ℕ)
      → m < 7
      → covers (f m) j i
        ≡ line (f m).vertical (f m).length (pos_part (f m).start_y) (pos_part (f m).start_x) j i
  covers_as_line m j i hm =
      let (y0, x0, p) = ip.on_board m hm in covers-line (f m) y0 x0 p j i ∙ rw (p.0, p.1)

  afloat_others : (m : ℕ) → m < 7 → (m == n) ≡ false → afloat b' f' m ≡ afloat b f m
  unfolding afloat
  afloat_others m hm ne =
      afloat_same m
      ∙ count_line-agree _ _ _ _ b b' (b'0' + m) (λ j i l.
        let c = covers_as_line m j i hm ∙ l in at_others m j i hm c (elsewhere m j i hm ne c))

  afloat_lost : afloat b f n ≡ afloat b' f' n + 1
  unfolding afloat
  afloat_lost = rw (afloat_same n) (
      count_line-lost _ _ _ _ b b' (b'0' + n) y x (sym (covers_as_line n y x h) ∙ covered) digit
        (ground (arith, at_target)) (λ j i l ne. at_others n j i h (covers_as_line n j i h ∙ l) ne))

  health_before : (f n).health ≡ pos (afloat b' f' n + 1)
  health_before = ip.health n h ∙ ap pos afloat_lost

  health_after : (f' n).health ≡ pos (afloat b' f' n)
  health_after = ap (λ s. s.health) target ∙ rw health_before (ground arith)

  own_after :
      (m : ℕ)
      → m < 7
      → (j i : ℕ) → covers (f' m) j i ≡ true
      → (b' j i ≡ b'0' + m) ⊎ (b' j i ≡ hit_square)
  own_after m hm j i c' =
      let c = sym (covers_same m j i) ∙ c' in
      elim (Bool-cases (j == y && i == x)) [
        | inl here ↦
            let ej : j ≡ y = ground arith in
            let ei : i ≡ x = ground arith in inr (rw (ej, ei) at_target)
        | inr other ↦ rw (at_others m j i hm c other) (ip.own m hm j i c)
      ]

  only_after :
      (m : ℕ) → m < 7 → (j i : ℕ) → j < 10 → i < 10 → b' j i ≡ b'0' + m → covers (f' m) j i ≡ true
  unfolding put_square
  only_after m hm j i hj hi e =
      let old : b j i ≡ b'0' + m = ground (arith, board j i) in
      covers_same m j i ∙ ip.only m hm j i hj hi old

  health_all : (m : ℕ) → m < 7 → (f' m).health ≡ pos (afloat b' f' m)
  health_all m hm = elim (Bool-cases (m == n)) [
    | inl here ↦ let e : m ≡ n = ground arith in rw e health_after
    | inr other ↦
        ap (λ s. s.health) (rest m other) ∙ ip.health m hm ∙ ap pos (sym (afloat_others m hm other))
  ]

  IsOnBoard-after : (m : ℕ) → m < 7 → (y : ℕ) × (x : ℕ) × IsOnBoard (f' m) y x
  IsOnBoard-after m hm = let (y0, x0, p) = ip.on_board m hm in (y0, x0, rw (reshaped m) p)

  -- The board is still in play, the ship has lost one of the squares that were not hit, and
  -- it is counted as sunk if that was its last one.
  pub InPlay-hit : InPlay b' f'
  InPlay-hit = record {
    on_board = IsOnBoard-after;
    own = own_after;
    only = only_after;
    apart = λ m k hm hk j i j' i' c c' nj ni.
        ip.apart m k hm hk j i j' i' (sym (covers_same m j i) ∙ c) (sym (covers_same k j' i') ∙ c')
          nj ni;
    health = health_all;
  }

  pub sunk_ships-hit : sunk_ships 7 f' ≡ sunk_ships 7 f + (if d then 1 else 0)
  sunk_ships-hit =
      let count = sunk_ships-lost 7 f f' n (afloat b' f' n) health_before health_after rest in
      let out : d ≡ (afloat b' f' n == 0) = dies ∙ rw health_before (ground arith) in
      ground (arith, count, out)

  pub remains-hit : remains 7 b f ≡ remains 7 b' f' + 1
  remains-hit =
      let lost = remains-lost 7 b b' f f' n afloat_lost afloat_others in ground (arith, lost)
