-- ===== src/Game/Battle/Placed.antt =====
-- A board that cmd_game_prepared has accepted is in play.
use ups_sp.Prelude.{
  ℕ, zero, suc, ◌+◌, ◌<◌, ◌≡◌, inl, refl, sym, ap, ◌∙◌, Bool, true, false, arith, get_or,
}
use ups_sp.Prelude.Int.{pos}
use ups_sp.Game.Board.{Board}
use ups_sp.Game.Ship.{ship_lengths}
use ups_sp.Game.Placement.{Fleet}
use ups_sp.Game.Placement.Lines.{covers, line}
use ups_sp.Game.Placement.Fleets.{IsPlacement}
use ups_sp.Game.Battle.{count_line, afloat, sunk_ships, InPlay, covers-line, covers-board}
use ups_sp.Game.Battle.Remains.{remains}

count_line-all :
    (v : Bool) (n y x : ℕ) (b : Board) (c : ℕ)
    → ((j i : ℕ) → line v n y x j i ≡ true → b j i ≡ c)
    → count_line v n y x b c ≡ n
unfolding count_line
count_line-all v zero y x b c at = refl
count_line-all true (suc n) y x b c at =
    let first = at y x (ground arith) in
    let rest = count_line-all true n (y + 1) x b c (λ j i e. at j i (ground arith)) in
    rw rest (ground arith)
count_line-all false (suc n) y x b c at =
    let first = at y x (ground arith) in
    let rest = count_line-all false n y (x + 1) b c (λ j i e. at j i (ground arith)) in
    rw rest (ground arith)

module _ (b : Board) (f : Fleet) (p : IsPlacement b f) where
  full : (n : ℕ) → n < 7 → afloat b f n ≡ (f n).length
  unfolding afloat
  full n h =
      let (y, x, at) = p.on_board n h in
      rw (at.0, at.1)
        (count_line-all (f n).vertical (f n).length y x b (b'0' + n) (λ j i l.
          let c = covers-line (f n) y x at j i ∙ l in
          let (hj, hi) = covers-board (f n) y x at j i c in
          let same = sym (p.lines n h j i hj hi) ∙ c in ground arith))

  digit_covered :
      (n j i : ℕ) → n < 7 → covers (f n) j i ≡ true → (j < 10) × (i < 10) × (b j i ≡ b'0' + n)
  digit_covered n j i h c =
      let (y, x, at) = p.on_board n h in
      let (hj, hi) = covers-board (f n) y x at j i c in
      let same = sym (p.lines n h j i hj hi) ∙ c in (hj, hi, ground arith)

  pub IsPlacement-InPlay : InPlay b f
  IsPlacement-InPlay = record {
    on_board = p.on_board;
    own = λ n h j i c. let (hj, hi, e) = digit_covered n j i h c in inl e;
    only = λ n h j i hj hi e. p.lines n h j i hj hi ∙ ground arith;
    apart = λ n m h k j i j' i' c c' nj ni.
        let (hj, hi, e) = digit_covered n j i h c in
        let (hj', hi', e') = digit_covered m j' i' k c' in
        let same = p.apart j i j' i' hj hi hj' hi' nj ni (ground arith) (ground arith) in
        omega arith;
    health = λ n h. p.health n h ∙ ap pos (sym (full n h));
  }

  afloat_length : (n : ℕ) → n < 7 → afloat b f n ≡ get_or ship_lengths n 0
  afloat_length n h = full n h ∙ p.lengths n h

  pub remains-IsPlacement : remains 7 b f ≡ 17
  unfolding remains
  remains-IsPlacement = rw (
    afloat_length 0 (omega arith),
    afloat_length 1 (omega arith),
    afloat_length 2 (omega arith),
    afloat_length 3 (omega arith),
    afloat_length 4 (omega arith),
    afloat_length 5 (omega arith),
    afloat_length 6 (omega arith),
  )

  health_length : (n : ℕ) → n < 7 → (f n).health ≡ pos (get_or ship_lengths n 0)
  health_length n h = p.health n h ∙ ap pos (p.lengths n h)

  pub sunk_ships-IsPlacement : sunk_ships 7 f ≡ 0
  unfolding sunk_ships
  sunk_ships-IsPlacement = rw (
    health_length 0 (omega arith),
    health_length 1 (omega arith),
    health_length 2 (omega arith),
    health_length 3 (omega arith),
    health_length 4 (omega arith),
    health_length 5 (omega arith),
    health_length 6 (omega arith),
  )
