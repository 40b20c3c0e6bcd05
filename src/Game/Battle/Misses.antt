-- ===== src/Game/Battle/Misses.antt =====
-- A miss on a board in play.
use ups_sp.Prelude.{ℕ, ◌+◌, ◌<◌, ◌≡◌, inl, inr, sym, ap, ◌∙◌, true, arith}
use ups_sp.Prelude.Int.{pos}
use ups_sp.Game.Board.{Board, empty_square, missed_square, put_square}
use ups_sp.Game.Placement.{Fleet}
use ups_sp.Game.Placement.Lines.{covers}
use ups_sp.Game.Battle.{afloat, InPlay, count_line-agree, covers-line}
use ups_sp.Game.Battle.Remains.{remains, remains-kept}

module _ (b : Board) (f : Fleet) (y x : ℕ) (ip : InPlay b f) (water : b y x ≡ empty_square) where
  abbrev after : Board
  after = put_square b y x missed_square

  dry : (m j i : ℕ) → m < 7 → covers (f m) j i ≡ true → after j i ≡ b j i
  unfolding put_square
  dry m j i hm c = elim (ip.own m hm j i c) [ inl e ↦ ground arith | inr e ↦ ground arith ]

  afloat-miss : (m : ℕ) → m < 7 → afloat after f m ≡ afloat b f m
  unfolding afloat
  afloat-miss m hm =
      let (y0, x0, p) = ip.on_board m hm in
      count_line-agree _ _ _ _ b after (b'0' + m)
        (λ j i l. dry m j i hm (covers-line (f m) y0 x0 p j i ∙ rw (p.0, p.1) at l))

  pub InPlay-miss : InPlay after f
  unfolding put_square
  InPlay-miss = record {
    on_board = ip.on_board;
    own = λ m hm j i c. rw (dry m j i hm c) (ip.own m hm j i c);
    only = λ m hm j i hj hi e. ip.only m hm j i hj hi (ground arith);
    apart = ip.apart;
    health = λ m hm. ip.health m hm ∙ ap pos (sym (afloat-miss m hm));
  }

  pub remains-miss : remains 7 after f ≡ remains 7 b f
  remains-miss = remains-kept 7 b after f afloat-miss
