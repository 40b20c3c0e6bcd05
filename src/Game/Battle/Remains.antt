-- ===== src/Game/Battle/Remains.antt =====
-- The squares of a fleet that are not hit, over all its ships.
use ups_sp.Prelude.{
  ℕ, zero, suc, ◌+◌, ◌≤◌, ◌<◌, ◌≡◌, inl, inr, refl, false, ◌==◌, if◌then◌else◌, arith, Bool-cases,
  ltb,
}
use ups_sp.Prelude.Int.{pos, leb_ℤ}
use ups_sp.Game.Board.{Board}
use ups_sp.Game.Placement.{Fleet}
use ups_sp.Game.Battle.{afloat, sunk_ships}

-- of the ships below n
unfoldable pub remains : ℕ → Board → Fleet → ℕ
remains zero b f = 0
remains (suc n) b f = afloat b f n + remains n b f

pub remains-lost :
    (k : ℕ) (b b' : Board) (f f' : Fleet) (n : ℕ)
    → afloat b f n ≡ afloat b' f' n + 1
    → ((m : ℕ) → m < k → (m == n) ≡ false → afloat b' f' m ≡ afloat b f m)
    → remains k b f ≡ remains k b' f' + (if ltb n k then 1 else 0)
unfolding remains
remains-lost zero b b' f f' n lost same = ground arith
remains-lost (suc k) b b' f f' n lost same =
    let rest = remains-lost k b b' f f' n lost (λ m hm ne. same m (omega arith) ne) in
    elim (Bool-cases (k == n)) [
      | inl here ↦
          let e : k ≡ n = ground arith in
          let one : afloat b f k ≡ afloat b' f' k + 1 = rw e lost in rw (one, rest) (ground arith)
      | inr other ↦ rw (same k (omega arith) other, rest) (ground arith)
    ]

pub remains-kept :
    (k : ℕ) (b b' : Board) (f : Fleet)
    → ((m : ℕ) → m < k → afloat b' f m ≡ afloat b f m)
    → remains k b' f ≡ remains k b f
unfolding remains
remains-kept zero b b' f same = refl
remains-kept (suc k) b b' f same =
    let rest = remains-kept k b b' f (λ m hm. same m (omega arith)) in
    rw (same k (omega arith), rest)

-- all ships are sunk exactly when no square remains
pub sunk_ships-remains :
    (k : ℕ) (b : Board) (f : Fleet)
    → ((m : ℕ) → m < k → (f m).health ≡ pos (afloat b f m))
    → (sunk_ships k f ≤ k) × ((sunk_ships k f == k) ≡ (remains k b f == 0))
unfolding sunk_ships remains
sunk_ships-remains zero b f e = (ground arith, ground arith)
sunk_ships-remains (suc k) b f e =
    let (few, same) = sunk_ships-remains k b f (λ m hm. e m (omega arith)) in
    let top : leb_ℤ (f k).health (pos 0) ≡ (afloat b f k == 0) =
      rw (e k (omega arith)) (ground arith) in
    rw top (ground (arith, few, same), ground (arith, few, same))
