-- ===== src/ArrayList/Unlinks.antt =====
-- The chain of used slots without one of them.
use ups_sp.Prelude.{
  ℕ, zero, suc, ◌≤◌, ◌<◌, ◌≡◌, ◌≢◌, inl, inr, Option, none, some, List, [], ◌∷◌, arith, length, set,
  count, erase, ◌==◌, if◌then◌else◌, get_or-set, Bool-cases,
}
use mathlib.Core.Path.{subst₂}
use ups_sp.ArrayList.{Link, at, ArrayList, cell, unlink, delete_from}
use ups_sp.ArrayList.Chains.{link, Linked, Linked-set, Parts, count-erase}

-- the slot in front of i
abbrev pub before : ℕ → ℕ → List ℕ → ℕ
before i x [] = x
before i x (y ∷ xs) = if i == y then x else before i y xs

pub delete_from-found {ℓ} :
    {A : Type ℓ} (fuel : ℕ) (l : ArrayList A) (x : ℕ) (xs : List ℕ) (i : ℕ)
    → Linked l.next (x ∷ xs)
    → count i xs ≡ 1
    → length (x ∷ xs) < fuel
    → delete_from fuel l (at x) i ≡ unlink l (before i x xs) i
unfolding delete_from
delete_from-found zero l x xs i h c f = absurd (omega arith)
delete_from-found (suc fuel) l x [] i h c f = absurd (omega arith)
delete_from-found (suc fuel) l x (y ∷ xs) i h c f =
    ground (arith, delete_from-found fuel l y xs i h.1)

pub erase-head : (i : ℕ) (xs : List ℕ) → erase i (i ∷ xs) ≡ xs
erase-head i xs = ground arith

pub erase-ne : (i x : ℕ) (xs : List ℕ) → i ≢ x → x ∷ erase i xs ≡ erase i (x ∷ xs)
erase-ne i x xs ne = ground arith

pub count-before : (i x : ℕ) (xs : List ℕ) → 0 < count (before i x xs) (x ∷ xs)
count-before i x [] = ground arith
count-before i x (y ∷ xs) = ground (arith, count-before i y xs)

before-ne : (i x : ℕ) (xs : List ℕ) → count i (x ∷ xs) ≡ 1 → count i xs ≡ 1 → before i x xs ≢ i
before-ne i x [] d c = absurd (omega arith)
before-ne i x (y ∷ xs) d c = ground (arith, before-ne i y xs)

not-head : (x p : ℕ) (ys : List ℕ) → count x (x ∷ ys) ≤ 1 → 0 < count p ys → p ≢ x
not-head x p ys d c same = let c' = rw same at c in ground arith

pub after-i :
    (ns : List (Option Link)) (xs : List ℕ) (i : ℕ)
    → Linked ns xs
    → count i xs ≡ 1
    → (v : Link) × (cell ns i ≡ some v)
after-i ns [] i h c = absurd (omega arith)
after-i ns (x ∷ xs) i h c = elim (Bool-cases (i == x)) [
  | inl hit ↦ (link xs, ground arith)
  | inr miss ↦ after-i ns xs i h.1 (ground arith)
]

pub Parts-once : (n j : ℕ) (used free : List ℕ) → Parts n used free → count j used ≤ 1
Parts-once n j used free h = ground (arith, h j)

pub Parts-apart :
    (n j : ℕ) (used free : List ℕ) → Parts n used free → 0 < count j used → count j free ≡ 0
Parts-apart n j used free h c = ground (arith, h j)

pub Parts-move :
    (n i x : ℕ) (used free : List ℕ)
    → Parts n (x ∷ used) free
    → count i used ≡ 1
    → Parts n (x ∷ erase i used) (i ∷ free)
Parts-move n i x used free h c j = omega (arith, h j, count-erase i j used c)

pub count-erase_self :
    (i x : ℕ) (used : List ℕ) → i ≢ x → count i used ≡ 1 → count i (x ∷ erase i used) ≡ 0
count-erase_self i x used ne c = ground (arith, count-erase i i used c)

-- the cell in front of i is redirected to what follows i
pub Linked-unlink :
    (ns : List (Option Link)) (x : ℕ) (xs : List ℕ) (i : ℕ) (v : Link)
    → Linked ns (x ∷ xs)
    → count i xs ≡ 1
    → ((j : ℕ) → count j (x ∷ xs) ≤ 1)
    → cell ns i ≡ some v
    → before i x xs < length ns
    → Linked (set ns (before i x xs) (some v)) (x ∷ erase i xs)
Linked-unlink ns x [] i v h c d e b = absurd (omega arith)
Linked-unlink ns x (y ∷ xs) i v h c d e b = elim (Bool-cases (i == y)) [
  | inl hit ↦
      let p : x ≡ before i x (y ∷ xs) = ground arith in
      let q : xs ≡ erase i (y ∷ xs) = ground arith in
      subst₂ (λ b es. Linked (set ns b (some v)) (x ∷ es)) p q
        (
          ground (arith, get_or-set ns x x (some v) none),
          Linked-set ns x v xs (ground (arith, d x)) (ground arith) h.1.1,
        )
  | inr miss ↦
      let p : before i y xs ≡ before i x (y ∷ xs) = ground arith in
      let q : y ∷ erase i xs ≡ erase i (y ∷ xs) = ground arith in
      let off = not-head x (before i y xs) (y ∷ xs) (d x) (count-before i y xs) in
      subst₂ (λ b es. Linked (set ns b (some v)) (x ∷ es)) p q
        (
          ground (arith, off, get_or-set ns (before i y xs) x (some v) none),
          Linked-unlink ns y xs i v h.1 (ground arith) (λ j. ground (arith, d j)) e (ground arith),
        )
]
