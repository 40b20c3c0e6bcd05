-- ===== src/Commands/Texts.antt =====
-- Texts of numbers, as the arguments of a request hold them, without the code's own tests.
use ups_sp.Prelude.{
  ℕ, ◌≤◌, ◌<◌, ◌≡◌, ◌⊎◌, inl, inr, refl, true, false, Option, none, some, [], ◌∷◌, ◌++◌, Bytes,
  length, arith,
}
use ups_sp.Prelude.Int.{ℤ, pos, negsuc}
use ups_sp.Server.{Libc}
use ups_sp.Commands.Args.{Args, all_digits, number, coordinates}

-- every character is one of 0 to 9
abbrev pub Digits : Bytes → Type 0
Digits [] = Unit {0}
Digits (c ∷ cs) = (b'0' ≤ c) × (c ≤ b'9') × Digits cs

abbrev pub Numeral : Bytes → Type 0
Numeral text = (0 < length text) × Digits text

-- a missing argument, an empty one, or one with another character
pub data NoNumeral (arg : Option Bytes) : Type 0 where
  absent : arg ≡ none → NoNumeral arg
  empty : arg ≡ some [] → NoNumeral arg
  odd :
      (before after : Bytes) (c : ℕ)
      → arg ≡ some (before ++ (c ∷ after))
      → (c < b'0') ⊎ (b'9' < c)
      → NoNumeral arg

-- a number that is no index below n
abbrev pub Outside : ℕ → ℤ → Type 0
Outside n z = ((k : ℕ) × (z ≡ negsuc k)) ⊎ ((k : ℕ) × (z ≡ pos k) × (n ≤ k))

all_digits-Digits : (text : Bytes) → Digits text → all_digits text ≡ true
unfolding all_digits
all_digits-Digits [] d = refl
all_digits-Digits (c ∷ cs) (low, high, d) = ground (arith, all_digits-Digits cs d)

pub number-Numeral :
    (libc : Libc) (text : Bytes) → Numeral text → number libc text ≡ some (libc.atoi text)
unfolding number
number-Numeral libc [] (long, d) = absurd (omega arith)
number-Numeral libc (c ∷ cs) (long, d) = rw (all_digits-Digits (c ∷ cs) d) refl

pub all_digits-odd :
    (before after : Bytes) (c : ℕ)
    → (c < b'0') ⊎ (b'9' < c)
    → all_digits (before ++ (c ∷ after)) ≡ false
unfolding all_digits
all_digits-odd [] after c (inl low) = ground arith
all_digits-odd [] after c (inr high) = ground arith
all_digits-odd (x ∷ xs) after c out = ground (arith, all_digits-odd xs after c out)

number_odd : (libc : Libc) (text : Bytes) → all_digits text ≡ false → number libc text ≡ none
unfolding number all_digits
number_odd libc [] e = refl
number_odd libc (c ∷ cs) e = rw e refl

pub number-NoNumeral :
    (libc : Libc) (text : Bytes) → NoNumeral (some text) → number libc text ≡ none
unfolding number
number-NoNumeral libc text (absent e) = absurd (ground arith)
number-NoNumeral libc text (empty e) = let is : text ≡ [] = ground arith in rw is refl
number-NoNumeral libc text (odd before after c e out) =
    let is : text ≡ before ++ (c ∷ after) = ground arith in
    rw is (number_odd libc (before ++ (c ∷ after)) (all_digits-odd before after c out))

-- the arguments are not two numbers
pub data NoPair (argv : Args) : Type 0 where
  no_argument : argv ≡ [] → NoPair argv
  one_argument : (a : Option Bytes) → argv ≡ a ∷ [] → NoPair argv
  first_odd : (a b : Option Bytes) (rest : Args) → argv ≡ a ∷ b ∷ rest → NoNumeral a → NoPair argv
  second_odd : (a b : Option Bytes) (rest : Args) → argv ≡ a ∷ b ∷ rest → NoNumeral b → NoPair argv

first_none :
    (libc : Libc) (a b : Option Bytes) (rest : Args)
    → NoNumeral a
    → coordinates libc (a ∷ b ∷ rest) ≡ none
unfolding coordinates
first_none libc none b rest n = ground arith
first_none libc (some a) none rest n = refl
first_none libc (some a) (some b) rest n = rw (number-NoNumeral libc a n) refl

second_none :
    (libc : Libc) (a b : Option Bytes) (rest : Args)
    → NoNumeral b
    → coordinates libc (a ∷ b ∷ rest) ≡ none
unfolding coordinates
second_none libc none b rest n = ground arith
second_none libc (some a) none rest n = refl
second_none libc (some a) (some b) rest n = ground (arith, number-NoNumeral libc b n)

pub coordinates-NoPair : (libc : Libc) (argv : Args) → NoPair argv → coordinates libc argv ≡ none
unfolding coordinates
coordinates-NoPair libc argv (no_argument e) = rw e refl
coordinates-NoPair libc argv (one_argument none e) = rw e refl
coordinates-NoPair libc argv (one_argument (some a) e) = rw e refl
coordinates-NoPair libc argv (first_odd a b rest e n) = rw e (first_none libc a b rest n)
coordinates-NoPair libc argv (second_odd a b rest e n) = rw e (second_none libc a b rest n)

pub coordinates-Numeral :
    (libc : Libc) (a b : Bytes) (rest : Args)
    → Numeral a
    → Numeral b
    → coordinates libc (some a ∷ some b ∷ rest) ≡ some (libc.atoi a, libc.atoi b)
unfolding coordinates
coordinates-Numeral libc a b rest x y = rw (number-Numeral libc a x, number-Numeral libc b y) refl
