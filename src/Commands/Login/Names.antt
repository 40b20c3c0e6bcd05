-- ===== src/Commands/Login/Names.antt =====
-- The names that `cmd_login` takes, without the code's own tests.
use ups_sp.Prelude.{
  ℕ, ◌≤◌, ◌<◌, ◌≡◌, ◌⊎◌, inl, inr, refl, true, false, [], ◌∷◌, ◌++◌, Bytes, length, arith,
  Bool-cases,
}
use ups_sp.Prelude.Int.{leb_ℤ}
use ups_sp.Server.{World}
use ups_sp.Commands.Login.{is_name, is_alnum, all_alnum, players_full}

-- a digit, a capital or a small letter of ASCII
abbrev pub Letter : ℕ → Type 0
Letter c = ((b'0' ≤ c) × (c ≤ b'9')) ⊎ (((b'A' ≤ c) × (c ≤ b'Z')) ⊎ ((b'a' ≤ c) × (c ≤ b'z')))

abbrev pub Letters : Bytes → Type 0
Letters [] = Unit {0}
Letters (c ∷ cs) = Letter c × Letters cs

-- a character between or beside these ranges
abbrev pub Other : ℕ → Type 0
Other c = (c < b'0') ⊎ (((b'9' < c) × (c < b'A')) ⊎ (((b'Z' < c) × (c < b'a')) ⊎ (b'z' < c)))

-- one to 20 digits and letters
abbrev pub GoodName : Bytes → Type 0
GoodName name = (0 < length name) × (length name ≤ 20) × Letters name

pub data BadName (name : Bytes) : Type 0 where
  empty : name ≡ [] → BadName name
  long : 20 < length name → BadName name
  odd : (before after : Bytes) (c : ℕ) → name ≡ before ++ (c ∷ after) → Other c → BadName name

is_alnum-Letter : (c : ℕ) → Letter c → is_alnum c ≡ true
is_alnum-Letter c (inl d) = ground arith
is_alnum-Letter c (inr (inl d)) = ground arith
is_alnum-Letter c (inr (inr d)) = ground arith

is_alnum-Other : (c : ℕ) → Other c → is_alnum c ≡ false
is_alnum-Other c (inl d) = ground arith
is_alnum-Other c (inr (inl d)) = ground arith
is_alnum-Other c (inr (inr (inl d))) = ground arith
is_alnum-Other c (inr (inr (inr d))) = ground arith

all_alnum-Letters : (text : Bytes) → Letters text → all_alnum text ≡ true
unfolding all_alnum
all_alnum-Letters [] l = refl
all_alnum-Letters (c ∷ cs) (here, rest) =
    rw (is_alnum-Letter c here, all_alnum-Letters cs rest) refl

all_alnum-odd : (before after : Bytes) (c : ℕ) → Other c → all_alnum (before ++ (c ∷ after)) ≡ false
unfolding all_alnum
all_alnum-odd [] after c o = rw (is_alnum-Other c o) refl
all_alnum-odd (x ∷ xs) after c o = elim (Bool-cases (is_alnum x)) [
  | inl e ↦ rw (e, all_alnum-odd xs after c o) refl
  | inr e ↦ rw e refl
]

pub is_name-GoodName : (name : Bytes) → GoodName name → is_name name ≡ true
unfolding is_name
is_name-GoodName [] (some_char, short, l) = absurd (omega arith)
is_name-GoodName (c ∷ cs) (some_char, short, l) =
    rw (all_alnum-Letters (c ∷ cs) l) (ground (arith, short))

not_all : (name : Bytes) → all_alnum name ≡ false → is_name name ≡ false
unfolding is_name
not_all [] e = refl
not_all (c ∷ cs) e = rw e (ground arith)

too_long : (name : Bytes) → 20 < length name → is_name name ≡ false
unfolding is_name
too_long [] e = refl
too_long (c ∷ cs) e = ground arith

pub is_name-BadName : (name : Bytes) → BadName name → is_name name ≡ false
unfolding is_name
is_name-BadName name (empty e) = rw e refl
is_name-BadName name (long e) = too_long name e
is_name-BadName name (odd before after c e o) =
    rw e (not_all (before ++ (c ∷ after)) (all_alnum-odd before after c o))

-- as many players are counted as there may be, or more
pub players_full-reached : (w : World) → players_full w ≡ leb_ℤ w.max_players w.curr_players
players_full-reached w = ground arith
