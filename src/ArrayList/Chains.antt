-- ===== src/ArrayList/Chains.antt =====
-- What the chains of structures/arraylist.c mean: a list of used and a list of free indices.
use ups_sp.Prelude.{
  ℕ, ◌+◌, ◌≤◌, ◌<◌, ◌≡◌, Option, none, some, List, [], ◌∷◌, ◌++◌, arith, length, set, take, count,
  erase, ltb, ◌==◌, if◌then◌else◌, get_or-set, get_or-take_append,
}
use ups_sp.ArrayList.{Link, nil, at, ArrayList, cell}

abbrev pub link : List ℕ → Link
link [] = nil
link (x ∷ xs) = at x

-- the cells of `next` lead along the list and end in -1
abbrev pub Linked : List (Option Link) → List ℕ → Type 0
Linked ns [] = Unit {0}
Linked ns (x ∷ xs) = (cell ns x ≡ some (link xs)) × Linked ns xs

pub Linked-set :
    (ns : List (Option Link)) (p : ℕ) (v : Link) (xs : List ℕ)
    → count p xs ≡ 0
    → p < length ns
    → Linked ns xs
    → Linked (set ns p (some v)) xs
Linked-set ns p v [] c b h = tt
Linked-set ns p v (x ∷ xs) c b h = (
  ground (arith, get_or-set ns p x (some v) none, h.0),
  Linked-set ns p v xs (ground arith) b h.1,
)

-- every index below the capacity is in one of the two lists, once
abbrev pub Parts : ℕ → List ℕ → List ℕ → Type 0
Parts n used free = (i : ℕ) → count i used + count i free ≡ (if ltb i n then 1 else 0)

pub record IsValid {ℓ} {A : Type ℓ} (l : ArrayList A) (used free : List ℕ) : Type ℓ where
  pub first_used : l.first ≡ link used
  pub first_free : l.empty ≡ link free
  pub used_linked : Linked l.next used
  pub free_linked : Linked l.next free
  pub parts : Parts l.capacity used free
  pub total : length used + length free ≡ l.capacity
  pub counted : length used ≤ l.size
  pub wide_next : l.capacity ≤ length l.next
  pub wide_items : l.capacity ≤ length l.items

-- what the list holds, newest first
abbrev pub entries {ℓ} : {A : Type ℓ} → List (Option A) → List ℕ → List (ℕ × Option A)
entries items [] = []
entries items (x ∷ xs) = (x, cell items x) ∷ entries items xs

pub count-erase :
    (i j : ℕ) (xs : List ℕ)
    → count i xs ≡ 1
    → count j (erase i xs) + (if j == i then 1 else 0) ≡ count j xs
count-erase i j [] h = absurd (omega arith)
count-erase i j (x ∷ xs) h = ground (arith, count-erase i j xs)

pub length-erase : (i : ℕ) (xs : List ℕ) → count i xs ≡ 1 → length (erase i xs) + 1 ≡ length xs
length-erase i [] h = absurd (omega arith)
length-erase i (x ∷ xs) h = ground (arith, length-erase i xs)

pub count-lt :
    (n i : ℕ) (used free : List ℕ) → Parts n used free → 0 < count i used + count i free → i < n
count-lt n i used free h c = ground (arith, h i)

pub Linked-wider :
    (n : ℕ) (ns ms : List (Option Link)) (xs : List ℕ)
    → n ≤ length ns
    → ((i : ℕ) → 0 < count i xs → i < n)
    → Linked ns xs
    → Linked (take n ns ++ ms) xs
Linked-wider n ns ms [] w b h = tt
Linked-wider n ns ms (x ∷ xs) w b h = (
  ground (arith, get_or-take_append n ns ms x none, b x, h.0),
  Linked-wider n ns ms xs w (λ i c. b i (ground arith)) h.1,
)
