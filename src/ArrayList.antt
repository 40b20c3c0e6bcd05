-- ===== src/ArrayList.antt =====
-- structures/arraylist.c: slots chained through the array `next` into a list of used and a list of
-- free indices. `none` as a result is undefined behaviour: an access outside an array, a read of
-- memory that was never written, or a walk that does not end.
pub mod Chains
pub mod Inserts
pub mod Unlinks
pub mod Deletes
mod Examples
use ups_sp.Prelude.{
  ℕ, zero, suc, ◌+◌, ◌-◌, Bool, true, false, Option, none, some, List, [], ◌∷◌, ◌++◌, length,
  get_or, set, take, replicate, ltb, ◌==◌, if◌then◌else◌, ◌>>=◌,
}
use ups_sp.Prelude.Int.{ℤ, pos, negsuc}

-- An index as the source stores it; `nil` is -1.
pub data Link : Type 0 where
  nil : Link
  at : ℕ → Link

-- `items` is the member `data`. The member `last` is never used.
pub record ArrayList {ℓ} (A : Type ℓ) : Type ℓ where
  pub capacity : ℕ
  pub size : ℕ
  pub empty : Link
  pub first : Link
  pub items : List (Option A)
  pub next : List (Option Link)

-- `next[i] = i + 1` for n rounds, and -1 in the last cell
unfoldable pub links : ℕ → ℕ → List (Option Link)
links i zero = some nil ∷ []
links i (suc n) = some (at (i + 1)) ∷ links (i + 1) n

-- with capacity 0 the code writes `next[-1]`
unfoldable pub create {ℓ} : {A : Type ℓ} → ℕ → Option (ArrayList A)
create zero = none
create (suc n) = some (record {
  capacity = suc n;
  size = 0;
  empty = at 0;
  first = nil;
  items = replicate (suc n) none;
  next = links 0 n;
})

abbrev is_at : Link → ℕ → Bool
is_at nil i = false
is_at (at j) i = j == i

abbrev index : Link → Option ℕ
index nil = none
index (at i) = some i

module _ {ℓ} {A : Type ℓ} where
  -- the array's cell, if it is there and was written
  abbrev pub cell : List (Option A) → ℕ → Option A
  cell xs i = get_or xs i none

  -- a write to the array
  abbrev write : List (Option A) → ℕ → A → Option (List (Option A))
  write xs i v = if ltb i (length xs) then some (set xs i (some v)) else none

module _ {ℓ} {A : Type ℓ} where
  -- new blocks of twice the size, the old cells copied; `capacity` and the chains stay
  unfoldable pub double_capacity : ArrayList A → ArrayList A
  double_capacity l = record l {
    next = take l.capacity l.next ++ replicate l.capacity none;
    items = take l.capacity l.items ++ replicate l.capacity none;
  }

  -- the part of `insert` after the array has been enlarged
  unfoldable pub insert_slot : ArrayList A → A → Option (ArrayList A × ℕ)
  insert_slot l item = do
    e ← index l.empty
    items ← write l.items e item
    rest ← cell l.next e
    next ← write l.next e l.first
    some (record l { items = items; first = at e; empty = rest; next = next; size = l.size + 1 }, e)

  unfoldable pub insert : ArrayList A → A → Option (ArrayList A × ℕ)
  insert l item = insert_slot (if l.capacity == l.size then double_capacity l else l) item

  -- the first used slot goes; `size` stays
  unfoldable pub delete_first : ArrayList A → ℕ → Option (ArrayList A)
  delete_first l i = do
    rest ← cell l.next i
    next ← write l.next i l.empty
    some (record l { first = rest; next = next; empty = at i })

  -- the slot i after the slot p goes
  unfoldable pub unlink : ArrayList A → ℕ → ℕ → Option (ArrayList A)
  unlink l p i = do
    rest ← cell l.next i
    next ← write l.next p rest
    next' ← write next i l.empty
    some (record l { next = next'; empty = at i; size = l.size - 1 })

  -- the `while` loop, on fuel; `p` is its `i`
  unfoldable pub delete_from : ℕ → ArrayList A → Link → ℕ → Option (ArrayList A)
  delete_from zero l p i = none
  delete_from (suc fuel) l nil i = some l
  delete_from (suc fuel) l (at p) i = do
    n ← cell l.next p
    elim (is_at n i) [ true ↦ unlink l p i | false ↦ delete_from fuel l n i ]

  unfoldable pub delete : ArrayList A → ℕ → Option (ArrayList A)
  delete l i =
      if l.size == 0
      then some l
      else if is_at l.first i
      then delete_first l i
      else delete_from (l.capacity + 1) l l.first i

  -- `none` is NULL; `some none` is a cell that was never written
  unfoldable pub get : ArrayList A → ℤ → Option (Option A)
  get l (pos i) = if ltb i l.capacity then some (cell l.items i) else none
  get l (negsuc i) = none
