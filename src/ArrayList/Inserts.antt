-- ===== src/ArrayList/Inserts.antt =====
-- `arraylist_create`, `arraylist_insert` and `arraylist_double_capacity`.
use ups_sp.Prelude.{
  ℕ, zero, suc, ◌+◌, ◌≤◌, ◌<◌, ◌≡◌, refl, inl, inr, Option, none, some, List, [], ◌∷◌, ◌++◌, arith,
  length, set, take, replicate, count, ltb, ◌==◌, if◌then◌else◌, length-set, length-append,
  length-replicate, length-take, get_or-set, get_or-take_append, Bool-cases, ◌∙◌, ap,
}
use ups_sp.ArrayList.{
  Link, nil, at, ArrayList, cell, links, create, double_capacity, insert_slot, insert,
}
use ups_sp.ArrayList.Chains.{
  link, Linked, Linked-set, Parts, IsValid, entries, count-lt, Linked-wider,
}

abbrev pub from_to : ℕ → ℕ → List ℕ
from_to i zero = []
from_to i (suc n) = i ∷ from_to (i + 1) n

count-from_to :
    (j i n : ℕ) → count j (from_to i n) ≡ (if ltb j i then 0 else if ltb j (i + n) then 1 else 0)
count-from_to j i zero = ground arith
count-from_to j i (suc n) = ground (arith, count-from_to j (i + 1) n)

pub length-from_to : (i n : ℕ) → length (from_to i n) ≡ n
length-from_to i zero = refl
length-from_to i (suc n) = omega (arith, length-from_to (i + 1) n)

length-links : (i n : ℕ) → length (links i n) ≡ n + 1
unfolding links
length-links i zero = refl
length-links i (suc n) = omega (arith, length-links (i + 1) n)

cell-links :
    (i n k : ℕ)
    → cell (links i n) k
      ≡ (if ltb k n then some (at (i + k + 1)) else if k == n then some nil else none)
unfolding links
cell-links i zero zero = refl
cell-links i zero (suc k) = ground arith
cell-links i (suc n) zero = ground arith
cell-links i (suc n) (suc k) = ground (arith, cell-links (i + 1) n k)

Linked-links : (n k m : ℕ) → k + m ≡ n + 1 → Linked (links 0 n) (from_to k m)
Linked-links n k zero e = tt
Linked-links n k (suc zero) e = (ground (arith, cell-links 0 n k), tt)
Linked-links n k (suc (suc m)) e =
    (ground (arith, cell-links 0 n k), Linked-links n (k + 1) (suc m) (omega arith))

-- A new list of positive capacity holds nothing, and all its indices are free, in order.
pub create-IsValid {ℓ} :
    {A : Type ℓ} (n : ℕ)
    → (l : ArrayList A) × (create (suc n) ≡ some l)
      × IsValid l [] (from_to 0 (suc n))
      × (l.capacity ≡ suc n)
unfolding create
create-IsValid {A} n = (
  record {
    capacity = suc n;
    size = 0;
    empty = at 0;
    first = nil;
    items = replicate (suc n) none;
    next = links 0 n;
  },
  refl,
  record {
    first_used = refl;
    first_free = refl;
    used_linked = tt;
    free_linked = Linked-links n 0 (suc n) (omega arith);
    parts = λ i. ground (arith, count-from_to i 0 (suc n));
    total = omega (arith, length-from_to 0 (suc n));
    counted = omega arith;
    wide_next = omega (arith, length-links 0 n);
    wide_items = omega (arith, length-replicate {A = Option A} n none);
  },
  refl,
)

module _ {ℓ} {A : Type ℓ} where
  pub double_capacity-IsValid :
      (l : ArrayList A) (used free : List ℕ)
      → IsValid l used free
      → IsValid (double_capacity l) used free
  unfolding double_capacity
  double_capacity-IsValid l used free v = record {
    first_used = v.first_used;
    first_free = v.first_free;
    used_linked =
        Linked-wider l.capacity l.next _ used v.wide_next
          (λ i c. count-lt _ i used free v.parts (omega arith)) v.used_linked;
    free_linked =
        Linked-wider l.capacity l.next _ free v.wide_next
          (λ i c. count-lt _ i used free v.parts (omega arith)) v.free_linked;
    parts = v.parts;
    total = v.total;
    counted = v.counted;
    wide_next = omega (
      arith,
      length-append (take l.capacity l.next) (replicate l.capacity none),
      length-take l.capacity l.next,
      length-replicate {A = Option Link} l.capacity none,
    );
    wide_items = omega (
      arith,
      length-append (take l.capacity l.items) (replicate l.capacity none),
      length-take l.capacity l.items,
      length-replicate {A = Option A} l.capacity none,
    );
  }

  pub entries-set :
      (items : List (Option A)) (e : ℕ) (a : A) (xs : List ℕ)
      → e < length items
      → count e xs ≡ 0
      → entries (set items e (some a)) xs ≡ entries items xs
  entries-set items e a [] h c = refl
  entries-set items e a (x ∷ xs) h c =
      ground (arith, get_or-set items e x (some a) none, entries-set items e a xs)

  entries-wider :
      (n : ℕ) (items more : List (Option A)) (xs : List ℕ)
      → n ≤ length items
      → ((i : ℕ) → 0 < count i xs → i < n)
      → entries (take n items ++ more) xs ≡ entries items xs
  entries-wider n items more [] w b = refl
  entries-wider n items more (x ∷ xs) w b = ground (
    arith,
    get_or-take_append n items more x none,
    b x,
    entries-wider n items more xs w (λ i c. b i (ground arith)),
  )

  entries-double_capacity :
      (l : ArrayList A) (used free : List ℕ)
      → l.capacity ≤ length l.items
      → Parts l.capacity used free
      → entries (double_capacity l).items used ≡ entries l.items used
  unfolding double_capacity
  entries-double_capacity l used free w p =
      entries-wider l.capacity l.items _ used w (λ i c. count-lt _ i used free p (omega arith))

  size-double_capacity : (l : ArrayList A) → (double_capacity l).size ≡ l.size
  unfolding double_capacity
  size-double_capacity l = refl

  capacity-double_capacity : (l : ArrayList A) → (double_capacity l).capacity ≡ l.capacity
  unfolding double_capacity
  capacity-double_capacity l = refl

  -- what an insertion into the free slot e makes of the list
  pub record Inserted (l : ArrayList A) (item : A) (e : ℕ) (used free : List ℕ) (l' : ArrayList A)
      : Type ℓ where
    pub valid : IsValid l' (e ∷ used) free
    pub stored : entries l'.items (e ∷ used) ≡ (e, some item) ∷ entries l.items used
    pub size : l'.size ≡ l.size + 1
    pub capacity : l'.capacity ≡ l.capacity

  insert_slot-Inserted :
      (l : ArrayList A) (item : A) (e : ℕ) (used free : List ℕ)
      → IsValid l used (e ∷ free)
      → (l' : ArrayList A) × (insert_slot l item ≡ some (l', e)) × Inserted l item e used free l'
  unfolding insert_slot
  insert_slot-Inserted l item e used free v = (
    record l {
      items = set l.items e (some item);
      first = at e;
      empty = link free;
      next = set l.next e (some l.first);
      size = l.size + 1;
    },
    rw (v.first_free) (ground (arith, count-lt l.capacity e used (e ∷ free) v.parts)),
    record {
      valid = record {
        first_used = refl;
        first_free = refl;
        used_linked = (
          ground (arith, get_or-set l.next e e (some l.first) none wide, v.first_used),
          Linked-set l.next e l.first used fresh wide v.used_linked,
        );
        free_linked =
            Linked-set l.next e l.first free (ground (arith, v.parts e)) wide v.free_linked.1;
        parts = λ i. ground (arith, v.parts i);
        total = omega (arith, v.total);
        counted = omega (arith, v.counted);
        wide_next = omega (arith, v.wide_next, length-set l.next e (some l.first));
        wide_items = omega (arith, v.wide_items, length-set l.items e (some item));
      };
      stored = ground (
        arith,
        get_or-set l.items e e (some item) none,
        entries-set l.items e item used,
        fresh,
        below,
      );
      size = refl;
      capacity = refl;
    },
  )
    where
      below : e < l.capacity
      below = count-lt l.capacity e used (e ∷ free) v.parts (ground arith)

      fresh : count e used ≡ 0
      fresh = ground (arith, v.parts e)

      wide : e < length l.next
      wide = omega (arith, below, v.wide_next)

  -- An insertion takes the first free slot e, puts it in front of the used ones, returns it, stores
  -- the item there and leaves the other entries; it never touches memory outside the arrays.
  pub insert-Inserted :
      (l : ArrayList A) (item : A) (e : ℕ) (used free : List ℕ)
      → IsValid l used (e ∷ free)
      → (l' : ArrayList A) × (insert l item ≡ some (l', e)) × Inserted l item e used free l'
  unfolding insert
  insert-Inserted l item e used free v = elim (Bool-cases (l.capacity == l.size)) [
    | inl full ↦ rw full (
        doubled (
          insert_slot-Inserted (double_capacity l) item e used free
            (double_capacity-IsValid l used (e ∷ free) v)))
    | inr room ↦ rw room (insert_slot-Inserted l item e used free v)
  ]
    where
      doubled :
          (l' : ArrayList A) × (insert_slot (double_capacity l) item ≡ some (l', e))
            × Inserted (double_capacity l) item e used free l'
          → (l' : ArrayList A) × (insert_slot (double_capacity l) item ≡ some (l', e))
            × Inserted l item e used free l'
      doubled (l', run, i) = (
        l',
        run,
        record {
          valid = i.valid;
          stored =
              i.stored
              ∙ ap (λ es. (e, some item) ∷ es)
                  (entries-double_capacity l used (e ∷ free) v.wide_items v.parts);
          size = i.size ∙ ap (λ n. n + 1) (size-double_capacity l);
          capacity = i.capacity ∙ capacity-double_capacity l;
        },
      )

  -- With no free slot left the code writes outside the array, also after it has enlarged it.
  insert-full :
      (l : ArrayList A) (item : A) (used : List ℕ) → IsValid l used [] → insert l item ≡ none
  unfolding insert insert_slot double_capacity
  insert-full l item used v = ground arith
