-- ===== src/ArrayList/Examples.antt =====
-- Runs of structures/arraylist.c and the theorems at concrete lists.
use ups_sp.Prelude.{ℕ, ◌≡◌, refl, none, some, [], ◌∷◌, arith, if◌then◌else◌, ◌>>=◌}
use ups_sp.Prelude.Int.{pos, negsuc}
use ups_sp.ArrayList.{
  ArrayList, nil, at, is_at, create, links, insert, insert_slot, double_capacity, delete, get,
}
use ups_sp.ArrayList.Chains.{IsValid}
use ups_sp.ArrayList.Inserts.{Inserted, insert-Inserted}
use ups_sp.ArrayList.Deletes.{Deleted, delete-Deleted}

-- capacity 2, nothing inserted
abbrev two : ArrayList ℕ
two = record {
  capacity = 2;
  size = 0;
  empty = at 0;
  first = nil;
  items = none ∷ none ∷ [];
  next = some (at 1) ∷ some nil ∷ [];
}

-- and with items in both slots
abbrev full : ArrayList ℕ
full = record {
  capacity = 2;
  size = 2;
  empty = nil;
  first = at 1;
  items = some 7 ∷ some 8 ∷ [];
  next = some nil ∷ some (at 0) ∷ [];
}

two_created : create 2 ≡ some two
unfolding create links
two_created = refl

full_inserted : (insert two 7 >>= λ (l, i). insert l 8) ≡ some (full, 1)
unfolding insert insert_slot double_capacity
full_inserted = refl

-- NULL outside the capacity, an unwritten cell inside it
unused_slot : get two (pos 1) ≡ some none
unfolding get
unused_slot = refl

outside : get two (negsuc 0) ≡ none
unfolding get
outside = refl

two-IsValid : IsValid two [] (0 ∷ 1 ∷ [])
two-IsValid = record {
  first_used = refl;
  first_free = refl;
  used_linked = tt;
  free_linked = (refl, (refl, tt));
  parts = λ i. ground arith;
  total = refl;
  counted = omega arith;
  wide_next = omega arith;
  wide_items = omega arith;
}

full-IsValid : IsValid full (1 ∷ 0 ∷ []) []
full-IsValid = record {
  first_used = refl;
  first_free = refl;
  used_linked = (refl, (refl, tt));
  free_linked = tt;
  parts = λ i. ground arith;
  total = refl;
  counted = omega arith;
  wide_next = omega arith;
  wide_items = omega arith;
}

insert-Inserted_example :
    (l' : ArrayList ℕ) × (insert two 7 ≡ some (l', 0)) × Inserted two 7 0 [] (1 ∷ []) l'
insert-Inserted_example = insert-Inserted two 7 0 [] (1 ∷ []) two-IsValid

delete-Deleted_example :
    (l' : ArrayList ℕ) × (delete full 0 ≡ some l')
    × Deleted full 0 (1 ∷ 0 ∷ []) [] l'
    × (l'.size ≡ (if is_at full.first 0 then full.size else 1))
delete-Deleted_example = delete-Deleted full 0 (1 ∷ 0 ∷ []) [] full-IsValid refl
