-- ===== src/ArrayList/Deletes.antt =====
-- `arraylist_delete_item`.
use ups_sp.Prelude.{
  ℕ, zero, suc, ◌+◌, ◌-◌, ◌≤◌, ◌<◌, ◌≡◌, refl, ◌≢◌, inl, inr, Option, none, some, List, [], ◌∷◌,
  arith, length, set, count, erase, ◌==◌, if◌then◌else◌, length-set, get_or-set, Bool-cases, ==_iff,
  sym,
}
use mathlib.Core.Path.{subst}
use ups_sp.ArrayList.{
  Link, at, is_at, ArrayList, cell, delete_first, unlink, delete_from, delete, get,
}
use ups_sp.Prelude.Int.{pos}
use ups_sp.ArrayList.Chains.{link, Linked, Linked-set, IsValid, length-erase, count-lt}
use ups_sp.ArrayList.Unlinks.{
  before, delete_from-found, erase-head, erase-ne, count-before, after-i, Parts-once, Parts-apart,
  Parts-move, count-erase_self, Linked-unlink,
}

-- A walk for an index that is not in the rest of the chain ends at its end and changes nothing.
delete_from-absent {ℓ} :
    {A : Type ℓ} (fuel : ℕ) (l : ArrayList A) (xs : List ℕ) (i : ℕ)
    → Linked l.next xs
    → count i xs ≡ 0
    → length xs < fuel
    → delete_from fuel l (link xs) i ≡ some l
unfolding delete_from
delete_from-absent zero l xs i h c f = absurd (omega arith)
delete_from-absent (suc fuel) l [] i h c f = refl
delete_from-absent (suc fuel) l (x ∷ []) i h c f =
    ground (arith, delete_from-absent fuel l [] i tt refl (omega arith))
delete_from-absent (suc fuel) l (x ∷ y ∷ xs) i h c f =
    ground (arith, delete_from-absent fuel l (y ∷ xs) i h.1 (ground arith) (omega arith))

module _ {ℓ} {A : Type ℓ} where
  -- what a deletion of the slot i makes of the list
  pub record Deleted (l : ArrayList A) (i : ℕ) (used free : List ℕ) (l' : ArrayList A)
      : Type ℓ where
    pub valid : IsValid l' (erase i used) (i ∷ free)
    pub items : l'.items ≡ l.items
    pub capacity : l'.capacity ≡ l.capacity

  delete_first-Deleted :
      (l : ArrayList A) (i : ℕ) (used free : List ℕ)
      → IsValid l (i ∷ used) free
      → (l' : ArrayList A) × (delete_first l i ≡ some l')
        × Deleted l i (i ∷ used) free l'
        × (l'.size ≡ l.size)
  unfolding delete_first
  delete_first-Deleted l i used free v = (
    record l { first = link used; next = set l.next i (some l.empty); empty = at i },
    ground (arith, wide),
    record {
      valid = rw (erase-head i used) (record {
        first_used = refl;
        first_free = refl;
        used_linked =
            Linked-set l.next i l.empty used (ground (arith, v.parts i)) wide v.used_linked.1;
        free_linked = (
          ground (arith, get_or-set l.next i i (some l.empty) none wide, v.first_free),
          Linked-set l.next i l.empty free (ground (arith, v.parts i)) wide v.free_linked,
        );
        parts = λ j. ground (arith, v.parts j);
        total = omega (arith, v.total);
        counted = omega (arith, v.counted);
        wide_next = omega (arith, v.wide_next, length-set l.next i (some l.empty));
        wide_items = v.wide_items;
      });
      items = refl;
      capacity = refl;
    },
    refl,
  )
    where
      wide : i < length l.next
      wide =
          omega (arith, count-lt l.capacity i (i ∷ used) free v.parts (ground arith), v.wide_next)

  unlink-Deleted :
      (l : ArrayList A) (x i : ℕ) (used free : List ℕ) (after : Link)
      → IsValid l (x ∷ used) free
      → i ≢ x
      → count i used ≡ 1
      → cell l.next i ≡ some after
      → (l' : ArrayList A) × (unlink l (before i x used) i ≡ some l')
        × Deleted l i (x ∷ used) free l'
        × (l'.size ≡ l.size - 1)
  unfolding unlink
  unlink-Deleted l x i used free after v ne c e = (
    result,
    ground (arith, e, wide_p, wide_i),
    record {
      valid =
          subst (λ us. IsValid result us (i ∷ free)) kept
            (record {
              first_used = v.first_used;
              first_free = refl;
              used_linked =
                  Linked-set next1 i l.empty (x ∷ erase i used) (count-erase_self i x used ne c)
                    wide_i (Linked-unlink l.next x used i after v.used_linked c once e wide_p);
              free_linked = (
                ground (arith, get_or-set next1 i i (some l.empty) none wide_i, v.first_free),
                Linked-set next1 i l.empty free
                    (Parts-apart l.capacity i (x ∷ used) free v.parts (omega arith)) wide_i
                    (Linked-set l.next p after free
                      (Parts-apart l.capacity p (x ∷ used) free v.parts (count-before i x used))
                      wide_p v.free_linked),
              );
              parts = Parts-move l.capacity i x used free v.parts c;
              total = omega (arith, v.total, length-erase i used c);
              counted = omega (arith, v.counted, length-erase i used c);
              wide_next = omega (
                arith,
                v.wide_next,
                length-set next1 i (some l.empty),
                length-set l.next p (some after),
              );
              wide_items = v.wide_items;
            });
      items = refl;
      capacity = refl;
    },
    refl,
  )
    where
      p : ℕ
      p = before i x used

      next1 : List (Option Link)
      next1 = set l.next p (some after)

      next' : List (Option Link)
      next' = set next1 i (some l.empty)

      result : ArrayList A
      result = record l { next = next'; empty = at i; size = l.size - 1 }

      kept : x ∷ erase i used ≡ erase i (x ∷ used)
      kept = erase-ne i x used ne

      once : (j : ℕ) → count j (x ∷ used) ≤ 1
      once j = Parts-once l.capacity j (x ∷ used) free v.parts

      wide_p : p < length l.next
      wide_p = omega (
        arith,
        count-lt l.capacity p (x ∷ used) free v.parts (omega (arith, count-before i x used)),
        v.wide_next,
      )

      wide_i : i < length next1
      wide_i = omega (
        arith,
        count-lt l.capacity i (x ∷ used) free v.parts (omega arith),
        v.wide_next,
        length-set l.next p (some after),
      )

  -- A deletion of a used slot succeeds; it takes the slot out of the used list, puts it in front of
  -- the free ones, keeps the order of the others and every stored item. The size falls by one,
  -- but stays as it is if the slot is the first one.
  pub delete-Deleted :
      (l : ArrayList A) (i : ℕ) (used free : List ℕ)
      → IsValid l used free
      → count i used ≡ 1
      → (l' : ArrayList A) × (delete l i ≡ some l')
        × Deleted l i used free l'
        × (l'.size ≡ (if is_at l.first i then l.size else l.size - 1))
  unfolding delete
  delete-Deleted l i [] free v c = absurd (omega arith)
  delete-Deleted l i (x ∷ used) free v c = elim (Bool-cases (x == i)) [
    | inl hit ↦
        let e = (==_iff x i).0 hit in
        subst
          (λ y.
            IsValid l (y ∷ used) free
            → (l' : ArrayList A) × (delete l i ≡ some l')
              × Deleted l i (y ∷ used) free l'
              × (l'.size ≡ (if is_at l.first i then l.size else l.size - 1)))
          (sym e) at_first v
    | inr miss ↦
        let (after, follows) = after-i l.next (x ∷ used) i v.used_linked c in
        let (l', run, d, s) =
          unlink-Deleted l x i used free after v (ground arith) (ground arith) follows in
        (
          l',
          ground (arith, run, delete_from-found (l.capacity + 1) l x used i v.used_linked),
          d,
          ground (arith, s),
        )
  ]
    where
      at_first :
          IsValid l (i ∷ used) free
          → (l' : ArrayList A) × (delete l i ≡ some l')
            × Deleted l i (i ∷ used) free l'
            × (l'.size ≡ (if is_at l.first i then l.size else l.size - 1))
      at_first w =
          let (l', run, d, s) = delete_first-Deleted l i used free w in
          (l', ground (arith, run), d, ground (arith, s))

  -- A deletion of a slot that is not in use changes nothing.
  delete-absent :
      (l : ArrayList A) (i : ℕ) (used free : List ℕ)
      → IsValid l used free
      → count i used ≡ 0
      → delete l i ≡ some l
  unfolding delete
  delete-absent l i [] free v c = ground (arith, delete_from-absent (l.capacity + 1) l [] i tt)
  delete-absent l i (x ∷ used) free v c =
      ground (arith, delete_from-absent (l.capacity + 1) l (x ∷ used) i v.used_linked)

module _ {ℓ} {A : Type ℓ} where
  -- Reading a slot of the array gives its cell, and NULL outside the capacity. A deletion does not
  -- clear the cell: the pointer to the freed item can still be read.
  get-delete :
      (l : ArrayList A) (i j : ℕ) (used free : List ℕ)
      → IsValid l used free
      → count i used ≡ 1
      → (l' : ArrayList A) × (delete l i ≡ some l')
        × (get l' (pos j) ≡ get l (pos j))
        × (get l' (pos i) ≡ some (cell l.items i))
  unfolding get
  get-delete l i j used free v c =
      let (l', run, d, s) = delete-Deleted l i used free v c in
      let below = count-lt l.capacity i used free v.parts (omega arith) in
      (l', run, rw (d.items, d.capacity), rw (d.items, d.capacity) (ground arith))
