-- ===== src/HashMap/Buckets.antt =====
-- Where keys stand in the hash table, and what it means as a finite map.
use ups_sp.Prelude.{
  ℕ, zero, suc, ◌+◌, ◌-◌, ◌%◌, ◌≤◌, ◌<◌, ◌≡◌, refl, Option, none, some, List, [], ◌∷◌, length,
  get_or, set, ◌==◌, if◌then◌else◌, Bytes, same, arith, same_iff, same_refl, length-set, get_or-set,
  inl, inr, ◌∙◌, Bool-cases, ==_iff, ap,
}
use ups_sp.HashMap.{
  HashTable, Chain, calc_hash, slot, find, assign, cut, chain_at, put_at, remove_at,
}

module _ {ℓ} {V : Type ℓ} where
  -- how often a key stands in a chain
  abbrev pub times : Bytes → Chain V → ℕ
  times key [] = 0
  times key ((k, v) ∷ c) = (if same k key then 1 else 0) + times key c

  pub find-absent : (key : Bytes) (c : Chain V) → times key c ≡ 0 → find key c ≡ none
  unfolding find
  find-absent key [] h = refl
  find-absent key ((k, v) ∷ c) h = ground (arith, find-absent key c)

  pub times-absent : (key : Bytes) (c : Chain V) → find key c ≡ none → times key c ≡ 0
  unfolding find
  times-absent key [] h = refl
  times-absent key ((k, v) ∷ c) h = ground (arith, times-absent key c)

  pub find-assign :
      (key q : Bytes) (v old : V) (c : Chain V)
      → find key c ≡ some old
      → find q (assign key v c) ≡ (if same key q then some v else find q c)
  unfolding find assign
  find-assign key q v old [] h = cc
  find-assign key q v old ((k, w) ∷ c) h =
      ground (arith, find-assign key q v old c, same_iff k key, same_iff key q, same_iff k q)

  pub times-assign : (key q : Bytes) (v : V) (c : Chain V) → times q (assign key v c) ≡ times q c
  unfolding assign
  times-assign key q v [] = refl
  times-assign key q v ((k, w) ∷ c) = ground (arith, times-assign key q v c)

  pub length-assign : (key : Bytes) (v : V) (c : Chain V) → length (assign key v c) ≡ length c
  unfolding assign
  length-assign key v [] = refl
  length-assign key v ((k, w) ∷ c) = ground (arith, length-assign key v c)

  pub find-cut :
      (key q : Bytes) (c : Chain V)
      → times q c ≤ 1
      → find q (cut key c) ≡ (if same key q then none else find q c)
  unfolding find cut
  find-cut key q [] h = ground arith
  find-cut key q ((k, w) ∷ c) h =
      ground
        (arith, find-cut key q c, find-absent q c, same_iff k key, same_iff key q, same_iff k q)

  pub times-cut : (key q : Bytes) (c : Chain V) → times q (cut key c) ≤ times q c
  unfolding cut
  times-cut key q [] = omega arith
  times-cut key q ((k, w) ∷ c) = ground (arith, times-cut key q c)

  pub length-cut :
      (key : Bytes) (c : Chain V) (old : V)
      → find key c ≡ some old
      → length (cut key c) + 1 ≡ length c
  unfolding find cut
  length-cut key [] old h = cc
  length-cut key ((k, w) ∷ c) old h = ground (arith, length-cut key c old)

-- the chain a key belongs to
abbrev pub home : ℕ → Bytes → ℕ
home n key = calc_hash key % n

module _ {ℓ} {V : Type ℓ} where
  -- the entries of all the chains
  abbrev pub total : List (Chain V) → ℕ
  total [] = 0
  total (c ∷ cs) = length c + total cs

  pub total-set :
      (cs : List (Chain V)) (h : ℕ) (c : Chain V)
      → h < length cs
      → total (set cs h c) + length (get_or cs h []) ≡ total cs + length c
  total-set [] h c b = absurd (omega arith)
  total-set (d ∷ cs) zero c b = omega arith
  total-set (d ∷ cs) (suc h) c b = omega (arith, total-set cs h c)

  -- a key stands once at most, and only in its own chain
  abbrev pub IsPlaced : List (Chain V) → Type 0
  IsPlaced cs =
      (key : Bytes) (h : ℕ)
      → times key (get_or cs h []) ≤ (if h == home (length cs) key then 1 else 0)

  pub record IsValid (t : HashTable V) : Type 0 where
    pub nonempty : 0 < t.capacity
    pub width : length t.table ≡ t.capacity
    pub counted : total t.table ≡ t.e_num
    pub placed : IsPlaced t.table

  -- the finite map that the table stands for
  abbrev pub view : HashTable V → Bytes → Option V
  view t key = find key (chain_at t (home t.capacity key))

abbrev update {ℓ} : {V : Type ℓ} → (Bytes → Option V) → Bytes → Option V → Bytes → Option V
update f key v q = if same key q then v else f q

module _ {ℓ} {V : Type ℓ} where
  -- the table that a changed chain c at the home of the key leaves behind
  pub set-IsValid :
      (t : HashTable V) (key : Bytes) (c : Chain V) (n : ℕ)
      → IsValid t
      → let h = home t.capacity key in
        n + length (chain_at t h) ≡ t.e_num + length c
        → ((q : Bytes) → times q c ≤ times q (chain_at t h) + (if same key q then 1 else 0))
        → (times key c ≤ 1)
        → IsValid (record t { table = set t.table h c; e_num = n })
  set-IsValid t key c n v size few one = record {
    nonempty = v.nonempty;
    width = length-set t.table _ c ∙ v.width;
    counted =
        omega (arith, total-set t.table (home t.capacity key) c, v.counted, v.width, v.nonempty);
    placed = λ q h.
        rw
          (
            length-set t.table (home t.capacity key) c,
            get_or-set t.table (home t.capacity key) h c [] inside,
          )
          (ground (arith, v.placed q h, v.placed key h, few q, same_iff key q, v.width));
  }
    where
      inside : home t.capacity key < length t.table
      inside = omega (arith, v.nonempty, v.width)

  -- and what it stands for
  pub view-set :
      (t : HashTable V) (key : Bytes) (c : Chain V) (n : ℕ) (r : Option V)
      → IsValid t
      → let h = home t.capacity key in
        ((q : Bytes) → find q c ≡ update (λ q. find q (chain_at t h)) key r q)
        → (q : Bytes)
        → view (record t { table = set t.table h c; e_num = n }) q ≡ update (view t) key r q
  view-set t key c n r v reads q = elim (Bool-cases (home t.capacity key == home t.capacity q)) [
    | inl e ↦
        rw (get_or-set t.table (home t.capacity key) (home t.capacity q) c [] inside, e)
          (reads q
            ∙ ap (λ h. if same key q then r else find q (chain_at t h))
                ((==_iff (home t.capacity key) (home t.capacity q)).0 e))
    | inr e ↦ elim (Bool-cases (same key q)) [
      | inl s ↦ absurd (ground (arith, same_iff key q))
      | inr d ↦ rw (get_or-set t.table (home t.capacity key) (home t.capacity q) c [] inside, e, d)
    ]
  ]
    where
      inside : home t.capacity key < length t.table
      inside = omega (arith, v.nonempty, v.width)

  pub slot-home :
      (t : HashTable V) (key : Bytes) → IsValid t → slot t key ≡ some (home t.capacity key)
  unfolding slot
  slot-home t key v = ground arith

  times-once :
      (t : HashTable V) (key q : Bytes) → IsValid t → times q (chain_at t (home t.capacity key)) ≤ 1
  times-once t key q v = ground (arith, v.placed q (home t.capacity key))

  -- what a change of the key's entry to r makes of the table
  pub record Changed (t : HashTable V) (key : Bytes) (r : Option V) (t' : HashTable V)
      : Type ℓ where
    pub valid : IsValid t'
    pub reads : (q : Bytes) → view t' q ≡ update (view t) key r q
    pub capacity : t'.capacity ≡ t.capacity

  abbrev pub found : Option V → ℕ
  found none = 0
  found (some v) = 1

  pub put_at-Changed :
      (t : HashTable V) (key : Bytes) (x : V) (old : Option V)
      → IsValid t
      → view t key ≡ old
      → ((put_at t (home t.capacity key) key x).0 ≡ old)
        × Changed t key (some x) (put_at t (home t.capacity key) key x).1
        × ((put_at t (home t.capacity key) key x).1.e_num + found old ≡ t.e_num + 1)
  unfolding put_at find
  put_at-Changed t key x (some old) v e =
      rw (put_at, e)
        (
          refl,
          record {
            valid =
                set-IsValid t key _ t.e_num v
                  (omega (arith, length-assign key x (chain_at t (home t.capacity key))))
                  (λ q. omega (arith, times-assign key q x (chain_at t (home t.capacity key))))
                  (omega (
                    arith,
                    times-assign key key x (chain_at t (home t.capacity key)),
                    times-once t key key v,
                  ));
            reads = view-set t key _ t.e_num (some x) v (λ q. find-assign key q x old _ e);
            capacity = refl;
          },
          refl,
        )
  put_at-Changed t key x none v e =
      rw (put_at, e)
        (
          refl,
          record {
            valid =
                set-IsValid t key _ (t.e_num + 1) v (omega arith) (λ q. omega arith)
                  (rw same_refl (omega (arith, times-absent key _ e)));
            reads = view-set t key _ (t.e_num + 1) (some x) v (λ q. refl);
            capacity = refl;
          },
          omega arith,
        )

  entries-pos :
      (cs : List (Chain V)) (h : ℕ) (key : Bytes) (old : V)
      → find key (get_or cs h []) ≡ some old
      → 0 < total cs
  unfolding find
  entries-pos [] h key old e = cc
  entries-pos (c ∷ cs) (suc h) key old e = omega (arith, entries-pos cs h key old e)
  entries-pos ([] ∷ cs) zero key old e = cc
  entries-pos ((x ∷ c) ∷ cs) zero key old e = omega arith

  pub remove_at-Changed :
      (t : HashTable V) (key : Bytes) (old : Option V)
      → IsValid t
      → view t key ≡ old
      → ((remove_at t (home t.capacity key) key).0 ≡ old)
        × Changed t key none (remove_at t (home t.capacity key) key).1
        × ((remove_at t (home t.capacity key) key).1.e_num + found old ≡ t.e_num)
  unfolding remove_at
  remove_at-Changed t key (some old) v e =
      rw (remove_at, e)
        (
          refl,
          record {
            valid =
                set-IsValid t key _ (t.e_num - 1) v
                  (omega (
                    arith,
                    length-cut key (chain_at t (home t.capacity key)) old e,
                    entries-pos t.table (home t.capacity key) key old e,
                    v.counted,
                  ))
                  (λ q. omega (arith, times-cut key q (chain_at t (home t.capacity key))))
                  (omega (
                    arith,
                    times-cut key key (chain_at t (home t.capacity key)),
                    times-once t key key v,
                  ));
            reads =
                view-set t key _ (t.e_num - 1) none v
                  (λ q. find-cut key q _ (times-once t key q v));
            capacity = refl;
          },
          omega (arith, entries-pos t.table (home t.capacity key) key old e, v.counted),
        )
  remove_at-Changed t key none v e =
      rw (remove_at, e)
        (refl, record { valid = v; reads = λ q. same_as t key q e; capacity = refl }, omega arith)
    where
      same_as :
          (t : HashTable V) (key q : Bytes)
          → view t key ≡ none
          → view t q ≡ update (view t) key none q
      same_as t key q e = elim (Bool-cases (same key q)) [
        | inl s ↦ rw (s, ← (same_iff key q).0 s) e
        | inr d ↦ rw d
      ]
