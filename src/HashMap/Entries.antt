-- ===== src/HashMap/Entries.antt =====
-- `ht_create`, `ht_put`, `ht_get` and `ht_remove` as operations on a finite map.
use ups_sp.Prelude.{
  get_or-replicate, ℕ, zero, suc, ◌+◌, ◌<◌, ◌≡◌, refl, none, some, [], replicate, arith, Bytes,
  length-replicate, same, if◌then◌else◌, sym, ap, ◌∙◌, Option, Bool, true, false,
}
use ups_sp.HashMap.{HashTable, Chain, find, put, get, remove, create}
use ups_sp.HashMap.Buckets.{
  IsValid, Changed, view, found, home, slot-home, put_at-Changed, remove_at-Changed, total,
}

module _ {ℓ} where
  total-replicate : (V : Type ℓ) (n : ℕ) → total {V = V} (replicate n []) ≡ 0
  total-replicate V zero = refl
  total-replicate V (suc n) = omega (arith, total-replicate V n)

module _ {ℓ} {V : Type ℓ} where
  -- A new table of positive capacity is valid, and no key is in it.
  pub view-create :
      (n : ℕ)
      → 0 < n
      → IsValid {V = V} (create n) × ((q : Bytes) → view {V = V} (create n) q ≡ none)
  unfolding create find
  view-create n h = (
    record {
      nonempty = h;
      width = length-replicate n [];
      counted = total-replicate V n;
      placed = λ q i. rw (get_or-replicate {A = Chain V} n i []) (omega arith);
    },
    λ q. rw (get_or-replicate {A = Chain V} n (home n q) []),
  )

  -- A look-up gives what the table holds at the key.
  pub get-view : (t : HashTable V) (key : Bytes) → IsValid t → get t key ≡ some (view t key)
  unfolding get
  get-view t key v = rw (slot-home t key v)

  -- Storing a pointer gives back the one stored before under the key, or NULL; the table then holds
  -- the new one there and is unchanged at all other keys, it stays valid, and the number of
  -- elements grows by one exactly if the key is new.
  pub put-Changed :
      (t : HashTable V) (key : Bytes) (x : V)
      → IsValid t
      → (t' : HashTable V) × (put t key (some x) ≡ some (view t key, t'))
        × Changed t key (some x) t'
        × (t'.e_num + found (view t key) ≡ t.e_num + 1)
  unfolding put
  put-Changed t key x v =
      let (r, c, n) = put_at-Changed t key x (view t key) v refl in
      (_, rw (slot-home t key v, ← r) refl, c, n)

  some_if : (b : Bool) (r s : Option V) → some (if b then r else s) ≡ (if b then some r else some s)
  some_if true r s = refl
  some_if false r s = refl

  -- What every key reads after a pointer was stored.
  pub put-reads :
      (t : HashTable V) (key : Bytes) (x : V)
      → IsValid t
      → (t' : HashTable V) × (put t key (some x) ≡ some (view t key, t'))
        × IsValid t'
        × ((q : Bytes) → get t' q ≡ (if same key q then some (some x) else get t q))
  put-reads t key x v =
      let (t', r, c, n) = put-Changed t key x v in
      (
        t',
        r,
        c.valid,
        λ q.
            get-view t' q c.valid
            ∙ ap some (c.reads q)
            ∙ some_if (same key q) (some x) (view t q)
            ∙ ap (λ r. if same key q then some (some x) else r) (sym (get-view t q v)),
      )

  -- What is stored under a key of a valid table is found under it, and every other key is found as
  -- before.
  get-put :
      (t : HashTable V) (key q : Bytes) (x : V)
      → IsValid t
      → (old : Option V) × (t' : HashTable V) × (put t key (some x) ≡ some (old, t'))
        × (get t key ≡ some old)
        × (get t' q ≡ (if same key q then some (some x) else get t q))
  get-put t key q x v =
      let (t', r, valid, reads) = put-reads t key x v in
      (view t key, t', r, get-view t key v, reads q)

  -- A removal gives back the pointer stored under the key, or NULL; the table then holds nothing
  -- there and is unchanged at all other keys, it stays valid, and the number of elements falls by
  -- one exactly if the key was there.
  pub remove-Changed :
      (t : HashTable V) (key : Bytes)
      → IsValid t
      → (t' : HashTable V) × (remove t key ≡ some (view t key, t'))
        × Changed t key none t'
        × (t'.e_num + found (view t key) ≡ t.e_num)
  unfolding remove
  remove-Changed t key v =
      let (r, c, n) = remove_at-Changed t key (view t key) v refl in
      (_, rw (slot-home t key v, ← r) refl, c, n)

  -- What every key reads after one was removed.
  pub remove-reads :
      (t : HashTable V) (key : Bytes)
      → IsValid t
      → (t' : HashTable V) × (remove t key ≡ some (view t key, t'))
        × IsValid t'
        × ((q : Bytes) → get t' q ≡ (if same key q then some none else get t q))
  remove-reads t key v =
      let (t', r, c, n) = remove-Changed t key v in
      (
        t',
        r,
        c.valid,
        λ q.
            get-view t' q c.valid
            ∙ ap some (c.reads q)
            ∙ some_if (same key q) none (view t q)
            ∙ ap (λ r. if same key q then some none else r) (sym (get-view t q v)),
      )
