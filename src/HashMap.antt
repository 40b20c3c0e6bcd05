-- ===== src/HashMap.antt =====
-- structures/hashmap.c: a hash table with chains, keyed by C strings. `malloc` is taken to succeed.
-- `none` as a result is the division by a zero capacity, which is undefined.
pub mod Buckets
pub mod Entries
pub mod Iterator
pub mod Clear
mod Examples
use ups_sp.Prelude.{
  ℕ, zero, suc, ◌+◌, ◌-◌, ◌*◌, ◌%◌, ◌^◌, ◌≤◌, ◌<◌, Bool, true, false, Option, none, some, List, [],
  ◌∷◌, ◌++◌, length, get_or, set, replicate, leb, ltb, ◌==◌, if◌then◌else◌, ◌>>=◌, Bytes, same, map,
}

-- a `char` is signed: a byte above 127 is sign-extended in the sum
unfoldable pub char_value : ℕ → ℕ
char_value c = if ltb c 128 then c else c + 2 ^ 32 - 256

-- `*key`, the closing zero included
abbrev first_char : Bytes → ℕ
first_char [] = 0
first_char (c ∷ key) = c

hash_loop : ℕ → Bytes → ℕ
hash_loop h [] = h
hash_loop h (c ∷ key) = hash_loop ((h * 2 ^ 5 + h + char_value (first_char key)) % 2 ^ 32) key

unfoldable pub calc_hash : Bytes → ℕ
unfolding hash_loop char_value
calc_hash key = hash_loop 5381 key

-- the elements of a chain: key and stored pointer
abbrev pub Chain {ℓ} : Type ℓ → Type ℓ
Chain V = List (Bytes × V)

pub record HashTable {ℓ} (V : Type ℓ) : Type ℓ where
  pub capacity : ℕ
  pub e_num : ℕ
  pub table : List (Chain V)

module _ {ℓ} {V : Type ℓ} where
  unfoldable pub create : ℕ → HashTable V
  create capacity = record { capacity = capacity; e_num = 0; table = replicate capacity [] }

  -- `ht_calc_hash(key) % hasht->capacity`
  unfoldable pub slot : HashTable V → Bytes → Option ℕ
  slot t key = if t.capacity == 0 then none else some (calc_hash key % t.capacity)

  -- the walk of `ht_get`
  unfoldable pub find : Bytes → Chain V → Option V
  find key [] = none
  find key ((k, v) ∷ c) = if same k key then some v else find key c

  -- the walk of `ht_put`, where the key is there
  unfoldable pub assign : Bytes → V → Chain V → Chain V
  assign key v [] = []
  assign key v ((k, w) ∷ c) = if same k key then (k, v) ∷ c else (k, w) ∷ assign key v c

  -- the walk of `ht_remove`
  unfoldable pub cut : Bytes → Chain V → Chain V
  cut key [] = []
  cut key ((k, v) ∷ c) = if same k key then c else (k, v) ∷ cut key c

  abbrev pub chain_at : HashTable V → ℕ → Chain V
  chain_at t h = get_or t.table h []

  -- the end of `ht_put`: the chain at h is searched, and changed or extended at its front
  unfoldable pub put_at : HashTable V → ℕ → Bytes → V → Option V × HashTable V
  put_at t h key v = elim (find key (chain_at t h)) [
    | some old ↦ (some old, record t { table = set t.table h (assign key v (chain_at t h)) })
    | none ↦
        (none, record t { table = set t.table h ((key, v) ∷ chain_at t h); e_num = t.e_num + 1 })
  ]

  -- `data` may be NULL; the result is the pointer that was stored before, or NULL
  unfoldable pub put : HashTable V → Bytes → Option V → Option (Option V × HashTable V)
  put t key none = some (none, t)
  put t key (some v) = do h ← slot t key; some (put_at t h key v)

  -- for a table and a key that are not NULL
  unfoldable pub get : HashTable V → Bytes → Option (Option V)
  get t key = do h ← slot t key; some (find key (chain_at t h))

  unfoldable pub remove_at : HashTable V → ℕ → Bytes → Option V × HashTable V
  remove_at t h key = elim (find key (chain_at t h)) [
    | some old ↦
        (some old, record t { table = set t.table h (cut key (chain_at t h)); e_num = t.e_num - 1 })
    | none ↦ (none, t)
  ]

  unfoldable pub remove : HashTable V → Bytes → Option (Option V × HashTable V)
  remove t key = do h ← slot t key; some (remove_at t h key)

  -- chains i - 1 down to 0, as in the loops of `ht_list_keys` and `ht_list_values`
  down_from : HashTable V → ℕ → Chain V
  down_from t zero = []
  down_from t (suc i) = chain_at t i ++ down_from t i

  -- `none`: the array given is too short, and nothing is written
  unfoldable pub list_keys : HashTable V → ℕ → Option (List Bytes)
  unfolding down_from
  list_keys t len = if ltb len t.e_num then none else some (map (λ e. e.0) (down_from t t.capacity))

  unfoldable pub list_values : HashTable V → ℕ → Option (List V)
  unfolding down_from
  list_values t len =
      if ltb len t.e_num then none else some (map (λ e. e.1) (down_from t t.capacity))
