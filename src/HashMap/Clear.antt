-- ===== src/HashMap/Clear.antt =====
-- `ht_clear` and `ht_destroy` of structures/hashmap.c, which remove elements while they iterate.
pub mod Rounds
use ups_sp.Prelude.{
  ℕ, zero, suc, ◌+◌, Bool, Option, none, some, List, [], ◌∷◌, ◌++◌, Bytes, true, if◌then◌else◌,
  ◌>>=◌,
}
use ups_sp.HashMap.{HashTable, remove}
use ups_sp.HashMap.Iterator.{Iterator, start, iterate}

module _ {ℓ} {V : Type ℓ} where
  -- `free_data ? free(…) : …`
  abbrev pub freed_one : Bool → Option V → List V
  freed_one free_data none = []
  freed_one free_data (some v) = if free_data then v ∷ [] else []

  -- a round of the `while` loop, for what `ht_iterate` gives; the result is what was freed, and the table
  abbrev pub round :
      (HashTable V → Iterator V → Option (List V × HashTable V))
      → Bool
      → HashTable V
      → Option (Bytes × V) × Iterator V
      → Option (List V × HashTable V)
  round further free_data t (none, it) = some ([], t)
  round further free_data t (some (key, stored), it) = do
    (old, t') ← remove t key
    (freed, t'') ← further t' it
    some (freed_one free_data old ++ freed, t'')

  -- the loop, on fuel
  unfoldable pub clear_from : ℕ → Bool → HashTable V → Iterator V → Option (List V × HashTable V)
  clear_from zero free_data t it = none
  clear_from (suc fuel) free_data t it =
      round (clear_from fuel free_data) free_data t (iterate t it)

  -- a round for each element, and one for the end
  unfoldable pub clear : Bool → HashTable V → Option (List V × HashTable V)
  clear free_data t = clear_from (t.e_num + 1) free_data t (start t)

  -- the data that are freed; the table itself is freed too
  unfoldable pub destroy : HashTable V → Option (List V)
  destroy t = do (freed, t') ← clear true t; some freed
