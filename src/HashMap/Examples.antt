-- ===== src/HashMap/Examples.antt =====
-- Runs of structures/hashmap.c and the theorems at concrete tables.
use ups_sp.Prelude.{
  ℕ, List, length, true, ◌+◌, ◌*◌, ◌≡◌, refl, none, some, [], ◌∷◌, arith, Bytes, same, ◌>>=◌,
}
use ups_sp.HashMap.{
  HashTable, calc_hash, slot, find, put_at, put, get, cut, remove_at, remove, create,
}
use ups_sp.HashMap.Buckets.{IsValid, Changed, view, found}
use ups_sp.HashMap.Iterator.{start, advance, take_one, iterate, chains}
use ups_sp.HashMap.Clear.{clear_from, clear}
use ups_sp.HashMap.Clear.Rounds.{Cleared, clear-Cleared}
use ups_sp.HashMap.Entries.{view-create, put-Changed, remove-Changed}

abbrev ann : Bytes
ann = b'a' ∷ b'n' ∷ b'n' ∷ []

abbrev empty_table : HashTable ℕ
empty_table = record { capacity = 2; e_num = 0; table = [] ∷ [] ∷ [] }

empty_created : create 2 ≡ empty_table
unfolding create
empty_created = refl

-- the first character does not enter the sum: (5381 * 33 + 'n') * 33 + 'n', then * 33 for the zero
ann_hash : calc_hash ann ≡ ((5381 * 33 + 110) * 33 + 110) * 33
unfolding calc_hash
ann_hash = refl

ann_found : (put empty_table ann (some 4) >>= λ (old, t). get t ann) ≡ some (some 4)
unfolding put put_at get slot find same calc_hash
ann_found = refl

empty_table-IsValid : IsValid empty_table
unfolding create
empty_table-IsValid = (view-create 2 (omega arith)).0

put-Changed_example :
    (t' : HashTable ℕ) × (put empty_table ann (some 4) ≡ some (view empty_table ann, t'))
    × Changed empty_table ann (some 4) t'
    × (t'.e_num + found (view empty_table ann) ≡ 0 + 1)
put-Changed_example = put-Changed empty_table ann 4 empty_table-IsValid

remove-Changed_example :
    (t' : HashTable ℕ) × (remove empty_table ann ≡ some (view empty_table ann, t'))
    × Changed empty_table ann none t'
    × (t'.e_num + found (view empty_table ann) ≡ 0)
remove-Changed_example = remove-Changed empty_table ann empty_table-IsValid

-- a table of two chains, the first of them empty
abbrev one_entry : HashTable ℕ
one_entry = record { capacity = 2; e_num = 1; table = [] ∷ ((ann, 4) ∷ []) ∷ [] }

one_entry_listed : chains one_entry 0 2 ≡ (ann, 4) ∷ []
unfolding chains
one_entry_listed = refl

one_entry-put : put empty_table ann (some 4) ≡ some (none, one_entry)
unfolding put put_at slot find calc_hash
one_entry-put = refl

one_entry-IsValid : IsValid one_entry
one_entry-IsValid =
    let (t', run, changed, n) = put-Changed empty_table ann 4 empty_table-IsValid in
    let same_run = one_entry-put in let e : t' ≡ one_entry = cc in rw e at changed.valid

clear-Cleared_example :
    (freed : List ℕ) × (t' : HashTable ℕ) × (clear true one_entry ≡ some (freed, t'))
    × (length freed ≡ 1)
    × Cleared one_entry t'
clear-Cleared_example = clear-Cleared true one_entry one_entry-IsValid

cleared : clear true one_entry ≡ some (4 ∷ [], empty_table)
unfolding clear clear_from start iterate advance take_one remove remove_at slot find cut same
    calc_hash
cleared = refl
