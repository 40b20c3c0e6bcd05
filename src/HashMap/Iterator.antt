-- ===== src/HashMap/Iterator.antt =====
-- `ht_iterate` of structures/hashmap.c, for a table of positive capacity.
use ups_sp.Prelude.{
  ℕ, zero, suc, ◌+◌, ◌-◌, ◌≤◌, ◌<◌, ◌≡◌, refl, true, false, ltb, Option, none, some, [], ◌∷◌, ◌++◌,
  Bytes, arith, ◌∙◌, ap, sym, length,
}
use ups_sp.HashMap.{Chain, HashTable, chain_at}

-- `hash_elem_it`; `elem` is the rest of a chain, and the table is an argument
pub record Iterator {ℓ} (V : Type ℓ) : Type ℓ where
  pub index : ℕ
  pub elem : Chain V

module _ {ℓ} {V : Type ℓ} where
  -- HT_ITERATOR
  unfoldable pub start : HashTable V → Iterator V
  start t = record { index = 0; elem = chain_at t 0 }

  -- the `while` loop, on fuel
  unfoldable pub advance : ℕ → HashTable V → Iterator V → Iterator V
  advance zero t it = it
  advance (suc fuel) t it = elim it.elem [
    | e ∷ c ↦ it
    | [] ↦ elim (ltb it.index (t.capacity - 1)) [
      | true ↦ advance fuel t (record { index = it.index + 1; elem = chain_at t (it.index + 1) })
      | false ↦ it
    ]
  ]

  -- the end of `ht_iterate`
  unfoldable pub take_one : Iterator V → Option (Bytes × V) × Iterator V
  take_one it = elim it.elem [
    | [] ↦ (none, it)
    | e ∷ c ↦ (some e, record { index = it.index; elem = c })
  ]

  -- the next element, or NULL; the fuel is enough, since the index grows in each round
  unfoldable pub iterate : HashTable V → Iterator V → Option (Bytes × V) × Iterator V
  iterate t it = take_one (advance t.capacity t it)

  -- the elements that repeated calls give, at most as many as the fuel
  unfoldable pub collect : ℕ → HashTable V → Iterator V → Chain V
  collect zero t it = []
  collect (suc fuel) t it =
      let rest = collect fuel t (iterate t it).1 in
      elim (iterate t it).0 [ none ↦ [] | some e ↦ e ∷ rest ]

  -- the elements of the n chains from i on
  unfoldable pub chains : HashTable V → ℕ → ℕ → Chain V
  chains t i zero = []
  chains t i (suc n) = chain_at t i ++ chains t (i + 1) n

  -- what the iterator has still to give
  unfoldable pub remaining : HashTable V → Iterator V → Chain V
  unfolding chains
  remaining t it = it.elem ++ chains t (it.index + 1) (t.capacity - (it.index + 1))

  abbrev pub first_of : Chain V → Option (Bytes × V)
  first_of [] = none
  first_of (e ∷ c) = some e

  abbrev pub rest_of : Chain V → Chain V
  rest_of [] = []
  rest_of (e ∷ c) = c

  module _ (t : HashTable V) where
    -- where the loop ends: at an element, or at the last chain
    record Stops (it : Iterator V) (left : Chain V) : Type ℓ where
      same : remaining t it ≡ left
      inside : it.index < t.capacity
      ended : it.elem ≡ [] → left ≡ []

    remaining_at :
        (i n : ℕ) (c : Chain V)
        → i + 1 + n ≡ t.capacity
        → remaining t (record { index = i; elem = c }) ≡ c ++ chains t (i + 1) n
    unfolding remaining
    remaining_at i n c e =
        let k : t.capacity - (i + 1) ≡ n = omega arith in ap (λ k. c ++ chains t (i + 1) k) k

    advance-Stops :
        (fuel n i : ℕ) (c : Chain V)
        → i + 1 + n ≡ t.capacity
        → n ≤ fuel
        → Stops (advance fuel t (record { index = i; elem = c })) (c ++ chains t (i + 1) n)
    unfolding advance chains
    advance-Stops zero n i (x ∷ c) e h = record {
      same = remaining_at i n (x ∷ c) e;
      inside = omega arith;
      ended = λ z. absurd (cc);
    }
    advance-Stops (suc fuel) n i (x ∷ c) e h = record {
      same = remaining_at i n (x ∷ c) e;
      inside = omega arith;
      ended = λ z. absurd (cc);
    }
    advance-Stops zero zero i [] e h = record {
      same = remaining_at i 0 [] e;
      inside = omega arith;
      ended = λ z. refl;
    }
    advance-Stops zero (suc n) i [] e h = absurd (omega arith)
    advance-Stops (suc fuel) zero i [] e h =
        let last : ltb i (t.capacity - 1) ≡ false = ground arith in
        rw (last, advance)
          (record { same = remaining_at i 0 [] e; inside = omega arith; ended = λ z. refl })
    advance-Stops (suc fuel) (suc n) i [] e h =
        let more : ltb i (t.capacity - 1) ≡ true = ground arith in
        rw (more, advance)
          (advance-Stops fuel n (i + 1) (chain_at t (i + 1)) (omega arith) (omega arith))

    -- one call, from a place inside the table
    record Step (left : Chain V) (r : Option (Bytes × V) × Iterator V) : Type ℓ where
      given : r.0 ≡ first_of left
      kept : remaining t r.1 ≡ rest_of left
      within : r.1.index < t.capacity

    take_one-Step :
        (i : ℕ) (c left : Chain V)
        → Stops (record { index = i; elem = c }) left
        → Step left (take_one (record { index = i; elem = c }))
    unfolding take_one remaining
    take_one-Step i [] left s = record {
      given = ap first_of (sym (s.ended refl));
      kept = s.same ∙ s.ended refl ∙ ap rest_of (sym (s.ended refl));
      within = s.inside;
    }
    take_one-Step i (e ∷ c) left s = record {
      given = ap first_of s.same;
      kept = ap rest_of s.same;
      within = s.inside;
    }

    iterate-Step : (it : Iterator V) → it.index < t.capacity → Step (remaining t it) (iterate t it)
    unfolding iterate remaining
    iterate-Step it h = take_one-Step _ _ _ (
        advance-Stops t.capacity (t.capacity - (it.index + 1)) it.index it.elem (omega arith)
          (omega arith))

    collect-remaining :
        (fuel : ℕ) (it : Iterator V) (left : Chain V)
        → it.index < t.capacity
        → remaining t it ≡ left
        → length left ≤ fuel
        → collect fuel t it ≡ left
    unfolding collect
    collect-remaining zero it [] h e l = refl
    collect-remaining zero it (x ∷ left) h e l = absurd (omega arith)
    collect-remaining (suc fuel) it [] h e l =
        let none_left = (iterate-Step it h).given ∙ ap first_of e in rw (none_left, collect)
    collect-remaining (suc fuel) it (x ∷ left) h e l =
        let step = iterate-Step it h in
        let one = step.given ∙ ap first_of e in
        let rest =
          collect-remaining fuel (iterate t it).1 left step.within (step.kept ∙ ap rest_of e)
            (omega arith) in
        rw (one, collect, rest)

    -- From the start, as many calls as there are elements, or more, give the elements of all chains,
    -- each once, in the order of the chains, and then NULL.
    collect-start :
        (fuel : ℕ)
        → 0 < t.capacity
        → length (chains t 0 t.capacity) ≤ fuel
        → collect fuel t (start t) ≡ chains t 0 t.capacity
    unfolding start remaining chains
    collect-start fuel h l =
        let k : t.capacity ≡ suc (t.capacity - 1) = omega arith in
        collect-remaining fuel (start t) (chains t 0 t.capacity) h (ap (λ n. chains t 0 n) (sym k))
          l
