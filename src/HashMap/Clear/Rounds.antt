-- ===== src/HashMap/Clear/Rounds.antt =====
-- Each round of `ht_clear` removes the first element that is left.
use ups_sp.Prelude.{
  ℕ, zero, suc, ◌+◌, ◌-◌, ◌≤◌, ◌<◌, ◌≡◌, refl, sym, ap, ◌∙◌, Bool, true, false, ltb, ◌==◌, Option,
  none, some, List, [], ◌∷◌, ◌++◌, Bytes, arith, length, get_or, set, if◌then◌else◌, same_refl,
  get_or-set, ==_iff, Bool-cases, inl, inr,
}
use ups_sp.HashMap.{Chain, HashTable, chain_at, find, cut, remove_at, remove, get}
use ups_sp.HashMap.Buckets.{IsValid, view, home, total, slot-home, remove_at-Changed}
use ups_sp.HashMap.Entries.{get-view}
use ups_sp.HashMap.Iterator.{Iterator, start, advance, take_one, iterate}
use ups_sp.HashMap.Clear.{freed_one, round, clear_from, clear, destroy}

module _ {ℓ} {V : Type ℓ} where
  -- all elements of the table are still to come
  record Ready (t : HashTable V) (it : Iterator V) : Type ℓ where
    valid : IsValid t
    inside : it.index < t.capacity
    head : it.elem ≡ chain_at t it.index
    before : (h : ℕ) → h < it.index → chain_at t h ≡ []

  -- and the loop of the iterator is through
  record Stopped (t : HashTable V) (it : Iterator V) : Type ℓ where
    ready : Ready t it
    ended : it.elem ≡ [] → it.index + 1 ≡ t.capacity

  module _ (t : HashTable V) where
    next :
        (i : ℕ)
        → Ready t (record { index = i; elem = [] })
        → ltb i (t.capacity - 1) ≡ true
        → Ready t (record { index = i + 1; elem = chain_at t (i + 1) })
    next i r more = record {
      valid = r.valid;
      inside = ground arith;
      head = refl;
      before = λ h l. elim (Bool-cases (h == i)) [
        | inl here ↦ let e : h ≡ i = ground arith in rw e (sym r.head)
        | inr other ↦ r.before h (ground arith)
      ];
    }

    advance-Stopped :
        (fuel i : ℕ) (c : Chain V)
        → Ready t (record { index = i; elem = c })
        → t.capacity ≤ i + 1 + fuel
        → Stopped t (advance fuel t (record { index = i; elem = c }))
    unfolding advance
    advance-Stopped zero i (x ∷ c) r h = record { ready = r; ended = λ z. absurd (cc) }
    advance-Stopped zero i [] r h = record { ready = r; ended = λ z. omega (arith, r.inside) }
    advance-Stopped (suc fuel) i (x ∷ c) r h = record { ready = r; ended = λ z. absurd (cc) }
    advance-Stopped (suc fuel) i [] r h = elim (Bool-cases (ltb i (t.capacity - 1))) [
      | inl more ↦
          rw (more, advance)
            (advance-Stopped fuel (i + 1) (chain_at t (i + 1)) (next i r more) (omega arith))
      | inr last ↦ rw (last, advance) (record { ready = r; ended = λ z. ground (arith, r.inside) })
    ]

    differs : (i h : ℕ) → h < i → (i == h) ≡ false
    differs i h l = ground arith

    -- the table without the head of the chain i
    abbrev beheaded : ℕ → Chain V → HashTable V
    beheaded i c = record t { table = set t.table i c; e_num = t.e_num - 1 }

    remove_at_head :
        (i : ℕ) (k : Bytes) (v : V) (c : Chain V)
        → chain_at t i ≡ (k, v) ∷ c
        → remove_at t i k ≡ (some v, beheaded i c)
    unfolding remove_at find cut
    remove_at_head i k v c e =
        let there : find k (chain_at t i) ≡ some v = rw (e, same_refl k) in
        let left : cut k (chain_at t i) ≡ c = rw (e, same_refl k) in rw (remove_at, there, left)

    home_here :
        (i : ℕ) (k : Bytes) (v : V) (c : Chain V)
        → IsValid t
        → chain_at t i ≡ (k, v) ∷ c
        → home t.capacity k ≡ i
    home_here i k v c valid e =
        let once = rw (valid.width, e, same_refl k) at (valid.placed k i) in ground (arith, once)

    remove_head :
        (i : ℕ) (k : Bytes) (v : V) (c : Chain V)
        → Ready t (record { index = i; elem = (k, v) ∷ c })
        → (remove t k ≡ some (some v, beheaded i c))
          × Ready (beheaded i c) (record { index = i; elem = c })
          × ((beheaded i c).e_num + 1 ≡ t.e_num)
    unfolding remove find
    remove_head i k v c r =
        let wide : i < length t.table = omega (arith, r.inside, r.valid.width) in
        let at : home t.capacity k ≡ i = home_here i k v c r.valid (sym r.head) in
        let cut_off = remove_at_head i k v c (sym r.head) in
        let sees : view t k ≡ some v = rw (at, ← r.head, same_refl k) in
        let (old, changed, fewer) = remove_at-Changed t k (some v) r.valid sees in
        (
          rw (slot-home t k r.valid, at) (ap some cut_off),
          record {
            valid = rw (at, cut_off) at changed.valid;
            inside = r.inside;
            head = sym (get_or-set t.table i i c [] wide ∙ rw ((==_iff i i).1 refl));
            before = λ h l. get_or-set t.table i h c [] wide ∙ rw (differs i h l) (r.before h l);
          },
          rw (at, cut_off) at fewer,
        )

  emptied : (cs : List (Chain V)) → ((h : ℕ) → h < length cs → get_or cs h [] ≡ []) → total cs ≡ 0
  emptied [] none_left = refl
  emptied (c ∷ cs) none_left =
      let first : c ≡ [] = none_left 0 (omega arith) in
      let rest = emptied cs (λ h l. none_left (suc h) (omega arith)) in rw (first, rest)

  -- a table in which no element is left
  pub record Cleared (t t' : HashTable V) : Type ℓ where
    pub valid : IsValid t'
    pub nothing : (key : Bytes) → get t' key ≡ some none
    pub count : t'.e_num ≡ 0
    pub capacity : t'.capacity ≡ t.capacity

  module _ (t : HashTable V) (i : ℕ) (r : Ready t (record { index = i; elem = [] }))
      (last : i + 1 ≡ t.capacity) where
    no_element : (h : ℕ) → h < t.capacity → chain_at t h ≡ []
    no_element h l = elim (Bool-cases (h == i)) [
      | inl here ↦ let e : h ≡ i = ground arith in rw e (sym r.head)
      | inr other ↦ r.before h (ground arith)
    ]

    at_end : Cleared t t
    unfolding find
    at_end = record {
      valid = r.valid;
      nothing = λ key.
          get-view t key r.valid
          ∙ ap some
              (ap (find key) (no_element (home t.capacity key) (omega (arith, r.valid.nonempty))));
      count =
          sym r.valid.counted
          ∙ emptied t.table (λ h l. no_element h (omega (arith, r.valid.width)));
      capacity = refl;
    }

  length-freed_one :
      (b : Bool) (v : V) (vs : List V) (n : ℕ)
      → length vs ≡ (if b then n else 0)
      → length (freed_one b (some v) ++ vs) ≡ (if b then suc n else 0)
  length-freed_one true v vs n e = omega (arith, e)
  length-freed_one false v vs n e = e

  -- the loop ends with an empty table, with as much freed as there was in it
  abbrev Clears : ℕ → Bool → HashTable V → Option (List V × HashTable V) → Type ℓ
  Clears n free_data t run =
      (freed : List V) × (t' : HashTable V) × (run ≡ some (freed, t'))
      × (length freed ≡ (if free_data then n else 0))
      × Cleared t t'

  Clears-round :
      (n fuel : ℕ) (free_data : Bool) (t : HashTable V) (j : ℕ) (d : Chain V)
      → ((m : ℕ) (t' : HashTable V) (it : Iterator V)
          → Ready t' it
          → t'.e_num ≡ m
          → m < fuel
          → Clears m free_data t' (clear_from fuel free_data t' it))
      → Stopped t (record { index = j; elem = d })
      → t.e_num ≡ n
      → n < fuel + 1
      → Clears n free_data t (
          round (clear_from fuel free_data) free_data t (take_one (record { index = j; elem = d })))
  unfolding take_one
  Clears-round n fuel free_data t j [] further s e h =
      let done = at_end t j s.ready (s.ended refl) in
      ([], t, refl, ground (arith, done.count, e), done)
  Clears-round n fuel free_data t j ((k, v) ∷ d) further s e h =
      let (run, ready, fewer) = remove_head t j k v d s.ready in
      let m = (beheaded t j d).e_num in
      let (freed, t', rest, many, done) =
        further m (beheaded t j d) (record { index = j; elem = d }) ready refl
          (omega (arith, fewer, e, h)) in
      let all : n ≡ suc m = omega (arith, fewer, e) in
      (
        freed_one free_data (some v) ++ freed,
        t',
        rw (run, rest) refl,
        rw all (length-freed_one free_data v freed m many),
        record {
          valid = done.valid;
          nothing = done.nothing;
          count = done.count;
          capacity = done.capacity;
        },
      )

  clear_rounds :
      (fuel : ℕ) (free_data : Bool) (n : ℕ) (t : HashTable V) (it : Iterator V)
      → Ready t it
      → t.e_num ≡ n
      → n < fuel
      → Clears n free_data t (clear_from fuel free_data t it)
  unfolding clear_from iterate
  clear_rounds zero free_data n t it r e h = absurd (omega arith)
  clear_rounds (suc fuel) free_data n t it r e h =
      Clears-round n fuel free_data t _ _ (λ m t' it'. clear_rounds fuel free_data m t' it')
        (advance-Stopped t t.capacity it.index it.elem r (omega arith)) e (omega arith)

  -- Clearing a well-formed table ends with a well-formed table of the same capacity in which no key
  -- is found and which counts no element; with the flag for it, as many pointers are freed as there
  -- were elements, and none otherwise.
  pub clear-Cleared :
      (free_data : Bool) (t : HashTable V)
      → IsValid t
      → (freed : List V) × (t' : HashTable V) × (clear free_data t ≡ some (freed, t'))
        × (length freed ≡ (if free_data then t.e_num else 0))
        × Cleared t t'
  unfolding clear start
  clear-Cleared free_data t valid =
      clear_rounds (t.e_num + 1) free_data t.e_num t (start t)
        (record {
          valid = valid;
          inside = valid.nonempty;
          head = refl;
          before = λ h l. absurd (omega arith);
        })
        refl (omega arith)

  -- Destroying it frees as many pointers as it has elements.
  destroy_lem :
      (t : HashTable V)
      → IsValid t
      → (freed : List V) × (destroy t ≡ some freed) × (length freed ≡ t.e_num)
  unfolding destroy
  destroy_lem t valid =
      let (freed, t', run, many, done) = clear-Cleared true t valid in (freed, rw run refl, many)
