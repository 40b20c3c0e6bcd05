-- ===== src/Lobby/Closes.antt =====
-- The end of a room or of a game.
use ups_sp.Prelude.{
  ℕ, ◌+◌, ◌≡◌, ◌≢◌, ◌⊎◌, inl, inr, refl, sym, ap, ◌∙◌, true, false, none, some, List, ◌∷◌, ◌==◌,
  arith, Bool-cases, ==_iff, length, count, erase,
}
use ups_sp.Prelude.Int.{pos, ◌-ℤ◌}
use ups_sp.ArrayList
use ups_sp.ArrayList.{cell}
use ups_sp.ArrayList.Chains.{count-erase, length-erase}
use ups_sp.ArrayList.Deletes.{Deleted}
use ups_sp.Server.{Ref, Client, Game, World, in_lobby}
use ups_sp.Commands.Ends.Over.{Over}
use ups_sp.Commands.Prepare.Starts.{Seats, first, second}
use ups_sp.Commands.Rooms.Waiting.{Alone, in_first, in_second, Closed}
use ups_sp.Lobby.{Hosted, InSeat, Consistent}
use ups_sp.Lobby.Touches.{Touches, Consistent-Touches}
use ups_sp.Lobby.Places.{alone-Hosted}

-- the room is gone, and who was in it is in the lobby
pub record Gone (w w' : World) (g : Ref) (rooms : ArrayList.ArrayList Ref) : Type 0 where
  listed : w'.rooms ≡ rooms
  counted : w'.curr_rooms ≡ w.curr_rooms -ℤ pos 1
  limit : w'.max_rooms ≡ w.max_rooms
  next : w'.fresh ≡ w.fresh
  freed : w'.games g ≡ none
  other_games : (h : Ref) → h ≢ g → w'.games h ≡ w.games h
  forth :
      (p : Ref) (a : Client) (h : Ref)
      → (h == g) ≡ false
      → w.clients p ≡ some a
      → a.game ≡ some h
      → w'.clients p ≡ some a
  back :
      (p : Ref) (a : Client) (h : Ref)
      → w'.clients p ≡ some a
      → a.game ≡ some h
      → (w.clients p ≡ some a) × ((h == g) ≡ false)
  unbound :
      (p : Ref) (a : Client)
      → w'.clients p ≡ some a
      → a.game ≡ none
      → (w.clients p ≡ some a) ⊎ (a.state ≡ in_lobby)

less_one : (n m : ℕ) → n + 1 ≡ m → pos m -ℤ pos 1 ≡ pos n
less_one n m e = ground arith

module _ (w w' : World) (used free : List ℕ) (i : ℕ) (g : Ref) (game : Game)
    (rooms : ArrayList.ArrayList Ref) (v : Consistent w used free) (at : Hosted w used i g game)
    (del : Deleted w.rooms i used free rooms) (gone : Gone w w' g rooms) where
  Touches-Gone : Touches w w' used (erase i used) i g
  Touches-Gone = record {
    slots = λ j ne. ground (arith, count-erase i j used at.is_used, ne);
    cells = λ j ne u. rw (gone.listed, del.items);
    games = λ h ne. gone.other_games h (λ same. ground arith);
    alone = λ j h game' ne hosted. alone-Hosted w used free v i j g h game game' at hosted ne;
    own = λ h game' hosted. ground (arith, hosted.listed, at.listed);
    forth = gone.forth;
    back = λ p a h ne hp ah. (gone.back p a h hp ah).0;
    unbound = gone.unbound;
  }

  gone_count : count i (erase i used) ≡ 0
  gone_count =
      let once = rw ((==_iff i i).1 refl) at (count-erase i i used at.is_used) in
      omega (arith, once, at.is_used)

  pub Consistent-Gone : Consistent w' (erase i used) (i ∷ free)
  Consistent-Gone =
      Consistent-Touches w w' used (erase i used) i g Touches-Gone free (i ∷ free) v
        (rw gone.listed del.valid)
        (gone.counted
          ∙ rw v.counted
              (less_one (length (erase i used)) (length used) (length-erase i used at.is_used)))
        (gone.limit ∙ v.limit ∙ ap pos (sym (ap (λ l. l.capacity) gone.listed ∙ del.capacity)))
        (λ u. absurd (omega (arith, gone_count, u)))
        (λ p a hp ag. absurd (ground (arith, (gone.back p a g hp ag).1)))
        (λ h game' hg. elim (Bool-cases (h == g)) [
          | inl same ↦ let e : h ≡ g = ground arith in absurd (ground (arith, e, hg, gone.freed))
          | inr other ↦
              rw gone.next (v.below h game' (sym (gone.other_games h (λ same. ground arith)) ∙ hg))
        ])

-- who is in the game sits in it
in_game-InSeat :
    (w : World) (used free : List ℕ) (i : ℕ) (g : Ref) (game : Game)
    → Consistent w used free
    → Hosted w used i g game
    → (p : Ref) (a : Client) → w.clients p ≡ some a
    → a.game ≡ some g
    → InSeat game p
in_game-InSeat w used free i g game v at p a hp ag =
    let (j, game', hosted, seat) = v.member p a g hp ag in
    let same : game' ≡ game = ground (arith, hosted.at_g, at.at_g) in rw same at seat

-- the only player of a room leaves it
module _ (w w' : World) (used free : List ℕ) (i : ℕ) (c g : Ref) (me : Client) (room : Game)
    (rooms : ArrayList.ArrayList Ref) (v : Consistent w used free) (at : Hosted w used i g room)
    (hc : w.clients c ≡ some me) (hg : me.game ≡ some g) (alone : Alone room c)
    (del : Deleted w.rooms i used free rooms) (closed : Closed w w' c g me rooms) where
  Alone-same : (p : Ref) → Alone room c → InSeat room p → p ≡ c
  Alone-same p (in_first a b) (inl seat) = ground arith
  Alone-same p (in_first a b) (inr seat) = absurd (ground arith)
  Alone-same p (in_second a b) (inl seat) = absurd (ground arith)
  Alone-same p (in_second a b) (inr seat) = ground arith

  leaver :
      (p : Ref) (a : Client)
      → (p == c) ≡ true
      → w'.clients p ≡ some a
      → a ≡ record me { game = none; state = in_lobby }
  leaver p a e hp = let own = closed.client in ground (arith, own)

  stayer : (p : Ref) (a : Client) → (p == c) ≡ false → w'.clients p ≡ some a → w.clients p ≡ some a
  stayer p a ne hp = sym (closed.others p (λ same. ground arith)) ∙ hp

  pub Gone-Closed : Gone w w' g rooms
  Gone-Closed = record {
    listed = closed.listed;
    counted = closed.counted;
    limit = closed.limit;
    next = closed.next;
    freed = closed.freed;
    other_games = closed.other_games;
    forth = λ p a h ne hp ah. closed.others p (λ same. ground (arith, same, hp, hc)) ∙ hp;
    back = λ p a h hp ah. elim (Bool-cases (p == c)) [
      | inl same ↦ let own = leaver p a same hp in absurd (ground (arith, own))
      | inr other ↦ (
        stayer p a other hp,
        elim (Bool-cases (h == g)) [
          | inr apart ↦ apart
          | inl here ↦
              let e : h ≡ g = ground arith in
              let seat =
                in_game-InSeat w used free i g room v at p a (stayer p a other hp)
                  (ah ∙ ap some e) in
              let it = Alone-same p alone seat in absurd (ground arith)
        ],
      )
    ];
    unbound = λ p a hp ag. elim (Bool-cases (p == c)) [
      | inl same ↦ let own = leaver p a same hp in inr (ap (λ b. b.state) own)
      | inr other ↦ inl (stayer p a other hp)
    ];
  }

-- the two players of a game that is over
module _ (w w' : World) (used free : List ℕ) (i : ℕ) (c o g : Ref) (me opp : Client) (game : Game)
    (rooms : ArrayList.ArrayList Ref) (v : Consistent w used free) (at : Hosted w used i g game)
    (hc : w.clients c ≡ some me) (ho : w.clients o ≡ some opp) (hg : me.game ≡ some g)
    (og : opp.game ≡ some g) (seats : Seats me game c o) (over : Over w w' c o g me opp rooms) where
  either_of : (p : Ref) → Seats me game c o → InSeat game p → (p ≡ c) ⊎ (p ≡ o)
  either_of p (first n a b) (inl seat) = inl (ground arith)
  either_of p (first n a b) (inr seat) = inr (ground arith)
  either_of p (second n a b) (inl seat) = inr (ground arith)
  either_of p (second n a b) (inr seat) = inl (ground arith)

  -- a client after the end
  data After (p : Ref) (a : Client) : Type 0 where
    player : a.game ≡ none → a.state ≡ in_lobby → After p a
    third : (p ≡ c → ⊥) → (p ≡ o → ⊥) → w.clients p ≡ some a → After p a

  After-of : (p : Ref) (a : Client) → w'.clients p ≡ some a → After p a
  After-of p a hp = elim (Bool-cases (p == c)) [
    | inl same ↦
        let one = over.one in
        let own : a ≡ record me { game = none; state = in_lobby } = ground (arith, one) in
        player (ap (λ b. b.game) own) (ap (λ b. b.state) own)
    | inr other ↦ elim (Bool-cases (p == o)) [
      | inl same ↦
          let two = over.two in
          let own : a ≡ record opp { game = none; state = in_lobby } = ground (arith, two) in
          player (ap (λ b. b.game) own) (ap (λ b. b.state) own)
      | inr apart ↦
          let nc : p ≢ c = λ same. ground arith in
          let ne : p ≢ o = λ same. ground arith in third nc ne (sym (over.others p nc ne) ∙ hp)
    ]
  ]

  back-Over :
      (p : Ref) (a : Client) (h : Ref)
      → a.game ≡ some h
      → After p a
      → (w.clients p ≡ some a) × ((h == g) ≡ false)
  back-Over p a h ah (player idle s) = absurd (cc)
  back-Over p a h ah (third nc ne hp) = (
    hp,
    elim (Bool-cases (h == g)) [
      | inr apart ↦ apart
      | inl here ↦
          let e : h ≡ g = ground arith in
          let seat = in_game-InSeat w used free i g game v at p a hp (ah ∙ ap some e) in
          elim (either_of p seats seat) [
            | inl same ↦ absurd (nc same)
            | inr same ↦ absurd (ne same)
          ]
    ],
  )

  unbound-Over : (p : Ref) (a : Client) → After p a → (w.clients p ≡ some a) ⊎ (a.state ≡ in_lobby)
  unbound-Over p a (player idle s) = inr s
  unbound-Over p a (third nc ne hp) = inl hp

  pub Gone-Over : Gone w w' g rooms
  Gone-Over = record {
    listed = over.listed;
    counted = over.counted;
    limit = over.limit;
    next = over.next;
    freed = over.freed;
    other_games = over.other_games;
    forth = λ p a h ne hp ah.
        over.others p (λ same. ground (arith, same, hp, hc)) (λ same. ground (arith, same, hp, ho))
        ∙ hp;
    back = λ p a h hp ah. back-Over p a h ah (After-of p a hp);
    unbound = λ p a hp ag. unbound-Over p a (After-of p a hp);
  }
