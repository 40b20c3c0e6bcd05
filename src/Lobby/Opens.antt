-- ===== src/Lobby/Opens.antt =====
-- `cmd_room_create` and the invariant of the rooms.
use ups_sp.Prelude.{
  ℕ, ◌+◌, ◌<◌, ◌≡◌, ◌≢◌, inl, inr, refl, sym, ap, ◌∙◌, Bool, true, false, Option, none, some, List,
  [], ◌∷◌, ◌==◌, codes, arith, Bool-cases, length, count,
}
use ups_sp.Prelude.Int.{pos, ◌+ℤ◌, leb_ℤ}
use ups_sp.ArrayList
use ups_sp.ArrayList.{cell}
use ups_sp.ArrayList.Chains.{entries}
use ups_sp.ArrayList.Inserts.{Inserted, insert-Inserted}
use ups_sp.Server.{Ref, Client, Game, World, Libc, in_lobby, in_room, load_client, success, failure}
use ups_sp.Server.Send.{message, decimal, send_message, record_sent, refuse}
use ups_sp.Commands.Args.{error_user_state, error_server_limit_reached}
use ups_sp.Commands.Rooms.{is_in_lobby, cmd_room_create}
use ups_sp.Commands.Rooms.Waiting.{opened, Created, cmd_room_create-Created}
use ups_sp.Lobby.{
  Keeps, in_lobby-of, Seated, first_waits, second_waits, Hosted, InSeat, Consistent,
  Consistent-sent,
}
use ups_sp.Lobby.Touches.{Touches, Consistent-Touches}
use ups_sp.Lobby.Places.{lobby-none}

cell-entries {ℓ} :
    {A : Type ℓ} (items items' : List (Option A)) (used : List ℕ) (j : ℕ)
    → entries items' used ≡ entries items used
    → 0 < count j used
    → cell items' j ≡ cell items j
cell-entries items items' [] j e h = absurd (omega arith)
cell-entries items items' (x ∷ used) j e h = elim (Bool-cases (j == x)) [
  | inl here ↦ let same : j ≡ x = ground arith in rw same (cc)
  | inr other ↦ cell-entries items items' used j (cc) (ground arith)
]

module _ (w w' : World) (c : Ref) (me : Client) (coin : Bool) (junk : Game) (e : ℕ)
    (used free : List ℕ) (rooms : ArrayList.ArrayList Ref) (v : Consistent w used (e ∷ free))
    (hc : w.clients c ≡ some me) (hs : me.state ≡ in_lobby)
    (ins : Inserted w.rooms w.fresh e used free rooms)
    (made : Created w w' c me (opened coin junk c e) rooms) where
  unused : count e used ≡ 0
  unused = ground (arith, v.valid.parts e)

  new_cell : cell w'.rooms.items e ≡ some w.fresh
  new_cell = let stored = ins.stored in rw made.listed (cc)

  old_cell : (j : ℕ) → count j used ≡ 1 → cell w'.rooms.items j ≡ cell w.rooms.items j
  old_cell j u =
      let stored = ins.stored in
      rw made.listed (cell-entries w.rooms.items rooms.items used j (cc) (omega (arith, u)))

  no_game : me.game ≡ none
  no_game = lobby-none w used (e ∷ free) v c me hc hs

  -- who is not the creator has kept what he had
  not_creator : (p : Ref) (a : Client) (h : Ref) → w.clients p ≡ some a → a.game ≡ some h → p ≢ c
  not_creator p a h hp ah same = let no = no_game in ground (arith, same, hp, hc)

  others_kept : (p : Ref) (a : Client) → p ≢ c → w'.clients p ≡ some a → w.clients p ≡ some a
  others_kept p a ne hp = sym (made.others p ne) ∙ hp

  owner_is :
      (p : Ref) (a : Client)
      → (p == c) ≡ true
      → w'.clients p ≡ some a
      → a ≡ record me { game = some w.fresh; state = in_room }
  owner_is p a e hp = let owner = made.owner in ground (arith, owner)

  Touches-created : Touches w w' used (e ∷ used) e w.fresh
  Touches-created = record {
    slots = λ j ne. ground arith;
    cells = λ j ne u. old_cell j u;
    games = λ h ne. made.other_games h (λ same. ground arith);
    alone = λ j h game ne hosted. let low = v.below h game hosted.at_g in ground arith;
    own = λ h game hosted. let none_there = unused in absurd (omega (arith, hosted.is_used));
    forth = λ p a h ne hp ah. made.others p (not_creator p a h hp ah) ∙ hp;
    back = λ p a h ne hp ah. elim (Bool-cases (p == c)) [
      | inl same ↦ let own = owner_is p a same hp in absurd (ground (arith, own))
      | inr other ↦ others_kept p a (λ same. ground arith) hp
    ];
    unbound = λ p a hp ag. elim (Bool-cases (p == c)) [
      | inl same ↦ let own = owner_is p a same hp in absurd (ground (arith, own))
      | inr other ↦ inl (others_kept p a (λ same. ground arith) hp)
    ];
  }

  Hosted-created : Hosted w' (e ∷ used) e w.fresh (opened coin junk c e)
  Hosted-created = record {
    is_used = let none_there = unused in ground arith;
    listed = new_cell;
    at_g = made.stored;
    numbered = refl;
  }

  Seated-created : Seated w' w.fresh (opened coin junk c e)
  Seated-created = elim (Bool-cases coin) [
    | inl heads ↦ first_waits c _ refl (rw heads) (rw heads) made.owner refl refl
    | inr tails ↦ second_waits c _ refl (rw tails) (rw tails) made.owner refl refl
  ]

  in_seat :
      (p : Ref) (a : Client)
      → w'.clients p ≡ some a
      → a.game ≡ some w.fresh
      → InSeat (opened coin junk c e) p
  in_seat p a hp ag = elim (Bool-cases (p == c)) [
    | inl same ↦
        let e : p ≡ c = ground arith in
        elim (Bool-cases coin) [ inl heads ↦ inl (rw (heads, e)) | inr tails ↦ inr (rw (tails, e)) ]
    | inr other ↦
        let before = others_kept p a (λ same. ground arith) hp in
        let (i, game, hosted, seat) = v.member p a w.fresh before ag in
        let low = v.below w.fresh game hosted.at_g in absurd (omega arith)
  ]

  below_next : (h : Ref) (game : Game) → w'.games h ≡ some game → h < w.fresh + 1
  below_next h game at = elim (Bool-cases (h == w.fresh)) [
    | inl same ↦ ground arith
    | inr other ↦
        let low = v.below h game (sym (made.other_games h (λ same. ground arith)) ∙ at) in
        omega arith
  ]

  Consistent-created : Consistent w' (e ∷ used) free
  Consistent-created =
      Consistent-Touches w w' used (e ∷ used) e w.fresh Touches-created (e ∷ free) free v
        (rw made.listed ins.valid) (made.counted ∙ rw v.counted (ground arith))
        (made.limit ∙ v.limit ∙ ap pos (sym (ap (λ l. l.capacity) made.listed ∙ ins.capacity)))
        (λ u. (opened coin junk c e, Hosted-created, Seated-created))
        (λ p a hp ag. (opened coin junk c e, Hosted-created, in_seat p a hp ag))
        (λ h game at. rw made.next (below_next h game at))

above : (n m : ℕ) → leb_ℤ (pos n +ℤ pos 1) (pos m) ≡ true → n ≡ m → ⊥
above n m h e = ground arith

module _ (libc : Libc) (coin : Bool) (junk : Game) (w : World) (c : Ref) (me : Client)
    (hc : w.clients c ≡ some me) where
  create_full :
      leb_ℤ (w.curr_rooms +ℤ pos 1) w.max_rooms ≡ false
      → cmd_room_create libc coin junk c w
        ≡ some (
          success,
          record_sent libc me.fd
              (message (codes "room_create_err" ∷ decimal error_server_limit_reached ∷ []))
              w,
        )
  unfolding cmd_room_create load_client send_message
  create_full full = ground (arith, hc)

  create_elsewhere :
      leb_ℤ (w.curr_rooms +ℤ pos 1) w.max_rooms ≡ true
      → is_in_lobby me.state ≡ false
      → cmd_room_create libc coin junk c w
        ≡ some (
          failure,
          record_sent libc me.fd
              (message (codes "room_create_err" ∷ decimal error_user_state ∷ []))
              w,
        )
  unfolding cmd_room_create load_client send_message refuse
  create_elsewhere room other = ground (arith, hc)

  free_slot :
      (used free : List ℕ)
      → Consistent w used free
      → leb_ℤ (w.curr_rooms +ℤ pos 1) w.max_rooms ≡ true
      → (e : ℕ) × (free' : List ℕ) × (free ≡ e ∷ free')
  free_slot used [] v below = absurd (
      above (length used) w.rooms.capacity (rw (v.counted, v.limit) at below)
        (omega (arith, v.valid.total)))
  free_slot used (e ∷ free) v below = (e, free, refl)

  create_below :
      (used free : List ℕ)
      → Consistent w used free
      → leb_ℤ (w.curr_rooms +ℤ pos 1) w.max_rooms ≡ true
      → me.state ≡ in_lobby
      → Keeps (cmd_room_create libc coin junk c w)
  create_below used free v below hs =
      let (e, free', split) = free_slot used free v below in
      let v' : Consistent w used (e ∷ free') = rw split at v in
      let (rooms, run, ins) = insert-Inserted w.rooms w.fresh e used free' v'.valid in
      let (w', done, made) =
        cmd_room_create-Created libc coin junk w c me rooms e hc hs below run in
      (
        success,
        w',
        e ∷ used,
        free',
        done,
        Consistent-created w w' c me coin junk e used free' rooms v' hc hs ins made,
      )

  -- The creation of a room by any client is defined and keeps the invariant.
  pub cmd_room_create-Keeps :
      (used free : List ℕ) → Consistent w used free → Keeps (cmd_room_create libc coin junk c w)
  cmd_room_create-Keeps used free v =
      elim (Bool-cases (leb_ℤ (w.curr_rooms +ℤ pos 1) w.max_rooms)) [
        | inr full ↦
            (success, _, used, free, create_full full, Consistent-sent libc me.fd _ w used free v)
        | inl below ↦ elim (Bool-cases (is_in_lobby me.state)) [
          | inl hall ↦ create_below used free v below (in_lobby-of me.state hall)
          | inr other ↦ (
            failure,
            _,
            used,
            free,
            create_elsewhere below other,
            Consistent-sent libc me.fd _ w used free v,
          )
        ]
      ]
