-- ===== src/Lobby/Joins.antt =====
-- `cmd_room_join` and the invariant of the rooms.
use ups_sp.Prelude.{
  ℕ, ◌≡◌, ◌≢◌, inl, inr, refl, sym, ap, ◌∙◌, false, none, some, List, arith, Bool-cases, count,
  ◌==◌, if◌then◌else◌, ◌<◌,
}
use ups_sp.Prelude.Int.{ℤ, pos}
use ups_sp.ArrayList
use ups_sp.ArrayList.{cell}
use ups_sp.ArrayList.Chains.{count-lt}
use ups_sp.Server.{
  Ref, Client, Game, World, Libc, in_lobby, in_room, lobby, preparing, success, failure,
}
use ups_sp.Commands.Args.{Args}
use ups_sp.Commands.Rooms.{is_in_lobby, room_number, cmd_room_join}
use ups_sp.Commands.Rooms.Joins.{
  Free, first_free, second_free, seated, fresh_game, Joins, Joined, cmd_room_join-starts,
}
use ups_sp.Commands.Rooms.Refusals.{Stopped, elsewhere, unread, unlisted, busy, join_stopped}
use ups_sp.Lobby.{
  Seated, first_waits, second_waits, running, Hosted, InSeat, Consistent, Consistent-sent, Keeps,
  in_lobby-of,
}
use ups_sp.Lobby.Touches.{Touches, Consistent-Touches}
use ups_sp.Lobby.Places.{alone-Hosted, lobby-none}
use ups_sp.Lobby.Seats.{Seated-Joined, joiner-InSeat, waiter-InSeat, seated-InSeat, id-fresh_game}

module _ (w w' : World) (used free : List ℕ) (i n : ℕ) (c o g : Ref) (me opp : Client) (room : Game)
    (v : Consistent w used free) (at : Hosted w used i g room) (hc : w.clients c ≡ some me)
    (ho : w.clients o ≡ some opp) (ne : o ≢ c) (hs : me.state ≡ in_lobby) (og : opp.game ≡ some g)
    (seat : Free room o n)
    (joined : Joined w w' c o g me opp (fresh_game (seated n c room)) n) where
  no_game : me.game ≡ none
  no_game = lobby-none w used free v c me hc hs

  -- a client after the second player has come
  data After (p : Ref) (a : Client) : Type 0 where
    joiner : p ≡ c → a ≡ record me { game = some g; state = preparing; player_num = n } → After p a
    waiter :
        p ≡ o
        → a ≡ record opp { state = preparing; player_num = if n == 1 then 2 else 1 }
        → After p a
    third : (p ≡ c → ⊥) → (p ≡ o → ⊥) → w.clients p ≡ some a → After p a

  After-of : (p : Ref) (a : Client) → w'.clients p ≡ some a → After p a
  After-of p a hp = elim (Bool-cases (p == c)) [
    | inl same ↦ let own = joined.client in joiner (ground arith) (ground (arith, own))
    | inr other ↦ elim (Bool-cases (p == o)) [
      | inl same ↦ let own = joined.opponent in waiter (ground arith) (ground (arith, own))
      | inr apart ↦
          let nc : p ≢ c = λ same. ground arith in
          let no' : p ≢ o = λ same. ground arith in third nc no' (sym (joined.third p nc no') ∙ hp)
    ]
  ]

  back-Joined :
      (p : Ref) (a : Client) (h : Ref)
      → (h == g) ≡ false
      → a.game ≡ some h
      → After p a
      → w.clients p ≡ some a
  back-Joined p a h apart ah (joiner e own) = absurd (ground arith)
  back-Joined p a h apart ah (waiter e own) = absurd (ground (arith, og))
  back-Joined p a h apart ah (third nc no' hp) = hp

  unbound-Joined : (p : Ref) (a : Client) → a.game ≡ none → After p a → w.clients p ≡ some a
  unbound-Joined p a idle (joiner e own) = absurd (ground arith)
  unbound-Joined p a idle (waiter e own) = absurd (ground (arith, og))
  unbound-Joined p a idle (third nc no' hp) = hp

  Touches-Joined : Touches w w' used used i g
  Touches-Joined = record {
    slots = λ j apart. refl;
    cells = λ j apart u. ap (λ l. cell l.items j) joined.list.0;
    games = λ h apart. joined.other_games h (λ same. ground arith);
    alone = λ j h game' apart hosted. alone-Hosted w used free v i j g h room game' at hosted apart;
    own = λ h game' hosted. ground (arith, hosted.listed, at.listed);
    forth = λ p a h apart hp ah.
        joined.third p (λ same. let idle = no_game in ground (arith, same, hp, hc))
          (λ same. ground (arith, same, hp, ho))
        ∙ hp;
    back = λ p a h apart hp ah. back-Joined p a h apart ah (After-of p a hp);
    unbound = λ p a hp ag. inl (unbound-Joined p a ag (After-of p a hp));
  }

  Hosted-Joined : Hosted w' used i g (fresh_game (seated n c room))
  Hosted-Joined = record {
    is_used = at.is_used;
    listed = rw joined.list.0 at.listed;
    at_g = joined.played;
    numbered = id-fresh_game room c n ∙ at.numbered;
  }

  room-InSeat : (p : Ref) (a : Client) → w.clients p ≡ some a → a.game ≡ some g → InSeat room p
  room-InSeat p a hp ag =
      let (j, game', hosted, seat') = v.member p a g hp ag in
      let same : game' ≡ room = ground (arith, hosted.at_g, at.at_g) in rw same at seat'

  InSeat-Joined :
      (p : Ref) (a : Client) → a.game ≡ some g → After p a → InSeat (fresh_game (seated n c room)) p
  InSeat-Joined p a ag (joiner e own) = rw e (joiner-InSeat room o c n seat)
  InSeat-Joined p a ag (waiter e own) = rw e (waiter-InSeat room o c n seat)
  InSeat-Joined p a ag (third nc no' hp) = seated-InSeat room o c p n seat (room-InSeat p a hp ag)

  below-Joined : (h : Ref) (game : Game) → w'.games h ≡ some game → h < w'.fresh
  below-Joined h game hg = elim (Bool-cases (h == g)) [
    | inl same ↦
        let e : h ≡ g = ground arith in
        let low = v.below g room at.at_g in rw (e, joined.list.3) low
    | inr other ↦
        rw joined.list.3 (v.below h game (sym (joined.other_games h (λ same. ground arith)) ∙ hg))
  ]

  Consistent-Joined : Consistent w' used free
  Consistent-Joined =
      Consistent-Touches w w' used used i g Touches-Joined free free v (rw joined.list.0 v.valid)
        (joined.list.1 ∙ v.counted)
        (joined.list.2 ∙ v.limit ∙ ap (λ l. pos l.capacity) (sym joined.list.0))
        (λ u. (_, Hosted-Joined, Seated-Joined w w' c o g me opp room ne og n seat joined))
        (λ p a hp ag. (_, Hosted-Joined, InSeat-Joined p a ag (After-of p a hp))) below-Joined

-- The number that the client sends is none, one outside the list of rooms, or the one of a used slot.
pub data Names (libc : Libc) (w : World) (used : List ℕ) (argv : Args) : Type 0 where
  no_number : room_number libc argv ≡ none → Names libc w used argv
  outside :
      (id : ℤ)
      → room_number libc argv ≡ some id
      → ArrayList.get w.rooms id ≡ none
      → Names libc w used argv
  names : (i : ℕ) → room_number libc argv ≡ some (pos i) → count i used ≡ 1 → Names libc w used argv

module _ (libc : Libc) (w : World) (c : Ref) (me : Client) (argv : Args) (used free : List ℕ)
    (v : Consistent w used free) (hc : w.clients c ≡ some me) where
  barred : (code : ℕ) → Stopped libc w c me argv code → Keeps (cmd_room_join libc c argv w)
  barred code b = (
    failure,
    _,
    used,
    free,
    join_stopped libc w c me argv code hc b,
    Consistent-sent libc me.fd _ w used free v,
  )

  get-Hosted :
      (i : ℕ) (g : Ref) (room : Game)
      → Hosted w used i g room
      → ArrayList.get w.rooms (pos i) ≡ some (some g)
  unfolding ArrayList.get
  get-Hosted i g room at =
      let low = count-lt w.rooms.capacity i used free v.valid.parts (omega (arith, at.is_used)) in
      ground (arith, low, at.listed)

  join_waiting :
      (i n : ℕ) (o g : Ref) (opp : Client) (room : Game)
      → room_number libc argv ≡ some (pos i)
      → Hosted w used i g room
      → me.state ≡ in_lobby
      → room.state ≡ lobby
      → w.clients o ≡ some opp
      → opp.game ≡ some g
      → opp.state ≡ in_room
      → Free room o n
      → Keeps (cmd_room_join libc c argv w)
  join_waiting i n o g opp room asked at hs waiting ho og so seat =
      let ne : o ≢ c = λ same. ground (arith, same, ho, hc) in
      let joins : Joins libc w c o g me opp room argv (pos i) = record {
        mine = hc;
        other = ho;
        apart = ne;
        in_hall = hs;
        waits = so;
        asked = asked;
        listed = get-Hosted i g room at;
        at_g = at.at_g;
        waiting = waiting;
      } in
      let (w', done, joined) =
        cmd_room_join-starts libc w c o g me opp room argv (pos i) n joins seat in
      (
        success,
        w',
        used,
        free,
        done,
        Consistent-Joined w w' used free i n c o g me opp room v at hc ho ne hs og seat joined,
      )

  join_slot :
      (i : ℕ) (g : Ref) (room : Game)
      → room_number libc argv ≡ some (pos i)
      → Hosted w used i g room
      → me.state ≡ in_lobby
      → Seated w g room
      → Keeps (cmd_room_join libc c argv w)
  join_slot i g room asked at hs (first_waits p a s e1 e2 hp ag sa) =
      join_waiting i 2 p g a room asked at hs s hp ag sa (second_free e1 e2)
  join_slot i g room asked at hs (second_waits p a s e1 e2 hp ag sa) =
      join_waiting i 1 p g a room asked at hs s hp ag sa (first_free e1 e2)
  join_slot i g room asked at hs (running p q a b s e1 e2 pq hp hq ag bg sa sb an bn) =
      barred _ (busy (pos i) g room hs asked (get-Hosted i g room at) at.at_g s refl)

  join_hall : me.state ≡ in_lobby → Names libc w used argv → Keeps (cmd_room_join libc c argv w)
  join_hall hs (no_number e) = barred _ (unread hs e refl)
  join_hall hs (outside id e out) = barred _ (unlisted id hs e out refl)
  join_hall hs (names i e u) =
      let (g, room, at, seated) = v.slot i u in join_slot i g room e at hs seated

  -- The joining of any client is defined and keeps the invariant, when the number he sends is none,
  -- one outside the list of rooms, or the one of a used slot.
  pub cmd_room_join-Keeps : Names libc w used argv → Keeps (cmd_room_join libc c argv w)
  cmd_room_join-Keeps asked = elim (Bool-cases (is_in_lobby me.state)) [
    | inl hall ↦ join_hall (in_lobby-of me.state hall) asked
    | inr other ↦ barred _ (elsewhere other refl)
  ]
