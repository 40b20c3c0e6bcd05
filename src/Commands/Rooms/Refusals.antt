-- ===== src/Commands/Rooms/Refusals.antt =====
-- `cmd_room_join`: the requests that are refused.
use ups_sp.Prelude.{
  ℕ, ◌≡◌, refl, ◌≢◌, false, Option, none, some, [], ◌∷◌, codes, arith, ◌∙◌, ◌<◌, inl, inr, Bytes,
}
use ups_sp.Prelude.Int.{ℤ, pos}
use ups_sp.ArrayList
use ups_sp.Game.Placement.{error_format}
use ups_sp.Server.{
  Ref, Client, Game, World, Libc, in_lobby, lobby, started, load_client, load_game, failure,
  ClientState,
}
use ups_sp.Server.Send.{message, decimal, send_message, refuse, record_sent}
use ups_sp.Commands.Args.{Args, error_user_state, error_room_full, error_room_not_accessible}
use ups_sp.Commands.Rooms.{
  is_in_lobby, take_seat, enter_room, join_room, room_number, cmd_room_join,
}
use ups_sp.ArrayList.{cell}
use ups_sp.Commands.Texts.{Numeral, NoNumeral, Outside, number-Numeral, number-NoNumeral}

-- the branches of the code that refuse a client, with the error's code
pub data Stopped (libc : Libc) (w : World) (c : Ref) (me : Client) (argv : Args) (code : ℕ)
    : Type 0 where
  elsewhere : is_in_lobby me.state ≡ false → code ≡ error_user_state → Stopped libc w c me argv code
  unread :
      me.state ≡ in_lobby
      → room_number libc argv ≡ none
      → code ≡ error_format
      → Stopped libc w c me argv code
  unlisted :
      (id : ℤ)
      → me.state ≡ in_lobby
      → room_number libc argv ≡ some id
      → ArrayList.get w.rooms id ≡ none
      → code ≡ error_room_not_accessible
      → Stopped libc w c me argv code
  busy :
      (id : ℤ) (g : Ref) (room : Game)
      → me.state ≡ in_lobby
      → room_number libc argv ≡ some id
      → ArrayList.get w.rooms id ≡ some (some g)
      → w.games g ≡ some room
      → room.state ≡ started
      → code ≡ error_room_full
      → Stopped libc w c me argv code
  full :
      (id : ℤ) (g p q : Ref) (room : Game)
      → me.state ≡ in_lobby
      → room_number libc argv ≡ some id
      → ArrayList.get w.rooms id ≡ some (some g)
      → w.games g ≡ some room
      → room.state ≡ lobby
      → room.player1 ≡ some p
      → room.player2 ≡ some q
      → code ≡ error_room_full
      → Stopped libc w c me argv code

pub join_stopped :
    (libc : Libc) (w : World) (c : Ref) (me : Client) (argv : Args) (code : ℕ)
    → w.clients c ≡ some me
    → Stopped libc w c me argv code
    → cmd_room_join libc c argv w
      ≡ some
          (failure, record_sent libc me.fd (message (codes "room_join_err" ∷ decimal code ∷ [])) w)
unfolding cmd_room_join join_room enter_room take_seat load_client load_game refuse send_message
join_stopped libc w c me argv code hc (elsewhere t e) = ground arith
join_stopped libc w c me argv code hc (unread t a e) = ground arith
join_stopped libc w c me argv code hc (unlisted id t a l e) = ground arith
join_stopped libc w c me argv code hc (busy id g room t a l at s e) = ground arith
join_stopped libc w c me argv code hc (full id g p q room t a l at s x y e) = ground arith

-- What refuses a client who wants to join, with the error's number: he is not in the lobby; he sends
-- no number; the number is no index of the list; the game there has started; or both seats are taken.
pub data Barred (libc : Libc) (w : World) (me : Client) (argv : Args) (code : ℕ) : Type 0 where
  not_in_lobby : me.state ≢ in_lobby → code ≡ 5 → Barred libc w me argv code
  no_argument : me.state ≡ in_lobby → argv ≡ [] → code ≡ 2 → Barred libc w me argv code
  malformed :
      (arg : Option Bytes) (rest : Args)
      → me.state ≡ in_lobby
      → argv ≡ arg ∷ rest
      → NoNumeral arg
      → code ≡ 2
      → Barred libc w me argv code
  no_slot :
      (a : Bytes) (rest : Args)
      → me.state ≡ in_lobby
      → argv ≡ some a ∷ rest
      → Numeral a
      → Outside w.rooms.capacity (libc.atoi a)
      → code ≡ 7
      → Barred libc w me argv code
  begun :
      (a : Bytes) (rest : Args) (i : ℕ) (g : Ref) (room : Game)
      → me.state ≡ in_lobby
      → argv ≡ some a ∷ rest
      → Numeral a
      → libc.atoi a ≡ pos i
      → i < w.rooms.capacity
      → cell w.rooms.items i ≡ some g
      → w.games g ≡ some room
      → room.state ≡ started
      → code ≡ 6
      → Barred libc w me argv code
  taken :
      (a : Bytes) (rest : Args) (i : ℕ) (g p q : Ref) (room : Game)
      → me.state ≡ in_lobby
      → argv ≡ some a ∷ rest
      → Numeral a
      → libc.atoi a ≡ pos i
      → i < w.rooms.capacity
      → cell w.rooms.items i ≡ some g
      → w.games g ≡ some room
      → room.state ≡ lobby
      → room.player1 ≡ some p
      → room.player2 ≡ some q
      → code ≡ 6
      → Barred libc w me argv code

lobby-other : (s : ClientState) → s ≢ in_lobby → is_in_lobby s ≡ false
lobby-other s ne = ground arith

get-Outside :
    (l : ArrayList.ArrayList Ref) (z : ℤ) → Outside l.capacity z → ArrayList.get l z ≡ none
unfolding ArrayList.get
get-Outside l z (inl (k, e)) = rw e refl
get-Outside l z (inr (k, e, far)) = rw e (ground (arith, far))

get-cell :
    (l : ArrayList.ArrayList Ref) (i : ℕ)
    → i < l.capacity
    → ArrayList.get l (pos i) ≡ some (cell l.items i)
unfolding ArrayList.get
get-cell l i low = ground (arith, low)

room_number-Numeral :
    (libc : Libc) (argv : Args) (a : Bytes) (rest : Args)
    → argv ≡ some a ∷ rest
    → Numeral a
    → room_number libc argv ≡ some (libc.atoi a)
room_number-Numeral libc argv a rest e n = rw e (number-Numeral libc a n)

room_number-NoNumeral :
    (libc : Libc) (arg : Option Bytes) (rest : Args)
    → NoNumeral arg
    → room_number libc (arg ∷ rest) ≡ none
room_number-NoNumeral libc none rest n = refl
room_number-NoNumeral libc (some a) rest n = number-NoNumeral libc a n

module _ (libc : Libc) (w : World) (me : Client) (argv : Args) where
  -- the slot i of the list has the game g
  at_slot :
      (a : Bytes) (rest : Args) (i : ℕ) (g : Ref)
      → argv ≡ some a ∷ rest
      → Numeral a
      → libc.atoi a ≡ pos i
      → i < w.rooms.capacity
      → cell w.rooms.items i ≡ some g
      → (room_number libc argv ≡ some (pos i)) × (ArrayList.get w.rooms (pos i) ≡ some (some g))
  at_slot a rest i g e n ei low at =
      (room_number-Numeral libc argv a rest e n ∙ rw ei refl, get-cell w.rooms i low ∙ rw at refl)

  Stopped-Barred : (c : Ref) (code : ℕ) → Barred libc w me argv code → Stopped libc w c me argv code
  Stopped-Barred c code (not_in_lobby ne e) = elsewhere (lobby-other me.state ne) e
  Stopped-Barred c code (no_argument hs none_sent e) = unread hs (rw none_sent refl) e
  Stopped-Barred c code (malformed arg rest hs sent n e) =
      unread hs (rw sent (room_number-NoNumeral libc arg rest n)) e
  Stopped-Barred c code (no_slot a rest hs sent n out e) =
      unlisted (libc.atoi a) hs (room_number-Numeral libc argv a rest sent n)
        (get-Outside w.rooms (libc.atoi a) out) e
  Stopped-Barred c code (begun a rest i g room hs sent n ei low at hg s e) =
      let (asked, listed) = at_slot a rest i g sent n ei low at in
      busy (pos i) g room hs asked listed hg s e
  Stopped-Barred c code (taken a rest i g p q room hs sent n ei low at hg s x y e) =
      let (asked, listed) = at_slot a rest i g sent n ei low at in
      full (pos i) g p q room hs asked listed hg s x y e

-- A client who is not in the lobby, sends no text of digits, a number that is no index below the
-- capacity of the list of rooms, the index of a game that has started or of a room with two players
-- is refused with the error for it. The state changes only in that the answer is sent.
pub cmd_room_join-refused :
    (libc : Libc) (w : World) (c : Ref) (me : Client) (argv : Args) (code : ℕ)
    → w.clients c ≡ some me
    → Barred libc w me argv code
    → cmd_room_join libc c argv w
      ≡ some
          (failure, record_sent libc me.fd (message (codes "room_join_err" ∷ decimal code ∷ [])) w)
cmd_room_join-refused libc w c me argv code hc barred =
    join_stopped libc w c me argv code hc (Stopped-Barred libc w me argv c code barred)
