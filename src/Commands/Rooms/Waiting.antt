-- ===== src/Commands/Rooms/Waiting.antt =====
-- The room of one player: `cmd_room_create` opens it, and `cmd_room_leave` closes it.
use ups_sp.Prelude.{
  ℕ, ◌+◌, ◌≡◌, refl, ◌≢◌, Bool, true, none, some, [], ◌∷◌, codes, if◌then◌else◌, arith,
}
use ups_sp.Prelude.Int.{pos, ◌+ℤ◌, ◌-ℤ◌, leb_ℤ}
use ups_sp.ArrayList
use ups_sp.Server.{
  Ref, Client, Game, World, Libc, in_lobby, in_room, lobby, erased, update, load_client,
  store_client, set_state, load_game, store_game, success,
}
use ups_sp.Server.Send.{message, send_message, record_sent}
use ups_sp.Commands.Ends.{drop_room, free_game}
use ups_sp.Commands.Rooms.{
  new_game, add_room, room_create, cmd_room_create, give_up_seat, leave_waiting, cmd_room_leave,
}

-- the new room: the coin chose the seat
abbrev pub opened : Bool → Game → Ref → ℕ → Game
opened coin junk c n = record junk {
  id = n;
  player1 = if coin then some c else none;
  player2 = if coin then none else some c;
  state = lobby;
}

pub record Created (w w' : World) (c : Ref) (me : Client) (room : Game)
    (rooms : ArrayList.ArrayList Ref) : Type 0 where
  pub owner : w'.clients c ≡ some (record me { game = some w.fresh; state = in_room })
  pub others : (q : Ref) → q ≢ c → w'.clients q ≡ w.clients q
  pub stored : w'.games w.fresh ≡ some room
  pub other_games : (h : Ref) → h ≢ w.fresh → w'.games h ≡ w.games h
  pub listed : w'.rooms ≡ rooms
  pub counted : w'.curr_rooms ≡ w.curr_rooms +ℤ pos 1
  pub limit : w'.max_rooms ≡ w.max_rooms
  pub next : w'.fresh ≡ w.fresh + 1

-- A client of the lobby creates a room while the server is below its limit and the list has a free
-- slot. He is its only player, in the seat the coin chose; the room is the newest in the list, under
-- the index of the slot, and is counted. No other client and no other game changes.
pub cmd_room_create-Created :
    (libc : Libc) (coin : Bool) (junk : Game) (w : World) (c : Ref) (me : Client) (rooms : _)
    (n : ℕ)
    → w.clients c ≡ some me
    → me.state ≡ in_lobby
    → leb_ℤ (w.curr_rooms +ℤ pos 1) w.max_rooms ≡ true
    → ArrayList.insert w.rooms w.fresh ≡ some (rooms, n)
    → (w' : World) × (cmd_room_create libc coin junk c w ≡ some (success, w'))
      × Created w w' c me (opened coin junk c n) rooms
unfolding cmd_room_create room_create new_game add_room load_client store_client set_state load_game
    store_game send_message
cmd_room_create-Created libc coin junk w c me rooms n hc hs few ins =
    let a = record me { game = some w.fresh } in
    let room0 = record (opened coin junk c n) { id = junk.id } in
    (
      record_sent libc me.fd (message (codes "room_create_ok" ∷ [])) (record w {
        clients = update (update w.clients c (some a)) c (some (record a { state = in_room }));
        games = update (update w.games w.fresh (some room0)) w.fresh (some (opened coin junk c n));
        fresh = w.fresh + 1;
        rooms = rooms;
        curr_rooms = w.curr_rooms +ℤ pos 1;
      }),
      ground (arith, hc, hs, few, ins),
      record {
        owner = (ground arith);
        others = λ q nc. (ground arith);
        stored = (ground arith);
        other_games = λ h nh. (ground arith);
        listed = refl;
        counted = refl;
        limit = refl;
        next = refl;
      },
    )

pub record Closed (w w' : World) (c g : Ref) (me : Client) (rooms : ArrayList.ArrayList Ref)
    : Type 0 where
  pub client : w'.clients c ≡ some (record me { game = none; state = in_lobby })
  pub others : (q : Ref) → q ≢ c → w'.clients q ≡ w.clients q
  pub freed : w'.games g ≡ none
  pub other_games : (h : Ref) → h ≢ g → w'.games h ≡ w.games h
  pub listed : w'.rooms ≡ rooms
  pub counted : w'.curr_rooms ≡ w.curr_rooms -ℤ pos 1
  pub limit : w'.max_rooms ≡ w.max_rooms
  pub next : w'.fresh ≡ w.fresh

-- the seat in which c sits alone
pub data Alone (room : Game) (c : Ref) : Type 0 where
  in_first : room.player1 ≡ some c → room.player2 ≡ none → Alone room c
  in_second : room.player1 ≡ none → room.player2 ≡ some c → Alone room c

-- The only player of a waiting room leaves it. He is in the lobby again and in no game, the room's
-- slot is deleted from the list, its game is freed, and it is no longer counted. No other client and
-- no other game changes.
pub cmd_room_leave-Closed :
    (libc : Libc) (w : World) (c g : Ref) (me : Client) (room : Game) (rooms : _)
    → w.clients c ≡ some me
    → me.state ≡ in_room
    → me.game ≡ some g
    → w.games g ≡ some room
    → Alone room c
    → ArrayList.delete w.rooms room.id ≡ some rooms
    → (w' : World) × (cmd_room_leave libc c w ≡ some (success, w')) × Closed w w' c g me rooms
unfolding cmd_room_leave leave_waiting give_up_seat drop_room free_game load_client store_client
    load_game store_game send_message
cmd_room_leave-Closed libc w c g me room rooms hc hs hg at alone del =
    let room0 = record room { player1 = none; player2 = none } in
    (
      record_sent libc me.fd (message (codes "room_leave_ok" ∷ [])) (record w {
        clients = update w.clients c (some (record me { game = none; state = in_lobby }));
        games =
            update
              (update (update w.games g (some room0)) g (some (record room0 { state = erased }))) g
              none;
        rooms = rooms;
        curr_rooms = w.curr_rooms -ℤ pos 1;
      }),
      elim alone [ in_first a b ↦ (ground arith) | in_second a b ↦ (ground arith) ],
      record {
        client = (ground arith);
        others = λ q nc. (ground arith);
        freed = (ground arith);
        other_games = λ h nh. (ground arith);
        listed = refl;
        counted = refl;
        limit = refl;
        next = refl;
      },
    )
