-- ===== src/Connections/Drops.antt =====
-- What `server_disconnect` and `server_new_connection` leave behind.
use ups_sp.Prelude.{
  ℕ, ◌<◌, ◌≡◌, ◌≢◌, refl, true, false, Option, none, some, [], ◌∷◌, codes, ◌==◌, arith, length, set,
  get_or-set, ◌∙◌,
}
use ups_sp.Prelude.Int.{pos, negsuc, ◌-ℤ◌}
use ups_sp.Server.{Ref, Client, Game, World, Libc, update, load_client, store_client, load_game}
use ups_sp.Server.Send.{message, send_message, record_sent}
use ups_sp.Commands.Ends.{game_end}
use ups_sp.Commands.Rooms.{is_in_room, is_gaming}
use ups_sp.Commands.Prepare.Starts.{Seats, first, second}
use ups_sp.Connections.{
  connection, read_connection, set_connection, close_connection, lose_player, leave_waiting_room,
  leave_started_game, disconnect, server_disconnect,
}

-- the socket fd of the client is closed
abbrev pub dropped : World → Ref → Client → ℕ → World
dropped w c me fd = record w {
  clients = update w.clients c (some (record me { connected = false; fd = negsuc 0 }));
  connections = set w.connections fd (some none);
  curr_players = w.curr_players -ℤ pos 1;
  closed = pos fd ∷ w.closed;
}

pub set_connection_run :
    (w : World) (fd : ℕ) (c : Option Ref)
    → fd < length w.connections
    → set_connection (pos fd) c w
      ≡ some (tt, record w { connections = set w.connections fd (some c) })
unfolding set_connection
set_connection_run w fd c wide = ground arith

-- the client without its socket
abbrev left : World → Ref → Client → World
left w c me = record w {
  clients = update w.clients c (some (record me { connected = false; fd = negsuc 0 }));
}

module _ (libc : Libc) (w : World) (c : Ref) (me : Client) (fd : ℕ) where
  not_waiting :
      (game : Option Ref)
      → is_in_room me.state ≡ false
      → leave_waiting_room libc c me.state game w ≡ some (tt, w)
  unfolding leave_waiting_room
  not_waiting none h = refl
  not_waiting (some g) h = rw h

  not_gaming :
      (game : Option Ref)
      → w.clients c ≡ some me
      → is_gaming me.state ≡ false
      → leave_started_game libc c game w ≡ some (tt, w)
  unfolding leave_started_game load_client
  not_gaming none hc h = refl
  not_gaming (some g) hc h = ground arith

  -- a client that is in no room and in no game
  pub disconnect_idle :
      w.clients c ≡ some me
      → is_in_room me.state ≡ false
      → is_gaming me.state ≡ false
      → fd < length w.connections
      → disconnect libc c (pos fd) w ≡ some (tt, dropped w c me fd)
  unfolding disconnect load_client store_client close_connection
  disconnect_idle hc hr hg wide = ground (
    arith,
    not_waiting me.game,
    not_gaming me.game,
    set_connection_run (left w c me) fd none wide,
  )

  pub server_disconnect_run :
      connection w.connections (pos fd) ≡ some (some c)
      → server_disconnect libc (pos fd) w ≡ disconnect libc c (pos fd) w
  unfolding server_disconnect read_connection
  server_disconnect_run at = ground arith

  gaming_not_in_room : is_gaming me.state ≡ true → is_in_room me.state ≡ false
  gaming_not_in_room h = ground arith

  module _ (o g : Ref) (opp : Client) (game : Game) where
    abbrev pub told : World
    told = record_sent libc opp.fd (message (codes "room_leave_opp" ∷ me.name ∷ [])) w

    lose_told :
        w.clients c ≡ some me
        → w.clients o ≡ some opp
        → w.games g ≡ some game
        → Seats me game c o
        → o ≢ c
        → opp.connected ≡ true
        → lose_player libc c g w ≡ some (tt, told)
    unfolding lose_player send_message load_client load_game
    lose_told hc ho at (first n a b) ne on = ground arith
    lose_told hc ho at (second n a b) ne on = ground arith

    lose_undefined :
        w.clients c ≡ some me
        → w.clients o ≡ some opp
        → w.games g ≡ some game
        → Seats me game c o
        → o ≢ c
        → opp.connected ≡ false
        → lose_player libc c g w ≡ none
    unfolding lose_player game_end load_client load_game
    lose_undefined hc ho at (first n a b) ne off = ground arith
    lose_undefined hc ho at (second n a b) ne off = ground arith

    leaves :
        w.clients c ≡ some me
        → is_gaming me.state ≡ true
        → leave_started_game libc c (some g) w ≡ lose_player libc c g w
    unfolding leave_started_game load_client
    leaves hc hs = ground arith

    disconnect-told :
        w.clients c ≡ some me
        → me.game ≡ some g
        → is_gaming me.state ≡ true
        → lose_player libc c g w ≡ some (tt, told)
        → fd < length w.connections
        → disconnect libc c (pos fd) w ≡ some (tt, dropped told c me fd)
    unfolding disconnect load_client store_client close_connection
    disconnect-told hc hg hs run wide =
        let stays = not_waiting (some g) (gaming_not_in_room hs) in
        let goes = leaves hc hs ∙ run in
        let frees = set_connection_run (left told c me) fd none wide in ground arith

    disconnect_undefined :
        w.clients c ≡ some me
        → me.game ≡ some g
        → is_gaming me.state ≡ true
        → lose_player libc c g w ≡ none
        → disconnect libc c (pos fd) w ≡ none
    unfolding disconnect load_client
    disconnect_undefined hc hg hs run =
        let stays = not_waiting (some g) (gaming_not_in_room hs) in
        let goes = leaves hc hs ∙ run in ground arith

module _ (libc : Libc) (w : World) (c : Ref) (me : Client) (fd : ℕ) (o g : Ref) (opp : Client)
    (game : Game) where
  -- a player of a started game, at the socket fd, and his opponent
  pub record Plays : Type 0 where
    pub here : connection w.connections (pos fd) ≡ some (some c)
    pub wide : fd < length w.connections
    pub mine : w.clients c ≡ some me
    pub other : w.clients o ≡ some opp
    pub apart : o ≢ c
    pub in_it : me.game ≡ some g
    pub at_g : w.games g ≡ some game
    pub seats : Seats me game c o
    pub gaming : is_gaming me.state ≡ true

  -- the player without his socket, and all that is kept
  pub record Kept (w' : World) : Type 0 where
    pub client : w'.clients c ≡ some (record me { connected = false; fd = negsuc 0 })
    pub others : (q : Ref) → q ≢ c → w'.clients q ≡ w.clients q
    pub games : w'.games ≡ w.games
    pub rooms : w'.rooms ≡ w.rooms
    pub players : w'.players ≡ w.players
    pub freed : connection w'.connections (pos fd) ≡ some none
    pub sockets :
        (n : ℕ)
        → (fd == n) ≡ false
        → connection w'.connections (pos n) ≡ connection w.connections (pos n)
    pub told_opponent : w'.sent ≡ (opp.fd, message (codes "room_leave_opp" ∷ me.name ∷ [])) ∷ w.sent
    pub counted : w'.curr_players ≡ w.curr_players -ℤ pos 1
    pub closed_it : w'.closed ≡ pos fd ∷ w.closed

  -- A player of a started game loses his connection while his opponent is connected. He stays in the
  -- game, in his state and seat, marked as disconnected; games, rooms and the table of players are as
  -- before, the opponent is told, and the socket is closed and free.
  pub server_disconnect-Kept :
      Plays
      → opp.connected ≡ true
      → (w' : World) × (server_disconnect libc (pos fd) w ≡ some (tt, w')) × Kept w'
  server_disconnect-Kept p on =
      let run = lose_told libc w c me fd o g opp game p.mine p.other p.at_g p.seats p.apart on in
      (
        dropped (told libc w c me fd o g opp game) c me fd,
        server_disconnect_run libc w c me fd p.here
            ∙ disconnect-told libc w c me fd o g opp game p.mine p.in_it p.gaming run p.wide,
        record {
          client = (ground arith);
          others = λ q nc. (ground arith);
          games = refl;
          rooms = refl;
          players = refl;
          freed = (ground (arith, get_or-set w.connections fd fd (some none) none, p.wide));
          sockets =
              λ n ne. (ground (arith, get_or-set w.connections fd n (some none) none, p.wide));
          told_opponent = refl;
          counted = refl;
          closed_it = refl;
        },
      )

  -- When the opponent has lost his connection before, the end of the second connection is undefined:
  -- the game ends with a NULL name for the winner.
  server_disconnect_undefined :
      Plays → opp.connected ≡ false → server_disconnect libc (pos fd) w ≡ none
  server_disconnect_undefined p off =
      let run =
        lose_undefined libc w c me fd o g opp game p.mine p.other p.at_g p.seats p.apart off in
      server_disconnect_run libc w c me fd p.here
      ∙ disconnect_undefined libc w c me fd o g opp game p.mine p.in_it p.gaming run
