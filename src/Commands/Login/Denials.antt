-- ===== src/Commands/Login/Denials.antt =====
-- A login that `cmd_login` refuses.
use ups_sp.Prelude.{
  ℕ, ◌<◌, ◌≡◌, ◌≢◌, refl, Bool, true, false, Option, none, some, [], ◌∷◌, Bytes, codes, arith,
  length, set, get_or-set, length-set, ◌∙◌,
}
use ups_sp.Prelude.Int.{ℤ, pos, negsuc, ◌+ℤ◌, ◌-ℤ◌, leb_ℤ}
use ups_sp.HashMap
use ups_sp.Game.Placement.{error_format}
use ups_sp.Server.{Ref, Client, World, Libc, load_client, Exit, success, failure}
use ups_sp.Server.Send.{message, decimal, send_message, record_sent}
use ups_sp.Commands.Args.{Args, error_internal}
use ups_sp.Commands.Rooms.{is_in_room, is_gaming}
use ups_sp.Connections.{connection, server_get_client_by_name}
use ups_sp.Connections.Drops.{dropped, set_connection_run, disconnect_idle, server_disconnect_run}
use ups_sp.Commands.Login.Names.{
  GoodName, BadName, is_name-GoodName, is_name-BadName, players_full-reached,
}
use ups_sp.Commands.Login.{
  error_username_wrong_format, error_used_username, is_name, players_full, count_player,
  disconnect_login_err, reject_login, login_as, login_checked, cmd_login,
}

-- a client with the socket fd that is in no room and in no game
pub record Idle (w : World) (c : Ref) (me : Client) (fd : ℕ) : Type 0 where
  pub mine : w.clients c ≡ some me
  pub socket : me.fd ≡ pos fd
  pub wide : fd < length w.connections
  pub out_of_room : is_in_room me.state ≡ false
  pub out_of_game : is_gaming me.state ≡ false

-- the client was told the error and has lost his socket
pub record Rejected (w w' : World) (c : Ref) (me : Client) (fd code : ℕ) (players : ℤ)
    : Type 0 where
  pub gone : w'.clients c ≡ some (record me { connected = false; fd = negsuc 0 })
  pub others : (q : Ref) → q ≢ c → w'.clients q ≡ w.clients q
  pub games : w'.games ≡ w.games
  pub rooms : w'.rooms ≡ w.rooms
  pub names : w'.players ≡ w.players
  pub freed : connection w'.connections (pos fd) ≡ some none
  pub answered : w'.sent ≡ (pos fd, message (codes "login_err" ∷ decimal code ∷ [])) ∷ w.sent
  pub counted : w'.curr_players ≡ players
  pub closed_it : w'.closed ≡ pos fd ∷ w.closed

module _ (libc : Libc) (w : World) (c : Ref) (me : Client) (fd code : ℕ) where
  abbrev answer : World
  answer = record_sent libc (pos fd) (message (codes "login_err" ∷ decimal code ∷ [])) w

  abbrev linked : World
  linked = record answer { connections = set w.connections fd (some (some c)) }

  linked_at : fd < length w.connections → connection linked.connections (pos fd) ≡ some (some c)
  linked_at wide = get_or-set w.connections fd fd (some (some c)) none wide ∙ ground arith

  disconnect_login_err_run :
      Idle w c me fd → disconnect_login_err libc c answer ≡ some (tt, dropped linked c me fd)
  unfolding disconnect_login_err load_client
  disconnect_login_err_run i =
      let wide : fd < length linked.connections =
        omega (arith, length-set w.connections fd (some (some c)), i.wide) in
      let links = set_connection_run answer fd (some c) i.wide in
      let goes = server_disconnect_run libc linked c me fd (linked_at i.wide) in
      let drops = disconnect_idle libc linked c me fd i.mine i.out_of_room i.out_of_game wide in
      ground (arith, links, goes, drops, i.mine, i.socket)

  reject_login-Rejected :
      (exit : Exit)
      → Idle w c me fd
      → (w' : World) × (reject_login libc c code exit w ≡ some (exit, w'))
        × Rejected w w' c me fd code (w.curr_players -ℤ pos 1)
  unfolding reject_login send_message load_client
  reject_login-Rejected exit i =
      let wide : fd < length linked.connections =
        omega (arith, length-set w.connections fd (some (some c)), i.wide) in
      (
        dropped linked c me fd,
        ground (arith, disconnect_login_err_run i, i.mine, i.socket),
        record {
          gone = (ground arith);
          others = λ q nc. (ground arith);
          games = refl;
          rooms = refl;
          names = refl;
          freed = (ground (arith, get_or-set linked.connections fd fd (some none) none, wide));
          answered = refl;
          counted = refl;
          closed_it = refl;
        },
      )

-- why a login is refused: the error's number, the value of the command, and the count of players after
pub data Denied (w : World) (argv : Args) (code : ℕ) (exit : Exit) (players : ℤ) : Type 0 where
  no_argument :
      argv ≡ []
      → code ≡ 2
      → exit ≡ failure
      → players ≡ w.curr_players -ℤ pos 1
      → Denied w argv code exit players
  no_place :
      (arg : Option Bytes) (args : Args)
      → argv ≡ arg ∷ args
      → leb_ℤ w.max_players w.curr_players ≡ true
      → code ≡ 1
      → exit ≡ failure
      → players ≡ w.curr_players
      → Denied w argv code exit players
  no_name :
      (args : Args)
      → argv ≡ none ∷ args
      → leb_ℤ w.max_players w.curr_players ≡ false
      → code ≡ 3
      → exit ≡ failure
      → players ≡ w.curr_players -ℤ pos 1
      → Denied w argv code exit players
  bad_name :
      (name : Bytes) (args : Args)
      → argv ≡ some name ∷ args
      → leb_ℤ w.max_players w.curr_players ≡ false
      → BadName name
      → code ≡ 3
      → exit ≡ failure
      → players ≡ w.curr_players -ℤ pos 1
      → Denied w argv code exit players
  used_name :
      (name : Bytes) (args : Args) (p : Ref) (logged : Client)
      → argv ≡ some name ∷ args
      → leb_ℤ w.max_players w.curr_players ≡ false
      → GoodName name
      → HashMap.get w.players name ≡ some (some p)
      → w.clients p ≡ some logged
      → logged.connected ≡ true
      → code ≡ 4
      → exit ≡ success
      → players ≡ w.curr_players -ℤ pos 1
      → Denied w argv code exit players

up_and_down : (n : ℤ) → n +ℤ pos 1 -ℤ pos 1 ≡ n
up_and_down (pos n) = ground arith
up_and_down (negsuc n) = ground arith

module _ (libc : Libc) (named : Bool) (w : World) (c : Ref) (me : Client) (fd : ℕ) where
  abbrev counted_up : World
  counted_up = record w { curr_players = w.curr_players +ℤ pos 1 }

  full_rejects :
      (arg : Option Bytes) (args : Args)
      → players_full w ≡ true
      → cmd_login libc named c (arg ∷ args) w
        ≡ reject_login libc c error_internal failure counted_up
  unfolding cmd_login count_player
  full_rejects arg args full = rw full

  checks :
      (arg : Option Bytes) (args : Args)
      → players_full w ≡ false
      → cmd_login libc named c (arg ∷ args) w ≡ login_checked libc named c arg w
  unfolding cmd_login
  checks arg args full = rw full

  used_rejects :
      (name : Bytes) (p : Ref) (logged : Client)
      → is_name name ≡ true
      → HashMap.get w.players name ≡ some (some p)
      → w.clients p ≡ some logged
      → logged.connected ≡ true
      → login_checked libc named c (some name) w ≡ reject_login libc c error_used_username success w
  unfolding login_checked login_as server_get_client_by_name load_client
  used_rejects name p logged ok found hp on = ground arith

  bad_rejects :
      (name : Bytes)
      → is_name name ≡ false
      → login_checked libc named c (some name) w
        ≡ reject_login libc c error_username_wrong_format failure w
  unfolding login_checked
  bad_rejects name bad = rw bad

  none_rejects :
      login_checked libc named c none w ≡ reject_login libc c error_username_wrong_format failure w
  unfolding login_checked
  none_rejects = refl

  -- A client in no room and no game asks for a login with no name, while as many players are counted as
  -- there may be, with a name that is empty, longer than 20 characters or not of letters and digits
  -- alone, or with the name of a connected player. He is answered by the error for it and loses his
  -- socket; the other clients, the games, the rooms and the table of players are as before. The count
  -- of players falls by one, though the client was never counted, except when the server is full.
  pub cmd_login-Denied :
      (argv : Args) (code : ℕ) (exit : Exit) (players : ℤ)
      → Idle w c me fd
      → Denied w argv code exit players
      → (w' : World) × (cmd_login libc named c argv w ≡ some (exit, w'))
        × Rejected w w' c me fd code players
  unfolding cmd_login
  cmd_login-Denied argv code exit players i (no_argument a e x n) =
      rw (a, e, x, n) (reject_login-Rejected libc w c me fd error_format failure i)
  cmd_login-Denied argv code exit players i (no_place arg args a full e x n) =
      let (w', run, r) =
        reject_login-Rejected libc counted_up c me fd error_internal failure (record {
          mine = i.mine;
          socket = i.socket;
          wide = i.wide;
          out_of_room = i.out_of_room;
          out_of_game = i.out_of_game;
        }) in
      rw (a, e, x, n)
        (
          w',
          full_rejects arg args (players_full-reached w ∙ full) ∙ run,
          record {
            gone = r.gone;
            others = r.others;
            games = r.games;
            rooms = r.rooms;
            names = r.names;
            freed = r.freed;
            answered = r.answered;
            counted = r.counted ∙ up_and_down w.curr_players;
            closed_it = r.closed_it;
          },
        )
  cmd_login-Denied argv code exit players i (no_name args a room e x n) =
      let (w', run, r) =
        reject_login-Rejected libc w c me fd error_username_wrong_format failure i in
      rw (a, e, x, n) (w', checks none args (players_full-reached w ∙ room) ∙ none_rejects ∙ run, r)
  cmd_login-Denied argv code exit players i (bad_name name args a room bad e x n) =
      let (w', run, r) =
        reject_login-Rejected libc w c me fd error_username_wrong_format failure i in
      rw (a, e, x, n)
        (
          w',
          checks (some name) args (players_full-reached w ∙ room)
              ∙ bad_rejects name (is_name-BadName name bad)
              ∙ run,
          r,
        )
  cmd_login-Denied argv code exit players i
        (used_name name args p logged a room ok found hp on e x n) =
      let (w', run, r) = reject_login-Rejected libc w c me fd error_used_username success i in
      rw (a, e, x, n)
        (
          w',
          checks (some name) args (players_full-reached w ∙ room)
              ∙ used_rejects name p logged (is_name-GoodName name ok) found hp on
              ∙ run,
          r,
        )
