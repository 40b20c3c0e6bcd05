-- ===== src/Lobby/Reached.antt =====
-- The states that connections, logins and requests on rooms and games lead to.
use ups_sp.Prelude.{ℕ, ◌≡◌, Bool, true, false, Option, none, some, List, [], ◌∷◌, Bytes, arith}
use ups_sp.Server.{Ref, Client, Game, World, Libc, Exit, unlogged}
use ups_sp.HashMap
use ups_sp.HashMap.Buckets
use ups_sp.ArrayList
use ups_sp.ArrayList.Chains
use ups_sp.Commands.Args.{Args}
use ups_sp.Commands.Login.{is_name, players_full, cmd_login}
use ups_sp.Commands.Login.Logs.{login-Logged}
use ups_sp.Commands.Rooms.{cmd_room_create, cmd_room_join, cmd_room_leave}
use ups_sp.Commands.Prepare.{cmd_game_prepared}
use ups_sp.Commands.Fire.{target_board, cmd_game_fire}
use ups_sp.Commands.Fire.Turns.{Aims}
use ups_sp.Commands.Fire.Rallies.{Duel, Target}
use ups_sp.Connections.{server_new_connection}
use ups_sp.Connections.Starts.{Started}
use ups_sp.Lobby.{Consistent, Keeps}
use ups_sp.Lobby.Enters.{Consistent-Started, Consistent-Logged}
use ups_sp.Lobby.Connects.{Consistent-connected}
use ups_sp.Lobby.Opens.{cmd_room_create-Keeps}
use ups_sp.Lobby.Joins.{Names, cmd_room_join-Keeps}
use ups_sp.Lobby.Leaves.{cmd_room_leave-Keeps}
use ups_sp.Lobby.Prepares.{cmd_game_prepared-Keeps}
use ups_sp.Lobby.Shots.{cmd_game_fire-Keeps}

-- a state of the server, after what has happened since its start
pub data Reached (libc : Libc) : World → Type 0 where
  starts : (r p : ℕ) (w : World) → Started r p w → Reached libc w
  -- a connection, whose client has fresh memory with no game
  connects :
      (w w' : World) (junk : Client) (fd : ℕ)
      → Reached libc w
      → w.clients w.fresh ≡ none
      → junk.game ≡ none
      → server_new_connection libc junk fd w ≡ some (tt, w')
      → Reached libc w'
  -- a login under a new name
  logs_in :
      (w w' : World) (c : Ref) (me : Client) (name : Bytes) (args : Args) (exit : Exit)
      → Reached libc w
      → w.clients c ≡ some me
      → me.state ≡ unlogged
      → is_name name ≡ true
      → players_full w ≡ false
      → HashMap.Buckets.IsValid w.players
      → HashMap.get w.players name ≡ some none
      → cmd_login libc true c (some name ∷ args) w ≡ some (exit, w')
      → Reached libc w'
  creates :
      (w w' : World) (c : Ref) (me : Client) (coin : Bool) (junk : Game) (exit : Exit)
      → Reached libc w
      → w.clients c ≡ some me
      → cmd_room_create libc coin junk c w ≡ some (exit, w')
      → Reached libc w'
  -- a join whose number names no slot that is free
  joins :
      (w w' : World) (c : Ref) (me : Client) (argv : Args) (exit : Exit)
      → Reached libc w
      → w.clients c ≡ some me
      → ((used free : List ℕ) → ArrayList.Chains.IsValid w.rooms used free → Names libc w used argv)
      → cmd_room_join libc c argv w ≡ some (exit, w')
      → Reached libc w'
  leaves :
      (w w' : World) (c : Ref) (me : Client) (exit : Exit)
      → Reached libc w
      → w.clients c ≡ some me
      → cmd_room_leave libc c w ≡ some (exit, w')
      → Reached libc w'
  prepares :
      (w w' : World) (c : Ref) (me : Client) (argv : Args) (exit : Exit)
      → Reached libc w
      → w.clients c ≡ some me
      → cmd_game_prepared libc c argv w ≡ some (exit, w')
      → Reached libc w'
  -- a shot in a game in play, at a square that accepts it
  fires :
      (w w' : World) (c o g : Ref) (me opp : Client) (game : Game) (rooms : ArrayList.ArrayList Ref)
      (argv : Args) (x y : ℕ) (exit : Exit)
      → Reached libc w
      → Duel w c o g me opp game rooms
      → Aims libc argv me x y
      → Target (target_board me.player_num game) y x
      → cmd_game_fire libc c argv w ≡ some (exit, w')
      → Reached libc w'

-- some chains of slots make the state consistent
abbrev pub Sound : World → Type 0
Sound w = (used : List ℕ) × (free : List ℕ) × Consistent w used free

Sound-Keeps :
    (run : Option (Exit × World)) (w' : World) (exit : Exit)
    → Keeps run
    → run ≡ some (exit, w')
    → Sound w'
Sound-Keeps run w' exit (exit', w'', used, free, done, v) e =
    let same : w'' ≡ w' = ground arith in (used, free, rw same at v)

-- Every state that the server reaches from its start is consistent: by connections whose client has
-- fresh memory with no game, accepted logins under new names, requests of any client to create or
-- leave a room or to prepare a board, joins whose number names no free slot, and accepted shots in
-- games in play.
pub Reached-Sound : (libc : Libc) (w : World) → Reached libc w → Sound w
Reached-Sound libc w (starts r p _ s) = ([], _, Consistent-Started w r p s)
Reached-Sound libc w (connects w1 _ junk fd before unused idle run) =
    let (used, free, v) = Reached-Sound libc w1 before in
    (used, free, Consistent-connected libc w1 w used free junk fd v unused idle run)
Reached-Sound libc w (logs_in w1 _ c me name args exit before hc hs ok room valid unknown run) =
    let (used, free, v) = Reached-Sound libc w1 before in
    let (w2, done, logged, others, sent) =
      login-Logged libc w1 c me name args hc hs ok room valid unknown in
    let same : w2 ≡ w = ground (arith, done, run) in
    (used, free, rw same at (Consistent-Logged w1 w2 used free c me name v hc hs logged others))
Reached-Sound libc w (creates w1 _ c me coin junk exit before hc run) =
    let (used, free, v) = Reached-Sound libc w1 before in
    Sound-Keeps _ w exit (cmd_room_create-Keeps libc coin junk w1 c me hc used free v) run
Reached-Sound libc w (joins w1 _ c me argv exit before hc named run) =
    let (used, free, v) = Reached-Sound libc w1 before in
    Sound-Keeps _ w exit
      (cmd_room_join-Keeps libc w1 c me argv used free v hc (named used free v.valid)) run
Reached-Sound libc w (leaves w1 _ c me exit before hc run) =
    let (used, free, v) = Reached-Sound libc w1 before in
    Sound-Keeps _ w exit (cmd_room_leave-Keeps libc w1 c me hc used free v) run
Reached-Sound libc w (prepares w1 _ c me argv exit before hc run) =
    let (used, free, v) = Reached-Sound libc w1 before in
    Sound-Keeps _ w exit (cmd_game_prepared-Keeps libc w1 c me argv hc used free v) run
Reached-Sound libc w
      (fires w1 _ c o g me opp game rooms argv x y exit before duel aims target run) =
    let (used, free, v) = Reached-Sound libc w1 before in
    Sound-Keeps _ w exit
      (cmd_game_fire-Keeps libc w1 used free c o g me opp game rooms argv x y v duel aims target)
      run
