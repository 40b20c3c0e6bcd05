-- ===== src/Commands/Rooms/Joins.antt =====
-- `cmd_room_join`: the second player of a room.
use ups_sp.Prelude.{
  ℕ, ◌≡◌, refl, ◌≢◌, Option, none, some, [], ◌∷◌, codes, ◌==◌, if◌then◌else◌, arith, ◌∙◌, sym,
}
use ups_sp.Prelude.Int.{ℤ}
use ups_sp.ArrayList
use ups_sp.Game.Board.{empty_square}
use ups_sp.Game.Placement.{clean_ships}
use ups_sp.Server.{
  SameRooms, Ref, Client, Game, World, Libc, ◌>>=◌, in_lobby, in_room, preparing, lobby, started,
  update, load_client, store_client, set_state, load_game, store_game, success,
}
use ups_sp.Server.Send.{message, send_message, record_sent}
use ups_sp.Commands.Args.{Args}
use ups_sp.Commands.Rooms.{
  set_number, game_init, take_seat, start_preparing, start_if_full, enter_room, join_room,
  room_number, cmd_room_join,
}

-- the free seat of the room: o waits in the other one; the number is the one of the free seat
pub data Free (room : Game) (o : Ref) : ℕ → Type 0 where
  first_free : room.player1 ≡ none → room.player2 ≡ some o → Free room o 1
  second_free : room.player1 ≡ some o → room.player2 ≡ none → Free room o 2

abbrev pub seated : ℕ → Ref → Game → Game
seated n c room =
    if n == 1 then record room { player1 = some c } else record room { player2 = some c }

-- the game as its first move finds it
abbrev pub fresh_game : Game → Game
fresh_game room = record room {
  state = started;
  p1_count = 0;
  p2_count = 0;
  player1_board = λ j i. empty_square;
  player2_board = λ j i. empty_square;
  player1_ships = clean_ships;
  player2_ships = clean_ships;
}

-- a client of the lobby asks for a waiting room, in which o sits
pub record Joins (libc : Libc) (w : World) (c o g : Ref) (me opp : Client) (room : Game)
    (argv : Args) (id : ℤ) : Type 0 where
  pub mine : w.clients c ≡ some me
  pub other : w.clients o ≡ some opp
  pub apart : o ≢ c
  pub in_hall : me.state ≡ in_lobby
  pub waits : opp.state ≡ in_room
  pub asked : room_number libc argv ≡ some id
  pub listed : ArrayList.get w.rooms id ≡ some (some g)
  pub at_g : w.games g ≡ some room
  pub waiting : room.state ≡ lobby

-- the state after the second player has come
pub record Joined (w w' : World) (c o g : Ref) (me opp : Client) (game : Game) (n : ℕ)
    : Type 0 where
  pub client : w'.clients c ≡ some (record me { game = some g; state = preparing; player_num = n })
  pub opponent :
      w'.clients o ≡ some (record opp { state = preparing; player_num = if n == 1 then 2 else 1 })
  pub third : (q : Ref) → q ≢ c → q ≢ o → w'.clients q ≡ w.clients q
  pub played : w'.games g ≡ some game
  pub other_games : (h : Ref) → h ≢ g → w'.games h ≡ w.games h
  pub list : SameRooms w w'

-- the client with number n, as he prepares
abbrev prepares : ℕ → Client → Client
prepares n a = record a { state = preparing; player_num = n }

-- what `start_preparing` stores at the players, one after the other
abbrev stored_players : (Ref → Option Client) → Ref → Ref → Client → Client → Ref → Option Client
stored_players u p1 p2 a b =
    update
      (update
        (update
          (update
            (update (update u p1 (some (record a { state = preparing }))) p2
              (some (record b { state = preparing })))
            p1 (some (prepares 1 a)))
          p2 (some (prepares 2 b)))
        p1 (some (prepares 1 a)))
      p2 (some (prepares 2 b))

abbrev after_start :
    Libc → World → Ref → Client → Client → Client → Client → Ref → Ref → Game → World
after_start libc w g x y a b p1 p2 room =
    let text = message (codes "game_conn" ∷ []) in
    let w' = record_sent libc y.fd text (record_sent libc x.fd text w) in
    record w' {
      clients = stored_players w.clients p1 p2 a b;
      games =
          update (update w.games g (some (record room { state = started }))) g
            (some (fresh_game room));
    }

-- two different players start to prepare
start_first :
    (libc : Libc) (w : World) (g p1 p2 : Ref) (a b : Client) (room : Game)
    → w.clients p1 ≡ some a
    → w.clients p2 ≡ some b
    → p2 ≢ p1
    → w.games g ≡ some room
    → room.player1 ≡ some p1
    → room.player2 ≡ some p2
    → start_preparing libc g p1 p2 p1 p2 w ≡ some (tt, after_start libc w g a b a b p1 p2 room)
unfolding start_preparing game_init set_number set_state load_client store_client load_game
    store_game send_message
start_first libc w g p1 p2 a b room ha hb ne hg h1 h2 = ground arith

start_second :
    (libc : Libc) (w : World) (g p1 p2 : Ref) (a b : Client) (room : Game)
    → w.clients p1 ≡ some a
    → w.clients p2 ≡ some b
    → p2 ≢ p1
    → w.games g ≡ some room
    → room.player1 ≡ some p1
    → room.player2 ≡ some p2
    → start_preparing libc g p2 p1 p1 p2 w ≡ some (tt, after_start libc w g b a a b p1 p2 room)
unfolding start_preparing game_init set_number set_state load_client store_client load_game
    store_game send_message
start_second libc w g p1 p2 a b room ha hb ne hg h1 h2 = ground arith

-- when the game's own fields are not read, the seat taken is all that `enter_room` changes
abbrev entered : Libc → World → Ref → Ref → Ref → Client → Client → Game → World
entered libc w c o g me opp game =
    record_sent libc opp.fd (message (codes "room_join_opp" ∷ me.name ∷ [])) (
      record_sent libc me.fd (message (codes "room_join_ok" ∷ opp.name ∷ [])) (record w {
        games = update w.games g (some game);
        clients = update w.clients c (some (record me { game = some g; state = in_room }));
      }))

module _ (libc : Libc) (w : World) (c o g : Ref) (me opp : Client) (room : Game) (argv : Args)
    (id : ℤ) where
  join_reaches :
      Joins libc w c o g me opp room argv id
      → cmd_room_join libc c argv w ≡ enter_room libc c g room w
  unfolding cmd_room_join join_room load_client load_game
  join_reaches j = ground arith

  enter_reaches :
      (game : Game)
      → Joins libc w c o g me opp room argv id
      → take_seat c room ≡ some (game, some o)
      → enter_room libc c g room w
        ≡ (start_if_full libc g c o >>= λ _. (λ w'. some (success, w')))
            (entered libc w c o g me opp game)
  unfolding enter_room load_client store_client store_game send_message
  enter_reaches game j e = ground arith

  full_starts :
      (p1 p2 : Ref) (a b : Client) (game : Game) (w1 : World)
      → w1.games g ≡ some game
      → game.player1 ≡ some p1
      → game.player2 ≡ some p2
      → w1.clients p1 ≡ some a
      → w1.clients p2 ≡ some b
      → a.state ≡ in_room
      → b.state ≡ in_room
      → start_if_full libc g c o w1 ≡ start_preparing libc g c o p1 p2 w1
  unfolding start_if_full load_client load_game
  full_starts p1 p2 a b game w1 hg h1 h2 ha hb sa sb = ground arith

  takes_seat : (n : ℕ) → Free room o n → take_seat c room ≡ some (seated n c room, some o)
  unfolding take_seat
  takes_seat _ (first_free a b) = ground arith
  takes_seat _ (second_free a b) = ground arith

  -- A client of the lobby joins a waiting room with one free seat. He gets that seat and its number,
  -- the one who waited gets the other number, and both prepare. The game is started, with empty
  -- boards, no ships and no hits; no other client and no other game changes.
  pub cmd_room_join-starts :
      (n : ℕ)
      → Joins libc w c o g me opp room argv id
      → Free room o n
      → (w' : World) × (cmd_room_join libc c argv w ≡ some (success, w'))
        × Joined w w' c o g me opp (fresh_game (seated n c room)) n
  cmd_room_join-starts _ j (first_free a b) =
      let w1 = entered libc w c o g me opp (seated 1 c room) in
      let me1 = record me { game = some g; state = in_room } in
      let full =
        full_starts c o me1 opp (seated 1 c room) w1 (ground arith) refl b (ground arith)
          (ground (arith, j.other, j.apart)) refl j.waits in
      let start =
        start_first libc w1 g c o me1 opp (seated 1 c room) (ground arith)
          (ground (arith, j.other, j.apart)) j.apart (ground arith) refl b in
      (
        after_start libc w1 g me1 opp me1 opp c o (seated 1 c room),
        join_reaches j
            ∙ enter_reaches _ j (takes_seat 1 (first_free a b))
            ∙ ground (arith, full, start),
        record {
          client = (ground (arith, j.apart));
          opponent = (ground (arith, j.apart));
          third = λ q nc no. (ground arith);
          played = (ground arith);
          other_games = λ h nh. (ground arith);
          list = (refl, refl, refl, refl);
        },
      )
  cmd_room_join-starts _ j (second_free a b) =
      let w1 = entered libc w c o g me opp (seated 2 c room) in
      let me1 = record me { game = some g; state = in_room } in
      let full =
        full_starts o c opp me1 (seated 2 c room) w1 (ground arith) a refl
          (ground (arith, j.other, j.apart)) (ground arith) j.waits refl in
      let start =
        start_second libc w1 g o c opp me1 (seated 2 c room) (ground (arith, j.other, j.apart))
          (ground arith) (λ e. j.apart (sym e)) (ground arith) a refl in
      (
        after_start libc w1 g me1 opp opp me1 o c (seated 2 c room),
        join_reaches j
            ∙ enter_reaches _ j (takes_seat 2 (second_free a b))
            ∙ ground (arith, full, start),
        record {
          client = (ground (arith, j.apart));
          opponent = (ground (arith, j.apart));
          third = λ q nc no. (ground arith);
          played = (ground arith);
          other_games = λ h nh. (ground arith);
          list = (refl, refl, refl, refl);
        },
      )
