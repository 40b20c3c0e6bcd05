-- ===== src/Commands/Prepare/Starts.antt =====
-- `cmd_game_prepared` as a whole: when the game starts, and what a rejected board leaves behind.
use ups_sp.Prelude.{
  ℕ, ◌≡◌, refl, ◌≢◌, true, false, none, some, [], ◌∷◌, Bytes, codes, ◌==◌, if◌then◌else◌, arith,
  ◌∙◌, ap,
}
use ups_sp.Game.Placement.{Scan, place_fleet, clean_ships}
use ups_sp.Game.Placement.Retries.{place_fleet-error}
use ups_sp.Server.{
  SameRooms, Ref, Client, Game, World, Libc, ◌>>=◌, ClientState, preparing, in_game, playing,
  load_client, set_state, load_game, store_game, success, failure, update,
}
use ups_sp.Server.Send.{message, decimal, send_message, refuse, record_sent}
use ups_sp.Commands.Args.{Args}
use ups_sp.Commands.Prepare.{
  is_in_game, board_text, own_board, own_ships, with_own, start_play, start_if_ready,
  answer_placement, cmd_game_prepared,
}

-- the client c sits in the seat of its number, and o in the other one
pub data Seats (me : Client) (game : Game) (c o : Ref) : Type 0 where
  first : me.player_num ≡ 1 → game.player1 ≡ some c → game.player2 ≡ some o → Seats me game c o
  second : me.player_num ≡ 2 → game.player1 ≡ some o → game.player2 ≡ some c → Seats me game c o

-- a client that is preparing a game against another, and has sent a text of the right length
pub record Prepares (w : World) (c o g : Ref) (me opp : Client) (game : Game) (argv : Args)
    (text : Bytes) : Type 0 where
  pub mine : w.clients c ≡ some me
  pub other : w.clients o ≡ some opp
  pub apart : o ≢ c
  pub in_it : me.game ≡ some g
  pub at_g : w.games g ≡ some game
  pub seats : Seats me game c o
  pub state : me.state ≡ preparing
  pub asked : board_text argv ≡ some text

-- the board and the ships after the check of the text
abbrev pub checked : Client → Game → Bytes → Scan
checked me game text =
    place_fleet me.player_num text (own_board me.player_num game) (own_ships me.player_num game)

abbrev pub with_checked : Client → Game → Bytes → Game
with_checked me game text =
    let r = checked me game text in with_own me.player_num r.board r.fleet game

Seats-with_own :
    (p : ℕ) (r : Scan) (me : Client) (game : Game) (c o : Ref)
    → Seats me game c o
    → Seats me (with_own p r.board r.fleet game) c o
unfolding with_own
Seats-with_own p r me game c o (first n a b) = first n (ground arith) (ground arith)
Seats-with_own p r me game c o (second n a b) = second n (ground arith) (ground arith)

own_ships-with_own :
    (p : ℕ) (r : Scan) (game : Game) → own_ships p (with_own p r.board r.fleet game) ≡ r.fleet
unfolding own_ships with_own
own_ships-with_own p r game = ground arith

module _ (libc : Libc) (w : World) (c o g : Ref) (me opp : Client) (game : Game) (argv : Args)
    (text : Bytes) where
  prepared_reaches :
      Prepares w c o g me opp game argv text
      → cmd_game_prepared libc c argv w
        ≡ answer_placement libc c me.player_num g
            (checked me game text).error
            (record w { games = update w.games g (some (with_checked me game text)) })
  unfolding cmd_game_prepared load_client load_game store_game
  prepared_reaches p = ground arith

  -- A board that is rejected is answered by its error. The player goes on preparing, his ships are
  -- those of a new game, and no client, no other game and nothing of the opponent's changes.
  pub cmd_game_prepared-rejected :
      (code : ℕ)
      → Prepares w c o g me opp game argv text
      → (checked me game text).error ≡ some code
      → (cmd_game_prepared libc c argv w
          ≡ some (
            failure,
            record_sent libc me.fd
                (message (codes "game_prepared_err" ∷ decimal code ∷ []))
                (record w { games = update w.games g (some (with_checked me game text)) }),
          ))
        × (own_ships me.player_num (with_checked me game text) ≡ clean_ships)
  unfolding answer_placement refuse send_message load_client
  cmd_game_prepared-rejected code p e = (
    prepared_reaches p ∙ ground (arith, e, p.mine),
    own_ships-with_own me.player_num (checked me game text) game
        ∙ place_fleet-error me.player_num text (own_board me.player_num game)
            (own_ships me.player_num game) code e,
  )

  -- the state after an accepted board: what the two players do, and that the rest is as before
  pub record Accepted (mine others : ClientState) (w' : World) : Type 0 where
    pub client : w'.clients c ≡ some (record me { state = mine })
    pub opponent : w'.clients o ≡ some (record opp { state = others })
    pub third : (q : Ref) → q ≢ c → q ≢ o → w'.clients q ≡ w.clients q
    pub played : w'.games g ≡ some (with_checked me game text)
    pub other_games : (h : Ref) → h ≢ g → w'.games h ≡ w.games h
    pub list : SameRooms w w'

  abbrev stored : World
  stored = record w { games = update w.games g (some (with_checked me game text)) }

  -- after the answer to the client
  abbrev ready : World
  ready =
      record_sent libc me.fd (message (codes "game_prepared_ok" ∷ []))
        (record stored { clients = update w.clients c (some (record me { state = in_game })) })

  -- after player 1 was told to play
  abbrev begun : Ref → Client → Ref → Client → World
  begun p1 a p2 b = record_sent libc a.fd (message (codes "game_play" ∷ [])) (record ready {
    clients =
        update (update ready.clients p1 (some (record a { state = playing }))) p2
          (some (record b { state = in_game }));
  })

  module _ (hc : w.clients c ≡ some me) (ho : w.clients o ≡ some opp) (ne : o ≢ c) where
    answer_ready :
        answer_placement libc c me.player_num g none stored
        ≡ (start_if_ready libc c me.player_num g >>= λ _. (λ w'. some (success, w'))) ready
    unfolding answer_placement send_message load_client set_state
    answer_ready = ground arith

    start_waits :
        is_in_game opp.state ≡ false
        → Seats me (with_checked me game text) c o
        → start_if_ready libc c me.player_num g ready ≡ some (tt, ready)
    unfolding start_if_ready load_client load_game
    start_waits e (first n s1 s2) = ground arith
    start_waits e (second n s1 s2) = ground arith

    start_first :
        is_in_game opp.state ≡ true
        → me.player_num ≡ 1
        → (with_checked me game text).player1 ≡ some c
        → (with_checked me game text).player2 ≡ some o
        → start_if_ready libc c me.player_num g ready
          ≡ some (tt, begun c (record me { state = in_game }) o opp)
    unfolding start_if_ready start_play load_client load_game set_state send_message
    start_first e n s1 s2 = ground arith

    start_second :
        is_in_game opp.state ≡ true
        → me.player_num ≡ 2
        → (with_checked me game text).player1 ≡ some o
        → (with_checked me game text).player2 ≡ some c
        → start_if_ready libc c me.player_num g ready
          ≡ some (tt, begun o opp c (record me { state = in_game }))
    unfolding start_if_ready start_play load_client load_game set_state send_message
    start_second e n s1 s2 = ground arith

  answered :
      Prepares w c o g me opp game argv text
      → (checked me game text).error ≡ none
      → cmd_game_prepared libc c argv w
        ≡ (start_if_ready libc c me.player_num g >>= λ _. (λ w'. some (success, w'))) ready
  answered p ok =
      prepared_reaches p
      ∙ ap (λ e. answer_placement libc c me.player_num g e stored) ok
      ∙ answer_ready p.mine p.other p.apart

  sat : Prepares w c o g me opp game argv text → Seats me (with_checked me game text) c o
  sat p = Seats-with_own me.player_num (checked me game text) me game c o p.seats

  ready-Accepted : o ≢ c → w.clients o ≡ some opp → Accepted in_game opp.state ready
  ready-Accepted ne ho = record {
    client = (ground arith);
    opponent = (ground arith);
    third = λ q nc no. (ground arith);
    played = (ground arith);
    other_games = λ h nh. (ground arith);
    list = (refl, refl, refl, refl);
  }

  -- An accepted board is answered by game_prepared_ok. While the opponent is not ready, the player
  -- waits with the checked board and its ships in the game, and all else is as before.
  pub cmd_game_prepared-waits :
      Prepares w c o g me opp game argv text
      → (checked me game text).error ≡ none
      → is_in_game opp.state ≡ false
      → (w' : World) × (cmd_game_prepared libc c argv w ≡ some (success, w'))
        × Accepted in_game opp.state w'
  cmd_game_prepared-waits p ok e =
      let run = start_waits p.mine p.other p.apart e (sat p) in
      (ready, answered p ok ∙ ground (arith, run), ready-Accepted p.apart p.other)

  start_all :
      o ≢ c
      → w.clients c ≡ some me
      → w.clients o ≡ some opp
      → is_in_game opp.state ≡ true
      → Seats me (with_checked me game text) c o
      → (w' : World) × (start_if_ready libc c me.player_num g ready ≡ some (tt, w'))
        × Accepted
            (if me.player_num == 1 then playing else in_game)
            (if me.player_num == 1 then in_game else playing)
            w'
  start_all ne hc ho e (first n a b) = (
    begun c (record me { state = in_game }) o opp,
    start_first hc ho ne e n a b,
    record {
      client = (ground arith);
      opponent = (ground arith);
      third = λ q nc no. (ground arith);
      played = (ground arith);
      other_games = λ h nh. (ground arith);
      list = (refl, refl, refl, refl);
    },
  )
  start_all ne hc ho e (second n a b) = (
    begun o opp c (record me { state = in_game }),
    start_second hc ho ne e n a b,
    record {
      client = (ground arith);
      opponent = (ground arith);
      third = λ q nc no. (ground arith);
      played = (ground arith);
      other_games = λ h nh. (ground arith);
      list = (refl, refl, refl, refl);
    },
  )

  -- When the opponent is ready, an accepted board starts the game: player 1 is to play and player 2
  -- waits, whichever of them was the later one. The game has the checked board and its ships, and
  -- all else is as before.
  pub cmd_game_prepared-starts :
      Prepares w c o g me opp game argv text
      → (checked me game text).error ≡ none
      → is_in_game opp.state ≡ true
      → (w' : World) × (cmd_game_prepared libc c argv w ≡ some (success, w'))
        × Accepted
            (if me.player_num == 1 then playing else in_game)
            (if me.player_num == 1 then in_game else playing)
            w'
  cmd_game_prepared-starts p ok e =
      let (w', run, acc) = start_all p.apart p.mine p.other e (sat p) in
      (w', answered p ok ∙ ground (arith, run), acc)
