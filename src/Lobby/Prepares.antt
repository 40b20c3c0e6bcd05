-- ===== src/Lobby/Prepares.antt =====
-- `cmd_game_prepared` and the invariant of the rooms.
use ups_sp.Prelude.{
  ℕ, ◌≡◌, inl, inr, refl, true, false, none, some, List, [], ◌∷◌, Bytes, codes, arith, Bool-cases,
  Option-cases,
}
use ups_sp.Game.Placement.{Scan, error_format}
use ups_sp.Server.{
  Ref, Client, ClientState, Game, World, Libc, preparing, started, update, success, failure,
  load_client,
}
use ups_sp.Server.Send.{message, decimal, send_message, record_sent, refuse}
use ups_sp.Commands.Args.{Args, error_user_state}
use ups_sp.Commands.Rooms.{is_gaming}
use ups_sp.Commands.Prepare.{is_preparing, is_in_game, board_text, with_own, cmd_game_prepared}
use ups_sp.Commands.Prepare.Starts.{
  Prepares, checked, with_checked, Accepted, cmd_game_prepared-rejected, cmd_game_prepared-waits,
  cmd_game_prepared-starts,
}
use ups_sp.Lobby.{Hosted, Consistent, Consistent-sent, Keeps}
use ups_sp.Lobby.Places.{Place, waits, plays, place}
use ups_sp.Lobby.Moves.{Consistent-Plays}

players-with_own :
    (p : ℕ) (r : Scan) (game : Game)
    → ((with_own p r.board r.fleet game).player1 ≡ game.player1)
      × ((with_own p r.board r.fleet game).player2 ≡ game.player2)
      × ((with_own p r.board r.fleet game).id ≡ game.id)
      × ((with_own p r.board r.fleet game).state ≡ game.state)
unfolding with_own
players-with_own p r game = (ground arith, ground arith, ground arith, ground arith)

module _ (libc : Libc) (w : World) (c : Ref) (me : Client) (argv : Args)
    (hc : w.clients c ≡ some me) where
  refused_state :
      is_preparing me.state ≡ false
      → cmd_game_prepared libc c argv w
        ≡ some (
          failure,
          record_sent libc me.fd
              (message (codes "game_prepared_err" ∷ decimal error_user_state ∷ []))
              w,
        )
  unfolding cmd_game_prepared load_client send_message refuse
  refused_state e = ground (arith, hc)

  refused_text :
      is_preparing me.state ≡ true
      → board_text argv ≡ none
      → cmd_game_prepared libc c argv w
        ≡ some (
          failure,
          record_sent libc me.fd
              (message (codes "game_prepared_err" ∷ decimal error_format ∷ []))
              w,
        )
  unfolding cmd_game_prepared load_client send_message refuse
  refused_text e none_sent = ground (arith, hc)

  module _ (used free : List ℕ) (v : Consistent w used free) where
    module _ (i : ℕ) (o g : Ref) (opp : Client) (game : Game) (text : Bytes)
        (at : Hosted w used i g game) (p : Prepares w c o g me opp game argv text)
        (begun : game.state ≡ started) (og : opp.game ≡ some g)
        (gaming : is_gaming opp.state ≡ true) where
      moves :
          (w' : World) (mine others : ClientState)
          → is_gaming mine ≡ true
          → is_gaming others ≡ true
          → Accepted libc w c o g me opp game argv text mine others w'
          → Consistent w' used free
      moves w' mine others a b acc =
          let (e1, e2, e3, e4) = players-with_own me.player_num (checked me game text) game in
          Consistent-Plays w w' used free i c o g me opp game (with_checked me game text) mine
            others v at p.mine p.other p.apart p.in_it og begun
            (record {
              client = acc.client;
              opponent = acc.opponent;
              third = acc.third;
              played = acc.played;
              other_games = acc.other_games;
              list = acc.list;
              gaming = a;
              gaming' = b;
              first_player = e1;
              second_player = e2;
              number = e3;
              stage = e4;
            })
            p.seats

      abbrev stored : World
      stored = record w { games = update w.games g (some (with_checked me game text)) }

      stored-Accepted : Accepted libc w c o g me opp game argv text me.state opp.state stored
      stored-Accepted = record {
        client = p.mine;
        opponent = p.other;
        third = λ q nc no'. refl;
        played = ground arith;
        other_games = λ h nh. ground arith;
        list = (refl, refl, refl, refl);
      }

      prepare_checked : Keeps (cmd_game_prepared libc c argv w)
      prepare_checked = elim (Option-cases (checked me game text).error) [
        | inr (code, wrong) ↦
            let (run, clean) =
              cmd_game_prepared-rejected libc w c o g me opp game argv text code p wrong in
            (
              failure,
              _,
              used,
              free,
              run,
              Consistent-sent libc me.fd _ stored used free
                  (moves stored me.state opp.state (rw p.state refl) gaming stored-Accepted),
            )
        | inl right ↦ elim (Bool-cases (is_in_game opp.state)) [
          | inr later ↦
              let (w', run, acc) =
                cmd_game_prepared-waits libc w c o g me opp game argv text p right later in
              (success, w', used, free, run, moves w' _ _ refl gaming acc)
          | inl ready ↦
              let (w', run, acc) =
                cmd_game_prepared-starts libc w c o g me opp game argv text p right ready in
              (success, w', used, free, run, moves w' _ _ (ground arith) (ground arith) acc)
        ]
      ]

    prepare_placed :
        (i : ℕ) (g : Ref) (game : Game) (text : Bytes)
        → me.state ≡ preparing
        → board_text argv ≡ some text
        → me.game ≡ some g
        → Hosted w used i g game
        → Place w c me g game
        → Keeps (cmd_game_prepared libc c argv w)
    prepare_placed i g game text hs sent hg at (waits s t alone) = absurd (ground (arith, hs))
    prepare_placed i g game text hs sent hg at (plays o opp begun seats ne ho og gm go) =
        prepare_checked i o g opp game text at
          (record {
            mine = hc;
            other = ho;
            apart = ne;
            in_it = hg;
            at_g = at.at_g;
            seats = seats;
            state = hs;
            asked = sent;
          })
          begun og go

    prepare_game :
        (text : Bytes)
        → me.state ≡ preparing
        → board_text argv ≡ some text
        → Keeps (cmd_game_prepared libc c argv w)
    prepare_game text hs sent = elim (Option-cases me.game) [
      | inl no_game ↦ let (room, gaming) = v.idle c me hc no_game in absurd (ground (arith, hs))
      | inr (g, hg) ↦
          let (i, game, at, here) = place w used free v c me g hc hg in
          prepare_placed i g game text hs sent hg at here
    ]

    -- The sending of a board, by any client and whatever it holds, is defined and keeps the invariant.
    pub cmd_game_prepared-Keeps : Keeps (cmd_game_prepared libc c argv w)
    cmd_game_prepared-Keeps = elim (Bool-cases (is_preparing me.state)) [
      | inr other ↦
          (failure, _, used, free, refused_state other, Consistent-sent libc me.fd _ w used free v)
      | inl here ↦ elim (Option-cases (board_text argv)) [
        | inl no_text ↦ (
          failure,
          _,
          used,
          free,
          refused_text here no_text,
          Consistent-sent libc me.fd _ w used free v,
        )
        | inr (text, sent) ↦ prepare_game text (ground arith) sent
      ]
    ]
