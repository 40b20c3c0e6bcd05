-- ===== src/Commands/Login/Rejoins.antt =====
-- A player of a started game who had lost his connection logs in again.
use ups_sp.Prelude.{
  ℕ, ◌<◌, ◌≡◌, ◌≢◌, refl, true, false, none, some, [], ◌∷◌, Bytes, codes, arith, length, set,
  get_or-set, ◌∙◌, ap,
}
use ups_sp.Prelude.Int.{pos}
use ups_sp.HashMap
use ups_sp.HashMap.{HashTable}
use ups_sp.HashMap.Buckets.{IsValid}
use ups_sp.HashMap.Entries.{put-reads}
use ups_sp.Server.{
  Ref, Client, Game, World, Libc, update, load_client, store_client, load_game, success,
}
use ups_sp.Server.Send.{message, decimal, send_message, record_sent}
use ups_sp.Commands.Args.{Args}
use ups_sp.Commands.Rooms.{is_gaming}
use ups_sp.Commands.Prepare.Starts.{Seats, first, second}
use ups_sp.Connections.{connection, server_get_client_by_name}
use ups_sp.Connections.Drops.{set_connection_run}
use ups_sp.Commands.Login.{
  state_number, is_name, logged_state, players_full, tell_player, tell_in_game, finish_login,
  reconnect, login_as, cmd_login,
}
use ups_sp.Commands.Login.Logs.{
  as_named, entered, Logged, login_reaches, finish_login_run, tell_opponent_run,
}

-- c is a new client at the socket fd, p a player of a started game who lost his, and o his opponent
pub record Returns (w : World) (c p o g : Ref) (me logged opp : Client) (game : Game) (fd : ℕ)
    (name : Bytes) : Type 0 where
  pub mine : w.clients c ≡ some me
  pub socket : me.fd ≡ pos fd
  pub wide : fd < length w.connections
  pub player : w.clients p ≡ some logged
  pub apart : p ≢ c
  pub known : HashMap.get w.players name ≡ some (some p)
  pub called : logged.name ≡ name
  pub gone : logged.connected ≡ false
  pub gaming : is_gaming logged.state ≡ true
  pub in_it : logged.game ≡ some g
  pub at_g : w.games g ≡ some game
  pub seats : Seats logged game p o
  pub other : w.clients o ≡ some opp
  pub other_apart : o ≢ p
  pub third : o ≢ c
  pub other_there : opp.connected ≡ true

module _ (libc : Libc) (w : World) (c p o g : Ref) (me logged opp : Client) (game : Game) (fd : ℕ)
    (name : Bytes) (args : Args) where
  abbrev back : Client
  back = record logged { fd = pos fd; connected = true }

  -- p has the socket of c, and c is freed
  abbrev taken_over : World
  taken_over = record w {
    clients =
        update (update (update w.clients p (some (record logged { fd = pos fd }))) c none) p
          (some back);
    connections = set w.connections fd (some (some p));
  }

  reconnect_run :
      Returns w c p o g me logged opp game fd name → reconnect libc c p w ≡ some (tt, taken_over)
  unfolding reconnect load_client store_client
  reconnect_run r =
      let links =
        set_connection_run
          (record w { clients = update w.clients p (some (record logged { fd = pos fd })) }) fd
          (some p) r.wide in
      ground (arith, links, r.mine, r.socket, r.player, r.apart)

  rejoin_reaches :
      Returns w c p o g me logged opp game fd name
      → login_as libc true c name w ≡ finish_login libc true p name taken_over
  unfolding login_as server_get_client_by_name load_client
  rejoin_reaches r = ground (arith, reconnect_run r, r.known, r.player, r.gone)

  module _ (table : HashTable Ref) where
    abbrev named : World
    named = entered libc taken_over p back name table

    abbrev told : World
    told = record_sent libc opp.fd (message (codes "room_join_opp" ∷ name ∷ [])) named

    tells :
        Returns w c p o g me logged opp game fd name
        → tell_in_game libc p (as_named back name) (some g) named ≡ some (tt, told)
    unfolding tell_in_game tell_player load_client load_game send_message
    tells r = elim r.seats [
      | first n a b ↦
          ground (arith, r.other, r.other_apart, r.third, r.at_g, r.gaming, r.other_there)
      | second n a b ↦
          ground (arith, r.other, r.other_apart, r.third, r.at_g, r.gaming, r.other_there)
    ]

  same_state : is_gaming logged.state ≡ true → logged_state logged.state ≡ logged.state
  same_state h = ground arith

  -- A new client sends the name of a player of a started game who lost his connection, while the
  -- server is not full, the opponent is connected and the caller of client_set_name, which ends without
  -- a value, reads one other than 0. The player is connected again, at the new
  -- client's socket, in his state, seat and game; the new client is freed, no other client and no game
  -- changes, the names lead to the players as before, and the player and his opponent are told.
  pub cmd_login-Rejoins :
      Returns w c p o g me logged opp game fd name
      → is_name name ≡ true
      → players_full w ≡ false
      → IsValid w.players
      → (w' : World) × (cmd_login libc true c (some name ∷ args) w ≡ some (success, w'))
        × Logged w w' p back name
        × (w'.clients c ≡ none)
        × ((q : Ref) → q ≢ p → q ≢ c → w'.clients q ≡ w.clients q)
        × (connection w'.connections (pos fd) ≡ some (some p))
        × (w'.sent
            ≡ (opp.fd, message (codes "room_join_opp" ∷ name ∷ []))
              ∷ (
                pos fd,
                message (codes "login_ok" ∷ name ∷ decimal (state_number logged.state) ∷ []),
              )
              ∷ w.sent)
  cmd_login-Rejoins r ok room v =
      let (table, put, valid, reads) = put-reads w.players name p v in
      let tell =
        tell_opponent_run libc taken_over p back name table
        ∙ ap (λ game. tell_in_game libc p (as_named back name) game (named table)) r.in_it
        ∙ tells table r in
      let stays = same_state r.gaming in
      (
        told table,
        login_reaches libc w c me name args ok room
            ∙ rejoin_reaches r
            ∙ finish_login_run libc taken_over p back name table _ (ground arith) ok put
            ∙ ground (arith, tell),
        record {
          client = (ground (arith, stays, r.called));
          games = refl;
          rooms = refl;
          list = (refl, refl, refl, refl);
          valid = valid;
          names = reads;
          counted = refl;
          closed_none = refl;
        },
        ground (arith, r.apart),
        λ q np nc. ground arith,
        get_or-set w.connections fd fd (some (some p)) none r.wide ∙ ground arith,
        ground (arith, stays),
      )
