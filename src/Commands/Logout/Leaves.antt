-- ===== src/Commands/Logout/Leaves.antt =====
-- A logged-in client logs out, from the lobby or from a game that has started.
use ups_sp.Prelude.{
  ◌≡◌, ◌≢◌, refl, true, false, Option, none, some, [], ◌∷◌, Bytes, codes, same, if◌then◌else◌,
  arith, ◌∙◌, ap,
}
use ups_sp.Prelude.Int.{pos, ◌-ℤ◌}
use ups_sp.ArrayList
use ups_sp.HashMap
use ups_sp.HashMap.{HashTable}
use ups_sp.HashMap.Buckets.{IsValid}
use ups_sp.HashMap.Entries.{remove-reads}
use ups_sp.Server.{Ref, Client, Game, World, Libc, in_lobby, load_client, load_game, success}
use ups_sp.Server.Send.{message, send_message, record_sent}
use ups_sp.Commands.Ends.{game_end}
use ups_sp.Commands.Ends.Over.{Over, game_end-Seats, Over-sent}
use ups_sp.Commands.Rooms.{is_gaming}
use ups_sp.Commands.Prepare.Starts.{Seats, first, second}
use ups_sp.Connections.{close_connection}
use ups_sp.Commands.Logout.{is_unlogged, remove_player, logout_game, logout_logged, cmd_logout}

-- the name is free, and the socket closed; v is the state before that
pub record Left (w v w' : World) (me : Client) : Type 0 where
  pub valid : IsValid w'.players
  pub names :
      (q : Bytes)
      → HashMap.get w'.players q ≡ (if same me.name q then some none else HashMap.get w.players q)
  pub clients : w'.clients ≡ v.clients
  pub games : w'.games ≡ v.games
  pub rooms : w'.rooms ≡ v.rooms
  pub answered : w'.sent ≡ (me.fd, message (codes "logout_ok" ∷ [])) ∷ v.sent
  pub counted : w'.curr_players ≡ w.curr_players -ℤ pos 1
  pub closed_it : w'.closed ≡ me.fd ∷ w.closed

module _ (libc : Libc) (w : World) (c : Ref) (me : Client) where
  module _ (v : World) (me' : Client) (table : HashTable Ref) where
    abbrev gone : World
    gone =
        record (record_sent libc me'.fd (message (codes "logout_ok" ∷ []))
          (record v { players = table })) {
            curr_players = v.curr_players -ℤ pos 1;
            closed = me'.fd ∷ v.closed;
          }

    -- after the game
    game_leaves :
        (old : Option Ref)
        → w.clients c ≡ some me
        → is_gaming me.state ≡ true
        → logout_game libc c w ≡ some (tt, v)
        → v.clients c ≡ some me'
        → HashMap.remove v.players me'.name ≡ some (old, table)
        → logout_logged libc c w ≡ some (success, gone)
    unfolding logout_logged remove_player close_connection send_message load_client
    game_leaves old hc hs run hc' rem = ground arith

  lobby_leaves :
      (old : Option Ref) (table : HashTable Ref)
      → w.clients c ≡ some me
      → me.state ≡ in_lobby
      → HashMap.remove w.players me.name ≡ some (old, table)
      → logout_logged libc c w ≡ some (success, gone w me table)
  unfolding logout_logged remove_player close_connection send_message load_client
  lobby_leaves old table hc hs rem = ground arith

  logged_reaches :
      w.clients c ≡ some me
      → me.connected ≡ true
      → is_unlogged me.state ≡ false
      → cmd_logout libc c w ≡ logout_logged libc c w
  unfolding cmd_logout load_client
  logged_reaches hc on hs = ground arith

  -- A connected client of the lobby logs out: his name is free and his socket is closed. He is
  -- answered and no longer counted; no other name, client, game or room changes.
  pub cmd_logout-Left :
      w.clients c ≡ some me
      → me.connected ≡ true
      → me.state ≡ in_lobby
      → IsValid w.players
      → (w' : World) × (cmd_logout libc c w ≡ some (success, w')) × Left w w w' me
  cmd_logout-Left hc on hs v =
      let (table, rem, valid, reads) = remove-reads w.players me.name v in
      (
        gone w me table,
        logged_reaches hc on (ground arith) ∙ lobby_leaves _ table hc hs rem,
        record {
          valid = valid;
          names = reads;
          clients = refl;
          games = refl;
          rooms = refl;
          answered = refl;
          counted = refl;
          closed_it = refl;
        },
      )

  module _ (o g : Ref) (opp : Client) (game : Game) (rooms : ArrayList.ArrayList Ref) where
    abbrev told : World
    told = record_sent libc opp.fd (message (codes "room_leave_opp" ∷ me.name ∷ [])) w

    logout_game_run :
        w.clients c ≡ some me
        → w.clients o ≡ some opp
        → o ≢ c
        → me.game ≡ some g
        → w.games g ≡ some game
        → Seats me game c o
        → logout_game libc c w ≡ game_end libc g (some me.name) told
    unfolding logout_game send_message load_client load_game
    logout_game_run hc ho ne hg at (first n a b) = ground arith
    logout_game_run hc ho ne hg at (second n a b) = ground arith

    -- A connected player of a started game logs out: the game is over for both players, as after
    -- `game_end`, and then his name is free and his socket closed. He is answered and no longer
    -- counted, and no other name changes.
    pub cmd_logout-Over :
        w.clients c ≡ some me
        → w.clients o ≡ some opp
        → o ≢ c
        → me.connected ≡ true
        → is_gaming me.state ≡ true
        → me.game ≡ some g
        → w.games g ≡ some game
        → Seats me game c o
        → ArrayList.delete w.rooms game.id ≡ some rooms
        → IsValid w.players
        → (v : World) × (w' : World) × (cmd_logout libc c w ≡ some (success, w'))
          × Over w v c o g me opp rooms
          × Left w v w' me
    cmd_logout-Over hc ho ne on hs hg at seats del valid =
        let (v, run, over) =
          game_end-Seats libc told g c o me opp game rooms me.name hc ho ne at seats del in
        let me' = record me { game = none; state = in_lobby } in
        let (table, rem, valid', reads) = remove-reads w.players me.name valid in
        let rem' = ap (λ t. HashMap.remove t me.name) over.names ∙ rem in
        (
          v,
          gone v me' table,
          logged_reaches hc on (ground arith)
              ∙ game_leaves v me' table _ hc hs (logout_game_run hc ho ne hg at seats ∙ run)
                  over.one rem',
          Over-sent libc w g c o me opp game rooms me.name opp.fd _ v over,
          record {
            valid = valid';
            names = reads;
            clients = refl;
            games = refl;
            rooms = refl;
            answered = refl;
            counted = ap (λ n. n -ℤ pos 1) over.present;
            closed_it = ap (λ l. me.fd ∷ l) over.shut;
          },
        )
