-- ===== src/Commands/Login/Logs.antt =====
-- A login that `cmd_login` accepts: of a new name, and of a player who had lost his connection.
use ups_sp.Prelude.{
  ◌≤◌, ◌≡◌, ◌≢◌, refl, true, false, Option, none, some, [], ◌∷◌, Bytes, codes, same, if◌then◌else◌,
  arith, length, take, take-all, ◌∙◌,
}
use ups_sp.Prelude.Int.{pos, ◌+ℤ◌, leb_ℤ}
use ups_sp.HashMap
use ups_sp.HashMap.{HashTable}
use ups_sp.HashMap.Buckets.{IsValid}
use ups_sp.HashMap.Entries.{put-reads}
use ups_sp.Server.{
  SameRooms, Ref, Client, World, Libc, ◌>>=◌, update, unlogged, in_lobby, load_client, store_client,
  success,
}
use ups_sp.Server.Send.{message, decimal, send_message, record_sent}
use ups_sp.Commands.Args.{Args}
use ups_sp.Commands.Rooms.{is_gaming}
use ups_sp.Connections.{server_get_client_by_name}
use ups_sp.Commands.Login.Names.{GoodName, is_name-GoodName, players_full-reached}
use ups_sp.Commands.Login.{
  state_number, is_name, logged_state, players_full, client_set_name, put_player, count_player,
  tell_in_game, tell_opponent, finish_login, login_as, login_checked, cmd_login,
}

name_fits : (name : Bytes) → is_name name ≡ true → length name ≤ 20
unfolding is_name
name_fits [] h = omega arith
name_fits (c ∷ cs) h = ground arith

name_kept : (name : Bytes) → is_name name ≡ true → take 20 name ≡ name
name_kept name h = take-all 20 name (name_fits name h)

-- the client as it is logged in
abbrev pub as_named : Client → Bytes → Client
as_named me name = record me { state = logged_state me.state; name = name }

module _ (libc : Libc) (w : World) (c : Ref) (me : Client) (name : Bytes)
    (table : HashTable Ref) where
  -- named, counted and answered
  abbrev pub entered : World
  entered =
      record_sent libc me.fd
        (message (codes "login_ok" ∷ name ∷ decimal (state_number (logged_state me.state)) ∷ []))
        (record w {
          clients = update w.clients c (some (as_named me name));
          curr_players = w.curr_players +ℤ pos 1;
          players = table;
        })

  set_name_run :
      w.clients c ≡ some me
      → is_name name ≡ true
      → client_set_name c name w
        ≡ some (tt, record w { clients = update w.clients c (some (as_named me name)) })
  unfolding client_set_name load_client store_client
  set_name_run hc ok = let kept = name_kept name ok in ground arith

  pub finish_login_run :
      (old : Option Ref)
      → w.clients c ≡ some me
      → is_name name ≡ true
      → HashMap.put w.players name (some c) ≡ some (old, table)
      → finish_login libc true c name w
        ≡ (tell_opponent libc c >>= λ _. (λ w'. some (success, w'))) entered
  unfolding finish_login count_player put_player send_message load_client
  finish_login_run old hc ok put = ground (arith, set_name_run hc ok)

  tells_nobody :
      (game : Option Ref)
      → is_gaming (as_named me name).state ≡ false
      → tell_in_game libc c (as_named me name) game entered ≡ some (tt, entered)
  unfolding tell_in_game
  tells_nobody none h = refl
  tells_nobody (some g) h = rw h

  pub tell_opponent_run :
      tell_opponent libc c entered ≡ tell_in_game libc c (as_named me name) me.game entered
  unfolding tell_opponent load_client
  tell_opponent_run = ground arith

-- the client is a player of the server under the name
pub record Logged (w w' : World) (c : Ref) (me' : Client) (name : Bytes) : Type 0 where
  pub client : w'.clients c ≡ some me'
  pub games : w'.games ≡ w.games
  pub rooms : w'.rooms ≡ w.rooms
  pub list : SameRooms w w'
  pub valid : IsValid w'.players
  pub names :
      (q : Bytes)
      → HashMap.get w'.players q ≡ (if same name q then some (some c) else HashMap.get w.players q)
  pub counted : w'.curr_players ≡ w.curr_players +ℤ pos 1
  pub closed_none : w'.closed ≡ w.closed

module _ (libc : Libc) (w : World) (c : Ref) (me : Client) (name : Bytes) (args : Args) where
  pub login_reaches :
      is_name name ≡ true
      → players_full w ≡ false
      → cmd_login libc true c (some name ∷ args) w ≡ login_as libc true c name w
  unfolding cmd_login login_checked
  login_reaches ok room = ground arith

  new_reaches :
      HashMap.get w.players name ≡ some none
      → login_as libc true c name w ≡ finish_login libc true c name w
  unfolding login_as server_get_client_by_name
  new_reaches unknown = ground arith

  -- the login of a new name that the code's tests accept
  pub login-Logged :
      w.clients c ≡ some me
      → me.state ≡ unlogged
      → is_name name ≡ true
      → players_full w ≡ false
      → IsValid w.players
      → HashMap.get w.players name ≡ some none
      → (w' : World) × (cmd_login libc true c (some name ∷ args) w ≡ some (success, w'))
        × Logged w w' c (record me { state = in_lobby; name = name }) name
        × ((q : Ref) → q ≢ c → w'.clients q ≡ w.clients q)
        × (w'.sent ≡ (me.fd, message (codes "login_ok" ∷ name ∷ decimal 1 ∷ [])) ∷ w.sent)
  login-Logged hc hs ok room v unknown =
      let (table, put, valid, reads) = put-reads w.players name c v in
      let tell =
        tell_opponent_run libc w c me name table
        ∙ tells_nobody libc w c me name table me.game (ground arith) in
      (
        entered libc w c me name table,
        login_reaches ok room
            ∙ new_reaches unknown
            ∙ finish_login_run libc w c me name table _ hc ok put
            ∙ ground (arith, tell),
        record {
          client = (ground arith);
          games = refl;
          rooms = refl;
          list = (refl, refl, refl, refl);
          valid = valid;
          names = reads;
          counted = refl;
          closed_none = refl;
        },
        λ q nc. ground arith,
        ground arith,
      )

  -- A client who is not logged in sends a name of one to 20 letters and digits that no player has, while
  -- fewer players are counted than there may be, and the caller of client_set_name, which ends without
  -- a value, reads one other than 0. He is in the lobby under that name and is counted, the name is
  -- found in the table of players from then on, and he is answered; no other name, client, game or
  -- room changes.
  pub cmd_login-Logged :
      w.clients c ≡ some me
      → me.state ≡ unlogged
      → GoodName name
      → leb_ℤ w.max_players w.curr_players ≡ false
      → IsValid w.players
      → HashMap.get w.players name ≡ some none
      → (w' : World) × (cmd_login libc true c (some name ∷ args) w ≡ some (success, w'))
        × Logged w w' c (record me { state = in_lobby; name = name }) name
        × ((q : Ref) → q ≢ c → w'.clients q ≡ w.clients q)
        × (w'.sent ≡ (me.fd, message (codes "login_ok" ∷ name ∷ decimal 1 ∷ [])) ∷ w.sent)
  cmd_login-Logged hc hs good room v unknown =
      login-Logged hc hs (is_name-GoodName name good) (players_full-reached w ∙ room) v unknown
