-- ===== src/Commands/Ends/Over.antt =====
-- What `game_end` leaves behind.
use ups_sp.Prelude.{sym, ◌≡◌, ◌≢◌, refl, none, some, [], ◌∷◌, Bytes, codes, arith}
use ups_sp.Prelude.Int.{ℤ, pos, ◌-ℤ◌}
use ups_sp.ArrayList
use ups_sp.Server.{
  Ref, Client, Game, World, Libc, in_lobby, erased, update, load_client, store_client, load_game,
  store_game,
}
use ups_sp.Server.Send.{message, send_message, record_sent}
use ups_sp.Commands.Prepare.Starts.{Seats, first, second}
use ups_sp.Commands.Ends.{leave_game, drop_room, free_game, game_end}

-- the game g of the two players p and q is over
pub record Over (w w' : World) (p q g : Ref) (a b : Client) (rooms : ArrayList.ArrayList Ref)
    : Type 0 where
  pub one : w'.clients p ≡ some (record a { game = none; state = in_lobby })
  pub two : w'.clients q ≡ some (record b { game = none; state = in_lobby })
  pub others : (r : Ref) → r ≢ p → r ≢ q → w'.clients r ≡ w.clients r
  pub freed : w'.games g ≡ none
  pub other_games : (h : Ref) → h ≢ g → w'.games h ≡ w.games h
  pub listed : w'.rooms ≡ rooms
  pub counted : w'.curr_rooms ≡ w.curr_rooms -ℤ pos 1
  pub limit : w'.max_rooms ≡ w.max_rooms
  pub next : w'.fresh ≡ w.fresh
  pub names : w'.players ≡ w.players
  pub sockets : w'.connections ≡ w.connections
  pub present : w'.curr_players ≡ w.curr_players
  pub shut : w'.closed ≡ w.closed

module _ (libc : Libc) (w : World) (g p q : Ref) (a b : Client) (game : Game)
    (rooms : ArrayList.ArrayList Ref) (name : Bytes) where
  abbrev ended : World
  ended =
      let text = message (codes "game_end" ∷ name ∷ []) in
      record (record_sent libc b.fd text (record_sent libc a.fd text w)) {
        clients =
            update (update w.clients p (some (record a { game = none; state = in_lobby }))) q
              (some (record b { game = none; state = in_lobby }));
        games = update (update w.games g (some (record game { state = erased }))) g none;
        rooms = rooms;
        curr_rooms = w.curr_rooms -ℤ pos 1;
      }

  pub game_end-Over :
      w.clients p ≡ some a
      → w.clients q ≡ some b
      → q ≢ p
      → w.games g ≡ some game
      → game.player1 ≡ some p
      → game.player2 ≡ some q
      → ArrayList.delete w.rooms game.id ≡ some rooms
      → (w' : World) × (game_end libc g (some name) w ≡ some (tt, w')) × Over w w' p q g a b rooms
  unfolding game_end leave_game drop_room free_game load_client store_client load_game store_game
      send_message
  game_end-Over ha hb ne hg h1 h2 del = (
    ended,
    ground arith,
    record {
      one = (ground arith);
      two = (ground arith);
      others = λ r np nq. (ground arith);
      freed = (ground arith);
      other_games = λ h nh. (ground arith);
      listed = refl;
      counted = refl;
      limit = refl;
      next = refl;
      names = refl;
      sockets = refl;
      present = refl;
      shut = refl;
    },
  )

-- the same, by the player in either seat
module _ (libc : Libc) (w : World) (g p q : Ref) (a b : Client) (game : Game)
    (rooms : ArrayList.ArrayList Ref) (name : Bytes) where
  Over-swap : (w' : World) → Over w w' q p g b a rooms → Over w w' p q g a b rooms
  Over-swap w' v = record {
    one = v.two;
    two = v.one;
    others = λ r np nq. v.others r nq np;
    freed = v.freed;
    other_games = v.other_games;
    listed = v.listed;
    counted = v.counted;
    limit = v.limit;
    next = v.next;
    names = v.names;
    sockets = v.sockets;
    present = v.present;
    shut = v.shut;
  }

  pub game_end-Seats :
      w.clients p ≡ some a
      → w.clients q ≡ some b
      → q ≢ p
      → w.games g ≡ some game
      → Seats a game p q
      → ArrayList.delete w.rooms game.id ≡ some rooms
      → (w' : World) × (game_end libc g (some name) w ≡ some (tt, w')) × Over w w' p q g a b rooms
  game_end-Seats ha hb ne hg (first n h1 h2) del =
      game_end-Over libc w g p q a b game rooms name ha hb ne hg h1 h2 del
  game_end-Seats ha hb ne hg (second n h1 h2) del =
      let (w', run, v) =
        game_end-Over libc w g q p b a game rooms name hb ha (λ e. ne (sym e)) hg h1 h2 del in
      (w', run, Over-swap w' v)

  -- a message that was sent before makes no difference
  pub Over-sent :
      (fd : ℤ) (text : Bytes) (w' : World)
      → Over (record_sent libc fd text w) w' p q g a b rooms
      → Over w w' p q g a b rooms
  Over-sent fd text w' v = record {
    one = v.one;
    two = v.two;
    others = v.others;
    freed = v.freed;
    other_games = v.other_games;
    listed = v.listed;
    counted = v.counted;
    limit = v.limit;
    next = v.next;
    names = v.names;
    sockets = v.sockets;
    present = v.present;
    shut = v.shut;
  }
