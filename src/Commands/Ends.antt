-- ===== src/Commands/Ends.antt =====
-- `game_end` of game/shipsGame.c.
pub mod Over
use ups_sp.Prelude.{ℕ, Option, none, some, [], ◌∷◌, Bytes, codes}
use ups_sp.Prelude.Int.{pos, ◌-ℤ◌}
use ups_sp.ArrayList
use ups_sp.Server.{
  Ref, Libc, M, ◌>>=◌, ◌>>◌, need, update, in_lobby, erased, load_client, store_client, load_game,
  store_game,
}
use ups_sp.Server.Send.{message, send_message}

-- `player->game = NULL; player->state = STATE_IN_LOBBY`
unfoldable pub leave_game : Ref → M (Unit {0})
leave_game p = do
  player ← load_client p
  store_client p (record player { game = none; state = in_lobby })

-- `arraylist_delete_item(server->rooms, id); s_curr_rooms = s_curr_rooms - 1`
unfoldable pub drop_room : ℕ → M (Unit {0})
drop_room id w = elim (ArrayList.delete w.rooms id) [
  | none ↦ none
  | some rooms ↦ some (tt, record w { rooms = rooms; curr_rooms = w.curr_rooms -ℤ pos 1 })
]

unfoldable pub free_game : Ref → M (Unit {0})
free_game g w = some (tt, record w { games = update w.games g none })

module _ (libc : Libc) where
  -- a NULL name is undefined in the `sprintf`
  unfoldable pub game_end : Ref → Option Bytes → M (Unit {0})
  game_end g winner = do
    name ← need winner
    game ← load_game g
    p1 ← need game.player1
    send_message libc p1 (message (codes "game_end" ∷ name ∷ []))
    p2 ← need game.player2
    send_message libc p2 (message (codes "game_end" ∷ name ∷ []))
    store_game g (record game { state = erased })
    leave_game p1
    leave_game p2
    drop_room game.id
    free_game g
