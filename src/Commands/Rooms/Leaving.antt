-- ===== src/Commands/Rooms/Leaving.antt =====
-- `cmd_room_leave` in a game that has started.
use ups_sp.Prelude.{◌≡◌, ◌≢◌, true, some, [], ◌∷◌, codes, arith, ◌∙◌}
use ups_sp.ArrayList
use ups_sp.Server.{Ref, Client, Game, World, Libc, ◌>>=◌, load_client, load_game, success}
use ups_sp.Server.Send.{message, send_message, record_sent}
use ups_sp.Commands.Ends.{game_end}
use ups_sp.Commands.Ends.Over.{Over, game_end-Seats, Over-sent}
use ups_sp.Commands.Prepare.Starts.{Seats, first, second}
use ups_sp.Commands.Rooms.{is_gaming, leave_started, cmd_room_leave}

module _ (libc : Libc) (w : World) (c o g : Ref) (me opp : Client) (game : Game) where
  abbrev told : World
  told = record_sent libc opp.fd (message (codes "room_leave_opp" ∷ me.name ∷ [])) w

  leave_reaches :
      w.clients c ≡ some me
      → w.clients o ≡ some opp
      → o ≢ c
      → is_gaming me.state ≡ true
      → me.game ≡ some g
      → w.games g ≡ some game
      → Seats me game c o
      → cmd_room_leave libc c w
        ≡ (game_end libc g (some me.name) >>= λ _. (λ w'. some (success, w'))) told
  unfolding cmd_room_leave leave_started load_client load_game send_message
  leave_reaches hc ho ne hs hg at (first n a b) = ground arith
  leave_reaches hc ho ne hs hg at (second n a b) = ground arith

  -- A player who leaves a game that has started ends it: both players are in the lobby and in no
  -- game, the room's slot is deleted, the game is freed, and it is no longer counted. No other
  -- client and no other game changes.
  pub cmd_room_leave-Over :
      (rooms : ArrayList.ArrayList Ref)
      → w.clients c ≡ some me
      → w.clients o ≡ some opp
      → o ≢ c
      → is_gaming me.state ≡ true
      → me.game ≡ some g
      → w.games g ≡ some game
      → Seats me game c o
      → ArrayList.delete w.rooms game.id ≡ some rooms
      → (w' : World) × (cmd_room_leave libc c w ≡ some (success, w')) × Over w w' c o g me opp rooms
  cmd_room_leave-Over rooms hc ho ne hs hg at seats del =
      let (w', run, v) =
        game_end-Seats libc told g c o me opp game rooms me.name hc ho ne at seats del in
      (
        w',
        leave_reaches hc ho ne hs hg at seats ∙ ground (arith, run),
        Over-sent libc w g c o me opp game rooms me.name opp.fd _ w' v,
      )
