-- ===== src/Lobby/Leaves.antt =====
-- `cmd_room_leave` and the invariant of the rooms.
use ups_sp.Prelude.{ℕ, ◌≡◌, inl, inr, false, some, List, [], ◌∷◌, codes, arith, erase, Option-cases}
use ups_sp.ArrayList
use ups_sp.ArrayList.Deletes.{delete-Deleted}
use ups_sp.Server.{Ref, Client, Game, World, Libc, load_client, success, failure}
use ups_sp.Server.Send.{message, decimal, send_message, record_sent, refuse}
use ups_sp.Commands.Args.{error_user_state}
use ups_sp.Commands.Rooms.{is_in_room, is_gaming, cmd_room_leave}
use ups_sp.Commands.Rooms.Waiting.{cmd_room_leave-Closed}
use ups_sp.Commands.Rooms.Leaving.{cmd_room_leave-Over}
use ups_sp.Lobby.{Hosted, Consistent, Consistent-sent, Keeps}
use ups_sp.Lobby.Places.{Place, waits, plays, place}
use ups_sp.Lobby.Closes.{Consistent-Gone, Gone-Closed, Gone-Over}

module _ (libc : Libc) (w : World) (c : Ref) (me : Client) (hc : w.clients c ≡ some me) where
  leave_nothing :
      is_in_room me.state ≡ false
      → is_gaming me.state ≡ false
      → cmd_room_leave libc c w
        ≡ some (
          failure,
          record_sent libc me.fd
              (message (codes "room_leave_err" ∷ decimal error_user_state ∷ []))
              w,
        )
  unfolding cmd_room_leave load_client send_message refuse
  leave_nothing room gaming = ground (arith, hc)

  module _ (used free : List ℕ) (v : Consistent w used free) where
    leave_placed :
        (i : ℕ) (g : Ref) (game : Game)
        → me.game ≡ some g
        → Hosted w used i g game
        → Place w c me g game
        → Keeps (cmd_room_leave libc c w)
    leave_placed i g game hg at (waits s t alone) =
        let (rooms, run, del, size) = delete-Deleted w.rooms i used free v.valid at.is_used in
        let found : ArrayList.delete w.rooms game.id ≡ some rooms = rw at.numbered run in
        let (w', done, closed) =
          cmd_room_leave-Closed libc w c g me game rooms hc s hg at.at_g alone found in
        (
          success,
          w',
          erase i used,
          i ∷ free,
          done,
          Consistent-Gone w w' used free i g game rooms v at del
              (Gone-Closed w w' used free i c g me game rooms v at hc hg alone del closed),
        )
    leave_placed i g game hg at (plays o opp t seats ne ho og s s') =
        let (rooms, run, del, size) = delete-Deleted w.rooms i used free v.valid at.is_used in
        let found : ArrayList.delete w.rooms game.id ≡ some rooms = rw at.numbered run in
        let (w', done, over) =
          cmd_room_leave-Over libc w c o g me opp game rooms hc ho ne s hg at.at_g seats found in
        (
          success,
          w',
          erase i used,
          i ∷ free,
          done,
          Consistent-Gone w w' used free i g game rooms v at del
              (Gone-Over w w' used free i c o g me opp game rooms v at hc ho hg og seats over),
        )

    -- The leaving of any client, from where he is, is defined and keeps the invariant.
    pub cmd_room_leave-Keeps : Keeps (cmd_room_leave libc c w)
    cmd_room_leave-Keeps = elim (Option-cases me.game) [
      | inr (g, hg) ↦
          let (i, game, at, here) = place w used free v c me g hc hg in
          leave_placed i g game hg at here
      | inl no_game ↦
          let (room, gaming) = v.idle c me hc no_game in
          (
            failure,
            _,
            used,
            free,
            leave_nothing room gaming,
            Consistent-sent libc me.fd _ w used free v,
          )
    ]
