-- ===== src/Commands/Fire/Wins.antt =====
-- The shot of `cmd_game_fire` that wins the game.
use ups_sp.Prelude.{ℕ, ◌+◌, ◌<◌, ◌≡◌, Bool, true, some, codes, leb, arith, ◌∙◌, ap, ◌||◌}
use ups_sp.Prelude.Int.{pos, ◌-ℤ◌, leb_ℤ}
use ups_sp.ArrayList
use ups_sp.Game.Board.{hit_square}
use ups_sp.Game.Marking.Ring.{IsOnBoard}
use ups_sp.Server.{Ref, Client, Game, World, Libc, ◌>>=◌, in_game, playing, load_game, success}
use ups_sp.Commands.Args.{Args}
use ups_sp.Commands.Ends.{game_end}
use ups_sp.Commands.Ends.Over.{Over, game_end-Seats}
use ups_sp.Commands.Prepare.Starts.{Seats, first, second}
use ups_sp.Commands.Fire.{
  target_board, target_ships, with_target, count_sunk, hit_ship, shot_message, end_if_won, hit,
  fire_at, cmd_game_fire,
}
use ups_sp.Commands.Fire.Shots.{Opposed, shot_lem, shot_done, opponent-hit_ship}
use ups_sp.Commands.Fire.Strikes.{sunk, hit_ship-Struck}
use ups_sp.Commands.Fire.Turns.{Aims, fire_reaches}

-- a hit changes neither the players nor the number of the room
players-hit_ship :
    (p n y x : ℕ) (game game' : Game) (d : Bool)
    → hit_ship p n y x game ≡ some (d, game')
    → (game'.player1 ≡ game.player1) × (game'.player2 ≡ game.player2) × (game'.id ≡ game.id)
unfolding hit_ship with_target count_sunk
players-hit_ship p n y x game game' d e = ground arith

full_count :
    (player : ℕ) (game : Game)
    → sunk player game ≡ 7
    → (leb 7 game.p1_count || leb 7 game.p2_count) ≡ true
unfolding sunk
full_count player game e = ground arith

module _ (libc : Libc) (w : World) (c o g : Ref) (me opp : Client) (game game' : Game) (n x y : ℕ)
    (d : Bool) (rooms : ArrayList.ArrayList Ref) where
  abbrev shown : World
  shown =
      shot_done libc w c o g me opp game' (shot_message (codes "game_fire_ok") x y hit_square d)
        (shot_message (codes "game_opp_fire") x y hit_square d)

  hit_then :
      Opposed w c o g me opp game
      → hit_ship me.player_num n y x game ≡ some (d, game')
      → sunk me.player_num game' ≡ 7
      → hit libc c me.name me.player_num g game n x y w
        ≡ (game_end libc g (some me.name) >>= λ _. (λ w'. some (success, w'))) shown
  unfolding hit end_if_won load_game
  hit_then op e seven =
      let run =
        shot_lem libc w c o g me opp game game'
          (shot_message (codes "game_fire_ok") x y hit_square d)
          (shot_message (codes "game_opp_fire") x y hit_square d) op
          (opponent-hit_ship me.player_num n y x game game' d e ∙ op.facing) in
      let full = full_count me.player_num game' seven in ground (arith, run, e, full)

  Seats-kept :
      game'.player1 ≡ game.player1
      → game'.player2 ≡ game.player2
      → Seats me game c o
      → Seats (record me { state = in_game }) game' c o
  Seats-kept e1 e2 (first num s1 s2) = first num (e1 ∙ s1) (e2 ∙ s2)
  Seats-kept e1 e2 (second num s1 s2) = second num (e1 ∙ s1) (e2 ∙ s2)

  Over-shown :
      Opposed w c o g me opp game
      → hit_ship me.player_num n y x game ≡ some (d, game')
      → Seats me game c o
      → ArrayList.delete w.rooms game.id ≡ some rooms
      → (w' : World) × (game_end libc g (some me.name) shown ≡ some (tt, w'))
        × Over w w' c o g me opp rooms
  Over-shown op e seats del =
      let (e1, e2, ei) = players-hit_ship me.player_num n y x game game' d e in
      let (w', run, over) =
        game_end-Seats libc shown g c o (record me { state = in_game })
          (record opp { state = playing }) game' rooms me.name (ground (arith, op.apart))
          (ground arith) op.apart (ground arith) (Seats-kept e1 e2 seats)
          (ap (λ i. ArrayList.delete w.rooms i) ei ∙ del) in
      (
        w',
        run,
        record {
          one = over.one;
          two = over.two;
          others = λ r nc no. over.others r nc no ∙ ground arith;
          freed = over.freed;
          other_games = λ h nh. over.other_games h nh ∙ ground arith;
          listed = over.listed;
          counted = over.counted;
          limit = over.limit;
          next = over.next;
          names = over.names;
          sockets = over.sockets;
          present = over.present;
          shut = over.shut;
        },
      )

  -- a hit that sinks the seventh ship
  pub hit-Over :
      Opposed w c o g me opp game
      → hit_ship me.player_num n y x game ≡ some (d, game')
      → sunk me.player_num game' ≡ 7
      → Seats me game c o
      → ArrayList.delete w.rooms game.id ≡ some rooms
      → (w' : World) × (hit libc c me.name me.player_num g game n x y w ≡ some (success, w'))
        × Over w w' c o g me opp rooms
  hit-Over op e seven seats del =
      let run = hit_then op e seven in
      let (w', end, over) = Over-shown op e seats del in (w', ground (arith, run, end), over)

module _ (libc : Libc) (w : World) (c o g : Ref) (me opp : Client) (game : Game) (argv : Args)
    (x y : ℕ) where
  -- A shot in the player's turn that takes the last point of health of a ship on the board, when the
  -- player has sunk six ships before, succeeds and ends the game: both players are in the lobby and
  -- in no game, the room's slot is deleted, the game is freed, and it is no longer counted. No other
  -- client and no other game changes.
  pub cmd_game_fire-Over :
      (n sy sx : ℕ) (rooms : ArrayList.ArrayList Ref)
      → Opposed w c o g me opp game
      → Seats me game c o
      → Aims libc argv me x y
      → n < 7
      → target_board me.player_num game y x ≡ b'0' + n
      → IsOnBoard (target_ships me.player_num game n) sy sx
      → (target_ships me.player_num game n).health ≡ pos 1
      → sunk me.player_num game ≡ 6
      → ArrayList.delete w.rooms game.id ≡ some rooms
      → (w' : World) × (cmd_game_fire libc c argv w ≡ some (success, w'))
        × Over w w' c o g me opp rooms
  unfolding fire_at
  cmd_game_fire-Over n sy sx rooms op seats aim h digit placed last six del =
      let (d, game', struck, s) = hit_ship-Struck me.player_num n sy sx y x game h placed in
      let dead : d ≡ true = s.destroyed ∙ ap (λ z. leb_ℤ (z -ℤ pos 1) (pos 0)) last in
      let seven : sunk me.player_num game' ≡ 7 = s.counted ∙ ground (arith, dead, six) in
      let (w', run, over) =
        hit-Over libc w c o g me opp game game' n x y d rooms op struck seven seats del in
      (w', fire_reaches libc w c o g me opp game argv x y op aim ∙ ground (arith, run, digit), over)
