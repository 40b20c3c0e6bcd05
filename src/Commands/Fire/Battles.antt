-- ===== src/Commands/Fire/Battles.antt =====
-- A started game from the first shot to the last: two fleets in play, of which a shot takes a square.
use ups_sp.Prelude.{
  ℕ, ◌+◌, ◌-◌, ◌||◌, ◌<◌, ◌≡◌, ◌⊎◌, inl, inr, true, false, some, ◌==◌, arith, ◌∙◌, Bool-cases,
}
use ups_sp.ArrayList
use ups_sp.Game.Board.{empty_square, hit_square, missed_square, is_digit, put_square}
use ups_sp.Game.Battle.Misses.{InPlay-miss, remains-miss}
use ups_sp.Server.{Ref, Client, Game, World, Libc, success}
use ups_sp.Commands.Args.{Args}
use ups_sp.Commands.Ends.Over.{Over}
use ups_sp.Commands.Prepare.Starts.{Seats}
use ups_sp.Commands.Fire.{target_board, target_ships, with_target, hit, fire_at, cmd_game_fire}
use ups_sp.Commands.Fire.Shots.{Opposed, Shot, hit_lem}
use ups_sp.Commands.Fire.Strikes.{sunk, hit_ship-Struck}
use ups_sp.Commands.Fire.Turns.{Aims, fire_reaches, cmd_game_fire-miss}
use ups_sp.Commands.Fire.Sides.{
  left, Side, foe, Side-Untouched, hit_ship-Untouched, with_target-Untouched, targets-with_target,
  sunk-few, counts_few, InPlay-hit_ship, left-hit, counted-hit, sunk-left,
}
use ups_sp.Commands.Fire.Moves.{Moved, Moved-miss, Moved-hit}
use ups_sp.Commands.Fire.Wins.{hit-Over}

-- how a shot at the square (y, x) goes on
pub data Fired (w w' : World) (c o g : Ref) (me opp : Client) (game : Game)
    (rooms : ArrayList.ArrayList Ref) (y x : ℕ) : Type 0 where
  missed :
      (game' : Game)
      → target_board me.player_num game y x ≡ empty_square
      → Shot w w' c o g me opp game'
      → Side me.player_num game'
      → Side (foe me.player_num) game'
      → left me.player_num game' ≡ left me.player_num game
      → Moved me.player_num game game'
      → Fired w w' c o g me opp game rooms y x
  struck :
      (n : ℕ) (game' : Game)
      → target_board me.player_num game y x ≡ b'0' + n
      → Shot w w' c o g me opp game'
      → Side me.player_num game'
      → Side (foe me.player_num) game'
      → left me.player_num game ≡ left me.player_num game' + 1
      → Moved me.player_num game game'
      → Fired w w' c o g me opp game rooms y x
  won :
      (n : ℕ)
      → target_board me.player_num game y x ≡ b'0' + n
      → left me.player_num game ≡ 1
      → Over w w' c o g me opp rooms
      → Fired w w' c o g me opp game rooms y x

module _ (libc : Libc) (w : World) (c o g : Ref) (me opp : Client) (game : Game) (argv : Args)
    (x y : ℕ) (rooms : ArrayList.ArrayList Ref) (op : Opposed w c o g me opp game)
    (seats : Seats me game c o) (aim : Aims libc argv me x y) (side : Side me.player_num game)
    (side' : Side (foe me.player_num) game)
    (del : ArrayList.delete w.rooms game.id ≡ some rooms) where
  fire_at_digit :
      (n square : ℕ)
      → n < 7
      → square ≡ b'0' + n
      → fire_at libc c me.name me.player_num g game x y square w
        ≡ hit libc c me.name me.player_num g game n x y w
  unfolding fire_at
  fire_at_digit n square h e =
      let z : b'0' + n - b'0' ≡ n = omega arith in
      let no_hit : (b'0' + n == hit_square || b'0' + n == missed_square) ≡ false = ground arith in
      let no_water : (b'0' + n == empty_square) ≡ false = ground arith in
      let is : is_digit (b'0' + n) ≡ true = ground arith in rw (e, no_hit, no_water, is, z)

  fires_hit :
      (n : ℕ)
      → n < 7
      → target_board me.player_num game y x ≡ b'0' + n
      → (w' : World) × (cmd_game_fire libc c argv w ≡ some (success, w'))
        × Fired w w' c o g me opp game rooms y x
  fires_hit n h digit =
      let p = me.player_num in
      let (sy, sx, placed) = side.in_play.on_board n h in
      let (d, game', struck_by, s) = hit_ship-Struck p n sy sx y x game h placed in
      let less = left-hit p n sy sx y x game game' d side h aim.y_lt aim.x_lt digit placed s in
      let all = sunk-left p n sy sx y x game game' d side h aim.y_lt aim.x_lt digit placed s in
      let reaches = fire_reaches libc w c o g me opp game argv x y op aim in
      elim (Bool-cases (left p game' == 0)) [
        | inl none_left ↦
            let seven : sunk p game' ≡ 7 = ground (arith, all, none_left) in
            let (w', run, over) =
              hit-Over libc w c o g me opp game game' n x y d rooms op struck_by seven seats del in
            (
              w',
              reaches ∙ fire_at_digit n _ h digit ∙ run,
              won n digit (ground (arith, less, none_left)) over,
            )
        | inr some_left ↦
            let now : Side p game' = record {
              in_play =
                  InPlay-hit_ship p n sy sx y x game game' d side h aim.y_lt aim.x_lt digit placed
                    s;
              counted =
                  counted-hit p n sy sx y x game game' d side h aim.y_lt aim.x_lt digit placed s;
              some_left = ground (arith, some_left);
            } in
            let now' =
              Side-Untouched (foe p) game game' (hit_ship-Untouched p game n y x game' d struck_by)
                side' in
            let (few, few') =
              counts_few p game' (sunk-few p game' now) (sunk-few (foe p) game' now') in
            let (w', run, shot) =
              hit_lem libc w c o g me opp game game' n x y d op struck_by few few' in
            (
              w',
              reaches ∙ fire_at_digit n _ h digit ∙ run,
              struck n game' digit shot now now' less
                  (Moved-hit p n sy sx y x game game' d aim.y_lt aim.x_lt h digit struck_by s),
            )
      ]

  fires_miss :
      target_board me.player_num game y x ≡ empty_square
      → (w' : World) × (cmd_game_fire libc c argv w ≡ some (success, w'))
        × Fired w w' c o g me opp game rooms y x
  fires_miss water =
      let p = me.player_num in
      let b = put_square (target_board p game) y x missed_square in
      let f = target_ships p game in
      let (w', run, shot) = cmd_game_fire-miss libc w c o g me opp game argv x y op aim water in
      let kept = remains-miss (target_board p game) f y x side.in_play water in
      let (eb, ef, es) = targets-with_target p game b f in
      let now : Side p (with_target p b f game) = record {
        in_play = rw (eb, ef) (InPlay-miss (target_board p game) f y x side.in_play water);
        counted = rw (es, ef) side.counted;
        some_left = rw (eb, ef, kept) side.some_left;
      } in
      let now' = Side-Untouched (foe p) game _ (with_target-Untouched p game b f) side' in
      (
        w',
        run,
        missed _ water shot now now' (rw (eb, ef) kept)
            (Moved-miss p y x game aim.y_lt aim.x_lt water),
      )

  -- In a game of two players, each facing a fleet in play that is not sunk, with the right count of
  -- the sunk ships, and with a room that can be deleted, a shot of the player whose turn it is, at an
  -- empty square or at a ship's square, succeeds. After a miss and after a hit both fleets are in play,
  -- with as many squares left after a miss and one less after a hit, fewer unshot squares on the board
  -- that is shot at, and the other player's targets as they were, and the turn passes. The shot at
  -- the last square, and only that, ends the game.
  pub cmd_game_fire-Fired :
      (target_board me.player_num game y x ≡ empty_square)
        ⊎ ((n : ℕ) × (n < 7) × (target_board me.player_num game y x ≡ b'0' + n))
      → (w' : World) × (cmd_game_fire libc c argv w ≡ some (success, w'))
        × Fired w w' c o g me opp game rooms y x
  cmd_game_fire-Fired (inl water) = fires_miss water
  cmd_game_fire-Fired (inr (n, h, digit)) = fires_hit n h digit
