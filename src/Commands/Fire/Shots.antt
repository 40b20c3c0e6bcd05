-- ===== src/Commands/Fire/Shots.antt =====
-- What a shot does, on each branch of `cmd_game_fire`.
use ups_sp.Prelude.{refl, ◌∙◌, ℕ, ◌+◌, ◌≤◌, ◌<◌, ◌≡◌, ◌≢◌, Bool, false, some, Bytes, codes, arith}
use ups_sp.Game.Board.{Board, hit_square, missed_square, put_square}
use ups_sp.Server.{
  SameRooms, Ref, Client, Game, World, Libc, ◌>>◌, in_game, playing, set_state, load_game,
  store_game, success, update,
}
use ups_sp.Server.Send.{send_message, record_sent}
use ups_sp.Commands.Fire.{
  target_board, target_ships, opponent, with_target, count_sunk, hit_ship, shot_message, pass_turn,
  miss, end_if_won, hit,
}

-- two clients in one game, the first with that player's number
pub record Opposed (w : World) (c o g : Ref) (me opp : Client) (game : Game) : Type 0 where
  pub mine : w.clients c ≡ some me
  pub other : w.clients o ≡ some opp
  pub apart : o ≢ c
  pub in_it : me.game ≡ some g
  pub at_g : w.games g ≡ some game
  pub facing : opponent me.player_num game ≡ some o

opponent-with_target :
    (p q : ℕ) (b : Board) (f : ℕ → _) (game : Game)
    → opponent q (with_target p b f game) ≡ opponent q game
unfolding opponent with_target
opponent-with_target p q b f game = ground arith

-- the state after the turn has passed from c to o
abbrev pub turn_passed : Libc → World → Ref → Ref → Client → Client → Bytes → World
turn_passed libc w c o me opp text = record_sent libc opp.fd text (record w {
  clients =
      update (update w.clients c (some (record me { state = in_game }))) o
        (some (record opp { state = playing }));
})

pass_turn_lem :
    (libc : Libc) (w : World) (c o g : Ref) (me opp : Client) (game : Game) (text : Bytes)
    → w.clients c ≡ some me
    → w.clients o ≡ some opp
    → o ≢ c
    → w.games g ≡ some game
    → opponent me.player_num game ≡ some o
    → pass_turn libc c me.player_num g text w ≡ some (tt, turn_passed libc w c o me opp text)
unfolding pass_turn set_state load_game send_message
pass_turn_lem libc w c o g me opp game text hc ho ne hg hf = ground arith

-- the state after a shot: the game is changed, the shooter is answered, and the turn passes
abbrev pub shot_done :
    Libc → World → Ref → Ref → Ref → Client → Client → Game → Bytes → Bytes → World
shot_done libc w c o g me opp game text text' =
    turn_passed libc
      (record_sent libc me.fd text (record w { games = update w.games g (some game) })) c o me opp
      text'

pub shot_lem :
    (libc : Libc) (w : World) (c o g : Ref) (me opp : Client) (game game' : Game)
    (text text' : Bytes)
    → Opposed w c o g me opp game
    → opponent me.player_num game' ≡ some o
    → (do store_game g game'; send_message libc c text; pass_turn libc c me.player_num g text') w
      ≡ some (tt, shot_done libc w c o g me opp game' text text')
unfolding store_game send_message
shot_lem libc w c o g me opp game game' text text' op hf =
    let turn =
      pass_turn_lem libc
        (record_sent libc me.fd text (record w { games = update w.games g (some game') })) c o g me
        opp game' text' op.mine op.other op.apart (ground arith) hf in
    ground (arith, turn, op.mine)

-- what a shot that is not refused leaves behind
pub record Shot (w w' : World) (c o g : Ref) (me opp : Client) (game' : Game) : Type 0 where
  pub waits : w'.clients c ≡ some (record me { state = in_game })
  pub plays : w'.clients o ≡ some (record opp { state = playing })
  pub others : (p : Ref) → p ≢ c → p ≢ o → w'.clients p ≡ w.clients p
  pub game : w'.games g ≡ some game'
  pub other_games : (h : Ref) → h ≢ g → w'.games h ≡ w.games h
  pub list : SameRooms w w'

shot_done-Shot :
    (libc : Libc) (w : World) (c o g : Ref) (me opp : Client) (game' : Game) (text text' : Bytes)
    → o ≢ c
    → Shot w (shot_done libc w c o g me opp game' text text') c o g me opp game'
shot_done-Shot libc w c o g me opp game' text text' ne = record {
  waits = (ground arith);
  plays = (ground arith);
  others = λ p nc no. (ground arith);
  game = (ground arith);
  other_games = λ h nh. (ground arith);
  list = (refl, refl, refl, refl);
}

pub miss_lem :
    (libc : Libc) (w : World) (c o g : Ref) (me opp : Client) (game : Game) (x y : ℕ)
    → Opposed w c o g me opp game
    → let game' =
        with_target me.player_num
          (put_square (target_board me.player_num game) y x missed_square)
          (target_ships me.player_num game)
          game in
      (w' : World) × (miss libc c me.player_num g game x y w ≡ some (success, w'))
      × Shot w w' c o g me opp game'
unfolding miss
miss_lem libc w c o g me opp game x y op =
    let game' =
      with_target me.player_num (put_square (target_board me.player_num game) y x missed_square)
        (target_ships me.player_num game) game in
    let text = shot_message (codes "game_fire_ok") x y missed_square false in
    let text' = shot_message (codes "game_opp_fire") x y missed_square false in
    let run =
      shot_lem libc w c o g me opp game game' text text' op
        (opponent-with_target me.player_num me.player_num _ _ game ∙ op.facing) in
    (
      shot_done libc w c o g me opp game' text text',
      ground (arith, run),
      shot_done-Shot libc w c o g me opp game' text text' op.apart,
    )

pub opponent-hit_ship :
    (p n y x : ℕ) (game game' : Game) (d : Bool)
    → hit_ship p n y x game ≡ some (d, game')
    → opponent p game' ≡ opponent p game
unfolding hit_ship opponent with_target count_sunk
opponent-hit_ship p n y x game game' d e = ground arith

pub counts-hit_ship :
    (p n y x : ℕ) (game game' : Game) (d : Bool)
    → hit_ship p n y x game ≡ some (d, game')
    → (game'.p1_count ≤ game.p1_count + 1) × (game'.p2_count ≤ game.p2_count + 1)
unfolding hit_ship with_target count_sunk
counts-hit_ship p n y x game game' d e = ground arith

pub hit_lem :
    (libc : Libc) (w : World) (c o g : Ref) (me opp : Client) (game game' : Game) (n x y : ℕ)
    (d : Bool)
    → Opposed w c o g me opp game
    → hit_ship me.player_num n y x game ≡ some (d, game')
    → game'.p1_count < 7
    → game'.p2_count < 7
    → (w' : World) × (hit libc c me.name me.player_num g game n x y w ≡ some (success, w'))
      × Shot w w' c o g me opp game'
unfolding hit end_if_won load_game
hit_lem libc w c o g me opp game game' n x y d op e few few' =
    let text = shot_message (codes "game_fire_ok") x y hit_square d in
    let text' = shot_message (codes "game_opp_fire") x y hit_square d in
    let run =
      shot_lem libc w c o g me opp game game' text text' op
        (opponent-hit_ship me.player_num n y x game game' d e ∙ op.facing) in
    (
      shot_done libc w c o g me opp game' text text',
      ground (arith, run),
      shot_done-Shot libc w c o g me opp game' text text' op.apart,
    )
