-- ===== src/Commands/Fire/Turns.antt =====
-- `cmd_game_fire` as a whole: the turn passes with each shot that counts.
use ups_sp.Prelude.{
  ℕ, ◌+◌, ◌<◌, ◌≡◌, ◌≢◌, refl, inl, inr, ◌⊎◌, Bool, false, none, some, [], ◌∷◌, Bytes, codes, arith,
  ◌∙◌,
}
use ups_sp.Prelude.Int.{ℤ, pos, negsuc}
use ups_sp.Game.Board.{empty_square, missed_square, put_square}
use ups_sp.Game.Marking.Ring.{IsOnBoard}
use ups_sp.Server.{
  Ref, Client, ClientState, Game, World, Libc, playing, load_client, load_game, success, failure,
}
use ups_sp.Server.Send.{message, decimal, send_message, refuse, record_sent}
use ups_sp.Commands.Args.{Args, coordinates}
use ups_sp.Commands.Fire.{
  is_playing, target_board, target_ships, with_target, fire_at, on_field, cmd_game_fire,
}
use ups_sp.Commands.Texts.{Numeral, NoPair, Outside, coordinates-NoPair, coordinates-Numeral}
use ups_sp.Commands.Fire.Shots.{Opposed, Shot, miss_lem, hit_lem, counts-hit_ship}
use ups_sp.Commands.Fire.Strikes.{Struck, hit_ship-Struck}

-- a player whose turn it is shoots at a square of the field
pub record Aims (libc : Libc) (argv : Args) (me : Client) (x y : ℕ) : Type 0 where
  pub turn : me.state ≡ playing
  pub asked : coordinates libc argv ≡ some (pos x, pos y)
  pub x_lt : x < 10
  pub y_lt : y < 10

module _ (libc : Libc) (w : World) (c o g : Ref) (me opp : Client) (game : Game) (argv : Args)
    (x y : ℕ) where
  pub fire_reaches :
      Opposed w c o g me opp game
      → Aims libc argv me x y
      → cmd_game_fire libc c argv w
        ≡ fire_at libc c me.name me.player_num g game x y (target_board me.player_num game y x) w
  unfolding cmd_game_fire load_client load_game
  fire_reaches op aim = ground arith

  -- A shot at an empty square in the player's turn succeeds. The square becomes a missed one, the
  -- rest of the game is as before, the shooter waits and the opponent is to play; no other client
  -- and no other game changes.
  pub cmd_game_fire-miss :
      Opposed w c o g me opp game
      → Aims libc argv me x y
      → target_board me.player_num game y x ≡ empty_square
      → (w' : World) × (cmd_game_fire libc c argv w ≡ some (success, w'))
        × Shot w w' c o g me opp (
            with_target me.player_num
              (put_square (target_board me.player_num game) y x missed_square)
              (target_ships me.player_num game)
              game)
  unfolding fire_at
  cmd_game_fire-miss op aim water =
      let (w', run, shot) = miss_lem libc w c o g me opp game x y op in
      (w', fire_reaches op aim ∙ ground (arith, run, water), shot)

  -- A shot in the player's turn at a square of ship n, standing on the board, while neither player
  -- has sunk six ships yet, succeeds. The game is changed as `Struck` says, the shooter waits and
  -- the opponent is to play; no other client and no other game changes.
  pub cmd_game_fire-hit :
      (n sy sx : ℕ)
      → Opposed w c o g me opp game
      → Aims libc argv me x y
      → n < 7
      → target_board me.player_num game y x ≡ b'0' + n
      → IsOnBoard (target_ships me.player_num game n) sy sx
      → game.p1_count < 6
      → game.p2_count < 6
      → (d : Bool) × (game' : Game) × (w' : World) × (cmd_game_fire libc c argv w
          ≡ some (success, w'))
        × Struck me.player_num n sy sx y x game d game'
        × Shot w w' c o g me opp game'
  unfolding fire_at
  cmd_game_fire-hit n sy sx op aim h digit placed few few' =
      let (d, game', struck, s) = hit_ship-Struck me.player_num n sy sx y x game h placed in
      let counts = counts-hit_ship me.player_num n y x game game' d struck in
      let (w', run, shot) =
        hit_lem libc w c o g me opp game game' n x y d op struck (omega (arith, few, counts))
          (omega (arith, few', counts)) in
      (d, game', w', fire_reaches op aim ∙ ground (arith, run, digit), s, shot)

-- What refuses a shot, with the error's number: it is not his turn; the arguments are not two numbers;
-- a number is not below 10; or the square is H or M.
pub data Refused (libc : Libc) (argv : Args) (me : Client) (w : World) (code : ℕ) : Type 0 where
  not_in_turn : me.state ≢ playing → code ≡ 5 → Refused libc argv me w code
  malformed : me.state ≡ playing → NoPair argv → code ≡ 2 → Refused libc argv me w code
  off_field :
      (a b : Bytes) (rest : Args)
      → me.state ≡ playing
      → argv ≡ some a ∷ some b ∷ rest
      → Numeral a
      → Numeral b
      → Outside 10 (libc.atoi a) ⊎ Outside 10 (libc.atoi b)
      → code ≡ 8
      → Refused libc argv me w code
  already_shot :
      (a b : Bytes) (rest : Args) (g : Ref) (game : Game) (x y : ℕ)
      → me.state ≡ playing
      → argv ≡ some a ∷ some b ∷ rest
      → Numeral a
      → Numeral b
      → libc.atoi a ≡ pos x
      → libc.atoi b ≡ pos y
      → x < 10
      → y < 10
      → me.game ≡ some g
      → w.games g ≡ some game
      → (target_board me.player_num game y x ≡ b'H') ⊎ (target_board me.player_num game y x ≡ b'M')
      → code ≡ 9
      → Refused libc argv me w code

-- a state other than playing
is_playing-other : (s : ClientState) → s ≢ playing → is_playing s ≡ false
is_playing-other s ne = ground arith

on_field-left : (x y : ℤ) → Outside 10 x → on_field (x, y) ≡ none
on_field-left x y (inl (k, e)) = rw e refl
on_field-left x (pos y) (inr (k, e, far)) = rw e (ground (arith, far))
on_field-left x (negsuc y) (inr (k, e, far)) = rw e refl

on_field-right : (x y : ℤ) → Outside 10 y → on_field (x, y) ≡ none
on_field-right (pos x) y (inl (k, e)) = rw e refl
on_field-right (negsuc x) y (inl (k, e)) = refl
on_field-right (pos x) y (inr (k, e, far)) = rw e (ground (arith, far))
on_field-right (negsuc x) y (inr (k, e, far)) = refl

on_field-Outside : (x y : ℤ) → Outside 10 x ⊎ Outside 10 y → on_field (x, y) ≡ none
on_field-Outside x y (inl off) = on_field-left x y off
on_field-Outside x y (inr off) = on_field-right x y off

module _ (libc : Libc) (w : World) (c : Ref) (me : Client) (argv : Args)
    (hc : w.clients c ≡ some me) where
  abbrev told : ℕ → World
  told code = record_sent libc me.fd (message (codes "game_fire_err" ∷ decimal code ∷ [])) w

  out_of_turn : is_playing me.state ≡ false → cmd_game_fire libc c argv w ≡ some (failure, told 5)
  unfolding cmd_game_fire load_client refuse send_message
  out_of_turn e = ground arith

  no_numbers :
      me.state ≡ playing
      → coordinates libc argv ≡ none
      → cmd_game_fire libc c argv w ≡ some (failure, told 2)
  unfolding cmd_game_fire load_client refuse send_message
  no_numbers turn e = ground arith

  far_off :
      (xy : ℤ × ℤ)
      → me.state ≡ playing
      → coordinates libc argv ≡ some xy
      → on_field xy ≡ none
      → cmd_game_fire libc c argv w ≡ some (failure, told 8)
  unfolding cmd_game_fire load_client refuse send_message
  far_off xy turn e off = ground arith

  shot_again :
      (g : Ref) (game : Game) (x y : ℕ)
      → Aims libc argv me x y
      → me.game ≡ some g
      → w.games g ≡ some game
      → (target_board me.player_num game y x ≡ b'H') ⊎ (target_board me.player_num game y x ≡ b'M')
      → cmd_game_fire libc c argv w ≡ some (failure, told 9)
  unfolding cmd_game_fire fire_at load_client load_game refuse send_message
  shot_again g game x y aim hg at (inl hit) = ground arith
  shot_again g game x y aim hg at (inr missed) = ground arith

-- A shot out of turn, with arguments that are not two texts of digits, with a number that is not from
-- 0 to 9, or at a square that was hit or missed before is refused with the error for it. The state
-- changes only in that the answer is sent.
pub cmd_game_fire-Refused :
    (libc : Libc) (w : World) (c : Ref) (me : Client) (argv : Args) (code : ℕ)
    → w.clients c ≡ some me
    → Refused libc argv me w code
    → cmd_game_fire libc c argv w
      ≡ some
          (failure, record_sent libc me.fd (message (codes "game_fire_err" ∷ decimal code ∷ [])) w)
cmd_game_fire-Refused libc w c me argv code hc (not_in_turn t e) =
    rw e (out_of_turn libc w c me argv hc (is_playing-other me.state t))
cmd_game_fire-Refused libc w c me argv code hc (malformed t a e) =
    rw e (no_numbers libc w c me argv hc t (coordinates-NoPair libc argv a))
cmd_game_fire-Refused libc w c me argv code hc (off_field a b rest t sent na nb out e) =
    let asked : coordinates libc argv ≡ some (libc.atoi a, libc.atoi b) =
      rw sent (coordinates-Numeral libc a b rest na nb) in
    rw e (
      far_off libc w c me argv hc (libc.atoi a, libc.atoi b) t asked
        (on_field-Outside (libc.atoi a) (libc.atoi b) out))
cmd_game_fire-Refused libc w c me argv code hc
      (already_shot a b rest g game x y t sent na nb ex ey hx hy hg at shot e) =
    let asked : coordinates libc argv ≡ some (pos x, pos y) =
      rw sent (coordinates-Numeral libc a b rest na nb ∙ rw (ex, ey) refl) in
    rw e (
      shot_again libc w c me argv hc g game x y
        (record { turn = t; asked = asked; x_lt = hx; y_lt = hy }) hg at shot)
