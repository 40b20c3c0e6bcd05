-- ===== src/Commands/Fire/Hunts.antt =====
-- A strategy for cmd_game_fire: the first square of the board that can be shot at.
use ups_sp.Prelude.{
  ℕ, ◌+◌, ◌-◌, ◌<◌, ◌≡◌, inl, inr, refl, true, Option, none, some, [], ◌∷◌, Bytes, ◌==◌, arith,
  Bool-cases,
}
use ups_sp.Prelude.Int.{pos}
use ups_sp.Game.Board.{Board, empty_square}
use ups_sp.Game.Battle.Targets.{is_target, find_target, find_target-found, InPlay-target}
use ups_sp.Server.{Ref, Client, Game, World, Libc}
use ups_sp.Commands.Args.{Args, coordinates, number, all_digits}
use ups_sp.Commands.Fire.{target_board, target_ships}
use ups_sp.Commands.Fire.Rallies.{Target, Strategy, AimsWell}

abbrev pub digit_text : ℕ → Bytes
digit_text n = (b'0' + n) ∷ []

abbrev shot_at : Option (ℕ × ℕ) → Args
shot_at none = []
shot_at (some (y, x)) = some (digit_text x) ∷ some (digit_text y) ∷ []

abbrev hunt_board : ℕ → Option Game → Args
hunt_board player none = []
hunt_board player (some game) = shot_at (find_target (target_board player game))

abbrev hunt_game : World → ℕ → Option Ref → Args
hunt_game w player none = []
hunt_game w player (some g) = hunt_board player (w.games g)

abbrev hunt_client : World → Option Client → Args
hunt_client w none = []
hunt_client w (some me) = hunt_game w me.player_num me.game

-- what the player c sends: the first target on his opponent's board
abbrev pub hunt : Strategy
hunt c w = hunt_client w (w.clients c)

-- `atoi` reads a single digit
abbrev pub ReadsDigit : Libc → Type 0
ReadsDigit libc = (n : ℕ) → n < 10 → libc.atoi (digit_text n) ≡ pos n

is_target-Target : (b : Board) (y x : ℕ) → is_target (b y x) ≡ true → Target b y x
is_target-Target b y x e = elim (Bool-cases (b y x == empty_square)) [
  | inl water ↦ inl (ground arith)
  | inr ship ↦ inr (b y x - b'0', ground arith, ground arith)
]

module _ (libc : Libc) (reads : ReadsDigit libc) where
  number-digit_text : (n : ℕ) → n < 10 → number libc (digit_text n) ≡ some (pos n)
  unfolding number all_digits
  number-digit_text n h = ground (arith, reads n h)

  coordinates-digits :
      (y x : ℕ)
      → y < 10
      → x < 10
      → coordinates libc (some (digit_text x) ∷ some (digit_text y) ∷ []) ≡ some (pos x, pos y)
  unfolding coordinates
  coordinates-digits y x hy hx = rw (number-digit_text x hx, number-digit_text y hy) refl

  -- In any game in play the strategy shoots at a square that is accepted.
  pub hunt-AimsWell : AimsWell libc hunt
  hunt-AimsWell w c o g me opp game rooms duel =
      let b = target_board me.player_num game in
      let (y0, x0, hy0, hx0, there) =
        InPlay-target b (target_ships me.player_num game) duel.side.in_play duel.side.some_left in
      let (y, x, found, hy, hx, good) = find_target-found b y0 x0 hy0 hx0 there in
      (
        x,
        y,
        record {
          turn = duel.turn;
          asked =
              rw (duel.opposed.mine, duel.opposed.in_it, duel.opposed.at_g, found)
                (coordinates-digits y x hy hx);
          x_lt = hx;
          y_lt = hy;
        },
        is_target-Target b y x good,
      )
