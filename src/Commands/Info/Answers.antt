-- ===== src/Commands/Info/Answers.antt =====
-- What `cmd_game_info` sends: when it fits into its buffer, and what it tells of the opponent.
use ups_sp.Prelude.{
  ℕ, zero, suc, ◌+◌, ◌/◌, ◌%◌, ◌≤◌, ◌<◌, ◌≡◌, ◌≢◌, ◌⊎◌, inl, inr, sym, refl, true, Option, none,
  some, List, [], ◌∷◌, Bytes, codes, ltb, if◌then◌else◌, arith, length, length-append, ◌∙◌, ap,
}
use ups_sp.Prelude.Int.{ℤ}
use ups_sp.Game.Board.{Board}
use ups_sp.Game.Placement.{Fleet}
use ups_sp.Server.{
  Ref, Client, Game, World, Libc, update, ClientState, unlogged, in_lobby, in_room, preparing,
  in_game, playing, load_client, load_game, Exit, success,
}
use ups_sp.Server.Send.{message, decimal, send_message, record_sent}
use ups_sp.Commands.Rooms.{is_gaming}
use ups_sp.Commands.Login.{state_number}
use ups_sp.Commands.Prepare.{own_board}
use ups_sp.Commands.Fire.{target_board, with_target}
use ups_sp.Commands.Prepare.Starts.{Seats, first, second}
use ups_sp.Commands.Info.{
  seen, squares_from, own_squares, seen_squares, sides, Tails, info_text, print_info, cmd_game_info,
}

length-squares_from : (f : ℕ → ℕ) (b : Board) (k n : ℕ) → length (squares_from f b k n) ≡ n
unfolding squares_from
length-squares_from f b k zero = refl
length-squares_from f b k (suc n) = ap suc (length-squares_from f b (k + 1) n)

squares_from-congr :
    (f : ℕ → ℕ) (b b' : Board) (k n : ℕ)
    → k + n ≤ 100
    → ((j i : ℕ) → j < 10 → i < 10 → f (b j i) ≡ f (b' j i))
    → squares_from f b k n ≡ squares_from f b' k n
unfolding squares_from
squares_from-congr f b b' k zero h e = refl
squares_from-congr f b b' k (suc n) h e =
    let here = e (k / 10) (k % 10) (omega arith) (omega arith) in
    rw (here, squares_from-congr f b b' (k + 1) n (omega arith) e)

state_digit : (s : ClientState) → length (decimal (state_number s)) ≡ 1
unfolding decimal
state_digit unlogged = refl
state_digit in_lobby = refl
state_digit in_room = refl
state_digit preparing = refl
state_digit in_game = refl
state_digit playing = refl

length-message_five :
    (a b c d e : Bytes)
    → length (message (a ∷ b ∷ c ∷ d ∷ e ∷ []))
      ≡ length a + length b + length c + length d + length e + 5
unfolding message
length-message_five a b c d e = omega (
  arith,
  length-append {0} a _,
  length-append {0} b _,
  length-append {0} c _,
  length-append {0} d _,
  length-append {0} e _,
)

length-info_text :
    (tails : Tails) (me opp : Client) (mine other : Board)
    → length (info_text tails me opp mine other)
      ≡ 220 + (length opp.name + length tails.after_own + length tails.after_seen)
unfolding info_text own_squares seen_squares
length-info_text tails me opp mine other = omega (
  arith,
  length-message_five (codes "game_info_data") (decimal (state_number me.state)) _ opp.name _,
  state_digit me.state,
  length-append {0} (squares_from (λ c. c) mine 0 100) tails.after_own,
  length-append {0} (squares_from seen other 0 100) tails.after_seen,
  length-squares_from (λ c. c) mine 0 100,
  length-squares_from seen other 0 100,
)

-- a player of a started game and his opponent
pub record Faces (w : World) (c o g : Ref) (me opp : Client) (game : Game) : Type 0 where
  pub mine : w.clients c ≡ some me
  pub other : w.clients o ≡ some opp
  pub apart : o ≢ c
  pub in_it : me.game ≡ some g
  pub at_g : w.games g ≡ some game
  pub seats : Seats me game c o
  pub gaming : is_gaming me.state ≡ true

module _ (libc : Libc) (w : World) (c o g : Ref) (me opp : Client) (game : Game)
    (tails : Tails) where
  abbrev pub answer : Bytes
  answer = info_text tails me opp (own_board me.player_num game) (target_board me.player_num game)

  sides_of :
      o ≢ c
      → Seats me game c o
      → sides c game ≡ some (own_board me.player_num game, target_board me.player_num game, some o)
  unfolding own_board target_board
  sides_of ne (first n a b) = ground arith
  sides_of ne (second n a b) = ground arith

  info_reaches :
      Faces w c o g me opp game → cmd_game_info libc tails c w ≡ print_info libc c answer w
  unfolding cmd_game_info load_client load_game
  info_reaches f = ground (arith, sides_of f.apart f.seats)

  print_info_run :
      w.clients c ≡ some me
      → (text : Bytes)
      → print_info libc c text w
        ≡ (if ltb (length text) 250 then some (success, record_sent libc me.fd text w) else none)
  unfolding print_info send_message load_client
  print_info_run hc text = ground arith

  -- The answer to a player of a started game fits into its buffer exactly if the opponent's name and
  -- what is printed after the two boards, which are not closed by a zero, have fewer than 30
  -- characters together. Then it is sent and nothing else changes; otherwise the code writes past
  -- the buffer.
  pub cmd_game_info_bounds :
      Faces w c o g me opp game
      → cmd_game_info libc tails c w ≡ (
          if ltb (length opp.name + length tails.after_own + length tails.after_seen) 30
          then some (success, record_sent libc me.fd answer w)
          else none)
  cmd_game_info_bounds f =
      info_reaches f
      ∙ print_info_run f.mine answer
      ∙ ground (
        arith,
        length-info_text tails me opp (own_board me.player_num game)
            (target_board me.player_num game),
      )

-- water or a ship, which the opponent must not learn
abbrev pub Hidden : ℕ → Type 0
Hidden c = (c ≡ b'E') ⊎ ((b'0' ≤ c) × (c ≤ b'6'))

-- two squares are hit both, missed both, or both neither
pub data Alike (c d : ℕ) : Type 0 where
  hits : c ≡ b'H' → d ≡ b'H' → Alike c d
  misses : c ≡ b'M' → d ≡ b'M' → Alike c d
  covered : Hidden c → Hidden d → Alike c d

seen-Hidden : (c : ℕ) → Hidden c → seen c ≡ b'E'
seen-Hidden c (inl e) = ground arith
seen-Hidden c (inr (low, high)) = ground arith

seen-Alike : (c d : ℕ) → Alike c d → seen c ≡ seen d
seen-Alike c d (hits e f) = rw (e, f) refl
seen-Alike c d (misses e f) = rw (e, f) refl
seen-Alike c d (covered p q) = seen-Hidden c p ∙ sym (seen-Hidden d q)

-- what went to sockets in a run that is defined
abbrev pub sent_in : Option (Exit × World) → Option (List (ℤ × Bytes))
sent_in none = none
sent_in (some (e, w)) = some w.sent

module _ (libc : Libc) (w : World) (c o g : Ref) (me opp : Client) (game : Game) (tails : Tails)
    (b : Board) (f : Fleet) where
  abbrev pub moved : Game
  moved = with_target me.player_num b f game

  -- the same state with other ships of the opponent
  abbrev pub elsewhere : World
  elsewhere = record w { games = update w.games g (some moved) }

  target_moved : target_board me.player_num moved ≡ b
  unfolding target_board with_target
  target_moved = ground arith

  own_moved : own_board me.player_num moved ≡ own_board me.player_num game
  unfolding own_board with_target
  own_moved = ground arith

  Seats-moved : Seats me game c o → Seats me moved c o
  unfolding with_target
  Seats-moved (first n a b) = first n (ground arith) (ground arith)
  Seats-moved (second n a b) = second n (ground arith) (ground arith)

  Faces-elsewhere : Faces w c o g me opp game → Faces elsewhere c o g me opp moved
  Faces-elsewhere p = record {
    mine = p.mine;
    other = p.other;
    apart = p.apart;
    in_it = p.in_it;
    at_g = (ground arith);
    seats = Seats-moved p.seats;
    gaming = p.gaming;
  }

  seen_squares-congr :
      ((j i : ℕ) → j < 10 → i < 10 → seen (b j i) ≡ seen (target_board me.player_num game j i))
      → seen_squares b ≡ seen_squares (target_board me.player_num game)
  unfolding seen_squares
  seen_squares-congr e =
      squares_from-congr seen b (target_board me.player_num game) 0 100 (omega arith) e

  answer-moved :
      seen_squares b ≡ seen_squares (target_board me.player_num game)
      → answer libc elsewhere c o g me opp moved tails ≡ answer libc w c o g me opp game tails
  unfolding info_text
  answer-moved e = rw (own_moved, target_moved, e)

  -- What is sent to a player tells nothing of the opponent's ships that were not hit: while the memory
  -- behind the two arrays is the same, it is the same for any other ships and any other board of the
  -- opponent that has the same hit and missed squares and water or ships at the others.
  pub cmd_game_info-seen :
      Faces w c o g me opp game
      → ((j i : ℕ) → j < 10 → i < 10 → Alike (target_board me.player_num game j i) (b j i))
      → sent_in (cmd_game_info libc tails c elsewhere) ≡ sent_in (cmd_game_info libc tails c w)
  cmd_game_info-seen p e =
      let here = cmd_game_info_bounds libc w c o g me opp game tails p in
      let there =
        cmd_game_info_bounds libc elsewhere c o g me opp moved tails (Faces-elsewhere p) in
      let texts =
        answer-moved (seen_squares-congr (λ j i hj hi. sym (seen-Alike _ _ (e j i hj hi)))) in
      rw (here, there, texts) (ground arith)
