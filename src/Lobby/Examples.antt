-- ===== src/Lobby/Examples.antt =====
-- The invariant at a concrete server, and the requests there.
use ups_sp.Prelude.{
  ℕ, ◌≡◌, ◌⊎◌, ◌∙◌, sym, ap, inl, inr, refl, true, some, none, [], ◌∷◌, codes, arith, ◌==◌,
  Bool-cases,
}
use ups_sp.ArrayList.Chains.{IsValid}
use ups_sp.Server.{Ref, Client, Game, World, in_lobby, in_room, preparing, lobby, started}
use ups_sp.Commands.Args.{Args, all_digits, number}
use ups_sp.Commands.Prepare.{cmd_game_prepared}
use ups_sp.Game.Samples.{good_text}
use ups_sp.Commands.Rooms.{is_gaming, cmd_room_join, cmd_room_create, cmd_room_leave}
use ups_sp.Commands.Samples.{libc, battle, rooms, world, ann, bob}
use ups_sp.Lobby.{Seated, second_waits, running, Hosted, InSeat, Consistent, Keeps}
use ups_sp.Lobby.Opens.{cmd_room_create-Keeps}
use ups_sp.Lobby.Joins.{Names, names, cmd_room_join-Keeps}
use ups_sp.Lobby.Prepares.{cmd_game_prepared-Keeps}
use ups_sp.Lobby.Leaves.{cmd_room_leave-Keeps}

abbrev room : Game
room = record battle { state = lobby; player1 = none; player2 = some 1 }

abbrev ann_prepares : Client
ann_prepares = record ann { state = preparing }

abbrev bob_prepares : Client
bob_prepares = record bob { state = preparing }

abbrev preparations : World
preparations = world ann_prepares bob_prepares battle

abbrev ann_idle : Client
ann_idle = record ann { state = in_lobby; game = none; player_num = 0 }

abbrev bob_waits : Client
bob_waits = record bob { state = in_room; player_num = 0 }

-- bob waits in room 0 of two, and ann is in the lobby
abbrev hall : World
hall = world ann_idle bob_waits room

rooms-IsValid : IsValid rooms (0 ∷ []) (1 ∷ [])
rooms-IsValid = record {
  first_used = refl;
  first_free = refl;
  used_linked = (refl, tt);
  free_linked = (refl, tt);
  parts = λ i. ground arith;
  total = refl;
  counted = omega arith;
  wide_next = omega arith;
  wide_items = omega arith;
}

hall-Hosted : Hosted hall (0 ∷ []) 0 5 room
hall-Hosted = record { is_used = refl; listed = refl; at_g = refl; numbered = refl }

hall-Seated : Seated hall 5 room
hall-Seated = second_waits 1 bob_waits refl refl refl refl refl refl

abbrev Slot : ℕ → Type 0
Slot i = (g : ℕ) × (game : Game) × Hosted hall (0 ∷ []) i g game × Seated hall g game

hall-Slot : Slot 0
hall-Slot = (5, room, hall-Hosted, hall-Seated)

hall-Consistent : Consistent hall (0 ∷ []) (1 ∷ [])
hall-Consistent = record {
  valid = rooms-IsValid;
  counted = refl;
  limit = refl;
  slot = λ i u. let zero_is : i ≡ 0 = ground arith in rw zero_is hall-Slot;
  member = λ c me g hc hg.
      let at_5 : g ≡ 5 = ground arith in
      let bob_is : c ≡ 1 = ground arith in (0, room, rw at_5 hall-Hosted, inr (ground arith));
  idle = λ c me hc hg. elim (Bool-cases (c == 0)) [
    | inl e ↦ let is : me ≡ ann_idle = ground arith in rw is (refl, refl)
    | inr e ↦ absurd (ground arith)
  ];
  below = λ g game at. ground arith;
}

cmd_room_create-Keeps_example : Keeps (cmd_room_create libc true room 0 hall)
cmd_room_create-Keeps_example =
    cmd_room_create-Keeps libc true room hall 0 ann_idle refl (0 ∷ []) (1 ∷ []) hall-Consistent

abbrev room_0 : Args
room_0 = some (codes "0") ∷ []

asks : Names libc hall (0 ∷ []) room_0
unfolding number all_digits libc
asks = names 0 refl refl

cmd_room_join-Keeps_example : Keeps (cmd_room_join libc 0 room_0 hall)
cmd_room_join-Keeps_example =
    cmd_room_join-Keeps libc hall 0 ann_idle room_0 (0 ∷ []) (1 ∷ []) hall-Consistent refl asks

cmd_room_leave-Keeps_example : Keeps (cmd_room_leave libc 1 hall)
cmd_room_leave-Keeps_example =
    cmd_room_leave-Keeps libc hall 1 bob_waits refl (0 ∷ []) (1 ∷ []) hall-Consistent

-- a game between two clients
module _ (a b : Client) (game : Game) (begun : game.state ≡ started) (zero_is : game.id ≡ 0)
    (h1 : game.player1 ≡ some 0) (h2 : game.player2 ≡ some 1) (ag : a.game ≡ some 5)
    (bg : b.game ≡ some 5) (sa : is_gaming a.state ≡ true) (sb : is_gaming b.state ≡ true)
    (an : a.player_num ≡ 1) (bn : b.player_num ≡ 2) where
  game-Hosted : Hosted (world a b game) (0 ∷ []) 0 5 game
  game-Hosted = record { is_used = refl; listed = refl; at_g = refl; numbered = zero_is }

  game-Seated : Seated (world a b game) 5 game
  game-Seated = running 0 1 a b begun h1 h2 (λ e. ground arith) refl refl ag bg sa sb an bn

  -- who is there
  a_or_b :
      (c : Ref) (me : Client)
      → (world a b game).clients c ≡ some me
      → ((c ≡ 0) × (me ≡ a)) ⊎ ((c ≡ 1) × (me ≡ b))
  a_or_b c me hc = elim (Bool-cases (c == 0)) [
    | inl e ↦ inl (ground arith, ground arith)
    | inr e ↦ inr (ground arith, ground arith)
  ]

  game_member :
      (c : Ref) (me : Client) (g : Ref)
      → (world a b game).clients c ≡ some me
      → me.game ≡ some g
      → (i : ℕ) × (game' : Game) × Hosted (world a b game) (0 ∷ []) i g game' × InSeat game' c
  game_member c me g hc hg = elim (a_or_b c me hc) [
    | inl (e, is) ↦
        let five : g ≡ 5 = ground (arith, is, ag) in
        (0, game, rw five game-Hosted, inl (h1 ∙ ap some (sym e)))
    | inr (e, is) ↦
        let five : g ≡ 5 = ground (arith, is, bg) in
        (0, game, rw five game-Hosted, inr (h2 ∙ ap some (sym e)))
  ]

  game-Consistent : Consistent (world a b game) (0 ∷ []) (1 ∷ [])
  game-Consistent = record {
    valid = rooms-IsValid;
    counted = refl;
    limit = refl;
    slot = λ i u. let first_is : i ≡ 0 = ground arith in rw first_is (at_zero);
    member = game_member;
    idle = λ c me hc hg. elim (a_or_b c me hc) [
      | inl (e, is) ↦ absurd (ground (arith, is, ag))
      | inr (e, is) ↦ absurd (ground (arith, is, bg))
    ];
    below = λ g game' at. ground arith;
  }
    where
      at_zero :
          (g : ℕ) × (game' : Game) × Hosted (world a b game) (0 ∷ []) 0 g game'
          × Seated (world a b game) g game'
      at_zero = (5, game, game-Hosted, game-Seated)

cmd_game_prepared-Keeps_example :
    Keeps (cmd_game_prepared libc 0 (some good_text ∷ []) preparations)
cmd_game_prepared-Keeps_example =
    cmd_game_prepared-Keeps libc preparations 0 ann_prepares (some good_text ∷ []) refl (0 ∷ [])
      (1 ∷ [])
      (game-Consistent ann_prepares bob_prepares battle refl refl refl refl refl refl refl refl refl
        refl)
