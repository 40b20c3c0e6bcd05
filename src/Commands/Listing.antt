-- ===== src/Commands/Listing.antt =====
-- `cmd_room_list`: the rooms with a free seat.
pub mod Offers
mod Examples
use ups_sp.Prelude.{
  ℕ, zero, suc, ◌+◌, ◌-◌, ◌*◌, Bool, true, false, not, Option, none, some, List, [], ◌∷◌, ◌++◌,
  Bytes, codes, ltb, if◌then◌else◌, length,
}
use ups_sp.ArrayList
use ups_sp.ArrayList.{Link, nil, at, cell}
use ups_sp.Server.{
  Ref, Client, Game, World, Libc, M, ◌>>=◌, ◌>>◌, pure, need, load_client, load_game, Exit, success,
  failure,
}
use ups_sp.Server.Send.{split_symbol, message, decimal, send_message, refuse}
use ups_sp.Commands.Args.{error_internal, error_user_state}
use ups_sp.Commands.Rooms.{is_in_lobby}

-- the size of `temp`
abbrev pub entry_size : ℕ
entry_size = 32

-- `buffer` with its size, and the count of copied characters
pub record Buffer : Type 0 where
  pub text : Bytes
  pub size : ℕ
  pub copied : ℕ

abbrev pub new_buffer : Buffer
new_buffer = record { text = codes "room_list_data"; size = 1024; copied = 14 }

-- a text that is printed must fit with its closing zero
abbrev pub fits : Bytes → ℕ → Bool
fits text size = ltb (length text) size

-- the entry of a room; it is none if `temp` is too short
unfoldable pub entry : ℕ → Bytes → Option Bytes
entry i name =
    let temp = decimal i ++ (split_symbol ∷ name) in
    if fits temp entry_size then some temp else none

-- The buffer is doubled if the entry is longer than what is left by the count of copied characters,
-- which is at most the size. `sprintf` of the buffer into itself is taken to append.
unfoldable pub append_entry : Buffer → Bytes → Option Buffer
append_entry b temp =
    let size = if ltb (b.size - b.copied) (length temp) then 2 * b.size else b.size in
    let text = b.text ++ (split_symbol ∷ temp) in
    if fits text size
    then some (record { text = text; size = size; copied = b.copied + length temp })
    else none

-- the player who waits, or none, of a room that is not full; `none` for a full one
abbrev pub waiting : Game → Option (Option Ref)
waiting game = elim game.player1 [
  | none ↦ some game.player2
  | some p ↦ elim game.player2 [ none ↦ some (some p) | some q ↦ none ]
]

module _ (libc : Libc) where
  unfoldable pub add_entry : ℕ → Ref → Buffer → M Buffer
  add_entry i p b = do
    player ← load_client p
    temp ← need (entry i player.name)
    need (append_entry b temp)

  unfoldable pub finish_list : Ref → Buffer → M Exit
  finish_list c b =
      let text = b.text ++ (10 ∷ []) in
      if fits text b.size then (do send_message libc c text; pure success) else (λ w. none)

  -- the `while` loop, on fuel
  unfoldable pub list_from : ℕ → Ref → Link → Buffer → M Exit
  list_from zero c i b = λ w. none
  list_from (suc fuel) c nil b = finish_list c b
  list_from (suc fuel) c (at i) b = do
    rooms ← λ w. pure w.rooms w
    g ← need (cell rooms.items i)
    game ← load_game g
    elim (waiting game) [
      | none ↦ do next ← need (cell rooms.next i); list_from fuel c next b
      | some none ↦ refuse libc c (codes "room_list_err") error_internal
      | some (some p) ↦ do
        b' ← add_entry i p b
        next ← need (cell rooms.next i)
        list_from fuel c next b'
    ]

  abbrev is_nil : Link → Bool
  is_nil nil = true
  is_nil (at i) = false

  unfoldable pub cmd_room_list : Ref → M Exit
  cmd_room_list c = do
    me ← load_client c
    rooms ← λ w. pure w.rooms w
    if not (is_in_lobby me.state)
        then refuse libc c (codes "room_list_err") error_user_state
        else if is_nil rooms.first
        then (do send_message libc c (message (codes "room_list_data" ∷ [])); pure success)
        else list_from (rooms.capacity + 1) c rooms.first new_buffer
