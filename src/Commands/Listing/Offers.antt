-- ===== src/Commands/Listing/Offers.antt =====
-- What `cmd_room_list` sends: the rooms with a free seat, newest first.
use ups_sp.Prelude.{
  ℕ, zero, suc, ◌+◌, ◌≤◌, ◌<◌, ◌≡◌, refl, false, Option, none, some, List, [], ◌∷◌, ◌++◌, Bytes,
  codes, ltb, if◌then◌else◌, arith, length, length-append, ◌∙◌, ap, sym, Bool-cases, inl, inr,
}
use ups_sp.ArrayList.{nil, at, cell}
use ups_sp.ArrayList.Chains.{IsValid, Linked, link}
use ups_sp.Server.{
  Ref, Client, Game, World, Libc, ◌>>=◌, need, in_lobby, load_client, load_game, Exit, success,
}
use ups_sp.Server.Send.{split_symbol, message, send_message, record_sent}
use ups_sp.Commands.Rooms.Joins.{Free, first_free, second_free}
use ups_sp.Commands.Listing.{
  Buffer, new_buffer, entry, append_entry, add_entry, finish_list, list_from, cmd_room_list,
}

-- the entries for the rooms in the used slots: full rooms have none
pub data Offers (w : World) : List ℕ → List Bytes → Type 0 where
  end : Offers w [] []
  full :
      {i : ℕ} {used : List ℕ} {es : List Bytes} (g p q : Ref) (room : Game)
      → cell w.rooms.items i ≡ some g
      → w.games g ≡ some room
      → room.player1 ≡ some p
      → room.player2 ≡ some q
      → Offers w used es
      → Offers w (i ∷ used) es
  waits :
      {i : ℕ} {used : List ℕ} {e : Bytes} {es : List Bytes} (g p n : ℕ) (room : Game)
      (player : Client)
      → cell w.rooms.items i ≡ some g
      → w.games g ≡ some room
      → Free room p n
      → w.clients p ≡ some player
      → entry i player.name ≡ some e
      → Offers w used es
      → Offers w (i ∷ used) (e ∷ es)

-- what follows the first field of a message
tail_of : List Bytes → Bytes
tail_of [] = 10 ∷ []
tail_of (e ∷ es) = split_symbol ∷ (e ++ tail_of es)

message-tail_of : (f : Bytes) (es : List Bytes) → message (f ∷ es) ≡ f ++ tail_of es
unfolding message tail_of
message-tail_of f [] = refl
message-tail_of f (e ∷ es) = ap (λ t. f ++ (split_symbol ∷ t)) (message-tail_of e es)

abbrev pub total : List Bytes → ℕ
total [] = 0
total (e ∷ es) = length e + total es

append_split : (a b t : Bytes) (x : ℕ) → (a ++ (x ∷ b)) ++ t ≡ a ++ (x ∷ (b ++ t))
append_split [] b t x = refl
append_split (y ∷ a) b t x = ap (λ s. y ∷ s) (append_split a b t x)

module _ (libc : Libc) (w : World) (c : Ref) (me : Client) (hc : w.clients c ≡ some me) where
  -- the answer, if it fits
  abbrev sends : Bytes → Option (Exit × World)
  sends text =
      if ltb (length text) 1024 then some (success, record_sent libc me.fd text w) else none

  abbrev grown : Buffer → Bytes → Buffer
  grown b e = record {
    text = b.text ++ (split_symbol ∷ e);
    size = 1024;
    copied = b.copied + length e;
  }

  append_entry_run :
      (b : Buffer) (e : Bytes)
      → b.size ≡ 1024
      → b.copied + length e ≤ 1024
      → append_entry b e
        ≡ (if ltb (length (b.text ++ (split_symbol ∷ e))) 1024 then some (grown b e) else none)
  unfolding append_entry
  append_entry_run b e s h = ground arith

  finish_list_run :
      (b : Buffer) → b.size ≡ 1024 → finish_list libc c b w ≡ sends (b.text ++ (10 ∷ []))
  unfolding finish_list send_message load_client
  finish_list_run b s = ground arith

  full_step :
      (fuel i g p q : ℕ) (room : Game) (rest : List ℕ) (b : Buffer)
      → cell w.rooms.items i ≡ some g
      → w.games g ≡ some room
      → room.player1 ≡ some p
      → room.player2 ≡ some q
      → cell w.rooms.next i ≡ some (link rest)
      → list_from libc (suc fuel) c (at i) b w ≡ list_from libc fuel c (link rest) b w
  unfolding list_from load_game
  full_step fuel i g p q room rest b hi hg h1 h2 hn = ground arith

  waits_step :
      (fuel i g p n : ℕ) (room : Game) (player : Client) (e : Bytes) (rest : List ℕ) (b : Buffer)
      → cell w.rooms.items i ≡ some g
      → w.games g ≡ some room
      → Free room p n
      → w.clients p ≡ some player
      → entry i player.name ≡ some e
      → cell w.rooms.next i ≡ some (link rest)
      → list_from libc (suc fuel) c (at i) b w
        ≡ (need (append_entry b e) >>= λ b'. list_from libc fuel c (link rest) b') w
  unfolding list_from add_entry load_game load_client
  waits_step fuel i g p n room player e rest b hi hg (first_free a z) hp he hn = ground arith
  waits_step fuel i g p n room player e rest b hi hg (second_free a z) hp he hn = ground arith

  cut_short :
      (a b : Bytes) (es : List Bytes)
      → ltb (length (a ++ (split_symbol ∷ b))) 1024 ≡ false
      → sends (a ++ tail_of (b ∷ es)) ≡ none
  unfolding tail_of
  cut_short a b es h =
      let n = length-append a (split_symbol ∷ (b ++ tail_of es)) in
      let m = length-append a (split_symbol ∷ b) in
      let k = length-append b (tail_of es) in ground arith

  list_from_run :
      (fuel : ℕ) (used : List ℕ) (es : List Bytes) (b : Buffer)
      → length used < fuel
      → Linked w.rooms.next used
      → Offers w used es
      → b.size ≡ 1024
      → b.copied + total es ≤ 1024
      → list_from libc fuel c (link used) b w ≡ sends (b.text ++ tail_of es)
  unfolding list_from tail_of
  list_from_run zero used es b f l o s h = absurd (omega arith)
  list_from_run (suc fuel) [] [] b f l end s h = finish_list_run b s
  list_from_run (suc fuel) [] (e ∷ es) b f l o s h = elim o [ ]
  list_from_run (suc fuel) (i ∷ used) es b f l (full g p q room hi hg h1 h2 o) s h =
      full_step fuel i g p q room used b hi hg h1 h2 l.0
      ∙ list_from_run fuel used es b (omega arith) l.1 o s h
  list_from_run (suc fuel) (i ∷ used) (e ∷ es) b f l (waits g p n room player hi hg free hp he o) s
        h =
      let step = waits_step fuel i g p n room player e used b hi hg free hp he l.0 in
      let put = append_entry_run b e s (omega arith) in
      let rest = list_from_run fuel used es (grown b e) (omega arith) l.1 o refl (omega arith) in
      let text = append_split b.text e (tail_of es) split_symbol in
      step ∙ elim (Bool-cases (ltb (length (b.text ++ (split_symbol ∷ e))) 1024)) [
        | inl short ↦ rw (put, short) (rest ∙ ap sends text)
        | inr long ↦ rw (put, long) (sym (cut_short b.text e es long))
      ]

  nil_run :
      me.state ≡ in_lobby
      → w.rooms.first ≡ nil
      → cmd_room_list libc c w ≡ sends (message (codes "room_list_data" ∷ []))
  unfolding cmd_room_list load_client send_message message
  nil_run hs e = ground arith

  at_run :
      (i : ℕ)
      → me.state ≡ in_lobby
      → w.rooms.first ≡ at i
      → cmd_room_list libc c w ≡ list_from libc (w.rooms.capacity + 1) c (at i) new_buffer w
  unfolding cmd_room_list load_client
  at_run i hs e = ground arith

  -- A client of the lobby asks for the rooms. While the entries of the waiting rooms have at most
  -- 1010 characters together, the answer has exactly these entries, in the order of the list, and
  -- nothing else changes, if it fits into 1024 characters with its separators and its closing zero;
  -- otherwise the code writes past its buffer.
  pub cmd_room_list-Offers :
      (used free : List ℕ) (es : List Bytes)
      → me.state ≡ in_lobby
      → IsValid w.rooms used free
      → Offers w used es
      → total es ≤ 1010
      → cmd_room_list libc c w ≡ (
          if ltb (length (message (codes "room_list_data" ∷ es))) 1024
          then some (success, record_sent libc me.fd (message (codes "room_list_data" ∷ es)) w)
          else none)
  cmd_room_list-Offers [] free [] hs v end h = nil_run hs v.first_used
  cmd_room_list-Offers [] free (e ∷ es) hs v o h = elim o [ ]
  cmd_room_list-Offers (i ∷ used) free es hs v o h =
      at_run i hs v.first_used
      ∙ list_from_run (w.rooms.capacity + 1) (i ∷ used) es new_buffer (omega (arith, v.total))
          v.used_linked o refl (omega (arith, h))
      ∙ ap sends (sym (message-tail_of (codes "room_list_data") es))
