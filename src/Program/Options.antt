-- ===== src/Program/Options.antt =====
-- Options of the command line, in any order, and the server that `main` starts from them.
use ups_sp.Prelude.{
  ℕ, suc, ◌+◌, ◌*◌, ◌-◌, ◌&&◌, leb, Option, ◌≤◌, ◌<◌, ◌≡◌, ◌⊎◌, inl, inr, refl, Bool, true, false,
  ◌∙◌, ap, none, some, List, [], ◌∷◌, Bytes, codes, same, ltb, if◌then◌else◌, arith, Bool-cases,
  length,
}
use ups_sp.Prelude.Int.{ℤ, pos, eqb_ℤ}
use ups_sp.Game.Ship.{minus_one}
use ups_sp.Server.{World, Libc}
use ups_sp.Server.Send.{decimal}
use ups_sp.Commands.Args.{all_digits}
use ups_sp.Connections.Starts.{Started, server_init-Started}
use ups_sp.Program.{
  Settings, default_port, default_max_rooms, default_max_players_num, read_number, read_option,
  read_options, Start, listen, bad_port, few_rooms, few_players, start_with, main,
}

pub data Kind : Type 0 where
  port rooms players : Kind

-- an option by its short or its long name, with the text of its value
pub record Setting : Type 0 where
  pub kind : Kind
  pub long : Bool
  pub value : Bytes

unfoldable pub flag : Kind → Bool → Bytes
flag port long = if long then codes "--port" else codes "-p"
flag rooms long = if long then codes "--rooms" else codes "-r"
flag players long = if long then codes "--players" else codes "-pl"

abbrev pub texts : List Setting → List Bytes
texts [] = []
texts (s ∷ ss) = flag s.kind s.long ∷ s.value ∷ texts ss

-- the number that a text of digits stands for, in decimal
unfoldable pub digits_from : ℕ → Bytes → Option ℕ
digits_from n [] = some n
digits_from n (c ∷ cs) =
    let rest = digits_from (n * 10 + (c - b'0')) cs in
    if leb b'0' c && leb c b'9' then rest else none

abbrev pub value_of : Bytes → Option ℕ
value_of text = digits_from 0 text

abbrev value_else : ℕ → Option ℕ → ℕ
value_else default none = default
value_else default (some n) = n

-- a text of digits is its number, and any other one the default
abbrev pub value_or : ℕ → Bytes → ℕ
value_or default text = value_else default (value_of text)

abbrev pub apply : Kind → Bytes → Settings → Settings
apply port text s = record s { port = pos (value_or 9123 text) }
apply rooms text s = record s { max_rooms = pos (value_or 10 text) }
apply players text s = record s { max_players = pos (value_or 20 text) }

-- each option in its turn, so that the last one of a kind wins
abbrev pub apply_all : List Setting → Settings → Settings
apply_all [] s = s
apply_all (t ∷ ts) s = apply_all ts (apply t.kind t.value s)

-- no port, 10 rooms and 20 players
abbrev pub unset : Settings
unset = record { port = pos 0; max_rooms = pos 10; max_players = pos 20; ip = none }

-- `atoi` of digits whose number is an `int` is that number
abbrev pub ReadsDigits : Libc → Type 0
ReadsDigits libc =
    (text : Bytes) (n : ℕ)
    → value_of text ≡ some n
    → 0 < length text
    → n < 2147483648
    → libc.atoi text ≡ pos n

-- a text with another character than a digit, or digits whose number is an `int`
pub data Readable (text : Bytes) : Type 0 where
  word : value_of text ≡ none → Readable text
  int : (n : ℕ) → value_of text ≡ some n → 0 < length text → n < 2147483648 → Readable text

abbrev pub AllReadable : List Setting → Type 0
AllReadable [] = Unit {0}
AllReadable (t ∷ ts) = Readable t.value × AllReadable ts

abbrev is_number : Option ℕ → Bool
is_number none = false
is_number (some n) = true

all_digits-digits_from : (n : ℕ) (text : Bytes) → all_digits text ≡ is_number (digits_from n text)
unfolding all_digits digits_from
all_digits-digits_from n [] = refl
all_digits-digits_from n (c ∷ cs) = elim (Bool-cases (leb b'0' c && leb c b'9')) [
  | inl digit ↦ rw digit (all_digits-digits_from (n * 10 + (c - b'0')) cs)
  | inr other ↦ rw other refl
]

-- no setting is marked
record IsPlain (s : Settings) : Type 0 where
  port_plain : eqb_ℤ s.port minus_one ≡ false
  rooms_plain : eqb_ℤ s.max_rooms minus_one ≡ false
  players_plain : eqb_ℤ s.max_players minus_one ≡ false

pos-plain : (n : ℕ) → eqb_ℤ (pos n) minus_one ≡ false
pos-plain n = ground arith

apply-IsPlain : (k : Kind) (text : Bytes) (s : Settings) → IsPlain s → IsPlain (apply k text s)
apply-IsPlain port text s p = record {
  port_plain = pos-plain (value_or 9123 text);
  rooms_plain = p.rooms_plain;
  players_plain = p.players_plain;
}
apply-IsPlain rooms text s p = record {
  port_plain = p.port_plain;
  rooms_plain = pos-plain (value_or 10 text);
  players_plain = p.players_plain;
}
apply-IsPlain players text s p = record {
  port_plain = p.port_plain;
  rooms_plain = p.rooms_plain;
  players_plain = pos-plain (value_or 20 text);
}

apply-ip : (k : Kind) (text : Bytes) (s : Settings) → (apply k text s).ip ≡ s.ip
apply-ip port text s = refl
apply-ip rooms text s = refl
apply-ip players text s = refl

apply_all-ip : (ts : List Setting) (s : Settings) → (apply_all ts s).ip ≡ s.ip
apply_all-ip [] s = refl
apply_all-ip (t ∷ ts) s = apply_all-ip ts (apply t.kind t.value s) ∙ apply-ip t.kind t.value s

module _ (libc : Libc) (reads : ReadsDigits libc) where
  read_number_lem :
      (default : ℕ) (old : ℤ) (text : Bytes)
      → eqb_ℤ old minus_one ≡ false
      → Readable text
      → read_number libc default old text ≡ pos (value_or default text)
  unfolding read_number
  read_number_lem default old text plain (word e) =
      let digits : all_digits text ≡ false = all_digits-digits_from 0 text ∙ rw e refl in
      rw (digits, e) (ground arith)
  read_number_lem default old text plain (int n e long small) =
      let digits : all_digits text ≡ true = all_digits-digits_from 0 text ∙ rw e refl in
      rw (digits, plain, e) (reads text n e long small)

  read_option_lem :
      (k : Kind) (long : Bool) (text : Bytes) (s : Settings)
      → IsPlain s
      → Readable text
      → read_option libc (flag k long) text s ≡ some (true, apply k text s)
  unfolding read_option flag same
  read_option_lem port true text s p r =
      rw (read_number_lem default_port s.port text p.port_plain r)
  read_option_lem port false text s p r =
      rw (read_number_lem default_port s.port text p.port_plain r)
  read_option_lem rooms true text s p r =
      rw (read_number_lem default_max_rooms s.max_rooms text p.rooms_plain r)
  read_option_lem rooms false text s p r =
      rw (read_number_lem default_max_rooms s.max_rooms text p.rooms_plain r)
  read_option_lem players true text s p r =
      rw (read_number_lem default_max_players_num s.max_players text p.players_plain r)
  read_option_lem players false text s p r =
      rw (read_number_lem default_max_players_num s.max_players text p.players_plain r)

  read_options-value :
      (value : Bytes) (ts : List Setting) (s : Settings)
      → read_options libc true (value ∷ texts ts) s ≡ read_options libc false (texts ts) s
  unfolding read_options
  read_options-value value [] s = refl
  read_options-value value (t ∷ ts) s = refl

  read_options_lem :
      (ts : List Setting) (s : Settings)
      → IsPlain s
      → AllReadable ts
      → read_options libc false (texts ts) s ≡ some (apply_all ts s)
  unfolding read_options
  read_options_lem [] s p all = refl
  read_options_lem (t ∷ ts) s p (r, all) = rw (read_option_lem t.kind t.long t.value s p r) (
      read_options-value t.value ts _
      ∙ read_options_lem ts _ (apply-IsPlain t.kind t.value s p) all)

  unset-IsPlain : IsPlain unset
  unset-IsPlain = record { port_plain = refl; rooms_plain = refl; players_plain = refl }

  -- With one option or more, the program starts as these options say, each in its turn.
  main_reads :
      (program : Bytes) (t : Setting) (ts : List Setting)
      → AllReadable (t ∷ ts)
      → main libc (program ∷ texts (t ∷ ts)) ≡ some (start_with (apply_all (t ∷ ts) unset))
  unfolding main
  main_reads program t ts all =
      let run = read_options_lem (t ∷ ts) unset unset-IsPlain all in
      let long : ltb (length (texts (t ∷ ts))) 2 ≡ false = ground arith in rw (long, run)

  start_with-listen :
      (s : Settings) (p r n : ℕ)
      → s.port ≡ pos p
      → s.max_rooms ≡ pos (suc r)
      → s.max_players ≡ pos n
      → 0 < p
      → p ≤ 65535
      → 2 ≤ n
      → (w : World) × (start_with s ≡ listen w (decimal p) s.ip) × Started (suc r) n w
  unfolding start_with
  start_with-listen s p r n ep er el h h' few =
      let (w, run, started) = server_init-Started r n (omega arith) in
      (w, ground (arith, run, ep, er, el), started)

  module _ (program : Bytes) (t : Setting) (ts : List Setting) (all : AllReadable (t ∷ ts)) where
    abbrev chosen : Settings
    chosen = apply_all (t ∷ ts) unset

    -- Options for the port, the rooms and the players, by their short or long names, in any order and
    -- number, of which the last of each kind counts. A text of digits is its number, which is below
    -- 2^31 and which `atoi` then reads, and a text with another character is 9123 for the port, 10 for
    -- the rooms and 20 for the players; without an option there are 10 rooms and 20 players. For a
    -- port from 1 to 65535, one room or more and two players or more, the program listens at that port
    -- with a new server for so many rooms and players, and with no address.
    pub main-listen :
        (p r n : ℕ)
        → chosen.port ≡ pos p
        → chosen.max_rooms ≡ pos (suc r)
        → chosen.max_players ≡ pos n
        → 0 < p
        → p ≤ 65535
        → 2 ≤ n
        → (w : World) × (main libc (program ∷ texts (t ∷ ts)) ≡ some (listen w (decimal p) none))
          × Started (suc r) n w
    main-listen p r n ep er en h h' few =
        let (w, run, started) = start_with-listen chosen p r n ep er en h h' few in
        (
          w,
          main_reads program t ts all
              ∙ ap some (run ∙ ap (listen w (decimal p)) (apply_all-ip (t ∷ ts) unset)),
          started,
        )

    -- why the program ends before it listens, and how
    pub data Stops (end : Start) : Type 0 where
      out_of_range :
          (p : ℕ) → chosen.port ≡ pos p → (p ≡ 0) ⊎ (65535 < p) → end ≡ bad_port → Stops end
      no_room :
          (p : ℕ)
          → chosen.port ≡ pos p
          → 0 < p
          → p ≤ 65535
          → chosen.max_rooms ≡ pos 0
          → end ≡ few_rooms
          → Stops end
      one_player :
          (p r n : ℕ)
          → chosen.port ≡ pos p
          → 0 < p
          → p ≤ 65535
          → chosen.max_rooms ≡ pos (suc r)
          → chosen.max_players ≡ pos n
          → n < 2
          → end ≡ few_players
          → Stops end

    start_with-Stops : (end : Start) → Stops end → start_with chosen ≡ end
    unfolding start_with
    start_with-Stops end (out_of_range p ep (inl low) e) = rw ep (ground (arith, low, e))
    start_with-Stops end (out_of_range p ep (inr high) e) = rw ep (ground (arith, high, e))
    start_with-Stops end (no_room p ep h h' none_open e) = rw (ep, none_open) (ground (arith, e))
    start_with-Stops end (one_player p r n ep h h' er en few e) =
        rw (ep, er, en) (ground (arith, e))

    -- Options as above, whose texts are words or digits below 2^31, that leave the port 0 or above
    -- 65535, no room, or fewer than two players: the program ends without a server, for the first of
    -- these reasons.
    pub main-Stops : (end : Start) → Stops end → main libc (program ∷ texts (t ∷ ts)) ≡ some end
    main-Stops end stops = main_reads program t ts all ∙ ap some (start_with-Stops end stops)
