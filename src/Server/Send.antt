-- ===== src/Server/Send.antt =====
-- `send_message` of main.c, and the texts that the commands send.
use ups_sp.Prelude.{
  ℕ, zero, suc, ◌+◌, ◌/◌, ◌%◌, some, List, [], ◌∷◌, ◌++◌, Bytes, ltb, if◌then◌else◌,
}
use ups_sp.Prelude.Int.{ℤ, pos, ◌+ℤ◌, leb_ℤ}
use ups_sp.Server.{Ref, World, Libc, M, ◌>>=◌, ◌>>◌, load_client, Exit, failure, pure}

-- SPLIT_SYMBOL
abbrev pub split_symbol : ℕ
split_symbol = b';'

-- fields with the split symbol between them and a line feed after them
unfoldable pub message : List Bytes → Bytes
message [] = 10 ∷ []
message (f ∷ []) = f ++ (10 ∷ [])
message (f ∷ g ∷ fs) = f ++ (split_symbol ∷ message (g ∷ fs))

-- `%d` for a number that is not negative; the fuel n + 1 is enough, since n falls in each round
decimal_fuel : ℕ → ℕ → Bytes
decimal_fuel zero n = []
decimal_fuel (suc fuel) n =
    let rest = decimal_fuel fuel (n / 10) in
    if ltb n 10 then (b'0' + n) ∷ [] else rest ++ ((b'0' + n % 10) ∷ [])

unfoldable pub decimal : ℕ → Bytes
unfolding decimal_fuel
decimal n = decimal_fuel (n + 1) n

module _ (libc : Libc) where
  -- the sent text, and the statistics if `send` gives a positive number
  abbrev pub record_sent : ℤ → Bytes → World → World
  record_sent fd text w =
      let n = libc.send fd text in
      record w {
        sent = (fd, text) ∷ w.sent;
        messages_out = if leb_ℤ n (pos 0) then w.messages_out else w.messages_out +ℤ pos 1;
        bytes_out = if leb_ℤ n (pos 0) then w.bytes_out else w.bytes_out +ℤ n;
      }

  unfoldable pub send_message : Ref → Bytes → M (Unit {0})
  unfolding load_client
  send_message c text = do me ← load_client c; λ w. some (tt, record_sent me.fd text w)

  -- the end of a refused command
  unfoldable pub refuse : Ref → Bytes → ℕ → M Exit
  refuse c name code = do send_message c (message (name ∷ decimal code ∷ [])); pure failure
