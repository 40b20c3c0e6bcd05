-- ===== src/Program/Examples.antt =====
-- Command lines, at concrete inputs.
use ups_sp.Prelude.{
  ℕ, ◌+◌, ◌*◌, ◌-◌, ◌&&◌, leb, ap, Bool-cases, ◌≡◌, inl, inr, refl, true, false, none, some, List,
  [], ◌∷◌, Bytes, codes, same, arith,
}
use ups_sp.Prelude.Int.{pos}
use ups_sp.Server.{World}
use ups_sp.Server.Send.{decimal}
use ups_sp.Commands.Samples.{libc, read_from}
use ups_sp.Connections.Starts.{Started}
use ups_sp.Program.{Settings, read_option, read_options, listen, bad_port, main}
use ups_sp.Program.Options.{
  unset, digits_from, AllReadable, word, int, apply_all, Setting, port, rooms, players, texts,
  ReadsDigits, out_of_range, main-listen, main-Stops,
}

read_from-digits_from :
    (n m : ℕ) (text : Bytes) → digits_from n text ≡ some m → read_from n text ≡ m
unfolding read_from digits_from
read_from-digits_from n m [] e = ground (arith, e)
read_from-digits_from n m (c ∷ cs) e = elim (Bool-cases (leb b'0' c && leb c b'9')) [
  | inl digit ↦ read_from-digits_from (n * 10 + (c - b'0')) m cs (ground (arith, e))
  | inr other ↦ absurd (ground (arith, e))
]

libc-ReadsDigits : ReadsDigits libc
unfolding libc
libc-ReadsDigits text n e long small = ap pos (read_from-digits_from 0 n text e)

abbrev server : Bytes
server = codes "./server"

abbrev at_8080 : Setting
at_8080 = record { kind = port; long = false; value = codes "8080" }

abbrev many_players : Setting
many_players = record { kind = players; long = false; value = codes "many" }

-- four rooms, and a number of players that is no number
abbrev four_rooms : List Setting
four_rooms = record { kind = rooms; long = true; value = codes "4" } ∷ many_players ∷ []

abbrev read : Settings
read = apply_all (at_8080 ∷ four_rooms) unset

settings_read : (read.port ≡ pos 8080) × (read.max_rooms ≡ pos 4) × (read.max_players ≡ pos 20)
unfolding digits_from
settings_read = (refl, refl, refl)

readable : AllReadable (at_8080 ∷ four_rooms)
unfolding digits_from
readable = (
  int 8080 refl (omega arith) (omega arith),
  (int 4 refl (omega arith) (omega arith), (word refl, tt)),
)

main-listen_example :
    (w : World) × (main libc (server ∷ texts (at_8080 ∷ four_rooms))
      ≡ some (listen w (decimal 8080) none))
    × Started 4 20 w
main-listen_example =
    main-listen libc libc-ReadsDigits server at_8080 four_rooms readable 8080 3 20 settings_read.0
      settings_read.1 settings_read.2 (omega arith) (omega arith) (omega arith)

abbrev at_99999 : Setting
at_99999 = record { kind = port; long = true; value = codes "99999" }

readable_99999 : AllReadable (at_99999 ∷ [])
unfolding digits_from
readable_99999 = (int 99999 refl (omega arith) (omega arith), tt)

port_99999 : (apply_all (at_99999 ∷ []) unset).port ≡ pos 99999
unfolding digits_from
port_99999 = refl

main-Stops_example : main libc (server ∷ texts (at_99999 ∷ [])) ≡ some bad_port
main-Stops_example =
    main-Stops libc libc-ReadsDigits server at_99999 [] readable_99999 bad_port
      (out_of_range 99999 port_99999 (inr (omega arith)) refl)

-- an address
with_ip : main libc (server ∷ codes "-ip" ∷ codes "::1" ∷ []) ≡ none
unfolding main read_options read_option same
with_ip = refl
