-- ===== src/Connections/Examples.antt =====
-- The end of connections at concrete states.
use ups_sp.Prelude.{◌≡◌, refl, false, some, arith}
use ups_sp.Prelude.Int.{pos, negsuc}
use ups_sp.Server.{Client, World}
use ups_sp.Commands.Samples.{libc, battle, world, ann, bob}
use ups_sp.Commands.Prepare.Starts.{first}
use ups_sp.Connections.{server_init, server_disconnect}
use ups_sp.Connections.Starts.{Started, server_init-Started}
use ups_sp.Connections.Drops.{Plays, Kept, server_disconnect-Kept}

ann-Plays : Plays libc (world ann bob battle) 0 ann 4 1 5 bob battle
ann-Plays = record {
  here = refl;
  wide = omega arith;
  mine = refl;
  other = refl;
  apart = ground arith;
  in_it = refl;
  at_g = refl;
  seats = first refl refl refl;
  gaming = refl;
}

server_disconnect-Kept_example :
    (w' : World) × (server_disconnect libc (pos 4) (world ann bob battle) ≡ some (tt, w'))
    × Kept libc (world ann bob battle) 0 ann 4 1 5 bob battle w'
server_disconnect-Kept_example =
    server_disconnect-Kept libc (world ann bob battle) 0 ann 4 1 5 bob battle ann-Plays refl

-- bob has lost his connection
abbrev bob_away : Client
bob_away = record bob { connected = false; fd = negsuc 0 }

ann-Plays_alone : Plays libc (world ann bob_away battle) 0 ann 4 1 5 bob_away battle
ann-Plays_alone = record {
  here = refl;
  wide = omega arith;
  mine = refl;
  other = refl;
  apart = ground arith;
  in_it = refl;
  at_g = refl;
  seats = first refl refl refl;
  gaming = refl;
}

server_init-Started_example : (w : World) × (server_init 4 8 ≡ some w) × Started 4 8 w
server_init-Started_example = server_init-Started 3 8 (omega arith)
