-- ===== src/Requests/Examples.antt =====
-- Requests at concrete states.
use ups_sp.Prelude.{ℕ, ◌≡◌, refl, true, none, some, List, [], ◌∷◌, ◌++◌, Bytes, codes, same, arith}
use ups_sp.Server.{Client, World}
use ups_sp.Commands.Samples.{libc, battle, world, bob, guest}
use ups_sp.Commands.Login.Denials.{Idle}
use ups_sp.Requests.{
  Chance, receive, fire, get_handler, tokens, count_splits, arguments, strip_line, strip_split,
  parse, handle_event,
}
use ups_sp.Requests.Unknown.{Babbles, Banned, handle_event-Banned}

abbrev chance : Chance
chance = record {
  coin = true;
  junk = battle;
  named = true;
  tails = record { after_own = []; after_seen = [] };
}

abbrev shot : List Bytes
shot = codes "0" ∷ codes "4" ∷ []

-- upper case letters make no difference
fire_known : get_handler (codes "GAME_FIRE_REQ") ≡ some fire
unfolding get_handler same
fire_known = refl

-- strtok skips empty fields
empty_field : parse (codes "a;;b") ≡ (some (codes "a"), some (codes "b") ∷ none ∷ [])
unfolding parse tokens count_splits arguments
empty_field = refl

abbrev hello : Bytes
hello = codes "hello" ++ (13 ∷ 10 ∷ [])

abbrev babbler : ℕ → Client
babbler n = record guest { invalid_count = n }

babbler-Idle : (n : ℕ) → Idle (world (babbler n) bob battle) 0 (babbler n) 4
babbler-Idle n = record {
  mine = refl;
  socket = refl;
  wide = omega arith;
  out_of_room = refl;
  out_of_game = refl;
}

babbler-Babbles : (n : ℕ) → Babbles (world (babbler n) bob battle) 0 (babbler n) 4 hello
unfolding strip_line strip_split parse tokens count_splits arguments get_handler same
babbler-Babbles n = record {
  idle = babbler-Idle n;
  here = refl;
  line = codes "hello";
  name = codes "hello";
  argv = [];
  received = omega arith;
  stripped = refl;
  filled = omega arith;
  parsed = refl;
  unknown = refl;
}

handle_event-Banned_example :
    (w' : World) × (handle_event libc chance (receive 4 hello 7) (world (babbler 4) bob battle)
      ≡ some (tt, w'))
    × Banned libc chance (world (babbler 4) bob battle) 0 (babbler 4) 4 7 hello w'
handle_event-Banned_example =
    handle_event-Banned libc chance (world (babbler 4) bob battle) 0 (babbler 4) 4 7 hello
      (babbler-Babbles 4) (omega arith)
