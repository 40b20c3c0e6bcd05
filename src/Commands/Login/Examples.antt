-- ===== src/Commands/Login/Examples.antt =====
-- Logins at concrete states.
use ups_sp.Prelude.{
  ℕ, ◌≤◌, inl, inr, ◌≡◌, refl, ◌≢◌, true, false, none, some, [], ◌∷◌, codes, same, ◌==◌,
  if◌then◌else◌, arith,
}
use ups_sp.Prelude.Int.{pos, negsuc}
use ups_sp.HashMap
use ups_sp.Server.{Ref, Client, Game, World, in_lobby, success, failure}
use ups_sp.Server.Send.{message, decimal}
use ups_sp.Commands.Args.{Args}
use ups_sp.Commands.Samples.{libc, battle, world, ann, bob, guest, IsValid-players, no_ann}
use ups_sp.HashMap.Buckets.{IsValid, home, put_at-Changed}
use ups_sp.Commands.Prepare.Starts.{first}
use ups_sp.Connections.{connection}
use ups_sp.Commands.Login.{is_name, all_alnum, cmd_login}
use ups_sp.Commands.Login.Names.{GoodName, BadName, Letter, odd}
use ups_sp.Commands.Login.Denials.{Idle, Rejected, bad_name, cmd_login-Denied}
use ups_sp.Commands.Login.Logs.{Logged, cmd_login-Logged}
use ups_sp.Commands.Login.Rejoins.{Returns, cmd_login-Rejoins}

abbrev lobby_world : World
lobby_world = world guest bob battle

guest-Idle : Idle lobby_world 0 guest 4
guest-Idle = record {
  mine = refl;
  socket = refl;
  wide = omega arith;
  out_of_room = refl;
  out_of_game = refl;
}

abbrev bad_args : Args
bad_args = some (codes "a-b") ∷ []

a_b_is_no_name : BadName (codes "a-b")
a_b_is_no_name = odd (codes "a") (codes "b") b'-' refl (inl (omega arith))

ann-GoodName : GoodName (codes "ann")
ann-GoodName = (
  omega arith,
  omega arith,
  (
    small (omega arith) (omega arith),
    (small (omega arith) (omega arith), (small (omega arith) (omega arith), tt)),
  ),
)
  where
    small : {c : ℕ} → b'a' ≤ c → c ≤ b'z' → Letter c
    small low high = inr (inr (low, high))

ann_is_name : is_name (codes "ann") ≡ true
unfolding is_name all_alnum
ann_is_name = refl

cmd_login-Denied_example :
    (w' : World) × (cmd_login libc true 0 bad_args lobby_world ≡ some (failure, w'))
    × Rejected lobby_world w' 0 guest 4 3 (pos 1)
cmd_login-Denied_example =
    cmd_login-Denied libc true lobby_world 0 guest 4 bad_args 3 failure (pos 1) guest-Idle
      (bad_name (codes "a-b") [] refl refl a_b_is_no_name refl refl refl)

cmd_login-Logged_example :
    (w' : World) × (cmd_login libc true 0 (some (codes "ann") ∷ []) lobby_world
      ≡ some (success, w'))
    × Logged lobby_world w' 0 (record guest { state = in_lobby; name = codes "ann" }) (codes "ann")
    × ((q : Ref) → q ≢ 0 → w'.clients q ≡ lobby_world.clients q)
    × (w'.sent ≡ (pos 4, message (codes "login_ok" ∷ codes "ann" ∷ decimal 1 ∷ [])) ∷ [])
cmd_login-Logged_example =
    cmd_login-Logged libc lobby_world 0 guest (codes "ann") [] refl refl ann-GoodName refl
      IsValid-players no_ann

-- ann has lost her connection, and a new client comes
abbrev ann_away : Client
ann_away = record ann { connected = false; fd = negsuc 0 }

abbrev players_with_ann : HashMap.HashTable Ref
players_with_ann =
    (HashMap.put_at (world ann bob battle).players (home 2 (codes "ann")) (codes "ann") 2).1

players_with_ann-IsValid : IsValid players_with_ann
unfolding HashMap.find HashMap.calc_hash
players_with_ann-IsValid =
    (put_at-Changed (world ann bob battle).players (codes "ann") 2 none IsValid-players
      refl).1.valid

abbrev resumed : Game
resumed = record battle { player1 = some 2 }

abbrev away_world : World
away_world = record (world guest bob resumed) {
  clients = λ p.
      if p == 0
      then some guest
      else if p == 1
      then some bob
      else if p == 2
      then some ann_away
      else none;
  players = players_with_ann;
}

ann_known : HashMap.get players_with_ann (codes "ann") ≡ some (some 2)
unfolding HashMap.get HashMap.slot HashMap.calc_hash HashMap.find HashMap.put_at same
ann_known = refl

guest-Returns : Returns away_world 0 2 1 5 guest ann_away bob resumed 4 (codes "ann")
guest-Returns = record {
  mine = refl;
  socket = refl;
  wide = omega arith;
  player = refl;
  apart = ground arith;
  known = ann_known;
  called = refl;
  gone = refl;
  gaming = refl;
  in_it = refl;
  at_g = refl;
  seats = first refl refl refl;
  other = refl;
  other_apart = ground arith;
  third = ground arith;
  other_there = refl;
}

cmd_login-Rejoins_example :
    (w' : World) × (cmd_login libc true 0 (some (codes "ann") ∷ []) away_world ≡ some (success, w'))
    × Logged away_world w' 2 (record ann_away { fd = pos 4; connected = true }) (codes "ann")
    × (w'.clients 0 ≡ none)
    × ((q : Ref) → q ≢ 2 → q ≢ 0 → w'.clients q ≡ away_world.clients q)
    × (connection w'.connections (pos 4) ≡ some (some 2))
    × (w'.sent
        ≡ (pos 7, message (codes "room_join_opp" ∷ codes "ann" ∷ []))
          ∷ (pos 4, message (codes "login_ok" ∷ codes "ann" ∷ decimal 5 ∷ []))
          ∷ [])
cmd_login-Rejoins_example =
    cmd_login-Rejoins libc away_world 0 2 1 5 guest ann_away bob resumed 4 (codes "ann") []
      guest-Returns ann_is_name refl players_with_ann-IsValid
