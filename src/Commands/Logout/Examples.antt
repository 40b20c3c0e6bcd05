-- ===== src/Commands/Logout/Examples.antt =====
-- Logouts at concrete states.
use ups_sp.Prelude.{ℕ, ◌≡◌, refl, ◌≢◌, none, some, arith}
use ups_sp.ArrayList
use ups_sp.Server.{Client, World, in_lobby, success}
use ups_sp.Commands.Samples.{libc, battle, world, ann, bob, rooms, rooms_of_none, IsValid-players}
use ups_sp.Commands.Prepare.Starts.{first}
use ups_sp.Commands.Ends.Over.{Over}
use ups_sp.Commands.Logout.{cmd_logout}
use ups_sp.Commands.Logout.Leaves.{Left, cmd_logout-Left, cmd_logout-Over}

abbrev ann_idle : Client
ann_idle = record ann { state = in_lobby; game = none }

cmd_logout-Left_example :
    (w' : World) × (cmd_logout libc 0 (world ann_idle bob battle) ≡ some (success, w'))
    × Left (world ann_idle bob battle) (world ann_idle bob battle) w' ann_idle
cmd_logout-Left_example =
    cmd_logout-Left libc (world ann_idle bob battle) 0 ann_idle refl refl refl IsValid-players

battle_deleted : ArrayList.delete rooms 0 ≡ some rooms_of_none
unfolding ArrayList.delete ArrayList.delete_first
battle_deleted = refl

distinct : ◌≢◌ {A = ℕ} 1 0
distinct = ground arith

cmd_logout-Over_example :
    (v : World) × (w' : World) × (cmd_logout libc 0 (world ann bob battle) ≡ some (success, w'))
    × Over (world ann bob battle) v 0 1 5 ann bob rooms_of_none
    × Left (world ann bob battle) v w' ann
cmd_logout-Over_example =
    cmd_logout-Over libc (world ann bob battle) 0 ann 1 5 bob battle rooms_of_none refl refl
      distinct refl refl refl refl (first refl refl refl) battle_deleted IsValid-players
