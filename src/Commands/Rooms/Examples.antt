-- ===== src/Commands/Rooms/Examples.antt =====
-- The commands on rooms at concrete states.
use ups_sp.Prelude.{inr, ℕ, ◌≢◌, ◌≡◌, refl, true, none, some, [], ◌∷◌, codes, arith}
use ups_sp.Prelude.Int.{pos}
use ups_sp.ArrayList
use ups_sp.Server.{Ref, Client, Game, World, in_lobby, in_room, lobby, success, failure}
use ups_sp.Server.Send.{message, decimal, record_sent}
use ups_sp.Commands.Args.{Args, all_digits, number}
use ups_sp.Commands.Prepare.Starts.{second}
use ups_sp.Commands.Rooms.{cmd_room_join, cmd_room_create, cmd_room_leave}
use ups_sp.Commands.Rooms.Joins.{
  first_free, seated, fresh_game, Joins, Joined, cmd_room_join-starts,
}
use ups_sp.Commands.Rooms.Refusals.{no_slot, cmd_room_join-refused}
use ups_sp.Commands.Texts.{Numeral}
use ups_sp.Commands.Rooms.Waiting.{
  opened, Created, Closed, in_second, cmd_room_create-Created, cmd_room_leave-Closed,
}
use ups_sp.Commands.Ends.Over.{Over}
use ups_sp.Commands.Rooms.Leaving.{cmd_room_leave-Over}
use ups_sp.Commands.Samples.{rooms_of_none, libc, battle, rooms, world, ann, bob}

-- bob waits in room 0, and ann is in the lobby
abbrev room : Game
room = record battle { state = lobby; player1 = none; player2 = some 1 }

abbrev ann_idle : Client
ann_idle = record ann { state = in_lobby; game = none; player_num = 0 }

abbrev bob_waits : Client
bob_waits = record bob { state = in_room; player_num = 0 }

abbrev hall : World
hall = world ann_idle bob_waits room

abbrev room_0 : Args
room_0 = some (codes "0") ∷ []

ann-Joins : Joins libc hall 0 1 5 ann_idle bob_waits room room_0 (pos 0)
unfolding number all_digits libc ArrayList.get
ann-Joins = record {
  mine = refl;
  other = refl;
  apart = ground arith;
  in_hall = refl;
  waits = refl;
  asked = refl;
  listed = refl;
  at_g = refl;
  waiting = refl;
}

cmd_room_join-starts_example :
    (w' : World) × (cmd_room_join libc 0 room_0 hall ≡ some (success, w'))
    × Joined hall w' 0 1 5 ann_idle bob_waits (fresh_game (seated 1 0 room)) 1
cmd_room_join-starts_example =
    cmd_room_join-starts libc hall 0 1 5 ann_idle bob_waits room room_0 (pos 0) 1 ann-Joins
      (first_free refl refl)

-- the list has the indices 0 and 1
abbrev room_2 : Args
room_2 = some (codes "2") ∷ []

two_read : libc.atoi (codes "2") ≡ pos 2
unfolding libc
two_read = refl

two_sent : Numeral (codes "2")
two_sent = (omega arith, (omega arith, omega arith, tt))

cmd_room_join-refused_example :
    cmd_room_join libc 0 room_2 hall
    ≡ some
        (failure, record_sent libc (pos 4) (message (codes "room_join_err" ∷ decimal 7 ∷ [])) hall)
cmd_room_join-refused_example =
    cmd_room_join-refused libc hall 0 ann_idle room_2 7 refl
      (no_slot (codes "2") [] refl refl two_sent (inr (2, two_read, omega arith)) refl)

abbrev rooms_of_two : ArrayList.ArrayList Ref
rooms_of_two = record {
  capacity = 2;
  size = 2;
  empty = ArrayList.nil;
  first = ArrayList.at 1;
  items = some 5 ∷ some 6 ∷ [];
  next = some ArrayList.nil ∷ some (ArrayList.at 0) ∷ [];
}

room_inserted : ArrayList.insert rooms 6 ≡ some (rooms_of_two, 1)
unfolding ArrayList.insert ArrayList.insert_slot
room_inserted = refl

cmd_room_create-Created_example :
    (w' : World) × (cmd_room_create libc true room 0 hall ≡ some (success, w'))
    × Created hall w' 0 ann_idle (opened true room 0 1) rooms_of_two
cmd_room_create-Created_example =
    cmd_room_create-Created libc true room hall 0 ann_idle rooms_of_two 1 refl refl refl
      room_inserted

room_deleted : ArrayList.delete rooms 0 ≡ some rooms_of_none
unfolding ArrayList.delete ArrayList.delete_first
room_deleted = refl

cmd_room_leave-Closed_example :
    (w' : World) × (cmd_room_leave libc 1 hall ≡ some (success, w'))
    × Closed hall w' 1 5 bob_waits rooms_of_none
cmd_room_leave-Closed_example =
    cmd_room_leave-Closed libc hall 1 5 bob_waits room rooms_of_none refl refl refl refl
      (in_second refl refl) room_deleted

distinct : ◌≢◌ {A = ℕ} 0 1
distinct = ground arith

cmd_room_leave-Over_example :
    (w' : World) × (cmd_room_leave libc 1 (world ann bob battle) ≡ some (success, w'))
    × Over (world ann bob battle) w' 1 0 5 bob ann rooms_of_none
cmd_room_leave-Over_example =
    cmd_room_leave-Over libc (world ann bob battle) 1 0 5 bob ann battle rooms_of_none refl refl
      distinct refl refl refl (second refl refl refl) room_deleted
