-- ===== src/Commands/Listing/Examples.antt =====
-- A list of rooms at a concrete state.
use ups_sp.Prelude.{◌≡◌, refl, true, none, some, [], ◌∷◌, codes, length, ltb, if◌then◌else◌, arith}
use ups_sp.Prelude.Int.{pos}
use ups_sp.Server.{Client, Game, World, in_lobby, in_room, lobby, success}
use ups_sp.Server.Send.{message, decimal, record_sent}
use ups_sp.Commands.Samples.{libc, battle, world, ann, bob, rooms}
use ups_sp.ArrayList.Chains.{IsValid}
use ups_sp.Commands.Rooms.Joins.{first_free}
use ups_sp.Commands.Listing.{entry, cmd_room_list}
use ups_sp.Commands.Listing.Offers.{Offers, end, waits, cmd_room_list-Offers}

abbrev room : Game
room = record battle { state = lobby; player1 = none }

abbrev ann_idle : Client
ann_idle = record ann { state = in_lobby; game = none }

abbrev hall : World
hall = world ann_idle (record bob { state = in_room }) room

rooms-IsValid : IsValid rooms (0 ∷ []) (1 ∷ [])
rooms-IsValid = record {
  first_used = refl;
  first_free = refl;
  used_linked = (refl, tt);
  free_linked = (refl, tt);
  parts = λ i. ground arith;
  total = refl;
  counted = omega arith;
  wide_next = omega arith;
  wide_items = omega arith;
}

bob_entry : entry 0 (codes "bob") ≡ some (codes "0;bob")
unfolding entry decimal
bob_entry = refl

bob-Offers : Offers hall (0 ∷ []) (codes "0;bob" ∷ [])
bob-Offers =
    waits 5 1 1 room (record bob { state = in_room }) refl refl (first_free refl refl) refl
      bob_entry end

short : ltb (length (message (codes "room_list_data" ∷ codes "0;bob" ∷ []))) 1024 ≡ true
unfolding message
short = refl

cmd_room_list-Offers_example : cmd_room_list libc 0 hall ≡ (
    if ltb (length (message (codes "room_list_data" ∷ codes "0;bob" ∷ []))) 1024
    then some (
      success,
      record_sent libc (pos 4) (message (codes "room_list_data" ∷ codes "0;bob" ∷ [])) hall,
    )
    else none)
cmd_room_list-Offers_example =
    cmd_room_list-Offers libc hall 0 ann_idle refl (0 ∷ []) (1 ∷ []) (codes "0;bob" ∷ []) refl
      rooms-IsValid bob-Offers (omega arith)
