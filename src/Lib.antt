-- ===== src/Lib.antt =====
-- The server of a networked battleship game, in server/.
--
-- The program. Clients connect over TCP and send lines of text. main.c splits a line and calls the
-- handler of its command in communication/commands.c. The handlers change clients
-- (communication/client.h), games (game/shipsGame.h) with their ships (game/ship.h), and the server
-- structure (communication/server.h), which holds the rooms in an array list
-- (structures/arraylist.c) and the players by name in a hash table (structures/hashmap.c).
--
-- The files.
-- ArrayList: server/structures/arraylist.c. The arrays are lists of cells that may be unwritten, -1
--   is `nil`; `create`, `insert`, `delete`, `double_capacity` and `get` are arraylist_create,
--   arraylist_insert, arraylist_delete_item, arraylist_double_capacity and arraylist_get. Chains has
--   the invariant (used and free slots are disjoint chains that cover all indices), Inserts and
--   Deletes the operations on it, Unlinks the chain without a slot.
-- HashMap: server/structures/hashmap.c. `create`, `put`, `get`, `remove`, `list_keys` and
--   `list_values` are ht_create and so on; `calc_hash` is ht_calc_hash, in 32 bits. Buckets has the
--   invariant and the finite map that a table stands for, Entries the operations on it, Iterator
--   ht_iterate, Clear ht_clear and ht_destroy.
-- Game: Ship is server/game/ship.c; Board the boards; Marking is mark_destroyed_ship of
--   server/game/shipsGame.c, where Ring describes the squares around a ship; Placement is the loop of
--   cmd_game_prepared over the sent board and the check of the lengths after it, where Lines has the
--   squares of a ship, Neighbours what the test around a square says, Scans the invariant of the
--   loop, Fleets the rules of a placement, and Retries what a second request sees. Battle is the
--   invariant of a board under shots, with what a hit (Hits), a miss (Misses) and the start (Placed)
--   do to it and to the squares that remain (Remains), the squares that were not shot at (Unshot), and
--   a search for one that accepts a shot (Targets).
-- Server: the state that the handlers share, as a heap of clients and games with their addresses;
--   Send is send_message of server/main.c. Code on the state is a function from a state to
--   a result and a state, or to `none` for undefined behaviour.
-- Commands: the handlers of server/communication/commands.c, with Texts for the numbers in a
--   request. Fire is cmd_game_fire, Prepare cmd_game_prepared, Rooms cmd_room_create, cmd_room_join
--   and cmd_room_leave with room_create and game_init of server/game/shipsGame.c, and Ends game_end.
--   Wins and Over are about the end of a game, Sides and Battles about a game from its first shot
--   (Openings) to its last, Moves about what a shot changes, and Rallies about the shots of two
--   players in turn; Hunts is a strategy for them. Refusals has the joins that are refused. Login is
--   cmd_login with client_set_name of server/communication/client.c, Names the names it takes, Logout
--   cmd_logout, Info cmd_game_info and Listing cmd_room_list.
-- Connections: server/communication/server.c: server_init, server_new_connection, server_disconnect
--   and close_connection. An entry of the array `clients` is unwritten, NULL or a client.
-- Requests: process_message of server/main.c with get_handler of commands.c, which split a line and
--   find its handler, and `handle_event`, the body of the loop of server_listen in server.c, by what
--   select, accept, ioctl and recv report.
-- Lobby: the invariant that links the rooms' list, the games and the clients, and the steps that it
--   is stated for: Enters is about the start and a login, Connects about a connection, Opens about
--   cmd_room_create, Joins about cmd_room_join, Leaves about cmd_room_leave, Prepares about
--   cmd_game_prepared and Shots about cmd_game_fire. Places says where a client is, Closes what the
--   end of a room leaves, Moves what a step inside a game changes, Seats who sits where, and Touches
--   describes a step on one game. Reached is the relation of all states that these steps lead to.
-- Program: main of server/main.c with its options, up to the call of server_listen, and intHandler
--   with the statistics file and server_free of server.c. Options describes the command line.
-- Prelude: lists, tests, texts as lists of bytes, and integers, over the native numbers.
-- Samples and Examples: states and runs at concrete inputs.
--
-- Bounds. A board is a function of the row and the column; reads are at squares below 10, by the tests
-- of the code, and each write of mark_destroyed_ship is checked against the board. Ship numbers are
-- checked against the 7 ships. The counters are integers without overflow; the hash wraps at 2^32.
-- The walk of `delete` has capacity + 1 rounds of fuel: a chain of used slots has no index twice, so
-- that it is shorter. The loop of ht_iterate has as many rounds of fuel as there are chains, and its
-- index grows in each round; that of ht_clear has a round for each element and one for the end.
-- A game has 200 shots of fuel, since each takes one of the 100 squares of
-- one of the two boards.
-- `decimal` has n + 1 rounds for the number n, which falls in each round. The loop of
-- `cmd_room_list` has capacity + 1 rounds, for the same reason as that of `delete`.
--
-- Parameters. `send` and `atoi` of the C library are fields of `Libc`; of `atoi`, Options relies on
-- what C says of digits whose number is an `int`, which is that number. What the code does not
-- determine is an argument: the coin of `rand`, the former content of the memory of a new game or
-- client, what the caller of client_set_name reads, since that function ends without a value, and
-- what follows the two arrays of cmd_game_info, which are printed as texts without a closing zero.
-- `malloc` is taken to succeed. `sprintf` of a buffer into itself, as in cmd_room_list, is taken to
-- append, and `tolower` leaves bytes outside ASCII as they are. What the server writes to its log has
-- no part in the model, nor have the buffers of 64 characters in which the short answers are printed:
-- the names have at most 20 characters, so that the answers fit. The buffers of cmd_room_list and
-- cmd_game_info are checked.
--
-- Not modelled. arraylist_free, which only releases memory; the log of server/main.c; the opening of
-- the listening socket and the call of select in server_listen, which are input and output, with
-- get_in_addr; the client in client/, a program in Java.
pub mod Prelude
pub mod ArrayList
pub mod HashMap
pub mod Game
pub mod Server
pub mod Commands
pub mod Connections
pub mod Requests
pub mod Lobby
pub mod Program
