-- ===== src/Game.antt =====
-- game/ship.c, game/shipsGame.h and the parts of game/shipsGame.c and communication/commands.c that
-- work on one game: its ships, its boards, the check of a placement and a shot.
pub mod Ship
pub mod Board
pub mod Marking
pub mod Placement
pub mod Samples
pub mod Battle
mod Examples
