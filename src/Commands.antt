-- ===== src/Commands.antt =====
-- communication/commands.c: the handlers of the clients' requests. `argv` is a list of pointers, and
-- `argc` its length. The client pointer is not NULL.
pub mod Args
pub mod Texts
pub mod Ends
pub mod Fire
pub mod Prepare
pub mod Rooms
pub mod Login
pub mod Logout
pub mod Info
pub mod Listing
pub mod Samples
