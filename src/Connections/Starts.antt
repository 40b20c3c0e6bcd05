-- ===== src/Connections/Starts.antt =====
-- The state from which the server starts.
use ups_sp.Prelude.{
  ℕ, suc, ◌<◌, ◌≡◌, refl, none, some, [], Bytes, arith, replicate, ◌∙◌, ap, get_or-replicate,
}
use ups_sp.Prelude.Int.{ℤ, pos, negsuc}
use ups_sp.ArrayList
use ups_sp.ArrayList.Chains
use ups_sp.ArrayList.Inserts.{create-IsValid, from_to}
use ups_sp.HashMap
use ups_sp.HashMap.Buckets
use ups_sp.HashMap.Entries.{view-create, get-view}
use ups_sp.Server.{Ref, World}
use ups_sp.Connections.{connection, server_init}

-- a server for so many rooms and players, with no room, no client and no name
pub record Started (rooms players : ℕ) (w : World) : Type 0 where
  pub free_rooms : ArrayList.Chains.IsValid w.rooms [] (from_to 0 rooms)
  pub no_game : (g : Ref) → w.games g ≡ none
  pub no_client : (c : Ref) → w.clients c ≡ none
  pub table : HashMap.Buckets.IsValid w.players
  pub no_name : (name : Bytes) → HashMap.get w.players name ≡ some none
  pub unwritten : (fd : ℤ) → connection w.connections fd ≡ none
  pub limits : (w.max_rooms ≡ pos rooms) × (w.max_players ≡ pos players)
  pub counts : (w.curr_rooms ≡ pos 0) × (w.curr_players ≡ pos 0)

unwritten_all : (n : ℕ) (fd : ℤ) → connection (replicate n none) fd ≡ none
unwritten_all n (pos fd) = get_or-replicate n fd none
unwritten_all n (negsuc k) = refl

abbrev initial : ℕ → ℕ → ArrayList.ArrayList Ref → World
initial max_rooms max_players rooms = record {
  clients = λ p. none;
  games = λ p. none;
  fresh = 0;
  rooms = rooms;
  players = HashMap.create max_players;
  connections = replicate max_players none;
  max_players = pos max_players;
  curr_players = pos 0;
  max_rooms = pos max_rooms;
  curr_rooms = pos 0;
  messages_out = pos 0;
  messages_in = pos 0;
  bytes_out = pos 0;
  bytes_in = pos 0;
  fail_requests = pos 0;
  unknown_commands = pos 0;
  sent = [];
  closed = [];
}

server_init_run :
    (r p : ℕ) (l : ArrayList.ArrayList Ref)
    → ArrayList.create {A = Ref} r ≡ some l
    → server_init r p ≡ some (initial r p l)
unfolding server_init
server_init_run r p l e = ground arith

-- For positive limits the server starts: all rooms are free in ascending order, no name is known, the
-- counts are 0, and no entry of the array of clients is written, so that none can be read yet.
pub server_init-Started :
    (rooms players : ℕ)
    → 0 < players
    → (w : World) × (server_init (suc rooms) players ≡ some w) × Started (suc rooms) players w
server_init-Started rooms players h =
    let (l, run, ok, size) = create-IsValid {A = Ref} rooms in
    let (table, empty) = view-create {V = Ref} players h in
    (
      initial (suc rooms) players l,
      server_init_run (suc rooms) players l run,
      record {
        free_rooms = ok;
        no_game = λ g. refl;
        no_client = λ c. refl;
        table = table;
        no_name = λ name. get-view (HashMap.create players) name table ∙ ap some (empty name);
        unwritten = unwritten_all players;
        limits = (refl, refl);
        counts = (refl, refl);
      },
    )
