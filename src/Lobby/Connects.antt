-- ===== src/Lobby/Connects.antt =====
-- `server_new_connection` and the invariant of the rooms.
use ups_sp.Prelude.{
  ℕ, ◌+◌, ◌≡◌, inl, inr, refl, sym, ◌∙◌, true, false, Option, none, some, List, [], ◌∷◌, Bool-cases,
  codes, arith, length, ltb, set,
}
use ups_sp.Prelude.Int.{pos}
use ups_sp.Server.{Ref, Client, World, Libc, unlogged, update, load_client, store_client, ◌>>◌}
use ups_sp.Server.Send.{message, send_message, record_sent}
use ups_sp.Connections.{server_new_connection, new_client, set_connection}
use ups_sp.Lobby.{Consistent}
use ups_sp.Lobby.Enters.{Consistent-Aside}

abbrev pub connected : Libc → World → Client → ℕ → World
connected libc w junk fd =
    let me = record junk { fd = pos fd; state = unlogged; connected = true; invalid_count = 0 } in
    record_sent libc (pos fd) (message (codes "connected" ∷ [])) (record w {
      clients = update (update w.clients w.fresh (some junk)) w.fresh (some me);
      fresh = w.fresh + 1;
      connections = set w.connections fd (some (some w.fresh));
    })

-- the client is stored, and his socket is told
connect_rest :
    (libc : Libc) (w w1 : World) (c : Ref) (me : Client)
    → set_connection me.fd (some c) (record w { clients = update w.clients c (some me) })
      ≡ some (tt, w1)
    → w1.clients ≡ update w.clients c (some me)
    → (do
      store_client c me
      set_connection me.fd (some c)
      send_message libc c (message (codes "connected" ∷ [])))
        w
      ≡ some (tt, record_sent libc me.fd (message (codes "connected" ∷ [])) w1)
unfolding store_client send_message load_client
connect_rest libc w w1 c me wired kept = ground arith

wired :
    (w : World) (fd : ℕ) (c : Ref)
    → ltb fd (length w.connections) ≡ true
    → set_connection (pos fd) (some c) w
      ≡ some (tt, record w { connections = set w.connections fd (some (some c)) })
unfolding set_connection
wired w fd c wide = rw wide refl

pub new_connection_wide :
    (libc : Libc) (w : World) (junk : Client) (fd : ℕ)
    → ltb fd (length w.connections) ≡ true
    → server_new_connection libc junk fd w ≡ some (tt, connected libc w junk fd)
unfolding server_new_connection new_client
new_connection_wide libc w junk fd wide =
    rw wide (connect_rest libc _ _ w.fresh _ (wired _ fd w.fresh wide) refl)

new_connection_narrow :
    (libc : Libc) (w : World) (junk : Client) (fd : ℕ)
    → ltb fd (length w.connections) ≡ false
    → server_new_connection libc junk fd w ≡ none
unfolding server_new_connection new_client
new_connection_narrow libc w junk fd narrow = rw narrow refl

new_connection_run :
    (libc : Libc) (w w' : World) (junk : Client) (fd : ℕ)
    → server_new_connection libc junk fd w ≡ some (tt, w')
    → w' ≡ connected libc w junk fd
new_connection_run libc w w' junk fd run = elim (Bool-cases (ltb fd (length w.connections))) [
  | inl wide ↦ let done = new_connection_wide libc w junk fd wide in ap_world (sym run ∙ done)
  | inr narrow ↦
      let undefined = new_connection_narrow libc w junk fd narrow in
      absurd (ground (arith, run, undefined))
]
  where
    ap_world :
        {u u' : World} → ◌≡◌ {A = Option (Unit {0} × World)} (some (tt, u)) (some (tt, u')) → u ≡ u'
    ap_world e = ground arith

-- A new connection keeps the invariant, when the memory of its client is not in use and holds no game.
pub Consistent-connected :
    (libc : Libc) (w w' : World) (used free : List ℕ) (junk : Client) (fd : ℕ)
    → Consistent w used free
    → w.clients w.fresh ≡ none
    → junk.game ≡ none
    → server_new_connection libc junk fd w ≡ some (tt, w')
    → Consistent w' used free
Consistent-connected libc w w' used free junk fd v unused idle run =
    rw (new_connection_run libc w w' junk fd run) (
      Consistent-Aside w (connected libc w junk fd) used free w.fresh v (record {
        others = λ q ne. ground arith;
        was_idle = λ a ha. absurd (ground arith);
        is_idle = λ a ha.
            let it : a ≡ record junk {
              fd = pos fd;
              state = unlogged;
              connected = true;
              invalid_count = 0;
            } =
              ground arith in
            rw it (idle, refl, refl);
        games = refl;
        rooms = refl;
        counted = refl;
        limit = refl;
        next = omega arith;
      }))
