-- ===== src/Requests/Unknown.antt =====
-- Lines with no known command: the loop of `server_listen` counts them and closes the connection at
-- the fifth in a row.
use ups_sp.Prelude.{
  ℕ, ◌+◌, ◌≤◌, ◌<◌, ◌≡◌, ◌≢◌, refl, false, Option, none, some, [], ◌∷◌, Bytes, codes, arith, length,
  get_or-set, ◌∙◌, ap,
}
use ups_sp.Prelude.Int.{pos, negsuc, ◌+ℤ◌, ◌-ℤ◌}
use ups_sp.Server.{SameRooms, Ref, Client, World, Libc, update, load_client, store_client}
use ups_sp.Server.Send.{message, send_message, record_sent}
use ups_sp.Commands.Args.{Args}
use ups_sp.Commands.Login.Denials.{Idle}
use ups_sp.Connections.{connection, read_connection}
use ups_sp.Connections.Drops.{dropped, disconnect_idle, server_disconnect_run}
use ups_sp.Requests.{
  Chance, receive, get_handler, strip_line, strip_split, parse, set_invalid, count_unknown,
  dispatch, process_message, drop_invalid, count_received, handle_event,
}
use ups_sp.Requests.Fields.{process_message_run}

-- a line from the socket of the client whose first field names no command
pub record Babbles (w : World) (c : Ref) (me : Client) (fd : ℕ) (text : Bytes) : Type 0 where
  pub idle : Idle w c me fd
  pub here : connection w.connections (pos fd) ≡ some (some c)
  pub line : Bytes
  pub name : Bytes
  pub argv : Args
  pub received : 0 < length text
  pub stripped : strip_split (strip_line text) ≡ some line
  pub filled : 0 < length line
  pub parsed : parse line ≡ (some name, argv)
  pub unknown : get_handler name ≡ none

abbrev pub error_text : Bytes
error_text = message (codes "error" ∷ codes " unknown_command" ∷ [])

-- the client with one invalid message more
abbrev pub warned : Client → Client
warned me = record me { invalid_count = me.invalid_count + 1 }

module _ (libc : Libc) (chance : Chance) (w : World) (c : Ref) (me : Client) (fd n : ℕ)
    (text : Bytes) where
  abbrev arrived : World
  arrived = record w { messages_in = w.messages_in +ℤ pos 1; bytes_in = w.bytes_in +ℤ pos n }

  abbrev pub counted : World
  counted = record (record_sent libc (pos fd) error_text arrived) {
    clients = update w.clients c (some (warned me));
    unknown_commands = w.unknown_commands +ℤ pos 1;
  }

  dispatch_unknown :
      (argv : Args)
      → Idle w c me fd
      → connection w.connections (pos fd) ≡ some (some c)
      → dispatch libc chance fd none argv arrived ≡ some (tt, counted)
  unfolding dispatch set_invalid count_unknown read_connection load_client store_client send_message
  dispatch_unknown argv i at = ground (arith, i.mine, i.socket)

  Babbles-run :
      Babbles w c me fd text → process_message libc chance fd text arrived ≡ some (tt, counted)
  Babbles-run b =
      process_message_run libc chance arrived fd text b.line b.name b.argv b.received b.stripped
        b.filled b.parsed
      ∙ ap (λ h. dispatch libc chance fd h b.argv arrived) b.unknown
      ∙ dispatch_unknown b.argv b.idle b.here

  stays_run :
      connection w.connections (pos fd) ≡ some (some c)
      → me.invalid_count < 4
      → drop_invalid libc chance fd counted ≡ some (tt, counted)
  unfolding drop_invalid read_connection load_client
  stays_run at few = ground arith

  event_run :
      (r : Option (Unit {0} × World))
      → process_message libc chance fd text arrived ≡ some (tt, counted)
      → drop_invalid libc chance fd counted ≡ r
      → handle_event libc chance (receive fd text n) w ≡ r
  unfolding handle_event count_received
  event_run r p d = ground arith

  -- A line with no known command, while the client has sent fewer than four of them in a row: he is
  -- told, it is counted for him and for the server, and nothing else changes.
  handle_event_unknown :
      Babbles w c me fd text
      → me.invalid_count < 4
      → handle_event libc chance (receive fd text n) w ≡ some (tt, counted)
  handle_event_unknown b few = event_run _ (Babbles-run b) (stays_run b.here few)

  abbrev goodbye : World
  goodbye = record_sent libc (pos fd) (message (codes "logout_ok" ∷ [])) counted

  goes_run :
      Babbles w c me fd text
      → 4 ≤ me.invalid_count
      → drop_invalid libc chance fd counted ≡ some (tt, dropped goodbye c (warned me) fd)
  unfolding drop_invalid read_connection load_client send_message
  goes_run b many =
      let reach = server_disconnect_run libc goodbye c (warned me) fd b.here in
      let drop =
        disconnect_idle libc goodbye c (warned me) fd (ground arith) b.idle.out_of_room
          b.idle.out_of_game b.idle.wide in
      ground (arith, reach, drop, b.here, b.idle.socket)

  -- the state with the two answers sent, of which the counts of what was sent are used
  abbrev twice_told : World
  twice_told =
      record_sent libc (pos fd) (message (codes "logout_ok" ∷ []))
        (record_sent libc (pos fd) error_text w)

  -- the client was told twice and has lost his socket
  pub record Banned (w' : World) : Type 0 where
    pub gone : w'.clients c ≡ some (record (warned me) { connected = false; fd = negsuc 0 })
    pub others : (q : Ref) → q ≢ c → w'.clients q ≡ w.clients q
    pub games : w'.games ≡ w.games
    pub rooms : w'.rooms ≡ w.rooms
    pub players : w'.players ≡ w.players
    pub list : SameRooms w w'
    pub freed : connection w'.connections (pos fd) ≡ some none
    pub other_sockets :
        (k : ℕ) → k ≢ fd → connection w'.connections (pos k) ≡ connection w.connections (pos k)
    pub counted_out : w'.curr_players ≡ w.curr_players -ℤ pos 1
    pub place : w'.max_players ≡ w.max_players
    pub failures : w'.fail_requests ≡ w.fail_requests
    pub received_it : w'.messages_in ≡ w.messages_in +ℤ pos 1
    pub received_bytes : w'.bytes_in ≡ w.bytes_in +ℤ pos n
    pub sent_it : w'.messages_out ≡ twice_told.messages_out
    pub sent_bytes : w'.bytes_out ≡ twice_told.bytes_out
    pub answered :
        w'.sent ≡ (pos fd, message (codes "logout_ok" ∷ [])) ∷ (pos fd, error_text) ∷ w.sent
    pub counted_it : w'.unknown_commands ≡ w.unknown_commands +ℤ pos 1
    pub closed_it : w'.closed ≡ pos fd ∷ w.closed

  -- The fifth line in a row with no known command, or a later one, of a client in no room and no game,
  -- closes his connection after he is told. The count of players falls by one; the unknown command and
  -- the line with its bytes are counted, and the two answers as `send` reports them. No other client
  -- or socket, no game, no room and no name changes.
  pub handle_event-Banned :
      Babbles w c me fd text
      → 4 ≤ me.invalid_count
      → (w' : World) × (handle_event libc chance (receive fd text n) w ≡ some (tt, w')) × Banned w'
  handle_event-Banned b many = (
    dropped goodbye c (warned me) fd,
    event_run _ (Babbles-run b) (goes_run b many),
    record {
      gone = (ground arith);
      others = λ q nc. (ground arith);
      games = refl;
      rooms = refl;
      players = refl;
      list = (refl, refl, refl, refl);
      other_sockets =
          λ k ne. ground (arith, get_or-set w.connections fd k (some none) none, b.idle.wide);
      counted_out = refl;
      place = refl;
      failures = refl;
      received_it = refl;
      received_bytes = refl;
      sent_it = refl;
      sent_bytes = refl;
      freed = (ground (arith, get_or-set w.connections fd fd (some none) none, b.idle.wide));
      answered = refl;
      counted_it = refl;
      closed_it = refl;
    },
  )
