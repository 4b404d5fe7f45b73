-- ===== src/Client/Traced/Rounds.antt =====
-- Each round of the loop of src/client.rs is a sequence of moves.
use remote_open_power.Base.{
  Bytes, Bool, true, false, List, [], ◌∷◌, Option, none, some, Result, ok, err, ◌≡◌, ◌<◌, ◌-◌, ◌!=◌,
  ◌&&◌, ◌||◌, not, ltb, leb, length, get, insert, retain, contains_key, nat_eq, list_eq, option_eq,
  Duration, refl, arith, ◌⊎◌, inl, inr, min, u64_max, ◌/◌, any, Bool-cases,
}
use remote_open_power.Protocol.Message.{Header, ServerEnvelope, ServerEvent, header_eq}
use remote_open_power.Security.Connection.{SecurityError}
use remote_open_power.Client.{
  Actor, Moment, ClientEvent, ClientConnectionErrorCode, max_pending_operations,
  max_pending_requests, client_idle_timeout, send_client_event, reject_server_event,
}
use remote_open_power.Client.Handle.{on_event, handle_server_event, abs_diff}
use remote_open_power.Client.Commands.{
  WakeCommand, ClientCommand, refuse, wake_envelope, new_operation, on_wake, on_command, on_refresh,
  out_of_order, invalid_wake, Turned, ConnectedClientExit, list_envelope, is_list,
}
use remote_open_power.Client.Run.{
  Round, unexpired, on_commands, on_poll, round, run_connected_client, then_turn, transport_exit,
}
use remote_open_power.Client.Moves.{view, Moves, shows, asks, wakes, prunes, done, joined, once}
use remote_open_power.Client.Traced.{
  Traced, reject-Traced, send-Traced, on_hosts_found, on_statuses_found, on_error-Traced,
}
use remote_open_power.Client.Traced.Operations.{on_command_executed-Traced, on_target_online-Traced}

module _ (configured_headers : List Header) (configured_clock_skew : Duration) where
  abbrev TurnTraced : Actor → Turned → Type 0
  TurnTraced a q = Moves configured_headers (view a) (view q.0)

  on_event-Traced :
      (a : Actor) (m : Moment) (id : Bytes) (event : ServerEvent)
      → Traced configured_headers configured_clock_skew a
          (on_event configured_headers configured_clock_skew a m id event)
  on_event-Traced a m id (ServerEvent.hosts v summaries) =
      on_hosts_found configured_headers configured_clock_skew a m id v summaries
        (get id a.pending_requests) refl
  on_event-Traced a m id (ServerEvent.statuses v reports) =
      on_statuses_found configured_headers configured_clock_skew a m id v reports
        (get id a.pending_requests) refl
  on_event-Traced a m id (ServerEvent.command_executed k n ticket d results) =
      on_command_executed-Traced configured_headers configured_clock_skew a m id k n ticket d
        results
  on_event-Traced a m id (ServerEvent.target_online k n host_id d) =
      on_target_online-Traced configured_headers configured_clock_skew a m id k n host_id d
  on_event-Traced a m id (ServerEvent.error code retryable) =
      on_error-Traced configured_headers configured_clock_skew a m id

  handle_server_event-Traced :
      (a : Actor) (m : Moment) (envelope : ServerEnvelope)
      → Traced configured_headers configured_clock_skew a
          (handle_server_event configured_headers configured_clock_skew a m envelope)
  unfolding handle_server_event
  handle_server_event-Traced a m envelope =
      elim (Bool-cases (
        (envelope.headers != configured_headers)
        || ltb (min (configured_clock_skew / 1000000) u64_max)
            (abs_diff envelope.issued_at_ms m.checked_ms))) [
              | inl bad ↦
                  let e : handle_server_event configured_headers configured_clock_skew a m envelope
                      ≡ reject_server_event a m.first_delivered =
                    ground (arith, bad) in
                  rw e (reject-Traced configured_headers configured_clock_skew a m.first_delivered)
              | inr good ↦
                  let e : handle_server_event configured_headers configured_clock_skew a m envelope
                      ≡ on_event configured_headers configured_clock_skew a m envelope.request_id
                          envelope.event =
                    ground (arith, good) in
                  rw e (on_event-Traced a m envelope.request_id envelope.event)
            ]

  refuse-Traced : (a : Actor) (m : Moment) → TurnTraced a (refuse a m)
  refuse-Traced a m = elim (Bool-cases m.first_delivered) [
    | inl d ↦
        let e : refuse a m ≡ (record a { events = ClientEvent.error ∷ a.events }, none) =
          ground (arith, d) in
        rw e (once configured_headers _ _ (shows (view a) ClientEvent.error tt))
    | inr d ↦
        let e : refuse a m ≡ (a, some ConnectedClientExit.shutdown) = ground (arith, d) in
        rw e (done (view a))
  ]

  slot :
      (a : Actor) (c : WakeCommand)
      → (leb max_pending_operations (length a.pending)
          && not (contains_key c.operation_id a.pending))
        ≡ false
      → (length a.pending < max_pending_operations) ⊎ (contains_key c.operation_id a.pending ≡ true)
  slot a c h = elim (Bool-cases (contains_key c.operation_id a.pending)) [
    | inl known ↦ inr known
    | inr new ↦ inl (ground (arith, h, new))
  ]

  abbrev woken : Actor → Moment → ClientConnectionErrorCode → WakeCommand → Turned
  woken = on_wake configured_headers

  on_wake-Traced :
      (a : Actor) (m : Moment) (f : ClientConnectionErrorCode) (c : WakeCommand)
      → TurnTraced a (woken a m f c)
  unfolding on_wake
  on_wake-Traced a m f c =
      elim (Bool-cases (
        invalid_wake c
        || (leb max_pending_operations (length a.pending)
            && not (contains_key c.operation_id a.pending))
        || out_of_order (get c.operation_id a.pending) c.attempt)) [
          | inl bad ↦
              let e : woken a m f c ≡ refuse a m = ground (arith, bad) in rw e (refuse-Traced a m)
          | inr good ↦ elim (Bool-cases (m.transmit (wake_envelope configured_headers m c))) [
            | inl taken ↦
                let e : woken a m f c ≡ (
                  record a {
                    pending =
                        insert c.operation_id (new_operation configured_headers m c) a.pending;
                    sent = wake_envelope configured_headers m c ∷ a.sent;
                    last_activity = m.now;
                  },
                  none,
                ) =
                  ground (arith, good, taken) in
                rw e (
                  once configured_headers _ _ (
                    wakes (view a) m c (ground (arith, good)) (slot a c (ground (arith, good)))
                      (ground (arith, good))))
            | inr refused ↦
                let e : woken a m f c ≡ (a, some (ConnectedClientExit.lost f)) =
                  ground (arith, good, refused) in
                rw e (done (view a))
          ]
        ]

  on_command-Traced :
      (a : Actor) (m : Moment) (f : ClientConnectionErrorCode) (c : ClientCommand)
      → TurnTraced a (on_command configured_headers a m f c)
  on_command-Traced a m f ClientCommand.shutdown = done (view a)
  on_command-Traced a m f ClientCommand.refresh = done (view a)
  on_command-Traced a m f (ClientCommand.wake c) = on_wake-Traced a m f c

  abbrev refreshed : Actor → Moment → ClientConnectionErrorCode → Turned
  refreshed = on_refresh configured_headers

  on_refresh-Traced :
      (a : Actor) (m : Moment) (f : ClientConnectionErrorCode) → TurnTraced a (refreshed a m f)
  unfolding on_refresh
  on_refresh-Traced a m f =
      elim (Bool-cases
        (not a.send_list || any (λ (id, request). is_list request) a.pending_requests)) [
          | inl idle ↦
              let e : view (refreshed a m f).0 ≡ view a = ground (arith, idle) in
              rw e (done (view a))
          | inr wanted ↦ elim (Bool-cases (leb max_pending_requests (length a.pending_requests))) [
            | inl full ↦
                let e : (refreshed a m f).0
                    ≡ (send_client_event a m.first_delivered ClientEvent.error).0 =
                  ground (arith, wanted, full) in
                rw e (
                  send-Traced configured_headers configured_clock_skew a m.first_delivered
                    ClientEvent.error tt)
            | inr slot_left ↦ elim (Bool-cases (m.transmit (list_envelope configured_headers m))) [
              | inl taken ↦
                  let e : view (refreshed a m f).0 ≡ record {
                    pending = a.pending;
                    events = a.events;
                    sent = list_envelope configured_headers m ∷ a.sent;
                  } =
                    ground (arith, wanted, slot_left, taken) in
                  rw e (
                    once configured_headers _ _
                      (asks (view a) (list_envelope configured_headers m) tt))
              | inr refused ↦
                  let e : view (refreshed a m f).0 ≡ view a =
                    ground (arith, wanted, slot_left, refused) in
                  rw e (done (view a))
            ]
          ]
        ]

  then-Traced :
      (a : Actor) (q : Turned) (k : Actor → Turned)
      → TurnTraced a q
      → ((b : Actor) → TurnTraced b (k b))
      → TurnTraced a (then_turn q k)
  then-Traced a (b, none) k t next = joined configured_headers _ _ _ t (next b)
  then-Traced a (b, some exit) k t next = t

  on_commands-Traced :
      (a : Actor) (commands : List (Moment × SecurityError × ClientCommand)) (disconnected : Bool)
      → TurnTraced a (on_commands configured_headers configured_clock_skew a commands disconnected)
  unfolding on_commands
  on_commands-Traced a [] true = done (view a)
  on_commands-Traced a [] false = done (view a)
  on_commands-Traced a ((m, e, c) ∷ commands) disconnected =
      then-Traced a (on_command configured_headers a m (transport_exit e) c)
        (λ b. on_commands configured_headers configured_clock_skew b commands disconnected)
        (on_command-Traced a m (transport_exit e) c)
        (λ b. on_commands-Traced b commands disconnected)

  on_poll-Traced :
      (a : Actor) (polled : Result SecurityError (Option ServerEnvelope)) (m : Moment)
      → TurnTraced a (on_poll configured_headers configured_clock_skew a polled m)
  on_poll-Traced a (ok none) m = done (view a)
  on_poll-Traced a (err e) m = done (view a)
  on_poll-Traced a (ok (some envelope)) m =
      handle_server_event-Traced (record a { last_activity = m.now }) m envelope

  round-Traced :
      (a : Actor) (r : Round) → TurnTraced a (round configured_headers configured_clock_skew a r)
  unfolding round
  round-Traced a r =
      let pruned : Actor = record a { pending = retain (unexpired r.now) a.pending } in
      elim (Bool-cases (leb client_idle_timeout (r.now - a.last_activity))) [
        | inl idle ↦
            let e : (round configured_headers configured_clock_skew a r).0 ≡ a =
              ground (arith, idle) in
            rw e (done (view a))
        | inr active ↦
            let rest : Actor → Turned = λ a1.
              then_turn (refreshed a1 r.refresh (transport_exit r.refresh_error))
                (λ a2. on_poll configured_headers configured_clock_skew a2 r.polled r.handled) in
            let e : round configured_headers configured_clock_skew a r
                ≡ then_turn
                    (on_commands configured_headers configured_clock_skew pruned r.commands
                      r.disconnected)
                    rest =
              ground (arith, active) in
            rw e (
              joined configured_headers _ _ _ (once configured_headers _ _ (prunes (view a) r.now))
                (then-Traced pruned
                  (on_commands configured_headers configured_clock_skew pruned r.commands
                    r.disconnected)
                  rest (on_commands-Traced pruned r.commands r.disconnected)
                  (λ a1.
                    then-Traced a1 (refreshed a1 r.refresh (transport_exit r.refresh_error))
                      (λ a2. on_poll configured_headers configured_clock_skew a2 r.polled r.handled)
                      (on_refresh-Traced a1 r.refresh (transport_exit r.refresh_error))
                      (λ a2. on_poll-Traced a2 r.polled r.handled))))
      ]

  -- Whatever the rounds find, the loop makes moves alone.
  pub run_connected_client-Traced :
      (a : Actor) (rounds : List Round)
      → Moves configured_headers
          (view a)
          (view (run_connected_client configured_headers configured_clock_skew a rounds).0)
  run_connected_client-Traced a [] = done (view a)
  run_connected_client-Traced a (r ∷ rounds) =
      then-Traced a (round configured_headers configured_clock_skew a r)
        (λ b. run_connected_client configured_headers configured_clock_skew b rounds)
        (round-Traced a r) (λ b. run_connected_client-Traced b rounds)
