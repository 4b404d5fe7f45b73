-- ===== src/Client/Run.antt =====
-- The loop of `run_connected_client` of src/client.rs.
use remote_open_power.Base.{
  Bytes, Bool, List, [], ◌∷◌, Option, none, some, Result, ok, err, ◌-◌, ltb, leb, if◌then◌else◌,
  retain, Instant, Duration,
}
use remote_open_power.Protocol.Message.{Header, ServerEnvelope}
use remote_open_power.Security.Connection.{SecurityError}
use remote_open_power.Client.{
  Actor, Moment, ClientConnectionErrorCode, PendingOperation, client_idle_timeout,
}
use remote_open_power.Client.Handle.{handle_server_event}
use remote_open_power.Client.Commands.{
  ClientCommand, ConnectedClientExit, Turned, on_command, on_refresh,
}

-- `transport_exit`, without its message.
abbrev pub transport_exit : SecurityError → ClientConnectionErrorCode
transport_exit (SecurityError.protocol e) = ClientConnectionErrorCode.protocol
transport_exit other = ClientConnectionErrorCode.transport

-- What one round of the loop finds: its time, the commands with a moment each and the error that
-- sending would give, whether the channel of commands is then disconnected, a moment for the
-- refresh, and what the connection has, with a moment.
pub record Round : Type 0 where
  pub now : Instant
  pub commands : List (Moment × SecurityError × ClientCommand)
  pub disconnected : Bool
  pub refresh : Moment
  pub refresh_error : SecurityError
  pub polled : Result SecurityError (Option ServerEnvelope)
  pub handled : Moment

abbrev pub unexpired : Instant → Bytes → PendingOperation → Bool
unexpired now id operation = ltb now operation.expires_at

abbrev pub then_turn : Turned → (Actor → Turned) → Turned
then_turn (a, none) k = k a
then_turn (a, some exit) k = (a, some exit)

module _ (configured_headers : List Header) (configured_clock_skew : Duration) where
  -- The inner loop, over the commands that are waiting.
  unfoldable pub on_commands : Actor → List (Moment × SecurityError × ClientCommand) → Bool → Turned
  on_commands a [] disconnected =
      if disconnected then (a, some ConnectedClientExit.shutdown) else (a, none)
  on_commands a ((m, e, c) ∷ commands) disconnected =
      then_turn (on_command configured_headers a m (transport_exit e) c)
        (λ a'. on_commands a' commands disconnected)

  abbrev pub on_poll : Actor → Result SecurityError (Option ServerEnvelope) → Moment → Turned
  on_poll a (ok none) m = (a, none)
  on_poll a (err e) m = (a, some (ConnectedClientExit.lost (transport_exit e)))
  on_poll a (ok (some envelope)) m =
      let (a', done) =
        handle_server_event configured_headers configured_clock_skew
          (record a { last_activity = m.now }) m envelope in
      (
        a',
        if done then none else some (ConnectedClientExit.lost ClientConnectionErrorCode.protocol),
      )

  unfoldable pub round : Actor → Round → Turned
  round a r =
      let pruned : Actor = record a { pending = retain (unexpired r.now) a.pending } in
      if leb client_idle_timeout (r.now - a.last_activity)
      then (a, some (ConnectedClientExit.lost ClientConnectionErrorCode.transport))
      else then_turn (on_commands pruned r.commands r.disconnected) (λ a1.
        then_turn (on_refresh configured_headers a1 r.refresh (transport_exit r.refresh_error))
          (λ a2. on_poll a2 r.polled r.handled))

  -- The rounds until the loop ends.
  abbrev pub run_connected_client : Actor → List Round → Turned
  run_connected_client a [] = (a, none)
  run_connected_client a (r ∷ rounds) = then_turn (round a r) (λ a'. run_connected_client a' rounds)
