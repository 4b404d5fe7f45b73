-- ===== src/Lib.antt =====
-- Verification of the core of RemoteOpenPower: a service that wakes hosts of its own network for
-- authenticated clients over the internet, and the client that asks for it.
--
-- A client sends a request over an encrypted connection. The handshake reserves the client's nonce
-- in the replay cache (src/security.rs) and confirms it once the client has proved its key. The
-- server (src/server.rs) limits the handshakes and requests of each source and client, decodes and
-- validates each envelope (src/protocol.rs), and asks its ledger whether the operation is new, in
-- progress or answered already. A new wake operation reserves its hosts in the cooldown table,
-- sends the packets and stores its receipt in the ledger; the receipt carries a ticket with which
-- the client may ask for a second attempt, once. The client keeps the progress of each operation
-- (src/wake.rs) from the receipts and the online reports that it receives. Its connection actor
-- (src/client.rs) keeps the requests and operations that wait for an answer, and connects again
-- after a pause when the connection is lost. The configuration (src/config.rs) says which hosts
-- there are and who may wake them, and src/wol.rs picks the interface for a packet.
--
-- The files:
--
--   - Base: shared types and lemmas. Bytes stand for strings and byte arrays, Dict is an association
--     list for a HashMap, a Set is a list, Result has the error as a value, Sort is the stable
--     `sort_by`, and Words has big-endian words and slices.
--   - Protocol/Message: the types and limits of src/protocol.rs. Protocol/Identifier: `validate_id`.
--     Protocol/Headers: `canonical_headers`, with what it returns in Headers/Canonical.
--     Protocol/Validate: both `validate` methods; in Validate/Client and Validate/Server a
--     description of the envelopes that they accept.
--   - Protocol/Codec: `encode` and `decode` of src/protocol.rs over the encoder of a library.
--   - Security/Connection: `SecureConnection` of src/security.rs, with `send_payload` and
--     `poll_payload`, which call its functions `transmit`, `receive`, `take_record` and
--     `accept_record` for the parts of their bodies. Connection/Receive, Send and Poll have what
--     each reads and writes, Connection/Flight the records that are written and not yet read,
--     Connection/Session the runs of both ends, Connection/Delivery what they deliver, and
--     Connection/Guard what a poll lets through on any stream.
--   - Security/Replay: `ReplayCache` of src/security.rs. Replay/Bounds is about its size,
--     Replay/Once about repeated nonces.
--   - Server/Limits: constants of src/server.rs. Server/Entry: the entries of the ledger with
--     `renew_cached_wake`. Server/Ledger: `Ledger`. Ledger/Entries says how a call changes the
--     entries, Ledger/Calls has the histories of calls, Ledger/Bounds the size, Ledger/Dispatch and
--     Ledger/Once how often an operation is dispatched, Ledger/Replies what a repeated or a second
--     request is answered.
--   - Server/Cooldown: `reserve_wake_targets_for_client` of src/server.rs, with Cooldown/Keys and
--     Cooldown/Once. Server/Rate: `RateLimiter` of src/server.rs, with Rate/Window.
--   - Server/Permits: `ConnectionLimiter` of src/server.rs, each access to its counter a step, with
--     Permits/Holders. Server/Keyed: `KeyedConnectionLimiter` of src/server.rs with the permits that
--     are held, with Keyed/Counts.
--   - Server/Host: hosts, access policies, `authorized_hosts` with Host/Access, and monitors.
--     Server/Respond: `make_response` and `send_response`. Server/Requests and Server/Wakes: the
--     wake branch of `process_envelope`, with its cases in Wakes/Cases, its answers in
--     Wakes/Answers, its packets in Wakes/Packets and Wakes/Cleared, and its calls of the ledger in
--     Wakes/Reached and Wakes/Runs.
--   - Server/Queries: the branches `ListHosts` and `GetStatuses` of `process_envelope`, with
--     Queries/Allowed and Queries/Jobs; what `spawn_probe` answers is an argument.
--   - Client: the state of the connection actor of src/client.rs. Client/Handle:
--     `handle_server_event`, a function for each of its branches. Client/Commands and Client/Run:
--     the loop of `run_connected_client`, a `Round` for what each round finds. Client/Moves has the
--     steps on its operations and Client/Traced, with Traced/Operations and Traced/Rounds, that the
--     loop makes such steps only; Client/Histories and Client/Bounds are about these steps.
--     Client/Backoff: `client_actor`, with Backoff/Paced. Client/Batches: the batches of hosts in
--     its requests. Client/Asked: the exchange by which `handle_server_event` asks for the states of
--     a list of hosts, with Asked/Complete.
--   - Config: the records of src/config.rs. Config/Text: the text operations of the standard
--     library. Config/Address: the tests of headers, addresses and endpoints, with Address/Accepted.
--     Config/Keys: the tests of keys. Config/Validate: `AppConfig::validate` in four parts, with
--     Validate/Sound.
--   - Wol/Route: `select_ipv4_route` of src/wol.rs, with Route/Best and Route/Order.
--     Wol/Destinations: `ipv6_destinations`.
--   - Log: `LogQueue` of src/logging.rs, with Log/Latest.
--   - Wake: `Progress` of src/wake.rs, with its histories in Wake/History.
--   - Tests: concrete runs.
--
-- Numbers are natural numbers; sums of times are exact, as in the source, where an overflow of
-- `Instant` would panic. An instant and a duration are nanoseconds. Where the source saturates
-- (`duration_since`, `saturating_add`) so does the model. Each method that takes the clock or
-- draws a random ticket has it as an argument. A mutex makes a method atomic, so the interleavings
-- of the connections are the lists of calls, in any order and at any times. Loops are recursions
-- on a list: of calls of the socket, of commands, or of rounds, whose end is the end of the run.
-- Two loops run on fuel: `chunks` on the length of the list, and `trim` on the length of the text,
-- which each round shortens.
--
-- A wake request is handled in one step of the model; the histories of the ledger have the calls
-- of any number of connections in any order. What the socket, the queue of events and the channel
-- of commands do is an argument of each call. The transport of the Noise library, the encoder, the
-- hash, the curve, hexadecimal text and the parser of IP addresses are parameters; where a theorem
-- needs a law of one, IsTransport and IsCodec say it; the decoder of records accepts the payloads
-- of IsSmall, which `deserialize_payload` checks.
--
-- Not modelled: the handshake (src/security.rs), `spawn_probe` and `service_status_jobs`, the
-- connection loop and the running of the monitors (src/server.rs), the credential bundles and the
-- connecting of sockets (src/client.rs), the files of the configuration and the log
-- (src/config.rs, src/logging.rs), probes, sockets and packets, the command line and the terminal
-- interface.
pub mod Base
pub mod Client
pub mod Config
pub mod Log
pub mod Protocol
pub mod Security
pub mod Server
pub mod Tests
pub mod Wake
pub mod Wol
