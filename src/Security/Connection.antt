-- ===== src/Security/Connection.antt =====
-- `SecureConnection` of src/security.rs: records with sequence numbers over an encrypted transport,
-- each with its length before it. The transport and the encoder are a library's, and what the socket
-- does is an argument.
pub mod Receive
pub mod Flight
pub mod Poll
pub mod Send
pub mod Session
pub mod Delivery
pub mod Guard
use remote_open_power.Base.{
  ℕ, Bytes, Bool, true, false, List, [], ◌∷◌, ◌++◌, Option, none, some, Result, ok, err, ◌+◌, ◌-◌,
  ◌*◌, ◌/◌, ◌==◌, ◌!=◌, ◌||◌, not, min, ltb, leb, length, is_empty, if◌then◌else◌, nat_eq, list_eq,
  take, drop, be_bytes4, header_length, ◌≡◌, Instant, Duration, from_secs, u64_max,
}
use remote_open_power.Protocol.Message.{ProtocolError}
use remote_open_power.Protocol.Codec.{encode, decode}

abbrev pub max_record_bytes : ℕ
max_record_bytes = 64 * 1024

abbrev pub write_timeout : Duration
write_timeout = from_secs 3

abbrev pub chunk_bytes : ℕ
chunk_bytes = 8 * 1024

pub data SecurityError : Type 0 where
  io handshake transport frame_too_large sequence replay unauthorized pin_required expired
        identity :
      SecurityError
  protocol : ProtocolError → SecurityError

pub record SecureRecord : Type 0 where
  pub version : ℕ
  pub direction : ℕ
  pub session_id : Bytes
  pub seq : ℕ
  pub payload : Bytes

-- `deserialize_payload`: the payloads that the decoder of a record accepts.
abbrev pub is_small : SecureRecord → Bool
is_small r = leb (length r.payload) (max_record_bytes / 2)

abbrev pub IsSmall : SecureRecord → Type 0
IsSmall r = is_small r ≡ true

-- `T` is the library's transport state.
pub record SecureConnection (T : Type 0) : Type 0 where
  pub transport : T
  pub session_id : Bytes
  pub outbound_direction : ℕ
  pub inbound_direction : ℕ
  pub send_seq : ℕ
  pub recv_seq : ℕ
  pub read_buffer : Bytes
  pub closed : Bool

-- `close`, and `fail`, whose error the caller writes.
abbrev pub close : {T : Type 0} → SecureConnection T → SecureConnection T
close c = record c { closed = true }

-- What a call of `write` does: it takes a number of bytes, would block, or fails.
pub data Written : Type 0 where
  wrote : ℕ → Written
  would_block write_failed : Written

-- The loop of `write_all_deadline` on the calls of `write` with their times; when they end, so does
-- the time. The bytes that were written, whether all were, and the calls that are left.
unfoldable pub write_all :
    Instant → List (Instant × Written) → Bytes → Bytes × Bool × List (Instant × Written)
write_all deadline calls [] = ([], true, calls)
write_all deadline [] (x ∷ xs) = ([], false, [])
write_all deadline ((now, Written.would_block) ∷ calls) (x ∷ xs) =
    let rest = write_all deadline calls (x ∷ xs) in
    if leb deadline now then ([], false, calls) else rest
write_all deadline ((now, Written.write_failed) ∷ calls) (x ∷ xs) = ([], false, calls)
write_all deadline ((now, Written.wrote n) ∷ calls) (x ∷ xs) =
    let rest = write_all deadline calls (drop n (x ∷ xs)) in
    if leb deadline now || n == 0
    then ([], false, calls)
    else (take n (x ∷ xs) ++ rest.0, rest.1, rest.2)

-- `write_record_bounded`: the prefix and the body share the deadline.
unfoldable pub write_record :
    Bytes → ℕ → Instant → List (Instant × Written) → Bytes × Result SecurityError (Unit {0})
write_record payload maximum deadline calls =
    if is_empty payload || ltb maximum (length payload)
    then ([], err SecurityError.frame_too_large)
    else (let (prefix, first, rest) = write_all deadline calls (be_bytes4 (length payload)) in
        if first
        then (let (body, second, _) = write_all deadline rest payload in
            (prefix ++ body, if second then ok tt else err SecurityError.io))
        else (prefix, err SecurityError.io))

-- What a call of `read` finds: a number of bytes, the end of the stream, or an error. At no bytes it
-- would block.
pub data Arrival : Type 0 where
  arrived : ℕ → Arrival
  ended read_failed : Arrival

-- Whether the buffer holds a complete record.
pub data Inspected : Type 0 where
  incomplete complete bad : Inspected

unfoldable pub inspect : Bytes → Inspected
inspect buffer = elim (header_length buffer) [
  | none ↦ Inspected.incomplete
  | some n ↦
      if n == 0 || ltb max_record_bytes n
      then Inspected.bad
      else if leb (4 + n) (length buffer)
      then Inspected.complete
      else Inspected.incomplete
]

-- The buffer and the stream after the loop of `poll_payload`, or the error.
abbrev pub Received : Type 0
Received = Bytes × Bytes × Result SecurityError (Unit {0})

abbrev pub room : Bytes → ℕ
room buffer = max_record_bytes + 4 - length buffer

unfoldable pub receive : List Arrival → Bytes → Bytes → Received
receive [] buffer incoming = elim (inspect buffer) [
  | bad ↦ (buffer, incoming, err SecurityError.frame_too_large)
  | complete ↦ (buffer, incoming, ok tt)
  | incomplete ↦
      if room buffer == 0
      then (buffer, incoming, err SecurityError.frame_too_large)
      else (buffer, incoming, ok tt)
]
receive (Arrival.arrived n ∷ arrivals) buffer incoming =
    let k = min n (min (min (room buffer) chunk_bytes) (length incoming)) in
    elim (inspect buffer) [
      | bad ↦ (buffer, incoming, err SecurityError.frame_too_large)
      | complete ↦ (buffer, incoming, ok tt)
      | incomplete ↦
          let rest = receive arrivals (buffer ++ take k incoming) (drop k incoming) in
          if room buffer == 0
          then (buffer, incoming, err SecurityError.frame_too_large)
          else if k == 0
          then (buffer, incoming, ok tt)
          else rest
    ]
receive (other ∷ arrivals) buffer incoming = elim (inspect buffer) [
  | bad ↦ (buffer, incoming, err SecurityError.frame_too_large)
  | complete ↦ (buffer, incoming, ok tt)
  | incomplete ↦
      if room buffer == 0
      then (buffer, incoming, err SecurityError.frame_too_large)
      else (buffer, incoming, err SecurityError.io)
]

module _ {T : Type 0} (write_message : T → Bytes → Option (T × Bytes))
    (read_message : T → Bytes → Option (T × Bytes)) (to_allocvec : SecureRecord → Option Bytes)
    (take_from_bytes : Bytes → Option (SecureRecord × Bytes)) where
  -- The part of `send_payload` after the record is encoded, with the state that encrypted it.
  abbrev pub transmit :
      SecureConnection T
      → T × Bytes
      → Instant
      → List (Instant × Written)
      → SecureConnection T × Bytes × Result SecurityError (Unit {0})
  transmit c (next, encrypted) now calls =
      let c' : SecureConnection T = record c { transport = next } in
      if length encrypted == 0 || ltb max_record_bytes (length encrypted)
      then (close c', [], err SecurityError.frame_too_large)
      else (let (written, result) =
            write_record encrypted max_record_bytes (now + write_timeout) calls in
          elim result [
            | err e ↦ (close c', written, err e)
            | ok u ↦ (record c' { send_seq = c.send_seq + 1 }, written, ok tt)
          ])

  -- The connection after the call, what it wrote, and its result.
  unfoldable pub send_payload :
      SecureConnection T
      → Bytes
      → Instant
      → List (Instant × Written)
      → SecureConnection T × Bytes × Result SecurityError (Unit {0})
  send_payload c payload now calls =
      if c.closed
      then (c, [], err SecurityError.transport)
      else if is_empty payload || ltb (max_record_bytes / 2) (length payload)
      then (c, [], err SecurityError.frame_too_large)
      else if leb u64_max c.send_seq
      then (close c, [], err SecurityError.sequence)
      else elim (encode to_allocvec (record {
        version = 1;
        direction = c.outbound_direction;
        session_id = c.session_id;
        seq = c.send_seq;
        payload = payload;
      })) [
        | err e ↦ (c, [], err (SecurityError.protocol e))
        | ok plain ↦ elim (write_message c.transport plain) [
          | none ↦ (close c, [], err SecurityError.transport)
          | some sealed ↦ transmit c sealed now calls
        ]
      ]

  abbrev pub is_expected : SecureConnection T → SecureRecord → Bool
  is_expected c r = not (
      r.version != 1
      || r.direction != c.inbound_direction
      || r.session_id != c.session_id
      || r.seq != c.recv_seq
      || is_empty r.payload
      || ltb (max_record_bytes / 2) (length r.payload))

  -- The part of `poll_payload` after the record is taken from the buffer.
  unfoldable pub accept_record :
      SecureConnection T → Bytes → SecureConnection T × Result SecurityError (Option Bytes)
  accept_record c encrypted = elim (read_message c.transport encrypted) [
    | none ↦ (close c, err SecurityError.transport)
    | some (next, plain) ↦
        let c' : SecureConnection T = record c { transport = next } in
        elim (decode take_from_bytes plain) [
          | err e ↦ (close c', err (SecurityError.protocol e))
          | ok r ↦
              if not (is_expected c' r)
              then (close c', err SecurityError.sequence)
              else if leb u64_max c.recv_seq
              then (close c', err SecurityError.sequence)
              else (record c' { recv_seq = c.recv_seq + 1 }, ok (some r.payload))
        ]
  ]

  abbrev pub take_record :
      SecureConnection T → SecureConnection T × Result SecurityError (Option Bytes)
  take_record c = elim (header_length c.read_buffer) [
    | none ↦ (c, ok none)
    | some n ↦
        if n == 0 || ltb max_record_bytes n
        then (close c, err SecurityError.frame_too_large)
        else if ltb (length c.read_buffer) (4 + n)
        then (c, ok none)
        else accept_record (record c { read_buffer = drop (4 + n) c.read_buffer })
            (drop 4 (take (4 + n) c.read_buffer))
  ]

  -- The connection and the stream after the call, and its result.
  unfoldable pub poll_payload :
      SecureConnection T
      → List Arrival
      → Bytes
      → SecureConnection T × Bytes × Result SecurityError (Option Bytes)
  poll_payload c arrivals incoming =
      if c.closed
      then (c, incoming, err SecurityError.transport)
      else (let (buffer, left, outcome) = receive arrivals c.read_buffer incoming in
          elim outcome [
            | err e ↦ (close (record c { read_buffer = buffer }), left, err e)
            | ok u ↦
                let (c', result) = take_record (record c { read_buffer = buffer }) in
                (c', left, result)
          ])
