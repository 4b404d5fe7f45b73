-- ===== src/Tests/Connection.antt =====
-- Runs of the connection of src/security.rs with a small transport and encoder.
use mathlib.Core.List.{append-nil}
use remote_open_power.Base.{
  ℕ, zero, suc, Bytes, false, List, [], ◌∷◌, ◌++◌, All, map, Option, none, some, Result, err, ◌+◌,
  ◌≡◌, ◌∙◌, ap, sym, refl, arith, ◌==◌, nat_eq, if◌then◌else◌, length, take, drop, ℕ_eq?, list_eq?,
  header_length, Instant, take-append, length-append,
}
use remote_open_power.Protocol.Codec.{encode, decode, IsCodec}
use remote_open_power.Security.Connection.{
  is_small, IsSmall, max_record_bytes, SecurityError, SecureRecord, SecureConnection, Written,
  wrote, would_block, Arrival, arrived, write_all, write_record, inspect, receive, accept_record,
  send_payload, poll_payload,
}
use remote_open_power.Security.Connection.Receive.{Eager}
use remote_open_power.Security.Connection.Flight.{IsTransport}
use remote_open_power.Security.Connection.Session.{Link, Event, send, poll, IsOpen, run, IsFresh}
use remote_open_power.Security.Connection.Delivery.{IsFull, received_prefix, delivery_complete}
use remote_open_power.Security.Connection.Guard.{IsGuarded, poll_payload-IsGuarded}

-- A transport that counts its messages.
abbrev write_message : ℕ → Bytes → Option (ℕ × Bytes)
write_message n plain = some (suc n, n ∷ plain)

abbrev read_message : ℕ → Bytes → Option (ℕ × Bytes)
read_message n [] = none
read_message n (x ∷ xs) = if x == n then some (suc n, xs) else none

abbrev Synced : ℕ → ℕ → Type 0
Synced a b = a ≡ b

counting-IsTransport : IsTransport write_message read_message Synced
counting-IsTransport = record {
  delivers = λ a a' b plain cipher s w.
      let first : a ∷ plain ≡ cipher = cc in
      let second : suc a ≡ a' = cc in (suc b, rw (sym first) (ground (arith, s)), cc);
}

abbrev to_allocvec : SecureRecord → Option Bytes
to_allocvec r =
    some (r.version ∷ r.direction ∷ r.seq ∷ length r.session_id ∷ r.session_id ++ r.payload)

abbrev take_from_bytes : Bytes → Option (SecureRecord × Bytes)
take_from_bytes (v ∷ d ∷ q ∷ n ∷ rest) =
    let r : SecureRecord = record {
      version = v;
      direction = d;
      session_id = take n rest;
      seq = q;
      payload = drop n rest;
    } in
    if is_small r then some (r, []) else none
take_from_bytes other = none

split : (s p : Bytes) → (take (length s) (s ++ p) ≡ s) × (drop (length s) (s ++ p) ≡ p)
split s p =
    let (a, b) =
      take-append s p (s ++ p) [] (append-nil (s ++ p)) omega (arith, length-append s p) in
    (a, sym (append-nil _) ∙ b)

IsSmall-IsCodec : IsCodec IsSmall to_allocvec take_from_bytes
IsSmall-IsCodec = record {
  nonempty = λ r encoded h e.
      let same : (r.version ∷ r.direction ∷ r.seq ∷ length r.session_id ∷ r.session_id ++ r.payload)
          ≡ encoded =
        cc in
      absurd (cc (same, e));
  inverse = λ r encoded small h.
      let same : (r.version ∷ r.direction ∷ r.seq ∷ length r.session_id ∷ r.session_id ++ r.payload)
          ≡ encoded =
        cc in
      rw (sym same, (split r.session_id r.payload).0, (split r.session_id r.payload).1, small) refl;
}

abbrev fresh : ℕ → ℕ → SecureConnection ℕ
fresh outbound inbound = record {
  transport = 0;
  session_id = 5 ∷ [];
  outbound_direction = outbound;
  inbound_direction = inbound;
  send_seq = 0;
  recv_seq = 0;
  read_buffer = [];
  closed = false;
}

abbrev start : Link ℕ
start = record { sender = fresh 1 2; receiver = fresh 2 1; wire = []; sent = []; got = [] }

start-IsFresh : IsFresh Synced start
start-IsFresh = record {
  synced = refl;
  same_direction = refl;
  same_session = refl;
  first_sent = refl;
  first_received = refl;
  receiver_open = refl;
  no_buffer = refl;
  no_wire = refl;
  none_sent = refl;
  none_got = refl;
}

-- The first record is written in two calls of `write`, and read in three of `read`.
abbrev writes : List (Instant × Written)
writes = (0, wrote 6) ∷ (1, would_block) ∷ (2, wrote 20) ∷ (3, wrote 20) ∷ []

abbrev events : List Event
events =
    send (7 ∷ 8 ∷ []) 0 writes
    ∷ poll (arrived 3 ∷ arrived 0 ∷ [])
    ∷ send (9 ∷ []) 1 writes
    ∷ poll (arrived 3 ∷ arrived 30 ∷ [])
    ∷ []

events-IsOpen : All IsOpen events
events-IsOpen = (tt, (tt, (tt, (tt, tt))))

abbrev ended : Link ℕ
ended = run write_message read_message to_allocvec take_from_bytes start events

ended_open : ended.sender.closed ≡ false
unfolding send_payload write_record write_all encode ℕ_eq? list_eq?
ended_open = refl

ended_got : ended.got ≡ (7 ∷ 8 ∷ []) ∷ []
unfolding send_payload poll_payload write_record write_all encode decode inspect receive
    accept_record header_length ℕ_eq? list_eq?
ended_got = refl

received_prefix_example :
    (ended.receiver.closed ≡ false) × (ps : List Bytes) × (ended.sent ≡ ended.got ++ ps)
received_prefix_example =
    received_prefix write_message read_message to_allocvec take_from_bytes Synced start events
      counting-IsTransport IsSmall-IsCodec start-IsFresh events-IsOpen ended_open

unfoldable reads : ℕ → List Arrival
reads zero = []
reads (suc n) = arrived 1 ∷ reads n

reads-Eager : (n : ℕ) → Eager (reads n)
unfolding reads
reads-Eager zero = tt
reads-Eager (suc n) = (omega arith, reads-Eager n)

length-reads : (n : ℕ) → length (reads n) ≡ n
unfolding reads
length-reads zero = refl
length-reads (suc n) = ap suc (length-reads n)

abbrev drain : List Arrival
drain = reads (max_record_bytes + 4)

drain-IsFull : IsFull drain
drain-IsFull =
    (reads-Eager (max_record_bytes + 4), omega (arith, length-reads (max_record_bytes + 4)))

ended_sent : length ended.sent ≡ 2
unfolding send_payload write_record write_all encode ℕ_eq? list_eq?
ended_sent = refl

delivery_complete_example :
    (run write_message read_message to_allocvec take_from_bytes ended
      (map poll (drain ∷ drain ∷ []))).got
    ≡ ended.sent
delivery_complete_example =
    delivery_complete write_message read_message to_allocvec take_from_bytes Synced start events
      (drain ∷ drain ∷ []) counting-IsTransport IsSmall-IsCodec start-IsFresh events-IsOpen
      ended_open (drain-IsFull, (drain-IsFull, tt)) (omega (arith, ended_sent))

-- A record with the number 3 where the number 0 is due.
abbrev replayed : Bytes
replayed = 0 ∷ 0 ∷ 0 ∷ 7 ∷ 0 ∷ 1 ∷ 1 ∷ 3 ∷ 1 ∷ 5 ∷ 7 ∷ []

abbrev poll_replayed : SecureConnection ℕ × Bytes × Result SecurityError (Option Bytes)
poll_replayed =
    poll_payload write_message read_message to_allocvec take_from_bytes (fresh 2 1)
      (arrived 11 ∷ []) replayed

poll_replayed_refused : poll_replayed.2 ≡ err SecurityError.sequence
unfolding poll_payload decode inspect receive accept_record header_length ℕ_eq? list_eq?
poll_replayed_refused = refl

poll_payload-IsGuarded_example :
    IsGuarded write_message read_message to_allocvec take_from_bytes
      (fresh 2 1)
      (poll_replayed.0, poll_replayed.2)
poll_payload-IsGuarded_example =
    poll_payload-IsGuarded write_message read_message to_allocvec take_from_bytes (fresh 2 1)
      (arrived 11 ∷ []) replayed
