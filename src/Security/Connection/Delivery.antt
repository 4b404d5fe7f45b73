-- ===== src/Security/Connection/Delivery.antt =====
-- What a run of both ends of a connection of src/security.rs delivers.
use mathlib.Core.List.{append_assoc, append-nil}
use remote_open_power.Base.{
  ℕ, Bytes, false, List, [], ◌∷◌, ◌++◌, All, map, Option, ◌+◌, ◌≤◌, ◌≡◌, ◌∙◌, sym, ap, refl, arith,
  length, length-append, inl, inr,
}
use remote_open_power.Protocol.Codec.{IsCodec}
use remote_open_power.Security.Connection.{IsSmall, max_record_bytes, SecureRecord, Arrival}
use remote_open_power.Security.Connection.Receive.{Open, Eager, Eager-Open}
use remote_open_power.Security.Connection.Send.{send_payload-IsSent}
use remote_open_power.Security.Connection.Flight.{IsTransport}
use remote_open_power.Security.Connection.Poll.{poll_payload-IsPolled, poll_payload-IsTaken}
use remote_open_power.Security.Connection.Session.{
  Link, Event, send, poll, IsOpen, step, run, run_open, IsFresh, Linked, send_Linked, poll_Linked,
}

-- At least one read of at least one byte for each byte of a largest record.
abbrev pub IsFull : List Arrival → Type 0
IsFull arrivals = Eager arrivals × (max_record_bytes + 4 ≤ length arrivals)

module _ {T : Type 0} (write_message read_message : T → Bytes → Option (T × Bytes))
    (to_allocvec : SecureRecord → Option Bytes)
    (take_from_bytes : Bytes → Option (SecureRecord × Bytes)) (Synced : T → T → Type 0)
    (direction : ℕ) (session_id : Bytes) where
  abbrev Holds : Link T → List Bytes → Type 0
  Holds = Linked write_message read_message to_allocvec take_from_bytes Synced direction session_id

  abbrev after : Link T → List Event → Link T
  after = run write_message read_message to_allocvec take_from_bytes

  abbrev next : Link T → Event → Link T
  next = step write_message read_message to_allocvec take_from_bytes

  fresh_Linked :
      (l : Link T)
      → IsFresh Synced l
      → l.sender.outbound_direction ≡ direction
      → l.sender.session_id ≡ session_id
      → Holds l []
  fresh_Linked l f d i = record {
    sender_direction = d;
    sender_session = i;
    reading = record {
      opened = f.receiver_open;
      same_direction = f.same_direction ∙ d;
      same_session = f.same_session ∙ i;
      flight = (cc (f.no_buffer, f.no_wire), f.synced, f.first_received ∙ sym f.first_sent);
    };
    accounted = cc (f.none_sent, f.none_got);
  }

  step_Linked :
      (l : Link T) (ps : List Bytes) (e : Event)
      → IsTransport write_message read_message Synced
      → IsCodec IsSmall to_allocvec take_from_bytes
      → IsOpen e
      → (next l e).sender.closed ≡ false
      → Holds l ps
      → (qs : List Bytes) × Holds (next l e) qs
  step_Linked l ps (send payload now calls) law codec o h k =
      elim (send_payload-IsSent write_message read_message to_allocvec take_from_bytes l.sender
        payload now calls) [
          | inl x ↦ (
            _,
            send_Linked write_message read_message to_allocvec take_from_bytes Synced direction
                session_id l ps payload now calls law codec k x,
          )
          | inr (failed, inl shut) ↦ absurd (cc (shut, h))
          | inr ((e, failed), inr (same, nothing)) ↦
              (ps, rw (same, nothing, failed, append-nil l.wire) k)
        ]
  step_Linked l ps (poll arrivals) law codec o h k =
      poll_Linked write_message read_message to_allocvec take_from_bytes Synced direction session_id
        l ps arrivals o k

  run_Linked :
      (l : Link T) (ps : List Bytes) (es : List Event)
      → IsTransport write_message read_message Synced
      → IsCodec IsSmall to_allocvec take_from_bytes
      → All IsOpen es
      → (after l es).sender.closed ≡ false
      → Holds l ps
      → (qs : List Bytes) × Holds (after l es) qs
  run_Linked l ps [] law codec o h k = (ps, k)
  run_Linked l ps (e ∷ es) law codec (o, os) h k =
      let first = run_open write_message read_message to_allocvec take_from_bytes (next l e) es h in
      let (qs, k') = step_Linked l ps e law codec o first k in
      run_Linked (next l e) qs es law codec os h k'

  -- A poll of a link whose payloads are all returned returns none.
  poll_none :
      (l : Link T) (arrivals : List Arrival)
      → Open arrivals
      → Holds l []
      → Holds (next l (poll arrivals)) []
  poll_none l arrivals o k =
      elim (poll_payload-IsPolled write_message read_message to_allocvec take_from_bytes Synced
        direction session_id l.receiver arrivals l.wire [] l.sender.transport l.sender.send_seq
        k.reading o) [
          | inl (result, reading) ↦ record {
            sender_direction = k.sender_direction;
            sender_session = k.sender_session;
            reading = reading;
            accounted = rw result k.accounted;
          }
          | inr (p, qs, e, taken) ↦ absurd (cc e)
        ]

  poll_first :
      (l : Link T) (p : Bytes) (ps : List Bytes) (arrivals : List Arrival)
      → Eager arrivals
      → max_record_bytes + 4 ≤ length arrivals
      → Holds l (p ∷ ps)
      → Holds (next l (poll arrivals)) ps
  poll_first l p ps arrivals eager many k =
      let taken =
        poll_payload-IsTaken write_message read_message to_allocvec take_from_bytes Synced direction
          session_id l.receiver arrivals l.wire p ps l.sender.transport l.sender.send_seq k.reading
          eager many in
      record {
        sender_direction = k.sender_direction;
        sender_session = k.sender_session;
        reading = taken.1;
        accounted = rw taken.0 (k.accounted ∙ sym (append_assoc l.got (p ∷ []) ps));
      }

  drained :
      (l : Link T) (ps : List Bytes) (drains : List (List Arrival))
      → All IsFull drains
      → length ps ≤ length drains
      → Holds l ps
      → (after l (map poll drains)).got ≡ l.sent
  drained l [] [] full h k = sym (k.accounted ∙ append-nil l.got)
  drained l [] (d ∷ ds) (f, fs) h k =
      drained (next l (poll d)) [] ds fs (omega arith) (poll_none l d (Eager-Open d f.0) k)
  drained l (p ∷ ps) [] full h k = absurd (omega (arith, h))
  drained l (p ∷ ps) (d ∷ ds) (f, fs) h k =
      drained (next l (poll d)) ps ds fs (omega (arith, h)) (poll_first l p ps d f.0 f.1 k)

-- From a fresh link with a transport and an encoder that keep their laws, in a run whose polls
-- find the stream open and after which the sender is open: the receiver is open, and the payloads
-- that its polls returned are those whose sending succeeded, in order, up to some that are in
-- flight; no payload is lost, repeated, changed or moved.
pub received_prefix :
    {T : Type 0} (write_message read_message : T → Bytes → Option (T × Bytes))
    (to_allocvec : SecureRecord → Option Bytes)
    (take_from_bytes : Bytes → Option (SecureRecord × Bytes)) (Synced : T → T → Type 0) (l : Link T)
    (es : List Event)
    → IsTransport write_message read_message Synced
    → IsCodec IsSmall to_allocvec take_from_bytes
    → IsFresh Synced l
    → All IsOpen es
    → (run write_message read_message to_allocvec take_from_bytes l es).sender.closed ≡ false
    → ((run write_message read_message to_allocvec take_from_bytes l es).receiver.closed ≡ false)
      × (ps : List Bytes) × ((run write_message read_message to_allocvec take_from_bytes l es).sent
          ≡ (run write_message read_message to_allocvec take_from_bytes l es).got ++ ps)
received_prefix write_message read_message to_allocvec take_from_bytes Synced l es law codec f o h =
    let start =
      fresh_Linked write_message read_message to_allocvec take_from_bytes Synced
        l.sender.outbound_direction l.sender.session_id l f refl refl in
    let (ps, k) =
      run_Linked write_message read_message to_allocvec take_from_bytes Synced
        l.sender.outbound_direction l.sender.session_id l [] es law codec o h start in
    (k.reading.opened, ps, k.accounted)

-- From a fresh link with a transport and an encoder that keep their laws, after a run whose polls
-- find the stream open and that leaves the sender open: as many polls as payloads were sent, each
-- with a read of at least one byte, while there are any, for each byte of a largest record, return
-- all payloads whose sending succeeded, in order.
pub delivery_complete :
    {T : Type 0} (write_message read_message : T → Bytes → Option (T × Bytes))
    (to_allocvec : SecureRecord → Option Bytes)
    (take_from_bytes : Bytes → Option (SecureRecord × Bytes)) (Synced : T → T → Type 0) (l : Link T)
    (es : List Event) (drains : List (List Arrival))
    → IsTransport write_message read_message Synced
    → IsCodec IsSmall to_allocvec take_from_bytes
    → IsFresh Synced l
    → All IsOpen es
    → (run write_message read_message to_allocvec take_from_bytes l es).sender.closed ≡ false
    → All IsFull drains
    → length (run write_message read_message to_allocvec take_from_bytes l es).sent ≤ length drains
    → (run write_message read_message to_allocvec take_from_bytes
        (run write_message read_message to_allocvec take_from_bytes l es)
        (map poll drains)).got
      ≡ (run write_message read_message to_allocvec take_from_bytes l es).sent
delivery_complete write_message read_message to_allocvec take_from_bytes Synced l es drains law
      codec f o h full many =
    let start =
      fresh_Linked write_message read_message to_allocvec take_from_bytes Synced
        l.sender.outbound_direction l.sender.session_id l f refl refl in
    let (ps, k) =
      run_Linked write_message read_message to_allocvec take_from_bytes Synced
        l.sender.outbound_direction l.sender.session_id l [] es law codec o h start in
    let size =
      ap length k.accounted
      ∙ length-append (run write_message read_message to_allocvec take_from_bytes l es).got ps in
    drained write_message read_message to_allocvec take_from_bytes Synced
      l.sender.outbound_direction l.sender.session_id
      (run write_message read_message to_allocvec take_from_bytes l es) ps drains full
      (omega (arith, size, many)) k
