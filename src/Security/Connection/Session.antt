-- ===== src/Security/Connection/Session.antt =====
-- Two ends of a connection of src/security.rs and the bytes between them, as a run of `send_payload`
-- at the one and `poll_payload` at the other.
use mathlib.Core.List.{append_assoc}
use remote_open_power.Base.{
  ℕ, suc, Bytes, true, false, List, [], ◌∷◌, ◌++◌, Option, none, some, Result, ok, err, ◌+◌, ◌≡◌,
  ◌∙◌, sym, ap, arith, Instant, Bool-cases, inl, inr, nat_eq, list_eq,
}
use remote_open_power.Protocol.Codec.{decode, IsCodec, decode-encode}
use remote_open_power.Security.Connection.{
  IsSmall, SecurityError, SecureRecord, SecureConnection, Written, Arrival, poll_payload,
  send_payload,
}
use remote_open_power.Security.Connection.Receive.{frame, Open}
use remote_open_power.Security.Connection.Send.{Sent, record_of}
use remote_open_power.Security.Connection.Flight.{IsTransport, Flight-append, Reading, numbered}
use remote_open_power.Security.Connection.Poll.{poll_payload-IsPolled}

-- The two ends, the bytes between them, the payloads whose sending succeeded and those returned.
pub record Link (T : Type 0) : Type 0 where
  pub sender : SecureConnection T
  pub receiver : SecureConnection T
  pub wire : Bytes
  pub sent : List Bytes
  pub got : List Bytes

-- Both ends are new, with the same session, opposite directions and transports in step.
pub record IsFresh {T : Type 0} (Synced : T → T → Type 0) (l : Link T) : Type 0 where
  pub synced : Synced l.sender.transport l.receiver.transport
  pub same_direction : l.receiver.inbound_direction ≡ l.sender.outbound_direction
  pub same_session : l.receiver.session_id ≡ l.sender.session_id
  pub first_sent : l.sender.send_seq ≡ 0
  pub first_received : l.receiver.recv_seq ≡ 0
  pub receiver_open : l.receiver.closed ≡ false
  pub no_buffer : l.receiver.read_buffer ≡ []
  pub no_wire : l.wire ≡ []
  pub none_sent : l.sent ≡ []
  pub none_got : l.got ≡ []

pub data Event : Type 0 where
  send : Bytes → Instant → List (Instant × Written) → Event
  poll : List Arrival → Event

abbrev pub IsOpen : Event → Type 0
IsOpen (Event.send payload now calls) = Unit
IsOpen (Event.poll arrivals) = Open arrivals

abbrev pub added : List Bytes → Bytes → Result SecurityError (Unit {0}) → List Bytes
added sent payload (ok u) = sent ++ (payload ∷ [])
added sent payload (err e) = sent

abbrev pub returned : List Bytes → Result SecurityError (Option Bytes) → List Bytes
returned got (ok (some payload)) = got ++ (payload ∷ [])
returned got (ok none) = got
returned got (err e) = got

module _ {T : Type 0} (write_message read_message : T → Bytes → Option (T × Bytes))
    (to_allocvec : SecureRecord → Option Bytes)
    (take_from_bytes : Bytes → Option (SecureRecord × Bytes)) where
  abbrev pub step : Link T → Event → Link T
  step l (Event.send payload now calls) =
      let (c, written, result) =
        send_payload write_message read_message to_allocvec take_from_bytes l.sender payload now
          calls in
      record l { sender = c; wire = l.wire ++ written; sent = added l.sent payload result }
  step l (Event.poll arrivals) =
      let (c, left, result) =
        poll_payload write_message read_message to_allocvec take_from_bytes l.receiver arrivals
          l.wire in
      record l { receiver = c; wire = left; got = returned l.got result }

  abbrev pub run : Link T → List Event → Link T
  run l [] = l
  run l (e ∷ es) = run (step l e) es

  step_closed : (l : Link T) (e : Event) → l.sender.closed ≡ true → (step l e).sender.closed ≡ true
  unfolding send_payload
  step_closed l (Event.send payload now calls) h = ground (arith, h)
  step_closed l (Event.poll arrivals) h = h

  run_closed :
      (l : Link T) (es : List Event) → l.sender.closed ≡ true → (run l es).sender.closed ≡ true
  run_closed l [] h = h
  run_closed l (e ∷ es) h = run_closed (step l e) es (step_closed l e h)

  pub run_open :
      (l : Link T) (es : List Event) → (run l es).sender.closed ≡ false → l.sender.closed ≡ false
  run_open l es h = elim (Bool-cases l.sender.closed) [
    | inl shut ↦ absurd (cc (run_closed l es shut))
    | inr o ↦ o
  ]

  module _ (Synced : T → T → Type 0) (direction : ℕ) (session_id : Bytes) where
    -- The payloads that are sent and not returned are in flight.
    pub record Linked (l : Link T) (ps : List Bytes) : Type 0 where
      pub sender_direction : l.sender.outbound_direction ≡ direction
      pub sender_session : l.sender.session_id ≡ session_id
      pub reading :
          Reading write_message read_message to_allocvec take_from_bytes Synced direction session_id
            l.receiver l.wire ps l.sender.transport l.sender.send_seq
      pub accounted : l.sent ≡ l.got ++ ps

    pub send_Linked :
        (l : Link T) (ps : List Bytes) (payload : Bytes) (now : Instant)
        (calls : List (Instant × Written))
        → IsTransport write_message read_message Synced
        → IsCodec IsSmall to_allocvec take_from_bytes
        → Linked l ps
        → Sent write_message read_message to_allocvec take_from_bytes l.sender payload (
            send_payload write_message read_message to_allocvec take_from_bytes l.sender payload now
              calls)
        → Linked (step l (Event.send payload now calls)) (ps ++ (payload ∷ []))
    send_Linked l ps payload now calls law codec k x =
        let same : numbered write_message read_message to_allocvec take_from_bytes Synced direction
              session_id l.sender.send_seq payload
            ≡ record_of write_message read_message to_allocvec take_from_bytes l.sender payload =
          cc (k.sender_direction, k.sender_session) in
        let decoded : decode take_from_bytes x.plain
            ≡ ok (
                numbered write_message read_message to_allocvec take_from_bytes Synced direction
                  session_id l.sender.send_seq payload) =
          decode-encode IsSmall to_allocvec take_from_bytes
            (record_of write_message read_message to_allocvec take_from_bytes l.sender payload)
            x.plain codec (ground (arith, x.small)) x.encoded
          ∙ ap ok (sym same) in
        let r = k.reading in
        let c = l.receiver in
        let flight' =
          Flight-append write_message read_message to_allocvec take_from_bytes Synced direction
            session_id c.transport c.recv_seq (c.read_buffer ++ l.wire) ps l.sender.transport x.next
            l.sender.send_seq payload x.plain x.cipher law r.flight x.sealed decoded x.positive
            x.bounded x.nonempty x.small x.counted in
        let next_number : l.sender.send_seq + 1 ≡ suc l.sender.send_seq = omega arith in
        rw x.outcome (record {
          sender_direction = k.sender_direction;
          sender_session = k.sender_session;
          reading = record {
            opened = r.opened;
            same_direction = r.same_direction;
            same_session = r.same_session;
            flight =
                rw next_number
                  (rw (sym (append_assoc c.read_buffer l.wire (frame x.cipher))) flight');
          };
          accounted =
              ap (λ y. y ++ (payload ∷ [])) k.accounted ∙ append_assoc l.got ps (payload ∷ []);
        })

    pub poll_Linked :
        (l : Link T) (ps : List Bytes) (arrivals : List Arrival)
        → Open arrivals
        → Linked l ps
        → (qs : List Bytes) × Linked (step l (Event.poll arrivals)) qs
    poll_Linked l ps arrivals o k =
        elim (poll_payload-IsPolled write_message read_message to_allocvec take_from_bytes Synced
          direction session_id l.receiver arrivals l.wire ps l.sender.transport l.sender.send_seq
          k.reading o) [
            | inl (result, reading) ↦ (
              ps,
              record {
                sender_direction = k.sender_direction;
                sender_session = k.sender_session;
                reading = reading;
                accounted = rw result k.accounted;
              },
            )
            | inr (p, qs, e, taken) ↦ (
              qs,
              record {
                sender_direction = k.sender_direction;
                sender_session = k.sender_session;
                reading = taken.1;
                accounted =
                    rw taken.0
                      (k.accounted ∙ ap (λ y. l.got ++ y) e ∙ sym (append_assoc l.got (p ∷ []) qs));
              },
            )
          ]
