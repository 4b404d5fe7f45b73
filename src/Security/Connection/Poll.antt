-- ===== src/Security/Connection/Poll.antt =====
-- What `poll_payload` of src/security.rs takes from a flight of records.
use remote_open_power.Base.{
  ℕ, suc, Bytes, false, List, [], ◌∷◌, ◌++◌, Option, none, some, Result, ok, ◌+◌, ◌≤◌, ◌<◌, ◌≡◌,
  ◌∙◌, sym, ap, refl, arith, leb, length, take, drop, length-append, header_length,
  header_length-append, header_length_total, Option-cases, Bool-cases, ◌⊎◌, inl, inr, nat_eq,
  list_eq,
}
use remote_open_power.Security.Connection.{
  max_record_bytes, SecurityError, SecureRecord, SecureConnection, Arrival, receive, accept_record,
  take_record, poll_payload,
}
use remote_open_power.Security.Connection.Receive.{
  frame, Open, receive-append, receive-ok, receive_complete, Eager, Eager-Open,
}
use remote_open_power.Security.Connection.Flight.{
  Flight, Flight-Good, Reading, Sealed, header_frame, take_frame, accept_record-Sealed,
}

module _ {T : Type 0} (write_message read_message : T → Bytes → Option (T × Bytes))
    (to_allocvec : SecureRecord → Option Bytes)
    (take_from_bytes : Bytes → Option (SecureRecord × Bytes)) (Synced : T → T → Type 0)
    (direction : ℕ) (session_id : Bytes) where
  abbrev Reads : SecureConnection T → Bytes → List Bytes → T → ℕ → Type 0
  Reads = Reading write_message read_message to_allocvec take_from_bytes Synced direction session_id

  abbrev pub IsTaken :
      SecureConnection T × Result SecurityError (Option Bytes)
      → Bytes
      → Bytes
      → List Bytes
      → T
      → ℕ
      → Type 0
  IsTaken (c, result) left p ps a m = (result ≡ ok (some p)) × Reads c left ps a m

  -- A poll that finds no complete record, and one that returns the first.
  abbrev pub IsPolled :
      SecureConnection T × Result SecurityError (Option Bytes) → Bytes → List Bytes → T → ℕ → Type 0
  IsPolled (c, result) left ps a m =
      ((result ≡ ok none) × Reads c left ps a m)
      ⊎ ((p : Bytes) × (qs : List Bytes) × (ps ≡ p ∷ qs) × IsTaken (c, result) left p qs a m)

  abbrev took : SecureConnection T → SecureConnection T × Result SecurityError (Option Bytes)
  took = take_record write_message read_message to_allocvec take_from_bytes

  -- The header of a buffer is the length of the first record.
  header_first :
      (c : SecureConnection T) (i p : Bytes) (n : ℕ) (next : T) (rest : Bytes)
      → (x : Sealed write_message read_message to_allocvec take_from_bytes Synced direction
          session_id c.transport c.recv_seq
          (c.read_buffer ++ i)
          p
          next
          rest)
      → header_length c.read_buffer ≡ some n
      → n ≡ length x.cipher
  header_first c i p n next rest x h =
      let first = header_length-append c.read_buffer i n h in
      let second =
        header_frame write_message read_message to_allocvec take_from_bytes Synced direction
          session_id x.cipher rest x.bounded in
      cc (first, second, x.first_bytes)

  -- `take_record` before the record is complete, and after.
  took-none : (c : SecureConnection T) → header_length c.read_buffer ≡ none → took c ≡ (c, ok none)
  took-none c h = ground (arith, h)

  took_short :
      (c : SecureConnection T) (n : ℕ)
      → header_length c.read_buffer ≡ some n
      → 0 < n
      → n ≤ max_record_bytes
      → length c.read_buffer < 4 + n
      → took c ≡ (c, ok none)
  took_short c n h pos fits short = ground (arith, h, pos, fits, short)

  took_long :
      (c : SecureConnection T) (n : ℕ)
      → header_length c.read_buffer ≡ some n
      → 0 < n
      → n ≤ max_record_bytes
      → 4 + n ≤ length c.read_buffer
      → took c
        ≡ accept_record write_message read_message to_allocvec take_from_bytes
            (record c { read_buffer = drop (4 + n) c.read_buffer })
            (drop 4 (take (4 + n) c.read_buffer))
  took_long c n h pos fits long = ground (arith, h, pos, fits, long)

  take_first :
      (c : SecureConnection T) (i p : Bytes) (ps : List Bytes) (a : T) (m : ℕ) (next : T)
      (rest : Bytes)
      → c.closed ≡ false
      → c.inbound_direction ≡ direction
      → c.session_id ≡ session_id
      → (x : Sealed write_message read_message to_allocvec take_from_bytes Synced direction
          session_id c.transport c.recv_seq
          (c.read_buffer ++ i)
          p
          next
          rest)
      → Flight write_message read_message to_allocvec take_from_bytes Synced direction session_id
          next
          (suc c.recv_seq)
          rest
          ps
          a
          m
      → header_length c.read_buffer ≡ some (length x.cipher)
      → 4 + length x.cipher ≤ length c.read_buffer
      → IsTaken (took c) i p ps a m
  take_first c i p ps a m next rest o d s x tail h long =
      let found =
        take_frame write_message read_message to_allocvec take_from_bytes Synced direction
          session_id c.read_buffer i x.cipher rest x.first_bytes long in
      let c' : SecureConnection T = record c {
        read_buffer = drop (4 + length x.cipher) c.read_buffer;
      } in
      let accepted =
        accept_record-Sealed write_message read_message to_allocvec take_from_bytes Synced direction
          session_id c' p next (c.read_buffer ++ i) rest d s x in
      let result : took c
          ≡ (record c' { transport = next; recv_seq = suc c.recv_seq }, ok (some p)) =
        took_long c (length x.cipher) h x.positive x.bounded long
        ∙ ap (accept_record write_message read_message to_allocvec take_from_bytes c') found.0
        ∙ accepted in
      rw result (
        refl,
        record { opened = o; same_direction = d; same_session = s; flight = rw found.1 tail },
      )

  take_headed :
      (c : SecureConnection T) (i : Bytes) (ps : List Bytes) (a : T) (m : ℕ) (n : ℕ)
      → Reads c i ps a m
      → header_length c.read_buffer ≡ some n
      → IsPolled (took c) i ps a m
  unfolding header_length
  take_headed c i [] a m n r h =
      let found = header_length-append c.read_buffer i n h in absurd (cc (found, r.flight.0))
  take_headed c i (p ∷ ps) a m n r h =
      let (next, rest, x, tail) = r.flight in
      let same = header_first c i p n next rest x h in
      let h' : header_length c.read_buffer ≡ some (length x.cipher) = cc in
      elim (Bool-cases (leb (4 + length x.cipher) (length c.read_buffer))) [
        | inl long ↦ inr (
          p,
          ps,
          refl,
          take_first c i p ps a m next rest r.opened r.same_direction r.same_session x tail h'
              (ground (arith, long)),
        )
        | inr short ↦
            rw (took_short c (length x.cipher) h' x.positive x.bounded (ground (arith, short)))
              (inl (refl, r))
      ]

  take_record-IsPolled :
      (c : SecureConnection T) (i : Bytes) (ps : List Bytes) (a : T) (m : ℕ)
      → Reads c i ps a m
      → IsPolled (took c) i ps a m
  take_record-IsPolled c i ps a m r = elim (Option-cases (header_length c.read_buffer)) [
    | inl none_yet ↦ rw (took-none c none_yet) (inl (refl, r))
    | inr (n, h) ↦ take_headed c i ps a m n r h
  ]

  abbrev polled :
      SecureConnection T
      → List Arrival
      → Bytes
      → SecureConnection T × Bytes × Result SecurityError (Option Bytes)
  polled = poll_payload write_message read_message to_allocvec take_from_bytes

  poll_open :
      (c : SecureConnection T) (arrivals : List Arrival) (i : Bytes)
      → c.closed ≡ false
      → (receive arrivals c.read_buffer i).2 ≡ ok tt
      → polled c arrivals i ≡ (
        (took (record c { read_buffer = (receive arrivals c.read_buffer i).0 })).0,
        (receive arrivals c.read_buffer i).1,
        (took (record c { read_buffer = (receive arrivals c.read_buffer i).0 })).1,
      )
  unfolding poll_payload
  poll_open c arrivals i o h = ground (arith, o, h)

  -- The connection and the flight once the stream is read.
  abbrev received : SecureConnection T → List Arrival → Bytes → SecureConnection T
  received c arrivals i = record c { read_buffer = (receive arrivals c.read_buffer i).0 }

  Reads-received :
      (c : SecureConnection T) (arrivals : List Arrival) (i : Bytes) (ps : List Bytes) (a : T)
      (m : ℕ)
      → Reads c i ps a m
      → Reads (received c arrivals i) (receive arrivals c.read_buffer i).1 ps a m
  Reads-received c arrivals i ps a m r = record {
    opened = r.opened;
    same_direction = r.same_direction;
    same_session = r.same_session;
    flight = rw (receive-append arrivals c.read_buffer i) r.flight;
  }

  -- On a stream that stays open and holds a flight, a poll returns the first payload of the flight
  -- or waits for more, and fails in no case; what is left is the rest of the flight.
  pub poll_payload-IsPolled :
      (c : SecureConnection T) (arrivals : List Arrival) (i : Bytes) (ps : List Bytes) (a : T)
      (m : ℕ)
      → Reads c i ps a m
      → Open arrivals
      → IsPolled ((polled c arrivals i).0, (polled c arrivals i).2) (polled c arrivals i).1 ps a m
  poll_payload-IsPolled c arrivals i ps a m r o =
      let good =
        Flight-Good write_message read_message to_allocvec take_from_bytes Synced direction
          session_id c.transport c.recv_seq (c.read_buffer ++ i) ps a m r.flight in
      rw (poll_open c arrivals i r.opened (receive-ok arrivals c.read_buffer i good o)) (
        take_record-IsPolled (received c arrivals i) (receive arrivals c.read_buffer i).1 ps a m
          (Reads-received c arrivals i ps a m r))

  -- With as many reads as a record has bytes, a poll returns the first payload.
  pub poll_payload-IsTaken :
      (c : SecureConnection T) (arrivals : List Arrival) (i p : Bytes) (ps : List Bytes) (a : T)
      (m : ℕ)
      → Reads c i (p ∷ ps) a m
      → Eager arrivals
      → max_record_bytes + 4 ≤ length arrivals
      → IsTaken ((polled c arrivals i).0, (polled c arrivals i).2) (polled c arrivals i).1 p ps a m
  poll_payload-IsTaken c arrivals i p ps a m r eager many =
      let (next, rest, x, tail) = r.flight in
      let good =
        Flight-Good write_message read_message to_allocvec take_from_bytes Synced direction
          session_id c.transport c.recv_seq (c.read_buffer ++ i) (p ∷ ps) a m r.flight in
      let c' : SecureConnection T = received c arrivals i in
      let left = (receive arrivals c.read_buffer i).1 in
      let r' = Reads-received c arrivals i (p ∷ ps) a m r in
      let (next', rest', y, tail') = r'.flight in
      let first =
        header_frame write_message read_message to_allocvec take_from_bytes Synced direction
          session_id y.cipher rest' y.bounded in
      let head' : header_length (c'.read_buffer ++ left) ≡ some (length y.cipher) =
        cc (first, y.first_bytes) in
      let head : header_length (c.read_buffer ++ i) ≡ some (length y.cipher) =
        rw (sym (receive-append arrivals c.read_buffer i)) head' in
      let sizes : length c.read_buffer + length i ≡ 4 + length y.cipher + length rest' = omega (
        arith,
        ap length (receive-append arrivals c.read_buffer i),
        ap length y.first_bytes,
        length-append c.read_buffer i,
        length-append (frame y.cipher) rest',
      ) in
      let long =
        receive_complete arrivals c.read_buffer i (length y.cipher) good eager head
          (omega (arith, sizes)) (omega (arith, many, y.bounded)) in
      let (k, h) = header_length_total c'.read_buffer (omega (arith, long)) in
      let h' : header_length c'.read_buffer ≡ some (length y.cipher) =
        cc (h, header_first c' left p k next' rest' y h) in
      rw
        (poll_open c arrivals i r.opened
          (receive-ok arrivals c.read_buffer i good (Eager-Open arrivals eager)))
        (take_first c' left p ps a m next' rest' r'.opened r'.same_direction r'.same_session y tail'
          h' long)
