-- ===== src/Security/Connection/Guard.antt =====
-- What `poll_payload` of src/security.rs lets through, whatever the stream holds.
use remote_open_power.Base.{
  length-drop-le, ℕ, Bytes, true, false, List, [], ◌∷◌, ◌++◌, Option, none, some, Result, ok, err,
  ◌+◌, ◌/◌, ◌≤◌, ◌==◌, ◌≡◌, refl, arith, ltb, leb, min, ◌||◌, is_empty, length, take, drop,
  length-append, length-take, header_length, u64_max, Option-cases, Bool-cases, Result-cases, inl,
  inr, nat_eq, list_eq,
}
use remote_open_power.Protocol.Codec.{decode}
use remote_open_power.Security.Connection.{
  max_record_bytes, chunk_bytes, room, SecurityError, SecureRecord, SecureConnection, Arrival,
  arrived, ended, read_failed, close, receive, is_expected, accept_record, take_record,
  poll_payload,
}

abbrev moves : ℕ → Bytes → Bytes → ℕ
moves n b i = min n (min (min (room b) chunk_bytes) (length i))

grown : (k : ℕ) (b i : Bytes) → k ≤ length i → length (b ++ take k i) ≡ length b + k
grown k b i h = omega (arith, length-append b (take k i), length-take k i h)

receive_bounded :
    (arrivals : List Arrival) (b i : Bytes)
    → length b ≤ max_record_bytes + 4
    → length (receive arrivals b i).0 ≤ max_record_bytes + 4
unfolding receive
receive_bounded [] b i h = ground (arith, h)
receive_bounded (arrived n ∷ arrivals) b i h = ground (
  arith,
  h,
  receive_bounded arrivals (b ++ take (moves n b i) i) (drop (moves n b i) i),
  grown (moves n b i) b i (omega arith),
)
receive_bounded (ended ∷ arrivals) b i h = ground (arith, h)
receive_bounded (read_failed ∷ arrivals) b i h = ground (arith, h)

module _ {T : Type 0} (write_message read_message : T → Bytes → Option (T × Bytes))
    (to_allocvec : SecureRecord → Option Bytes)
    (take_from_bytes : Bytes → Option (SecureRecord × Bytes)) where
  -- A record that the transport opened, with the number that is due, of the session and the
  -- direction of the connection.
  pub record IsDue (c : SecureConnection T) (payload : Bytes) : Type 0 where
    pub cipher : Bytes
    pub plain : Bytes
    pub next : T
    pub r : SecureRecord
    pub opens : read_message c.transport cipher ≡ some (next, plain)
    pub decodes : decode take_from_bytes plain ≡ ok r
    pub version : r.version ≡ 1
    pub direction : r.direction ≡ c.inbound_direction
    pub session : r.session_id ≡ c.session_id
    pub number : r.seq ≡ c.recv_seq
    pub returned : r.payload ≡ payload
    pub nonempty : is_empty payload ≡ false
    pub small : length payload ≤ max_record_bytes / 2

  -- A payload is that of the due record, and the next number is due; without one nothing but the
  -- buffer changes; after an error the connection is closed.
  abbrev pub IsGuarded :
      SecureConnection T → SecureConnection T × Result SecurityError (Option Bytes) → Type 0
  IsGuarded c (c', ok (some p)) =
      IsDue c p × (c'.recv_seq ≡ c.recv_seq + 1) × (c'.closed ≡ c.closed)
  IsGuarded c (c', ok none) =
      (c'.recv_seq ≡ c.recv_seq) × (c'.transport ≡ c.transport) × (c'.closed ≡ c.closed)
  IsGuarded c (c', err e) = c'.closed ≡ true

  abbrev accepted :
      SecureConnection T → Bytes → SecureConnection T × Result SecurityError (Option Bytes)
  accepted = accept_record write_message read_message to_allocvec take_from_bytes

  accept_due :
      (c : SecureConnection T) (cipher plain : Bytes) (next : T) (r : SecureRecord)
      → read_message c.transport cipher ≡ some (next, plain)
      → decode take_from_bytes plain ≡ ok r
      → IsGuarded c (accepted c cipher)
  unfolding accept_record
  accept_due c cipher plain next r m d =
      elim (Bool-cases (is_expected write_message read_message to_allocvec take_from_bytes c r)) [
        | inl good ↦ elim (Bool-cases (leb u64_max c.recv_seq)) [
          | inl over ↦
              let e : accepted c cipher
                  ≡ (close (record c { transport = next }), err SecurityError.sequence) =
                ground (arith, m, d, good, over) in
              rw e refl
          | inr below ↦
              let e : accepted c cipher ≡ (
                record c { transport = next; recv_seq = c.recv_seq + 1 },
                ok (some r.payload),
              ) =
                ground (arith, m, d, good, below) in
              rw e (
                record {
                  cipher = cipher;
                  plain = plain;
                  next = next;
                  r = r;
                  opens = m;
                  decodes = d;
                  version = ground (arith, good);
                  direction = ground (arith, good);
                  session = ground (arith, good);
                  number = ground (arith, good);
                  returned = refl;
                  nonempty = ground (arith, good);
                  small = ground (arith, good);
                },
                refl,
                refl,
              )
        ]
        | inr bad ↦
            let e : accepted c cipher
                ≡ (close (record c { transport = next }), err SecurityError.sequence) =
              ground (arith, m, d, bad) in
            rw e refl
      ]

  accept_record-IsGuarded :
      (c : SecureConnection T) (cipher : Bytes) → IsGuarded c (accepted c cipher)
  unfolding accept_record
  accept_record-IsGuarded c cipher = elim (Option-cases (read_message c.transport cipher)) [
    | inl m ↦
        let e : accepted c cipher ≡ (close c, err SecurityError.transport) = ground (arith, m) in
        rw e refl
    | inr ((next, plain), m) ↦ elim (Result-cases (decode take_from_bytes plain)) [
      | inl (r, d) ↦ accept_due c cipher plain next r m d
      | inr (why, d) ↦
          let e : accepted c cipher
              ≡ (close (record c { transport = next }), err (SecurityError.protocol why)) =
            ground (arith, m, d) in
          rw e refl
    ]
  ]

  -- The buffer has no part in what is due.
  rebuffer :
      (c : SecureConnection T) (b : Bytes)
      (q : SecureConnection T × Result SecurityError (Option Bytes))
      → IsGuarded (record c { read_buffer = b }) q
      → IsGuarded c q
  rebuffer c b (c', ok (some p)) (d, n, s) = (
    record {
      cipher = d.cipher;
      plain = d.plain;
      next = d.next;
      r = d.r;
      opens = d.opens;
      decodes = d.decodes;
      version = d.version;
      direction = d.direction;
      session = d.session;
      number = d.number;
      returned = d.returned;
      nonempty = d.nonempty;
      small = d.small;
    },
    n,
    s,
  )
  rebuffer c b (c', ok none) g = g
  rebuffer c b (c', err e) g = g

  abbrev took : SecureConnection T → SecureConnection T × Result SecurityError (Option Bytes)
  took = take_record write_message read_message to_allocvec take_from_bytes

  take_record-IsGuarded : (c : SecureConnection T) → IsGuarded c (took c)
  take_record-IsGuarded c = elim (Option-cases (header_length c.read_buffer)) [
    | inl h ↦ let e : took c ≡ (c, ok none) = ground (arith, h) in rw e (refl, refl, refl)
    | inr (n, h) ↦ elim (Bool-cases (n == 0 || ltb max_record_bytes n)) [
      | inl bad ↦
          let e : took c ≡ (close c, err SecurityError.frame_too_large) = ground (arith, h, bad) in
          rw e refl
      | inr good ↦ elim (Bool-cases (ltb (length c.read_buffer) (4 + n))) [
        | inl short ↦
            let e : took c ≡ (c, ok none) = ground (arith, h, good, short) in
            rw e (refl, refl, refl)
        | inr long ↦
            let c' : SecureConnection T = record c { read_buffer = drop (4 + n) c.read_buffer } in
            let e : took c ≡ accepted c' (drop 4 (take (4 + n) c.read_buffer)) =
              ground (arith, h, good, long) in
            rw e (
              rebuffer c (drop (4 + n) c.read_buffer)
                (accepted c' (drop 4 (take (4 + n) c.read_buffer)))
                (accept_record-IsGuarded c' (drop 4 (take (4 + n) c.read_buffer))))
      ]
    ]
  ]

  accept_buffer :
      (c : SecureConnection T) (cipher : Bytes) → (accepted c cipher).0.read_buffer ≡ c.read_buffer
  unfolding accept_record
  accept_buffer c cipher = ground arith

  take_bounded : (c : SecureConnection T) → length (took c).0.read_buffer ≤ length c.read_buffer
  take_bounded c = elim (Option-cases (header_length c.read_buffer)) [
    | inl h ↦ ground (arith, h)
    | inr (n, h) ↦
        let c' : SecureConnection T = record c { read_buffer = drop (4 + n) c.read_buffer } in
        ground (
          arith,
          h,
          accept_buffer c' (drop 4 (take (4 + n) c.read_buffer)),
          length-drop-le (4 + n) c.read_buffer,
        )
  ]

  abbrev polled :
      SecureConnection T
      → List Arrival
      → Bytes
      → SecureConnection T × Bytes × Result SecurityError (Option Bytes)
  polled = poll_payload write_message read_message to_allocvec take_from_bytes

  -- Whatever the stream holds: a payload that a poll returns is that of a record that the transport
  -- opened and that has the protocol's version, the connection's session and direction and the
  -- number that is due, and then the next number is due; a poll that returns none leaves the
  -- number, the transport and whether it is closed; and after an error the connection is closed.
  pub poll_payload-IsGuarded :
      (c : SecureConnection T) (arrivals : List Arrival) (i : Bytes)
      → IsGuarded c ((polled c arrivals i).0, (polled c arrivals i).2)
  unfolding poll_payload
  poll_payload-IsGuarded c arrivals i = elim (Bool-cases c.closed) [
    | inl shut ↦
        let e : polled c arrivals i ≡ (c, i, err SecurityError.transport) = ground (arith, shut) in
        rw e shut
    | inr o ↦ elim (Result-cases (receive arrivals c.read_buffer i).2) [
      | inl (u, r) ↦
          let b = (receive arrivals c.read_buffer i).0 in
          let c' : SecureConnection T = record c {
            read_buffer = (receive arrivals c.read_buffer i).0;
          } in
          let e : polled c arrivals i
              ≡ ((took c').0, (receive arrivals c.read_buffer i).1, (took c').1) =
            ground (arith, o, r) in
          rw e (rebuffer c b (took c') (take_record-IsGuarded c'))
      | inr (why, r) ↦
          let e : polled c arrivals i ≡ (
            close (record c { read_buffer = (receive arrivals c.read_buffer i).0 }),
            (receive arrivals c.read_buffer i).1,
            err why,
          ) =
            ground (arith, o, r) in
          rw e refl
    ]
  ]

  -- A poll leaves at most one largest record with its length in the buffer.
  poll_payload_bounded :
      (c : SecureConnection T) (arrivals : List Arrival) (i : Bytes)
      → length c.read_buffer ≤ max_record_bytes + 4
      → length (polled c arrivals i).0.read_buffer ≤ max_record_bytes + 4
  unfolding poll_payload
  poll_payload_bounded c arrivals i h = ground (
    arith,
    h,
    receive_bounded arrivals c.read_buffer i,
    take_bounded (record c { read_buffer = (receive arrivals c.read_buffer i).0 }),
  )
