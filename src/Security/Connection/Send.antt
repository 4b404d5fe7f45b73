-- ===== src/Security/Connection/Send.antt =====
-- What `send_payload` of src/security.rs writes.
use remote_open_power.Base.{
  Bytes, true, false, List, [], Option, some, Result, ok, err, ◌+◌, ◌/◌, ◌≤◌, ◌<◌, ◌==◌, ◌≡◌, ◌∙◌,
  ap, arith, ltb, leb, ◌||◌, is_empty, length, Instant, u64_max, Option-cases, Bool-cases,
  Result-cases, ◌⊎◌, inl, inr, nat_eq, list_eq,
}
use remote_open_power.Protocol.Codec.{encode}
use remote_open_power.Security.Connection.{
  max_record_bytes, write_timeout, SecurityError, SecureRecord, SecureConnection, Written,
  write_record, send_payload, transmit,
}
use remote_open_power.Security.Connection.Receive.{frame, write_record-frame}

module _ {T : Type 0} (write_message : T → Bytes → Option (T × Bytes))
    (read_message : T → Bytes → Option (T × Bytes)) (to_allocvec : SecureRecord → Option Bytes)
    (take_from_bytes : Bytes → Option (SecureRecord × Bytes)) where
  abbrev pub Outcome : Type 0
  Outcome = SecureConnection T × Bytes × Result SecurityError (Unit {0})

  abbrev pub record_of : SecureConnection T → Bytes → SecureRecord
  record_of c payload = record {
    version = 1;
    direction = c.outbound_direction;
    session_id = c.session_id;
    seq = c.send_seq;
    payload = payload;
  }

  -- The call wrote one whole record, with the next number.
  pub record Sent (c : SecureConnection T) (payload : Bytes) (o : Outcome) : Type 0 where
    pub plain : Bytes
    pub cipher : Bytes
    pub next : T
    pub encoded : encode to_allocvec (record_of c payload) ≡ ok plain
    pub sealed : write_message c.transport plain ≡ some (next, cipher)
    pub positive : 0 < length cipher
    pub bounded : length cipher ≤ max_record_bytes
    pub nonempty : is_empty payload ≡ false
    pub small : length payload ≤ max_record_bytes / 2
    pub counted : c.send_seq < u64_max
    pub outcome :
        o ≡ (record c { transport = next; send_seq = c.send_seq + 1 }, frame cipher, ok tt)

  -- A whole record is written, or the connection is closed, or nothing is changed.
  abbrev pub IsSent : SecureConnection T → Bytes → Outcome → Type 0
  IsSent c payload o =
      Sent c payload o
      ⊎ (((e : SecurityError) × (o.2 ≡ err e)) × ((o.0.closed ≡ true) ⊎ ((o.0 ≡ c) × (o.1 ≡ []))))

  transmit-cases :
      (c : SecureConnection T) (next : T) (cipher : Bytes) (now : Instant)
      (calls : List (Instant × Written))
      → ((0 < length cipher)
          × (length cipher ≤ max_record_bytes)
          × (transmit write_message read_message to_allocvec take_from_bytes c
                (next, cipher)
                now
                calls
              ≡ (record c { transport = next; send_seq = c.send_seq + 1 }, frame cipher, ok tt)))
        ⊎ (((e : SecurityError) × ((transmit write_message read_message to_allocvec take_from_bytes
                  c
                  (next, cipher)
                  now
                  calls).2
                ≡ err e))
            × ((transmit write_message read_message to_allocvec take_from_bytes c
                  (next, cipher)
                  now
                  calls).0.closed
                ≡ true))
  transmit-cases c next cipher now calls =
      elim (Bool-cases (length cipher == 0 || ltb max_record_bytes (length cipher))) [
        | inl bad ↦ inr ((SecurityError.frame_too_large, ground (arith, bad)), ground (arith, bad))
        | inr good ↦
            elim (Result-cases
              (write_record cipher max_record_bytes (now + write_timeout) calls).1) [
                | inl (u, wrote) ↦
                    let written =
                      write_record-frame cipher max_record_bytes (now + write_timeout) calls
                        wrote in
                    inl (
                      ground (arith, good),
                      ground (arith, good),
                      ground (arith, good, wrote, written),
                    )
                | inr (e, failed) ↦
                    inr ((e, ground (arith, good, failed)), ground (arith, good, failed))
              ]
      ]

  abbrev pub sent : SecureConnection T → Bytes → Instant → List (Instant × Written) → Outcome
  sent = send_payload write_message read_message to_allocvec take_from_bytes

  -- `send_payload` once its tests pass.
  send_encoded :
      (c : SecureConnection T) (payload plain : Bytes) (now : Instant)
      (calls : List (Instant × Written))
      → c.closed ≡ false
      → is_empty payload ≡ false
      → length payload ≤ max_record_bytes / 2
      → c.send_seq < u64_max
      → encode to_allocvec (record_of c payload) ≡ ok plain
      → IsSent c payload (sent c payload now calls)
  unfolding send_payload
  send_encoded c payload plain now calls o ne small below enc =
      elim (Option-cases (write_message c.transport plain)) [
        | inl none_yet ↦ inr (
          (SecurityError.transport, ground (arith, o, ne, small, below, enc, none_yet)),
          inl (ground (arith, o, ne, small, below, enc, none_yet)),
        )
        | inr ((next, cipher), w) ↦
            let e : sent c payload now calls
                ≡ transmit write_message read_message to_allocvec take_from_bytes c (next, cipher)
                    now calls =
              ground (arith, o, ne, small, below, enc, w) in
            elim (transmit-cases c next cipher now calls) [
              | inl (positive, fits, result) ↦ inl (record {
                plain = plain;
                cipher = cipher;
                next = next;
                encoded = enc;
                sealed = w;
                positive = positive;
                bounded = fits;
                nonempty = ne;
                small = small;
                counted = below;
                outcome = e ∙ result;
              })
              | inr ((why, failed), shut) ↦
                  inr ((why, ap (λ x. x.2) e ∙ failed), inl (ap (λ x. x.0.closed) e ∙ shut))
            ]
      ]

  pub send_payload-IsSent :
      (c : SecureConnection T) (payload : Bytes) (now : Instant) (calls : List (Instant × Written))
      → IsSent c payload (sent c payload now calls)
  unfolding send_payload
  send_payload-IsSent c payload now calls = elim (Bool-cases c.closed) [
    | inl shut ↦ inr ((SecurityError.transport, ground (arith, shut)), inl (ground (arith, shut)))
    | inr o ↦ elim (Bool-cases (is_empty payload || ltb (max_record_bytes / 2) (length payload))) [
      | inl bad ↦ inr (
        (SecurityError.frame_too_large, ground (arith, o, bad)),
        inr (ground (arith, o, bad), ground (arith, o, bad)),
      )
      | inr good ↦ elim (Bool-cases (leb u64_max c.send_seq)) [
        | inl over ↦ inr (
          (SecurityError.sequence, ground (arith, o, good, over)),
          inl (ground (arith, o, good, over)),
        )
        | inr below ↦ elim (Result-cases (encode to_allocvec (record_of c payload))) [
          | inl (plain, enc) ↦
              send_encoded c payload plain now calls o (ground (arith, good)) (ground (arith, good))
                (ground (arith, below)) enc
          | inr (e, failed) ↦ inr (
            (SecurityError.protocol e, ground (arith, o, good, below, failed)),
            inr (ground (arith, o, good, below, failed), ground (arith, o, good, below, failed)),
          )
        ]
      ]
    ]
  ]
