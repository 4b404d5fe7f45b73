-- ===== src/Security/Connection/Flight.antt =====
-- Records between two ends of a connection of src/security.rs: what is written and not yet read,
-- and how `send_payload` and `poll_payload` change it.
use mathlib.Core.List.{append_assoc, append-nil}
use remote_open_power.Base.{
  ℕ, suc, Bytes, false, List, [], ◌∷◌, ◌++◌, Option, some, ok, ◌+◌, ◌/◌, ◌≤◌, ◌<◌, ◌≡◌, ◌∙◌, sym,
  ap, refl, arith, is_empty, length, take, drop, take-append, header_length,
  header_length-be_bytes4, u64_max, nat_eq, list_eq,
}
use remote_open_power.Protocol.Codec.{decode}
use remote_open_power.Security.Connection.{
  max_record_bytes, SecureRecord, SecureConnection, accept_record,
}
use remote_open_power.Security.Connection.Receive.{frame, Good}

-- What the code relies on of the transport: two states in step read what they write, and stay in step.
pub record IsTransport {T : Type 0} (write_message read_message : T → Bytes → Option (T × Bytes))
    (Synced : T → T → Type 0) : Type 0 where
  pub delivers :
      (a a' b : T) (plain cipher : Bytes)
      → Synced a b
      → write_message a plain ≡ some (a', cipher)
      → (b' : T) × (read_message b cipher ≡ some (b', plain)) × Synced a' b'

module _ {T : Type 0} (write_message read_message : T → Bytes → Option (T × Bytes))
    (to_allocvec : SecureRecord → Option Bytes)
    (take_from_bytes : Bytes → Option (SecureRecord × Bytes)) (Synced : T → T → Type 0)
    (direction : ℕ) (session_id : Bytes) where
  abbrev pub numbered : ℕ → Bytes → SecureRecord
  numbered n payload = record {
    version = 1;
    direction = direction;
    session_id = session_id;
    seq = n;
    payload = payload;
  }

  -- The stream `s` begins with the record number `n` of a payload, sealed for the state `r`.
  pub record Sealed (r : T) (n : ℕ) (s : Bytes) (payload : Bytes) (next : T) (rest : Bytes)
      : Type 0 where
    pub cipher : Bytes
    pub plain : Bytes
    pub first_bytes : s ≡ frame cipher ++ rest
    pub positive : 0 < length cipher
    pub bounded : length cipher ≤ max_record_bytes
    pub opens : read_message r cipher ≡ some (next, plain)
    pub decodes : decode take_from_bytes plain ≡ ok (numbered n payload)
    pub nonempty : is_empty payload ≡ false
    pub small : length payload ≤ max_record_bytes / 2
    pub counted : n < u64_max

  -- The stream holds the records of these payloads from number `n` to number `m`, and then the
  -- receiver is in step with the sender.
  abbrev pub Flight : T → ℕ → Bytes → List Bytes → T → ℕ → Type 0
  Flight r n s [] a m = (s ≡ []) × Synced a r × (n ≡ m)
  Flight r n s (p ∷ ps) a m =
      (next : T) × (rest : Bytes) × Sealed r n s p next rest × Flight next (suc n) rest ps a m

  Sealed-append :
      (r : T) (n : ℕ) (s p : Bytes) (next : T) (rest t : Bytes)
      → Sealed r n s p next rest
      → Sealed r n (s ++ t) p next (rest ++ t)
  Sealed-append r n s p next rest t x = record {
    cipher = x.cipher;
    plain = x.plain;
    first_bytes = ap (λ y. y ++ t) x.first_bytes ∙ append_assoc (frame x.cipher) rest t;
    positive = x.positive;
    bounded = x.bounded;
    opens = x.opens;
    decodes = x.decodes;
    nonempty = x.nonempty;
    small = x.small;
    counted = x.counted;
  }

  -- One more record at the end.
  pub Flight-append :
      (r : T) (n : ℕ) (s : Bytes) (ps : List Bytes) (a a' : T) (m : ℕ) (p plain cipher : Bytes)
      → IsTransport write_message read_message Synced
      → Flight r n s ps a m
      → write_message a plain ≡ some (a', cipher)
      → decode take_from_bytes plain ≡ ok (numbered m p)
      → 0 < length cipher
      → length cipher ≤ max_record_bytes
      → is_empty p ≡ false
      → length p ≤ max_record_bytes / 2
      → m < u64_max
      → Flight r n (s ++ frame cipher) (ps ++ (p ∷ [])) a' (suc m)
  Flight-append r n s [] a a' m p plain cipher law (e, synced, same) w d pos fits ne small below =
      let (b', opens, synced') = law.delivers a a' r plain cipher synced w in
      (
        b',
        [],
        record {
          cipher = cipher;
          plain = plain;
          first_bytes = cc (append-nil (frame cipher));
          positive = pos;
          bounded = fits;
          opens = opens;
          decodes = rw same d;
          nonempty = ne;
          small = small;
          counted = omega (arith, same, below);
        },
        (refl, synced', cc),
      )
  Flight-append r n s (q ∷ ps) a a' m p plain cipher law (next, rest, head, tail) w d pos fits ne
        small below =
      (
        next,
        rest ++ frame cipher,
        Sealed-append r n s q next rest (frame cipher) head,
        Flight-append next (suc n) rest ps a a' m p plain cipher law tail w d pos fits ne small
            below,
      )

  pub header_frame :
      (cipher rest : Bytes)
      → length cipher ≤ max_record_bytes
      → header_length (frame cipher ++ rest) ≡ some (length cipher)
  header_frame cipher rest fits =
      header_length-be_bytes4 (length cipher) (cipher ++ rest) (omega (arith, fits))

  pub Flight-Good :
      (r : T) (n : ℕ) (s : Bytes) (ps : List Bytes) (a : T) (m : ℕ) → Flight r n s ps a m → Good s
  unfolding header_length
  Flight-Good r n s [] a m (e, synced, same) k h = absurd (cc)
  Flight-Good r n s (p ∷ ps) a m (next, rest, head, tail) k h =
      let found = header_frame head.cipher rest head.bounded in
      ground (arith, h, found, head.first_bytes, head.positive, head.bounded)

  -- A receiver that has buffered part of a flight: `c` is open, and its buffer and the stream
  -- hold the records of `ps`.
  pub record Reading (c : SecureConnection T) (incoming : Bytes) (ps : List Bytes) (a : T) (m : ℕ)
      : Type 0 where
    pub opened : c.closed ≡ false
    pub same_direction : c.inbound_direction ≡ direction
    pub same_session : c.session_id ≡ session_id
    pub flight : Flight c.transport c.recv_seq (c.read_buffer ++ incoming) ps a m

  -- The first record of a flight, once it is buffered.
  pub take_frame :
      (b i cipher rest : Bytes)
      → b ++ i ≡ frame cipher ++ rest
      → 4 + length cipher ≤ length b
      → (drop 4 (take (4 + length cipher) b) ≡ cipher) × (drop (4 + length cipher) b ++ i ≡ rest)
  take_frame b i cipher rest e h =
      let size : length (frame cipher) ≡ 4 + length cipher = omega arith in
      let found = take-append (frame cipher) rest b i e (omega (arith, h)) in
      (
        ap (drop 4) (ap (λ k. take k b) (sym size) ∙ found.0),
        ap (λ k. drop k b ++ i) (sym size) ∙ found.1,
      )

  pub accept_record-Sealed :
      (c : SecureConnection T) (p : Bytes) (next : T) (s rest : Bytes)
      → c.inbound_direction ≡ direction
      → c.session_id ≡ session_id
      → (x : Sealed c.transport c.recv_seq s p next rest)
      → accept_record write_message read_message to_allocvec take_from_bytes c x.cipher
        ≡ (record c { transport = next; recv_seq = suc c.recv_seq }, ok (some p))
  unfolding accept_record
  accept_record-Sealed c p next s rest d i x =
      ground (arith, d, i, x.opens, x.decodes, x.nonempty, x.small, x.counted)
