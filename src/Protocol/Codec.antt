-- ===== src/Protocol/Codec.antt =====
-- `encode` and `decode` of src/protocol.rs, over the encoder and the decoder of the library.
use remote_open_power.Base.{
  Bytes, [], Option, none, some, Result, ok, err, ◌||◌, ltb, length, is_empty, if◌then◌else◌, ◌≡◌,
  ◌≢◌, arith, Option-cases, inl, inr,
}
use remote_open_power.Protocol.Message.{ProtocolError, limit, operation, max_frame_bytes}

module _ {T : Type 0} (to_allocvec : T → Option Bytes) where
  unfoldable pub encode : T → Result ProtocolError Bytes
  encode value = elim (to_allocvec value) [
    | none ↦ err limit
    | some encoded ↦ if ltb max_frame_bytes (length encoded) then err limit else ok encoded
  ]

module _ {T : Type 0} (take_from_bytes : Bytes → Option (T × Bytes)) where
  unfoldable pub decode : Bytes → Result ProtocolError T
  decode encoded =
      if is_empty encoded || ltb max_frame_bytes (length encoded)
      then err limit
      else elim (take_from_bytes encoded) [
        | none ↦ err operation
        | some (value, rest) ↦ if is_empty rest then ok value else err operation
      ]

-- What the code relies on of the library: what it encodes is not empty, and decodes to the same when
-- it is a value that the decoder accepts.
pub record IsCodec {T : Type 0} (Accepts : T → Type 0) (to_allocvec : T → Option Bytes)
    (take_from_bytes : Bytes → Option (T × Bytes)) : Type 0 where
  pub nonempty : (value : T) (encoded : Bytes) → to_allocvec value ≡ some encoded → encoded ≢ []
  pub inverse :
      (value : T) (encoded : Bytes)
      → Accepts value
      → to_allocvec value ≡ some encoded
      → take_from_bytes encoded ≡ some (value, [])

-- For a library that decodes what it encodes, `decode` returns each value that `encode` accepts and
-- the decoder of the library too.
pub decode-encode :
    {T : Type 0} (Accepts : T → Type 0) (to_allocvec : T → Option Bytes)
    (take_from_bytes : Bytes → Option (T × Bytes)) (value : T) (encoded : Bytes)
    → IsCodec Accepts to_allocvec take_from_bytes
    → Accepts value
    → encode to_allocvec value ≡ ok encoded
    → decode take_from_bytes encoded ≡ ok value
unfolding encode decode
decode-encode Accepts to_allocvec take_from_bytes value encoded law accepted h =
    elim (Option-cases (to_allocvec value)) [
      | inl a ↦ absurd (ground (arith, a, h))
      | inr (b, a) ↦
          let same : b ≡ encoded = ground (arith, a, h) in
          let found : to_allocvec value ≡ some encoded = cc in
          ground (
            arith,
            a,
            h,
            law.inverse value encoded accepted found,
            law.nonempty value encoded found,
          )
    ]
