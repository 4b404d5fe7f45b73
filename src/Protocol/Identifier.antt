-- ===== src/Protocol/Identifier.antt =====
-- `validate_id` of src/protocol.rs.
use remote_open_power.Base.{
  ℕ, Bytes, bytes, Bool, [], ◌∷◌, Result, ok, err, ◌||◌, not, ltb, ◌==◌, length, is_empty,
  is_some_and, first, last, all, is_ascii_alphanumeric, is_ascii_lowercase, is_ascii_digit, ◌≡◌,
  true, ◌≤◌, ◌≢◌, refl, arith, if◌then◌else◌, nat_eq, list_eq,
}
use remote_open_power.Protocol.Message.{ProtocolError, identifier, max_id_bytes}

abbrev pub is_id_byte : ℕ → Bool
is_id_byte b = is_ascii_lowercase b || is_ascii_digit b || b == b'.' || b == b'_' || b == b'-'

unfoldable pub validate_id : Bytes → Result ProtocolError (Unit {0})
validate_id value =
    if is_empty value
      || ltb max_id_bytes (length value)
      || value == bytes "."
      || value == bytes ".."
      || not (is_some_and (first value) is_ascii_alphanumeric)
      || not (is_some_and (last value) is_ascii_alphanumeric)
      || not (all is_id_byte value)
    then err identifier
    else ok tt

-- What a well-formed identifier is.
pub record IsId (value : Bytes) : Type 0 where
  pub nonempty : value ≢ []
  pub short : length value ≤ max_id_bytes
  pub starts : is_some_and (first value) is_ascii_alphanumeric ≡ true
  pub ends : is_some_and (last value) is_ascii_alphanumeric ≡ true
  pub plain : all is_id_byte value ≡ true

pub validate_id_sound : (value : Bytes) → validate_id value ≡ ok tt → IsId value
unfolding validate_id
validate_id_sound value h = record {
  nonempty = ground arith;
  short = ground arith;
  starts = ground arith;
  ends = ground arith;
  plain = ground arith;
}

pub validate_id_complete : (value : Bytes) → IsId value → validate_id value ≡ ok tt
unfolding validate_id
validate_id_complete [] v = absurd (v.nonempty refl)
validate_id_complete (x ∷ xs) v = ground arith
