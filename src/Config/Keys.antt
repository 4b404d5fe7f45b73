-- ===== src/Config/Keys.antt =====
-- The keys of src/config.rs. `hex_decode` and `hex_encode` are the library's, `sha256` the hash,
-- `public_key` and `diffie_hellman` those of the curve.
use remote_open_power.Base.{
  Bytes, bytes, [], ◌∷◌, ◌++◌, Option, none, some, Result, ok, err, ◌>>=◌, ◌>>◌, fail_if, ◌==◌,
  ◌!=◌, ◌&&◌, ◌||◌, all, length, is_empty, if◌then◌else◌, nat_eq, list_eq,
}
use remote_open_power.Config.{ConfigError}
use remote_open_power.Config.Text.{strip_prefix, trim}
use remote_open_power.Config.Address.{Checked}

abbrev pub some_or_invalid : Option Bytes → Result ConfigError Bytes
some_or_invalid none = err ConfigError.invalid
some_or_invalid (some s) = ok s

-- The private key of the probe, `[7u8; 32]`.
abbrev pub probe_key : Bytes
probe_key =
    7 ∷ 7 ∷ 7 ∷ 7 ∷ 7 ∷ 7 ∷ 7 ∷ 7 ∷ 7 ∷ 7 ∷ 7 ∷ 7 ∷ 7 ∷ 7 ∷ 7 ∷ 7 ∷ 7 ∷ 7 ∷ 7 ∷ 7 ∷ 7 ∷ 7 ∷ 7 ∷ 7
    ∷ 7 ∷ 7 ∷ 7 ∷ 7 ∷ 7 ∷ 7 ∷ 7 ∷ 7 ∷ []

module _ (hex_decode : Bytes → Option Bytes) (hex_encode sha256 public_key : Bytes → Bytes)
    (diffie_hellman : Bytes → Bytes → Bytes) where
  unfoldable pub decode_key : Bytes → Result ConfigError Bytes
  decode_key value = do
    encoded ← some_or_invalid (strip_prefix (bytes "hex:") value)
    key ← some_or_invalid (hex_decode encoded)
    fail_if (length key != 32) ConfigError.invalid
    fail_if (all (λ b. b == 0) key) ConfigError.invalid
    ok key

  -- The key, which the callers under src/config.rs do not use.
  abbrev pub secret_key : Bytes → Result ConfigError Bytes
  secret_key shared_secret = decode_key (trim shared_secret)

  abbrev pub client_id_from_public_key : Bytes → Bytes
  client_id_from_public_key key = hex_encode (sha256 key)

  unfoldable pub validate_public_key : Bytes → Checked
  validate_public_key value = do
    key ← decode_key value
    fail_if (all (λ b. b == 0) (diffie_hellman probe_key key)) ConfigError.invalid
    ok tt

  abbrev pub derive_public_key : Bytes → Result ConfigError Bytes
  derive_public_key private = do
    key ← decode_key private
    ok (bytes "hex:" ++ hex_encode (public_key key))

  unfoldable pub validate_identity_pair : Bytes → Bytes → Checked
  validate_identity_pair private public = if is_empty private && is_empty public then ok tt else (do
    fail_if (is_empty private || is_empty public) ConfigError.invalid
    expected ← derive_public_key private
    fail_if (expected != public) ConfigError.invalid
    validate_public_key public)
