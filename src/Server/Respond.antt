-- ===== src/Server/Respond.antt =====
-- `make_response` and `send_response` of src/server.rs.
use remote_open_power.Base.{
  ℕ, Bytes, Bool, List, Option, Result, ok, err, ◌>>=◌, ◌>>◌, fail_if, ltb, not, length,
}
use remote_open_power.Protocol.Message.{
  Header, ProtocolError, ServerEnvelope, ServerEvent, protocol_version,
}
use remote_open_power.Protocol.Codec.{encode}
use remote_open_power.Protocol.Validate.{validate_server}
use remote_open_power.Server.Limits.{max_app_payload}

-- The errors of the server, without their texts and causes.
pub data ServerError : Type 0 where
  protocol : ProtocolError → ServerError
  config security io invalid : ServerError

-- `From<ProtocolError>`, by which `?` passes the error on.
abbrev pub lift {ℓ} : {A : Type ℓ} → Result ProtocolError A → Result ServerError A
lift (ok a) = ok a
lift (err e) = err (ServerError.protocol e)

-- `to_allocvec` is the library's encoder, and `transmit` whether `send_payload` succeeds.
module _ (to_allocvec : ServerEnvelope → Option Bytes) where
  -- `clock_ms` is `unix_ms()`.
  unfoldable pub make_response :
      List Header → Bytes → ServerEvent → ℕ → Result ServerError ServerEnvelope
  make_response headers request_id event clock_ms = do
    let response : ServerEnvelope = record {
      version = protocol_version;
      request_id = request_id;
      issued_at_ms = clock_ms;
      headers = headers;
      event = event;
    }
    lift (validate_server response)
    encoded ← lift (encode to_allocvec response)
    fail_if (ltb max_app_payload (length encoded)) ServerError.invalid
    ok response

  -- The envelope that is sent.
  unfoldable pub send_response :
      (Bytes → Bool) → ServerEnvelope → ℕ → Result ServerError ServerEnvelope
  send_response transmit response clock_ms = do
    let stamped : ServerEnvelope = record response { issued_at_ms = clock_ms }
    lift (validate_server stamped)
    encoded ← lift (encode to_allocvec stamped)
    fail_if (ltb max_app_payload (length encoded)) ServerError.invalid
    fail_if (not (transmit encoded)) ServerError.security
    ok stamped
