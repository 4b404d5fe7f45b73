-- ===== src/Tests/Protocol.antt =====
-- Messages that src/protocol.rs accepts.
use mathlib.Core.List.{Perm}
use remote_open_power.Base.{
  bytes_le, ℕ_eq?, list_eq?, nat_eq, list_eq, bytes, true, [], ◌∷◌, some, none, ok, ◌≡◌, ◌↔◌, refl,
}
use remote_open_power.Base.Sort.{sort_by}
use remote_open_power.Protocol.Message.{
  Header, ClientEnvelope, ClientOperation, ServerEnvelope, ServerEvent,
}
use remote_open_power.Protocol.Headers.{
  canonical_headers, scan_headers, is_header_name, is_header_value,
}
use remote_open_power.Protocol.Headers.Canonical.{IsCanonical, canonical_headers_sound}
use remote_open_power.Protocol.Validate.{validate_client, validate_server}
use remote_open_power.Protocol.Validate.Client.{IsRequest, validate_client_iff}
use remote_open_power.Protocol.Validate.Server.{IsReply, validate_server_iff}

abbrev trace : Header
trace = record { name = bytes "trace"; value = bytes "a b" }

abbrev agent : Header
agent = record { name = bytes "agent"; value = bytes "1" }

canonical_headers_sound_example :
    IsCanonical (agent ∷ trace ∷ [])
    × Perm (agent ∷ trace ∷ []) (trace ∷ agent ∷ [])
    × (canonical_headers (agent ∷ trace ∷ []) ≡ ok (agent ∷ trace ∷ []))
unfolding canonical_headers scan_headers sort_by bytes_le is_header_name is_header_value ℕ_eq?
    list_eq?
canonical_headers_sound_example =
    canonical_headers_sound (trace ∷ agent ∷ []) (agent ∷ trace ∷ []) refl

abbrev request : ClientEnvelope
request = record {
  version = 1;
  request_id = 2 ∷ [];
  issued_at_ms = 5;
  headers = agent ∷ trace ∷ [];
  operation = ClientOperation.wake 3 (bytes "pc" ∷ bytes "nas-1" ∷ []) 2 (4 ∷ []) (some (9 ∷ []));
}

validate_client_iff_example : (validate_client request ≡ ok tt) ↔ IsRequest request
validate_client_iff_example = validate_client_iff request

abbrev reply : ServerEnvelope
reply = record {
  version = 1;
  request_id = 2 ∷ [];
  issued_at_ms = 6;
  headers = [];
  event =
      ServerEvent.command_executed (2 ∷ []) 1 (9 ∷ []) 60006
        (record { host_id = bytes "pc"; accepted = true; error_code = none } ∷ []);
}

validate_server_iff_example : (validate_server reply ≡ ok tt) ↔ IsReply reply
validate_server_iff_example = validate_server_iff reply
