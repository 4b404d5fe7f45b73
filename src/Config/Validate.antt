-- ===== src/Config/Validate.antt =====
-- `AppConfig::validate` of src/config.rs and the tests of its hosts and clients.
pub mod Sound
use remote_open_power.Base.{
  ℕ, Bytes, bytes, Bool, true, false, List, [], ◌∷◌, Option, none, some, Result, ok, err, ◌>>=◌,
  ◌>>◌, fail_if, ◌==◌, ◌!=◌, ◌&&◌, ◌||◌, not, ltb, leb, contains, insert_set, collect, length,
  is_empty, map, if◌then◌else◌, ◌+◌, nat_eq, list_eq, Dict,
}
use remote_open_power.Protocol.Message.{max_hosts, max_headers, max_header_bytes}
use remote_open_power.Protocol.Identifier.{validate_id}
use remote_open_power.Server.Host.{HostConfig}
use remote_open_power.Config.{
  ConfigError, AppConfig, AllowedClient, config_version, max_clients, max_display_label_bytes,
}
use remote_open_power.Config.Text.{trim, has_control, ends_with}
use remote_open_power.Config.Address.{
  Checked, lower, IpAddr, validate_header, parse_mac, validate_target_address, validate_client_id,
  validate_endpoint,
}
use remote_open_power.Config.Keys.{
  decode_key, secret_key, client_id_from_public_key, validate_public_key, validate_identity_pair,
}

-- `?` on a result whose value is dropped.
abbrev pub checked {ℓ} : {A : Type ℓ} → Result ConfigError A → Checked
checked (ok a) = ok tt
checked (err e) = err e

abbrev pub host_id : HostConfig → Bytes
host_id h = lower (trim h.hostname)

abbrev pub bad_label : Bytes → Bool
bad_label s = ltb max_display_label_bytes (length s) || has_control s

abbrev pub is_identifier : Bytes → Checked
is_identifier s = elim (validate_id s) [ ok u ↦ ok tt | err e ↦ err ConfigError.invalid ]

-- The loop over the allowed hosts of a client, with `seen`.
unfoldable pub validate_allowed : List Bytes → List Bytes → List Bytes → Checked
validate_allowed host_ids seen [] = ok tt
validate_allowed host_ids seen (host ∷ hosts) = do
  let normalized = lower (trim host)
  fail_if (contains seen normalized || not (contains host_ids normalized)) ConfigError.invalid
  validate_allowed host_ids (normalized ∷ seen) hosts

abbrev pub sum_sizes : Dict Bytes Bytes → ℕ
sum_sizes [] = 0
sum_sizes ((key, value) ∷ headers) = length key + length value + sum_sizes headers

unfoldable pub validate_headers : Dict Bytes Bytes → Checked
validate_headers [] = ok tt
validate_headers ((key, value) ∷ headers) = validate_header key value >> validate_headers headers

module _ (parse_ip : Bytes → Option IpAddr) where
  unfoldable pub validate_host : HostConfig → Bool → Checked
  validate_host h allow_public_targets = do
    is_identifier (host_id h)
    fail_if (bad_label h.display_name) ConfigError.invalid
    checked (parse_mac h.mac)
    checked (validate_target_address parse_ip h.ip h.wol_ipv6_interface allow_public_targets)
    fail_if (h.wol_port != 7 && h.wol_port != 9) ConfigError.invalid
    fail_if (ltb h.probe_timeout_ms 100 || ltb 5000 h.probe_timeout_ms) ConfigError.invalid
    fail_if (h.probe_port != 0 && ltb h.probe_port 1024) ConfigError.invalid
    ok tt

  -- The loop over the hosts, with `ids`.
  unfoldable pub validate_hosts : Bool → List Bytes → List HostConfig → Checked
  validate_hosts allow_public_targets ids [] = ok tt
  validate_hosts allow_public_targets ids (h ∷ hosts) = do
    validate_host h allow_public_targets
    fail_if (contains ids (host_id h)) ConfigError.invalid
    validate_hosts allow_public_targets (host_id h ∷ ids) hosts

  module _ (hex_decode : Bytes → Option Bytes) (hex_encode sha256 public_key : Bytes → Bytes)
      (diffie_hellman : Bytes → Bytes → Bytes) where
    abbrev pub key_of : Bytes → Result ConfigError Bytes
    key_of = decode_key hex_decode hex_encode sha256 public_key diffie_hellman

    unfoldable pub validate_allowed_client : AllowedClient → List Bytes → Checked
    validate_allowed_client c host_ids = do
      validate_client_id c.client_id
      key ← key_of c.static_public_key
      validate_public_key hex_decode hex_encode sha256 public_key diffie_hellman c.static_public_key
      fail_if
          (c.client_id
            != client_id_from_public_key hex_decode hex_encode sha256 public_key diffie_hellman key)
          ConfigError.invalid
      fail_if (bad_label c.display_label) ConfigError.invalid
      fail_if (ltb max_hosts (length c.allowed_hosts)) ConfigError.invalid
      validate_allowed host_ids [] c.allowed_hosts
      fail_if
          (not (is_empty c.issued_credential_file)
            && (has_control c.issued_credential_file
                || not (ends_with c.issued_credential_file (bytes ".credential.toml"))))
          ConfigError.invalid
      ok tt

    -- The loop over the clients, with `client_ids` and `client_keys`.
    unfoldable pub validate_clients :
        List Bytes → List Bytes → List Bytes → List AllowedClient → Checked
    validate_clients host_ids client_ids client_keys [] = ok tt
    validate_clients host_ids client_ids client_keys (c ∷ clients) = do
      validate_allowed_client c host_ids
      fail_if (contains client_ids (lower c.client_id)) ConfigError.invalid
      key ← key_of c.static_public_key
      fail_if (contains client_keys key) ConfigError.invalid
      validate_clients host_ids (lower c.client_id ∷ client_ids) (key ∷ client_keys) clients

    unfoldable pub validate_keys : List Bytes → Checked
    validate_keys [] = ok tt
    validate_keys (key ∷ keys) =
        let rest = validate_keys keys in if is_empty key then rest else checked (key_of key) >> rest

    -- `parse::<Ipv4Addr>`, which takes the same text as the parser of both kinds does for this one.
    abbrev pub is_ipv4 : Bytes → Bool
    is_ipv4 s = elim (parse_ip s) [ some (IpAddr.v4 a) ↦ true | other ↦ false ]

    abbrev pub is_ipv6 : Bytes → Bool
    is_ipv6 s = elim (parse_ip s) [ some (IpAddr.v6 a) ↦ true | other ↦ false ]

    unfoldable pub validate_server_part : AppConfig → Checked
    validate_server_part a = do
      fail_if (a.version != config_version) ConfigError.invalid
      fail_if (is_empty (trim a.server.bind_address) || a.server.port == 0) ConfigError.invalid
      fail_if (ltb a.server.port 1024) ConfigError.invalid
      fail_if
          (not (is_ipv4 (trim a.server.bind_address)) && not (is_ipv6 (trim a.server.bind_address)))
          ConfigError.invalid
      fail_if (a.server.dual_stack && not (is_ipv6 (trim a.server.bind_address)))
          ConfigError.invalid
      fail_if (a.server.dual_stack && not (is_ipv4 (trim a.server.bind_address_v4)))
          ConfigError.invalid
      ok tt

    unfoldable pub validate_security_part : AppConfig → Checked
    validate_security_part a = do
      fail_if (is_empty (trim a.security.shared_secret)) ConfigError.invalid
      checked (
          secret_key hex_decode hex_encode sha256 public_key diffie_hellman
            a.security.shared_secret)
      fail_if (a.security.clock_skew_seconds == 0 || ltb 60 a.security.clock_skew_seconds)
          ConfigError.invalid
      fail_if
          (a.security.max_requests_per_minute == 0 || ltb 600 a.security.max_requests_per_minute)
          ConfigError.invalid
      validate_headers a.security.custom_headers
      fail_if (ltb max_headers (length a.security.custom_headers)) ConfigError.invalid
      fail_if (ltb max_header_bytes (sum_sizes a.security.custom_headers)) ConfigError.invalid
      ok tt

    unfoldable pub validate_tables : AppConfig → Checked
    validate_tables a = do
      fail_if (ltb max_hosts (length a.hosts)) ConfigError.invalid
      fail_if (ltb max_clients (length a.security.allowed_clients)) ConfigError.invalid
      validate_hosts a.security.allow_public_targets [] a.hosts
      validate_clients (collect (map host_id a.hosts)) [] [] a.security.allowed_clients

    unfoldable pub validate_client_part : AppConfig → Checked
    validate_client_part a = do
      if is_empty a.client.client_id then ok tt else validate_client_id a.client.client_id
      fail_if (ltb a.client.port 1024) ConfigError.invalid
      if is_empty a.client.address then ok tt else validate_endpoint parse_ip a.client.address
      validate_keys (
          a.security.server_static_private_key ∷ a.security.server_static_public_key
          ∷ a.client.static_private_key ∷ a.client.static_public_key
          ∷ a.client.pinned_server_static_key ∷ [])
      validate_identity_pair hex_decode hex_encode sha256 public_key diffie_hellman
          a.security.server_static_private_key a.security.server_static_public_key
      validate_identity_pair hex_decode hex_encode sha256 public_key diffie_hellman
          a.client.static_private_key a.client.static_public_key
      fail_if
          (not (is_empty a.client.pinned_server_static_key)
            && not (is_empty a.security.server_static_public_key)
            && a.client.pinned_server_static_key != a.security.server_static_public_key)
          ConfigError.invalid
      ok tt

    unfoldable pub validate : AppConfig → Checked
    validate a = do
      validate_server_part a
      validate_security_part a
      validate_tables a
      validate_client_part a
