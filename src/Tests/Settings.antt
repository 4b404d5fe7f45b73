-- ===== src/Tests/Settings.antt =====
-- A configuration with two hosts and a client, and addresses.
use remote_open_power.Base.{
  Bytes, bytes, true, false, [], ◌∷◌, Option, none, some, ok, ◌≡◌, ◌==◌, refl, nat_eq, list_eq,
  ℕ_eq?, list_eq?, insert_set, collect, if◌then◌else◌,
}
use remote_open_power.Protocol.Identifier.{validate_id}
use remote_open_power.Server.Host.{HostConfig}
use remote_open_power.Config.{AppConfig}
use remote_open_power.Config.Text.{whitespace, trim_start, trim_reversed, trim, has_control}
use remote_open_power.Config.Address.{
  IpAddr, parse_mac, is_special, validate_header, validate_target_address, validate_client_id,
  validate_endpoint,
}
use remote_open_power.Config.Address.Accepted.{IsLanTarget, validate_target_address-IsLanTarget}
use remote_open_power.Config.Keys.{
  probe_key, decode_key, validate_public_key, validate_identity_pair,
}
use remote_open_power.Config.Validate.{
  validate_allowed, validate_headers, validate_host, validate_hosts, validate_allowed_client,
  validate_clients, validate_keys, validate_server_part, validate_security_part, validate_tables,
  validate_client_part, validate,
}
use remote_open_power.Config.Validate.Sound.{IsSound, validate-IsSound}

abbrev mac : Bytes
mac = 0x02 ∷ 0x1a ∷ 0 ∷ 0 ∷ 0 ∷ 0xff ∷ []

mac_parsed : parse_mac (bytes "02:1A:00-00.00 ff") ≡ ok mac
unfolding parse_mac ℕ_eq?
mac_parsed = refl

-- A parser that knows three addresses.
abbrev parse_ip : Bytes → Option IpAddr
parse_ip s =
    if s == bytes "192.168.1.7"
    then some (IpAddr.v4 0xc0a80107)
    else if s == bytes "0.0.0.0"
    then some (IpAddr.v4 0)
    else if s == bytes "::"
    then some (IpAddr.v6 0)
    else none

target_accepted :
    validate_target_address parse_ip (bytes " 192.168.1.7") 0 false ≡ ok (IpAddr.v4 0xc0a80107)
unfolding validate_target_address trim trim_start trim_reversed whitespace ℕ_eq? list_eq?
target_accepted = refl

validate_target_address-IsLanTarget_example :
    IsLanTarget (IpAddr.v4 0xc0a80107) 0 × (is_special (IpAddr.v4 0xc0a80107) 0 ≡ false)
validate_target_address-IsLanTarget_example =
    validate_target_address-IsLanTarget parse_ip (bytes " 192.168.1.7") 0 (IpAddr.v4 0xc0a80107)
      target_accepted

abbrev host : Bytes → HostConfig
host name = record {
  hostname = name;
  display_name = [];
  mac = bytes "02:1a:00:00:00:ff";
  ip = bytes "192.168.1.7";
  wol_port = 9;
  probe_timeout_ms = 1000;
  probe_port = 0;
  wol_ipv6_interface = 0;
}

-- Any text after the prefix decodes to the same key, and the fingerprint of a key is a name.
abbrev hex_decode : Bytes → Option Bytes
hex_decode s = some probe_key

abbrev hex_encode : Bytes → Bytes
hex_encode key = bytes "k7"

abbrev sha256 : Bytes → Bytes
sha256 s = s

abbrev public_key : Bytes → Bytes
public_key s = s

abbrev diffie_hellman : Bytes → Bytes → Bytes
diffie_hellman a b = b

abbrev settings : AppConfig
settings = record {
  version = 1;
  server = record {
    bind_address = bytes "::";
    bind_address_v4 = bytes "0.0.0.0";
    port = 45890;
    dual_stack = true;
  };
  security = record {
    shared_secret = bytes "hex:77";
    clock_skew_seconds = 30;
    max_requests_per_minute = 30;
    custom_headers = (bytes "x-site", bytes "home") ∷ [];
    server_static_private_key = [];
    server_static_public_key = [];
    allowed_clients =
        record {
          client_id = bytes "k7";
          display_label = [];
          static_public_key = bytes "hex:77";
          allowed_hosts = bytes "Desk " ∷ [];
          issued_credential_file = [];
        }
        ∷ [];
    allow_public_targets = false;
  };
  hosts = host (bytes "desk") ∷ host (bytes "nas") ∷ [];
  client = record {
    address = [];
    port = 45890;
    client_id = [];
    static_private_key = [];
    static_public_key = [];
    pinned_server_static_key = [];
  };
}

settings_accepted :
    validate parse_ip hex_decode hex_encode sha256 public_key diffie_hellman settings ≡ ok tt
unfolding validate validate_server_part validate_security_part validate_tables validate_client_part
    validate_headers validate_header validate_hosts validate_host validate_clients
    validate_allowed_client validate_allowed validate_keys validate_identity_pair
    validate_public_key decode_key validate_client_id validate_id validate_target_address
    validate_endpoint parse_mac trim trim_start trim_reversed whitespace has_control collect
    insert_set ℕ_eq? list_eq?
settings_accepted = refl

validate-IsSound_example :
    IsSound parse_ip hex_decode hex_encode sha256 public_key diffie_hellman settings
validate-IsSound_example =
    validate-IsSound parse_ip hex_decode hex_encode sha256 public_key diffie_hellman settings
      settings_accepted
