-- ===== src/Config/Address.antt =====
-- The tests of src/config.rs on headers, hardware addresses, target addresses and endpoints.
pub mod Accepted
use remote_open_power.Base.{
  ℕ, zero, suc, Bytes, bytes, Bool, true, false, List, [], ◌∷◌, Option, none, some, Result, ok, err,
  ◌>>=◌, ◌>>◌, fail_if, ◌==◌, ◌!=◌, ◌&&◌, ◌||◌, not, ltb, leb, all, any, filter, length, is_empty,
  is_some, is_some_and, first, last, map, drop, if◌then◌else◌, ◌+◌, ◌*◌, ◌/◌, ◌%◌, ◌^◌, nat_eq,
  list_eq, is_ascii_lowercase, is_ascii_digit, is_ascii_alphanumeric, to_ascii_lowercase,
  starts_with,
}
use remote_open_power.Protocol.Message.{max_id_bytes}
use remote_open_power.Protocol.Identifier.{validate_id}
use remote_open_power.Wol.Route.{is_loopback, is_multicast, u32_max}
use remote_open_power.Wol.Destinations.{is_unicast_link_local}
use remote_open_power.Config.{ConfigError, max_endpoint_bytes}
use remote_open_power.Config.Text.{
  trim, is_ascii_hexdigit, is_ascii_control, hex_value, ends_with, reverse, split,
}

abbrev pub Checked : Type 0
Checked = Result ConfigError (Unit {0})

abbrev pub lower : Bytes → Bytes
lower s = map to_ascii_lowercase s

-- `key.bytes().enumerate().all(...)`, after the first byte and at it.
abbrev pub is_header_key_byte : ℕ → Bool
is_header_key_byte b = is_ascii_lowercase b || is_ascii_digit b || b == b'-'

abbrev pub is_header_key : Bytes → Bool
is_header_key [] = true
is_header_key (b ∷ rest) = (is_ascii_lowercase b || is_ascii_digit b) && all is_header_key_byte rest

abbrev pub valid_key : Bytes → Bool
valid_key key =
    not (is_empty key)
    && leb (length key) 32
    && is_header_key key
    && is_some_and (first key) is_ascii_alphanumeric
    && is_some_and (last key) is_ascii_alphanumeric

abbrev pub valid_value : Bytes → Bool
valid_value value =
    not (is_empty value)
    && leb (length value) 256
    && all (λ b. leb 0x20 b && leb b 0x7e) value
    && not (starts_with value (bytes " "))
    && not (ends_with value (bytes " "))

unfoldable pub validate_header : Bytes → Bytes → Checked
validate_header key value = do
  fail_if (not (valid_key key) || not (valid_value value)) ConfigError.invalid
  fail_if (starts_with (lower key) (bytes "rop-") || starts_with (lower key) (bytes "x-rop-"))
      ConfigError.invalid
  ok tt

-- The bytes of pairs of digits.
abbrev pub hex_pairs : Bytes → Bytes
hex_pairs [] = []
hex_pairs (a ∷ []) = []
hex_pairs (a ∷ b ∷ rest) = (hex_value a * 16 + hex_value b) ∷ hex_pairs rest

abbrev pub is_separator : ℕ → Bool
is_separator b = b == b':' || b == b'-' || b == b'.' || b == b' '

abbrev pub is_group : Bytes → Bool
is_group [] = false
is_group (b ∷ rest) = b % 2 != 0

unfoldable pub parse_mac : Bytes → Result ConfigError Bytes
parse_mac input = do
  let compact = filter (λ b. not (is_separator b)) input
  let mac = hex_pairs compact
  fail_if (length compact != 12 || not (all is_ascii_hexdigit compact)) ConfigError.invalid
  fail_if (all (λ b. b == 0) mac || all (λ b. b == 0xff) mac || is_group mac) ConfigError.invalid
  ok mac

pub data IpAddr : Type 0 where
  v4 v6 : ℕ → IpAddr

abbrev pub is_private : ℕ → Bool
is_private a = a / 2 ^ 24 == 10 || a / 2 ^ 20 == 0xac1 || a / 2 ^ 16 == 0xc0a8

-- fc00::/7
abbrev pub is_unique_local : ℕ → Bool
is_unique_local a = a / 2 ^ 121 == 0x7e

abbrev pub is_lan_ip : IpAddr → Bool
is_lan_ip (IpAddr.v4 a) = is_private a
is_lan_ip (IpAddr.v6 a) = is_unique_local a

-- `to_ipv4_mapped`, applied to the one kind of address.
abbrev pub unmapped : IpAddr → IpAddr
unmapped (IpAddr.v4 a) = IpAddr.v4 a
unmapped (IpAddr.v6 a) = if a / 2 ^ 32 == 0xffff then IpAddr.v4 (a % 2 ^ 32) else IpAddr.v6 a

abbrev pub is_special : IpAddr → ℕ → Bool
is_special (IpAddr.v4 a) ipv6_interface =
    a == 0
    || is_multicast a
    || is_loopback a
    || a == u32_max
    || a / 2 ^ 16 == 0xa9fe
    || a / 2 ^ 24 == 0
is_special (IpAddr.v6 a) ipv6_interface =
    a == 0 || a / 2 ^ 120 == 0xff || a == 1 || (is_unicast_link_local a && ipv6_interface == 0)

abbrev pub is_scoped_link_local : IpAddr → ℕ → Bool
is_scoped_link_local (IpAddr.v4 a) ipv6_interface = false
is_scoped_link_local (IpAddr.v6 a) ipv6_interface = is_unicast_link_local a && ipv6_interface != 0

abbrev pub is_endpoint_label : Bytes → Bool
is_endpoint_label label =
    not (is_empty label)
    && leb (length label) 63
    && all (λ b. is_ascii_alphanumeric b || b == b'-') label
    && is_some_and (first label) is_ascii_alphanumeric
    && is_some_and (last label) is_ascii_alphanumeric

abbrev pub without_dot : Bytes → Bytes
without_dot s = elim (reverse [] s) [
  | [] ↦ []
  | b ∷ rest ↦ if b == b'.' then reverse [] rest else s
]

unfoldable pub validate_client_id : Bytes → Checked
validate_client_id client_id = do
  let normalized = lower (trim client_id)
  fail_if (trim client_id != client_id || ltb max_id_bytes (length normalized)) ConfigError.invalid
  elim (validate_id normalized) [ ok u ↦ ok tt | err e ↦ err ConfigError.invalid ]

-- `parse_ip` is the standard library's parser of addresses.
module _ (parse_ip : Bytes → Option IpAddr) where
  unfoldable pub validate_target_address : Bytes → ℕ → Bool → Result ConfigError IpAddr
  validate_target_address value ipv6_interface allow_public_targets = elim (parse_ip (trim value)) [
    | none ↦ err ConfigError.invalid
    | some parsed ↦
        let ip = unmapped parsed in
        if is_special ip ipv6_interface
          || (not allow_public_targets
              && not (is_lan_ip ip)
              && not (is_scoped_link_local ip ipv6_interface))
        then err ConfigError.invalid
        else ok ip
  ]

  unfoldable pub validate_endpoint : Bytes → Checked
  validate_endpoint address = do
    fail_if
        (ltb max_endpoint_bytes (length address)
          || is_empty address
          || any (λ b. is_ascii_control b || b == b' ') address)
        ConfigError.invalid
    fail_if
        (not (is_some (parse_ip address))
          && (is_empty (without_dot address)
              || not (all is_endpoint_label (split b'.' (without_dot address)))))
        ConfigError.invalid
    ok tt
