-- ===== src/Wol/Destinations.antt =====
-- `ipv6_destinations` of src/wol.rs. An IPv6 address is a number below 2 ^ 128.
use remote_open_power.Base.{ℕ, Bool, ◌+◌, ◌*◌, ◌/◌, ◌^◌, ◌==◌, if◌then◌else◌, nat_eq}

pub record SocketAddr : Type 0 where
  pub address : ℕ
  pub port : ℕ
  pub scope_id : ℕ

-- ff02::1
abbrev pub ipv6_all_nodes : ℕ
ipv6_all_nodes = 0xff02 * 2 ^ 112 + 1

-- fe80::/10
abbrev pub is_unicast_link_local : ℕ → Bool
is_unicast_link_local a = a / 2 ^ 118 == 0x3fa

abbrev pub ipv6_destinations : ℕ → ℕ → ℕ → SocketAddr × SocketAddr
ipv6_destinations target port interface = (
  record {
    address = target;
    port = port;
    scope_id = if is_unicast_link_local target then interface else 0;
  },
  record { address = ipv6_all_nodes; port = port; scope_id = interface },
)
