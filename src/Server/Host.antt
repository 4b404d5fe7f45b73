-- ===== src/Server/Host.antt =====
-- The hosts of src/server.rs and src/config.rs, who may use them, and the monitors of a wake operation.
pub mod Access
use remote_open_power.Base.{
  ℕ, Bytes, Bool, true, false, List, [], ◌∷◌, Option, none, some, Result, ok, err, ◌>>=◌, ◌>>◌,
  fail_if, ◌==◌, ◌&&◌, ◌||◌, not, ltb, is_some_and, length, is_empty, contains, nat_eq, list_eq,
  Dict, get, Instant,
}
use remote_open_power.Protocol.Message.{ErrorCode, bad_request, unauthorized}

pub record HostConfig : Type 0 where
  pub hostname : Bytes
  pub display_name : Bytes
  pub mac : Bytes
  pub ip : Bytes
  pub wol_port : ℕ
  pub probe_timeout_ms : ℕ
  pub probe_port : ℕ
  pub wol_ipv6_interface : ℕ

pub record HostEntry : Type 0 where
  pub id : Bytes
  pub config : HostConfig

-- the derived `PartialEq` of both
unfoldable pub same_entry : HostEntry → HostEntry → Bool
same_entry a b =
    a.id == b.id
    && a.config.hostname == b.config.hostname
    && a.config.display_name == b.config.display_name
    && a.config.mac == b.config.mac
    && a.config.ip == b.config.ip
    && a.config.wol_port == b.config.wol_port
    && a.config.probe_timeout_ms == b.config.probe_timeout_ms
    && a.config.probe_port == b.config.probe_port
    && a.config.wol_ipv6_interface == b.config.wol_ipv6_interface

-- What the dispatch loop reads for each host: the flag of the shutdown, and the access policy with
-- the hosts that it allows the client, if it still has it.
pub record Policy : Type 0 where
  pub stopping : Bool
  pub source_healthy : Bool
  pub hosts : Dict Bytes HostEntry
  pub client_hosts : Option (List Bytes)

-- Whether the loop goes on with this host.
unfoldable pub may_wake : Policy → HostEntry → Bool
may_wake policy entry =
    not policy.stopping
    && policy.source_healthy
    && is_some_and (get entry.id policy.hosts) (λ current. same_entry current entry)
    && is_some_and policy.client_hosts (λ allowed_hosts. contains allowed_hosts entry.id)

-- The loop of `authorized_hosts`, with `seen`.
unfoldable pub authorize_each :
    Dict Bytes HostEntry → List Bytes → List Bytes → List Bytes → Result ErrorCode (List HostEntry)
authorize_each hosts allowed_hosts seen [] = ok []
authorize_each hosts allowed_hosts seen (host_id ∷ host_ids) = do
  fail_if (contains seen host_id || not (contains allowed_hosts host_id)) unauthorized
  entry ← elim (get host_id hosts) [ none ↦ err bad_request | some entry ↦ ok entry ]
  rest ← authorize_each hosts allowed_hosts (host_id ∷ seen) host_ids
  ok (entry ∷ rest)

unfoldable pub authorized_hosts :
    Dict Bytes HostEntry → List Bytes → List Bytes → ℕ → Result ErrorCode (List HostEntry)
authorized_hosts hosts allowed_hosts host_ids maximum = do
  fail_if (is_empty host_ids || ltb maximum (length host_ids)) bad_request
  authorize_each hosts allowed_hosts [] host_ids

-- A monitor as it is created: no host is online and no probe runs.
pub record Monitor : Type 0 where
  pub operation_id : Bytes
  pub attempt : ℕ
  pub targets : List (Bytes × HostConfig)
  pub next_probe : Instant
  pub deadline : Instant
