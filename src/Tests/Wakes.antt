-- ===== src/Tests/Wakes.antt =====
-- A wake request for one host, handled from the empty ledger.
use remote_open_power.Base.{
  ℕ_eq?, nat_eq, list_eq, list_eq?, Bytes, bytes, Bool, true, false, [], ◌∷◌, Option, none, some,
  Result, ok, ◌≡◌, ◌≢◌, ◌≤◌, ◌↔◌, refl, length, get, retain, count, from_secs,
}
use remote_open_power.Base.Sort.{sort_by}
use remote_open_power.Protocol.Message.{ServerEnvelope}
use remote_open_power.Protocol.Codec.{encode}
use remote_open_power.Protocol.Headers.{canonical_headers, scan_headers}
use remote_open_power.Protocol.Identifier.{validate_id}
use remote_open_power.Protocol.Validate.{
  validate_each, validate_frame, validate_event, validate_server,
}
use remote_open_power.Server.Ledger.{empty, prune, has_capacity_for, begin_wake_attempt1}
use remote_open_power.Server.Cooldown.{reserve_wake_targets, drop_stale, is_blocked}
use remote_open_power.Server.Host.{
  HostConfig, HostEntry, Policy, may_wake, same_entry, authorize_each, authorized_hosts,
}
use remote_open_power.Server.Host.Access.{AreAuthorized, authorized_hosts_iff}
use remote_open_power.Server.Respond.{make_response, send_response}
use remote_open_power.Server.Requests.{
  Shared, Snapshot, Request, Readings, WakeError, dispatch_each, begin_wake,
}
use remote_open_power.Server.Wakes.{process_wake, dispatch, send_receipt}
use remote_open_power.Server.Wakes.Cases.{begun}
use remote_open_power.Server.Wakes.Cleared.{IsCleared, process_wake-IsCleared}
use remote_open_power.Server.Wakes.Answers.{IsAnswer, process_wake-IsAnswer}
use remote_open_power.Server.Wakes.Packets.{IsPermitted, process_wake-IsPermitted}
use remote_open_power.Server.Wakes.Runs.{IsRun, process_wake-IsRun}

abbrev pc : HostEntry
pc = record {
  id = bytes "pc";
  config = record {
    hostname = bytes "pc";
    display_name = [];
    mac = bytes "02";
    ip = bytes "10";
    wol_port = 9;
    probe_timeout_ms = 500;
    probe_port = 0;
    wol_ipv6_interface = 0;
  };
}

abbrev snapshot : Snapshot
snapshot = record { headers = []; hosts = (bytes "pc", pc) ∷ []; catalog_version = 3 }

abbrev policy_at : HostEntry → Policy
policy_at entry = record {
  stopping = false;
  source_healthy = true;
  hosts = (bytes "pc", pc) ∷ [];
  client_hosts = some (bytes "pc" ∷ []);
}

abbrev request : Request
request = record {
  request_id = 2 ∷ [];
  headers = [];
  catalog_version = 3;
  host_ids = bytes "pc" ∷ [];
  attempt = 1;
  boot_nonce = 4 ∷ [];
  retry_ticket = none;
}

abbrev readings : Readings
readings = record {
  begun = 0;
  reserved = from_secs 1;
  completed = from_secs 2;
  next_probe = from_secs 2;
  monitored = from_secs 2;
  renewed_ms = 1;
  remaining_ms = 1;
  deadline_ms = 2000;
  made_ms = 2001;
  sent_ms = 2002;
  ticket = 9 ∷ [];
}

abbrev shared : Shared
shared = record { ledger = empty; last_wake = [] }

-- A hash that keeps its input, an encoder to four bytes, and a transport and a sender that succeed.
abbrev sha256 : Bytes → Bytes
sha256 input = input

abbrev to_allocvec : ServerEnvelope → Option Bytes
to_allocvec e = some (1 ∷ 2 ∷ 3 ∷ 4 ∷ [])

abbrev transmit : Bytes → Bool
transmit payload = true

abbrev wake : HostConfig → Result WakeError (Unit {0})
wake config = ok tt

process_wake-IsAnswer_example : IsAnswer (
    process_wake sha256 to_allocvec transmit wake shared snapshot
      (1 ∷ [])
      (bytes "pc" ∷ [])
      request
      policy_at
      readings)
process_wake-IsAnswer_example =
    process_wake-IsAnswer sha256 to_allocvec transmit wake shared snapshot (1 ∷ [])
      (bytes "pc" ∷ []) request policy_at readings

process_wake-IsRun_example :
    IsRun
      (record { client_key = 1 ∷ []; operation_id = 2 ∷ [] })
      empty
      (process_wake sha256 to_allocvec transmit wake shared snapshot
        (1 ∷ [])
        (bytes "pc" ∷ [])
        request
        policy_at
        readings)
process_wake-IsRun_example =
    process_wake-IsRun sha256 to_allocvec transmit wake shared snapshot (1 ∷ []) (bytes "pc" ∷ [])
      request policy_at readings

process_wake-IsPermitted_example :
    IsPermitted snapshot (bytes "pc" ∷ []) (bytes "pc" ∷ []) policy_at (bytes "pc")
unfolding process_wake list_eq? ℕ_eq? authorized_hosts authorize_each get begin_wake
    begin_wake_attempt1 prune retain has_capacity_for count dispatch reserve_wake_targets is_blocked
    drop_stale dispatch_each may_wake same_entry send_receipt make_response encode validate_server
    validate_frame validate_event validate_each validate_id canonical_headers scan_headers sort_by
    send_response
process_wake-IsPermitted_example =
    process_wake-IsPermitted sha256 to_allocvec transmit wake shared snapshot (1 ∷ [])
      (bytes "pc" ∷ []) request policy_at readings (bytes "pc") refl

authorized_hosts_iff_example :
    (authorized_hosts snapshot.hosts (bytes "pc" ∷ []) (bytes "pc" ∷ []) 8 ≡ ok (pc ∷ [])) ↔ (
      (bytes "pc" ∷ [] ≢ [])
      × (length (bytes "pc" ∷ []) ≤ 8)
      × AreAuthorized snapshot.hosts (bytes "pc" ∷ []) [] (bytes "pc" ∷ []) (pc ∷ []))
authorized_hosts_iff_example =
    authorized_hosts_iff snapshot.hosts (bytes "pc" ∷ []) (bytes "pc" ∷ []) 8 (pc ∷ [])

process_wake-IsCleared_example :
    IsCleared shared
      (1 ∷ [])
      (bytes "pc" ∷ [])
      readings
      (begun sha256 to_allocvec transmit wake shared snapshot
        (1 ∷ [])
        (bytes "pc" ∷ [])
        request
        policy_at
        readings).1
unfolding process_wake list_eq? ℕ_eq? authorized_hosts authorize_each get begin_wake
    begin_wake_attempt1 prune retain has_capacity_for count dispatch reserve_wake_targets is_blocked
    drop_stale dispatch_each may_wake same_entry send_receipt make_response encode validate_server
    validate_frame validate_event validate_each validate_id canonical_headers scan_headers sort_by
    send_response
process_wake-IsCleared_example =
    process_wake-IsCleared sha256 to_allocvec transmit wake shared snapshot (1 ∷ [])
      (bytes "pc" ∷ []) request policy_at readings refl
