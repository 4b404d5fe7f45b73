-- ===== src/Tests/Queries.antt =====
-- A list of hosts and the states of one, asked for by a client that may see one of two.
use remote_open_power.Base.{
  Bytes, bytes, Bool, true, List, [], ◌∷◌, Option, some, Result, ok, ◌≡◌, ◌≢◌, ◌≤◌, ◌<◌, ◌⊎◌, ◌++◌,
  length,
}
use remote_open_power.Protocol.Message.{HostSummary, ServerEnvelope, max_status_targets}
use remote_open_power.Server.Ledger.{empty}
use remote_open_power.Server.Host.{HostConfig, HostEntry}
use remote_open_power.Server.Requests.{Snapshot, Readings, WakeError}
use remote_open_power.Server.Queries.{process_list, process_statuses}
use remote_open_power.Server.Queries.Allowed.{AllVisible, process_list-AllVisible}
use remote_open_power.Server.Queries.Jobs.{process_statuses-jobs}
use remote_open_power.Server.Host.Access.{AreAuthorized}

abbrev pc : HostEntry
pc = record {
  id = bytes "pc";
  config = record {
    hostname = bytes "pc";
    display_name = [];
    mac = bytes "02";
    ip = bytes "10";
    wol_port = 9;
    probe_timeout_ms = 500;
    probe_port = 0;
    wol_ipv6_interface = 0;
  };
}

abbrev snapshot : Snapshot
snapshot = record { headers = []; hosts = (bytes "pc", pc) ∷ []; catalog_version = 3 }

abbrev summaries : List HostSummary
summaries = (record { host_id = bytes "pc" }) ∷ (record { host_id = bytes "nas" }) ∷ []

abbrev readings : Readings
readings = record {
  begun = 0;
  reserved = 1;
  completed = 2;
  next_probe = 2;
  monitored = 2;
  renewed_ms = 1;
  remaining_ms = 1;
  deadline_ms = 2000;
  made_ms = 2001;
  sent_ms = 2002;
  ticket = 9 ∷ [];
}

-- A hash that keeps its input, an encoder to four bytes, and a transport and a sender that succeed.
abbrev sha256 : Bytes → Bytes
sha256 input = input

abbrev to_allocvec : ServerEnvelope → Option Bytes
to_allocvec e = some (1 ∷ 2 ∷ 3 ∷ 4 ∷ [])

abbrev transmit : Bytes → Bool
transmit payload = true

abbrev wake : HostConfig → Result WakeError (Unit {0})
wake config = ok tt

process_list-AllVisible_example : AllVisible 3 (bytes "pc" ∷ []) (
    process_list sha256 to_allocvec transmit wake empty [] snapshot summaries
      (1 ∷ [])
      (bytes "pc" ∷ [])
      (2 ∷ [])
      []
      readings)
process_list-AllVisible_example =
    process_list-AllVisible sha256 to_allocvec transmit wake empty [] snapshot summaries (1 ∷ [])
      (bytes "pc" ∷ []) (2 ∷ []) [] readings

process_statuses-jobs_example :
    ((process_statuses sha256 to_allocvec transmit wake empty [] snapshot
        (1 ∷ [])
        (bytes "pc" ∷ [])
        (2 ∷ [])
        []
        3
        (bytes "pc" ∷ [])
        (ok true)
        readings).status_jobs
      ≡ [])
    ⊎ (((process_statuses sha256 to_allocvec transmit wake empty [] snapshot
            (1 ∷ [])
            (bytes "pc" ∷ [])
            (2 ∷ [])
            []
            3
            (bytes "pc" ∷ [])
            (ok true)
            readings).status_jobs
          ≡ [] ++ ((record { request_id = 2 ∷ []; hosts = bytes "pc" ∷ [] }) ∷ []))
        × (0 < 2)
        × (3 ≡ snapshot.catalog_version)
        × (entries : List HostEntry) × (bytes "pc" ∷ [] ≢ [])
        × (length (bytes "pc" ∷ []) ≤ max_status_targets)
        × AreAuthorized snapshot.hosts (bytes "pc" ∷ []) [] (bytes "pc" ∷ []) entries)
process_statuses-jobs_example =
    process_statuses-jobs sha256 to_allocvec transmit wake empty [] snapshot (1 ∷ [])
      (bytes "pc" ∷ []) (2 ∷ []) [] 3 (bytes "pc" ∷ []) (ok true) readings
