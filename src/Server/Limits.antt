-- ===== src/Server/Limits.antt =====
-- The constants of src/server.rs.
use remote_open_power.Base.{ℕ, Duration, from_secs, ◌*◌}

abbrev pub max_connections : ℕ
max_connections = 64

abbrev pub max_rate_keys : ℕ
max_rate_keys = 2048

abbrev pub max_app_payload : ℕ
max_app_payload = 32 * 1024

abbrev pub request_skew : Duration
request_skew = from_secs 60

abbrev pub ledger_ttl : Duration
ledger_ttl = from_secs (15 * 60)

abbrev pub pending_ledger_ttl : Duration
pending_ledger_ttl = from_secs (2 * 60)

abbrev pub retry_ttl : Duration
retry_ttl = from_secs 90

abbrev pub monitor_timeout_ms : ℕ
monitor_timeout_ms = 60000

abbrev pub wake_cooldown : Duration
wake_cooldown = from_secs 10

abbrev pub max_ledger_entries : ℕ
max_ledger_entries = 4096

abbrev pub max_ledger_entries_per_client : ℕ
max_ledger_entries_per_client = 256
