-- ===== src/Config.antt =====
-- The configuration of src/config.rs and its tests. Files and their format are a library's.
pub mod Text
pub mod Address
pub mod Keys
pub mod Validate
use remote_open_power.Base.{ℕ, Bytes, Bool, List, Dict, ◌*◌}
use remote_open_power.Server.Host.{HostConfig}

abbrev pub config_version : ℕ
config_version = 1

abbrev pub max_clients : ℕ
max_clients = 128

abbrev pub max_display_label_bytes : ℕ
max_display_label_bytes = 128

abbrev pub max_endpoint_bytes : ℕ
max_endpoint_bytes = 253

-- `ConfigError::Invalid`, without its text.
pub data ConfigError : Type 0 where
  invalid : ConfigError

pub record ServerConfig : Type 0 where
  pub bind_address : Bytes
  pub bind_address_v4 : Bytes
  pub port : ℕ
  pub dual_stack : Bool

pub record AllowedClient : Type 0 where
  pub client_id : Bytes
  pub display_label : Bytes
  pub static_public_key : Bytes
  pub allowed_hosts : List Bytes
  pub issued_credential_file : Bytes

pub record SecurityConfig : Type 0 where
  pub shared_secret : Bytes
  pub clock_skew_seconds : ℕ
  pub max_requests_per_minute : ℕ
  pub custom_headers : Dict Bytes Bytes
  pub server_static_private_key : Bytes
  pub server_static_public_key : Bytes
  pub allowed_clients : List AllowedClient
  pub allow_public_targets : Bool

pub record ClientConfig : Type 0 where
  pub address : Bytes
  pub port : ℕ
  pub client_id : Bytes
  pub static_private_key : Bytes
  pub static_public_key : Bytes
  pub pinned_server_static_key : Bytes

pub record AppConfig : Type 0 where
  pub version : ℕ
  pub server : ServerConfig
  pub security : SecurityConfig
  pub hosts : List HostConfig
  pub client : ClientConfig
