-- ===== src/Config/Settings.antt =====
-- internal/config/config.go: the types of the file and of the working configuration. `int` is ℤ and
-- a time.Duration is a ℤ of nanoseconds.
use awg_proxy_go.Prelude.{ℕ, Bool, String}
use awg_proxy_go.Prelude.Int.{ℤ}

abbrev pub mode_server : String
mode_server = "server"

abbrev pub mode_client : String
mode_client = "client"

pub record Obfuscation : Type 0 where
  pub jc : ℤ
  pub jmin : ℤ
  pub jmax : ℤ
  pub s1 : ℤ
  pub s2 : ℤ
  pub h1 : ℕ
  pub h2 : ℕ
  pub h3 : ℕ
  pub h4 : ℕ

pub record RouterSettings : Type 0 where
  pub address : String
  pub api_port : ℤ
  pub api_tls : Bool
  pub user : String
  pub password : String
  pub wg_iface : String

pub record ServerSettings : Type 0 where
  pub listen : String
  pub remote_addr : String
  pub remote_port : ℤ
  pub public_endpoint : String
  pub client_dns : String
  pub container_addr : String
  pub divert : Bool
  pub masquerade : Bool
  pub session_ttl_sec : ℤ
  pub poll_interval_sec : ℤ
  pub obfuscation : Obfuscation
  pub router : RouterSettings
  pub container_addr6 : String

pub record ClientSettings : Type 0 where
  pub listen : String
  pub container_addr : String
  pub session_ttl_sec : ℤ
  pub poll_interval_sec : ℤ
  pub obfuscation : Obfuscation
  pub router : RouterSettings
  pub divert : Bool
  pub container_addr6 : String

pub record Settings : Type 0 where
  pub mode : String
  pub web_listen : String
  pub log_level : String
  pub server : ServerSettings
  pub client : ClientSettings

pub record RouterConn : Type 0 where
  pub address : String
  pub api_port : ℤ
  pub api_tls : Bool
  pub user : String
  pub password : String
  pub wg_iface : String

pub record Config : Type 0 where
  pub mode : String
  pub web_listen : String
  pub log_level : ℤ
  pub listen : String
  pub remote : String
  pub public_endpoint : String
  pub container_addr : String
  pub divert : Bool
  pub masquerade : Bool
  pub jc : ℤ
  pub jmin : ℤ
  pub jmax : ℤ
  pub s1 : ℤ
  pub s2 : ℤ
  pub h1 : ℕ
  pub h2 : ℕ
  pub h3 : ℕ
  pub h4 : ℕ
  pub session_ttl : ℤ
  pub poll_interval : ℤ
  pub router : RouterConn
  pub container_addr6 : String
