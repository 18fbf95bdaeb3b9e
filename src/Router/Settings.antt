-- ===== src/Router/Settings.antt =====
-- internal/router/poller.go: Config and the modes.
use awg_proxy_go.Prelude.{Bool, String}
use awg_proxy_go.Prelude.Int.{ℤ}

abbrev pub mode_server : String
mode_server = "server"

abbrev pub mode_client : String
mode_client = "client"

pub record RouterConfig : Type 0 where
  pub address : String
  pub api_port : ℤ
  pub api_tls : Bool
  pub user : String
  pub password : String
  pub iface : String
  pub interval : ℤ
  pub mode : String
