-- ===== src/Config/Convert/Stable.antt =====
-- config.go: ToConfig and the defaults.
use awg_proxy_go.Prelude.{◌≡◌, ap, arith}
use awg_proxy_go.Prelude.Eq.{string_eq}
use awg_proxy_go.Config.Settings.{Settings}
use awg_proxy_go.Config.Defaults.{with_defaults}
use awg_proxy_go.Config.Defaults.Idempotent.{with_defaults_idem}
use awg_proxy_go.Config.Convert.{
  fill, to_config, router_conn, active_router, fill_server, fill_client,
}

pub to_config-with_defaults : (s : Settings) → to_config (with_defaults s) ≡ to_config s
unfolding to_config
to_config-with_defaults s = ap fill (with_defaults_idem s)

-- The connection that ToConfig gives is that of the section ActiveRouter names, with its defaults.
-- Both read the mode after the defaults.
pub to_config-active_router :
    (s : Settings) → (to_config s).router ≡ router_conn (active_router (with_defaults s))
unfolding to_config fill active_router with_defaults fill_server fill_client
to_config-active_router s = ground arith
