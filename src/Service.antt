-- ===== src/Service.antt =====
-- cmd/awgproxy/main.go: the ports, the clean-up and the choice of the hooks.
pub mod Hooks
pub mod Supervisor
pub mod Stack
use awg_proxy_go.Prelude.{
  Bool, true, false, not, ◌&&◌, ◌||◌, String, List, [], ◌∷◌, Option, none, some, if◌then◌else◌,
}
use awg_proxy_go.Prelude.Eq.{◌==◌, string_eq}
use awg_proxy_go.Prelude.Int.{ℤ}
use awg_proxy_go.Prelude.Strings.{atoi, split_host_port}
use awg_proxy_go.Config.Settings.{Config}
use awg_proxy_go.Router.Settings.{RouterConfig}

checked : ℤ × Bool → Option ℤ
checked (n, true) = some n
checked (n, false) = none

port_of : Option (String × String) → Option ℤ
unfolding atoi checked
port_of none = none
port_of (some (host, port)) = checked (atoi port)

unfoldable pub port_from_listen : String → Option ℤ
unfolding split_host_port port_of
port_from_listen listen = port_of (split_host_port listen)

unfoldable pub port_from_endpoint : String → Option ℤ
unfolding split_host_port port_of
port_from_endpoint ep = port_of (split_host_port ep)

unfoldable pub build_router_config : Config → RouterConfig
build_router_config c = record {
  address = c.router.address;
  api_port = c.router.api_port;
  api_tls = c.router.api_tls;
  user = c.router.user;
  password = c.router.password;
  iface = c.router.wg_iface;
  interval = c.poll_interval;
  mode = c.mode;
}

-- cleanupStaleRules: the configuration whose rules are to be removed.
unfoldable pub stale_config : Option RouterConfig → RouterConfig → Option RouterConfig
stale_config none next = none
stale_config (some prev) next =
    if prev.iface == "" || prev.iface == next.iface
    then none
    else if prev.address == "" || prev.password == ""
    then none
    else some prev
