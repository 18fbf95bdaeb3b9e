-- ===== src/Web/Routes.antt =====
-- internal/api/server.go: Handler, the routes and which of them protect guards.
use awg_proxy_go.Prelude.{ℕ, Bool, true, false, String, List, Option}
use awg_proxy_go.Prelude.Netip.{Addr}
use awg_proxy_go.Config.Settings.{Settings}
use awg_proxy_go.Router.Api.{Api}
use awg_proxy_go.Router.Settings.{RouterConfig}
use awg_proxy_go.Router.Peers.{Peer}
use awg_proxy_go.Web.{Server, World, Request, Response, version, write_json, protect}
use awg_proxy_go.Web.Login.{auth_status, login, logout, gate_static, serve_login}
use awg_proxy_go.Web.ClientConfig.{PeerConfigRequest}
use awg_proxy_go.Web.Network.{NetInterface}
use awg_proxy_go.Web.Handlers.{
  get_config, put_config, get_status, get_peers, post_peer, patch_peer, remove_peer, keypair,
  peer_config, get_interfaces, get_addresses, net_auto, post_interface,
}

-- A route with the body of the request, `none` where it does not decode.
pub data Route : Type 0 where
  auth_route logout_route version_route login_route static_route : Route
  post_login : Option (String × String) → Route
  config_route status_route peers_route interfaces_route addresses_route net_route : Route
  save_route : Option Settings → Route
  add_route : Option Peer → Route
  update_route : Option Peer → Route
  delete_route keypair_route : Route
  peer_config_route : Option PeerConfigRequest → Route
  interface_route : Option (String × String) → Route

-- The routes outside of protect.
abbrev pub is_open : Route → Bool
is_open auth_route = true
is_open (post_login body) = true
is_open logout_route = true
is_open version_route = true
is_open login_route = true
is_open static_route = true
is_open _ = false

-- What the handlers of the key pair and of the networks read.
pub record Machine : Type 0 where
  pub x25519 : List ℕ → List ℕ → Option (List ℕ)
  pub rand : Option (List ℕ)
  pub show : Addr → String
  pub net_interfaces : Option (List NetInterface)
  pub routes : Option String

module _ (w : World) (m : Machine) {R : Type 0} (connect : RouterConfig → Api R) where
  abbrev on_server : R → Server × Response → R × Server × Response
  on_server r (s, a) = (r, s, a)

  abbrev on_router : Server → R × Response → R × Server × Response
  on_router s (r, a) = (r, s, a)

  unfoldable pub guarded : Route → Request → R → Server → R × Server × Response
  unfolding get_config put_config get_status get_peers post_peer patch_peer remove_peer keypair
      peer_config get_interfaces get_addresses net_auto post_interface
  guarded config_route q r s = (r, s, get_config w s)
  guarded (save_route body) q r s = on_server r (put_config w s q body)
  guarded status_route q r s = (r, s, get_status w s)
  guarded peers_route q r s = on_router s (get_peers w connect r s)
  guarded (add_route body) q r s = on_router s (post_peer w connect r s body)
  guarded (update_route body) q r s = on_router s (patch_peer w connect r s q body)
  guarded delete_route q r s = on_router s (remove_peer w connect r s q)
  guarded keypair_route q r s = (r, s, keypair w m.x25519 m.rand)
  guarded (peer_config_route body) q r s = on_router s (peer_config w connect r s body)
  guarded interfaces_route q r s = on_router s (get_interfaces w connect r s)
  guarded addresses_route q r s = on_router s (get_addresses w connect r s)
  guarded net_route q r s = (r, s, net_auto w m.show m.net_interfaces m.routes)
  guarded (interface_route body) q r s = on_router s (post_interface w connect r s body)
  guarded auth_route q r s = on_server r (auth_status w s q)
  guarded (post_login body) q r s = on_server r (login w s q body)
  guarded logout_route q r s = on_server r (logout w s q)
  guarded version_route q r s = (r, s, write_json 200 version)
  guarded login_route q r s = on_server r (serve_login w s q)
  guarded static_route q r s = on_server r (gate_static w s q)

  -- Handler
  unfoldable pub serve : Route → Request → R → Server → R × Server × Response
  unfolding guarded protect
  serve route q r s = elim (is_open route) [
    | true ↦ guarded route q r s
    | false ↦ protect w (guarded route q) r s q
  ]
