-- ===== src/Web/Handlers.antt =====
-- internal/api/server.go: the handlers behind the login, and peerConfig of internal/api/peerconfig.go.
-- `connect` gives the router of some credentials. A body that does not decode is `none`.
use awg_proxy_go.Prelude.{
  ℕ, suc, Bool, true, false, not, ◌||◌, String, List, Option, none, some, length, replicate,
  if◌then◌else◌,
}
use awg_proxy_go.Prelude.Eq.{◌==◌, string_eq, nat_eq, list_eq}
use awg_proxy_go.Prelude.Int.{pos}
use awg_proxy_go.Prelude.Netip.{Addr}
use awg_proxy_go.Prelude.Results.{Result, ok, err}
use awg_proxy_go.Config.Settings.{Settings, Config}
use awg_proxy_go.Config.Convert.{to_config}
use awg_proxy_go.Config.Check.{ConfigError}
use awg_proxy_go.Config.Store.{File, read, write}
use awg_proxy_go.Router.Api.{Api}
use awg_proxy_go.Router.Settings.{RouterConfig}
use awg_proxy_go.Router.Keys.{generate_keypair}
use awg_proxy_go.Router.Snapshot.{Upstream, Snapshot}
use awg_proxy_go.Router.Peers.{
  Peer, list_peers, add_peer, update_peer, delete_peer, list_interfaces, list_addresses, server_key,
}
use awg_proxy_go.Router.Peers.Interface.{SetError, set_interface}
use awg_proxy_go.Web.{
  Server, World, Request, Status, Body, accepted, settings, status_of, peers, addresses, interfaces,
  key_pair, client_config, networks, Response, write_json, fail_with,
}
use awg_proxy_go.Web.ClientConfig.{PeerConfigRequest, render_client_config}
use awg_proxy_go.Web.Network.{
  NetInterface, detect_container_addr, detect_container_addr6, detect_gateway,
}

abbrev pub answer_config : Result ConfigError Settings → Response
answer_config (err e) = fail_with 500
answer_config (ok st) = write_json 200 (settings st)

abbrev mode_of : Result ConfigError Settings → String
mode_of (err e) = ""
mode_of (ok st) = st.mode

with_upstream : (Addr × ℕ → String) → Status → Option Upstream → Status
with_upstream show st none = st
with_upstream show st (some u) = record st {
  upstream_ready = true;
  upstream_addr = show u.remote_addr;
  upstream_comment = u.comment;
}

with_snapshot : (Addr × ℕ → String) → Status → Option Snapshot → Status
unfolding with_upstream
with_snapshot show st none = st
with_snapshot show st (some snap) =
    with_upstream show
      (record st {
        poll_ok = true;
        server_key = not (snap.server_pub == replicate 32 0);
        clients = length snap.client_pubs;
        wg_listen_port = snap.wg_listen_port;
      })
      snap.upstream

abbrev empty_status : String → Status
empty_status mode = record {
  mode = mode;
  poll_ok = false;
  server_key = false;
  clients = 0;
  wg_listen_port = pos 0;
  upstream_ready = false;
  upstream_addr = "";
  upstream_comment = "";
}

-- The RouterConfig of routerClient: its mode is not set.
abbrev pub client_of : Config → RouterConfig
client_of c = record {
  address = c.router.address;
  api_port = c.router.api_port;
  api_tls = c.router.api_tls;
  user = c.router.user;
  password = c.router.password;
  iface = c.router.wg_iface;
  interval = c.poll_interval;
  mode = "";
}

found : (Body → Response) → Option Body → Response
found answer none = fail_with 502
found answer (some b) = answer b

abbrev pub done_or_502 : String → Bool → Response
done_or_502 text true = write_json 200 (accepted text)
done_or_502 text false = fail_with 502

applied : Option SetError → Response
applied none = write_json 200 (accepted "applied")
applied (some e) = fail_with 502

module _ (w : World) where
  unfoldable pub get_config : Server → Response
  unfolding read
  get_config s = answer_config (read w.system w.zero_settings s.file)

  unfoldable pub saved : Server → File × Option ConfigError → Server × Response
  saved s (f, none) =
      (record s { file = f; signals = suc s.signals }, write_json 200 (accepted "saved"))
  saved s (f, some e) = (record s { file = f }, fail_with 400)

  unfoldable pub put_config : Server → Request → Option Settings → Server × Response
  unfolding write saved
  put_config s q none = (s, fail_with 400)
  put_config s q (some st) = saved s (write w.system s.file st q.section)

  unfoldable pub get_status : Server → Response
  unfolding read with_snapshot
  get_status s = write_json 200 (
      status_of (
        with_snapshot w.show_addr_port
          (empty_status (mode_of (read w.system w.zero_settings s.file))) w.snapshot))

  -- `none` is an error of the random bytes or of X25519.
  unfoldable pub keypair : (List ℕ → List ℕ → Option (List ℕ)) → Option (List ℕ) → Response
  unfolding generate_keypair
  keypair x25519 rand = elim (generate_keypair x25519 rand) [
    | some (private, public) ↦ write_json 200 (key_pair private public)
    | none ↦ fail_with 500
  ]

  unfoldable pub net_auto : (Addr → String) → Option (List NetInterface) → Option String → Response
  unfolding detect_container_addr detect_container_addr6 detect_gateway
  net_auto show ifs routes = write_json 200 (
      networks (detect_container_addr ifs) (detect_gateway routes)
        (detect_container_addr6 show ifs))

  module _ {R : Type 0} (connect : RouterConfig → Api R) where
    unfoldable pub client_from : Result ConfigError Settings → Option RouterConfig
    unfolding to_config
    client_from (err e) = none
    client_from (ok st) = some (client_of (to_config st))

    -- routerClient
    unfoldable pub router_client : Server → Option RouterConfig
    unfolding read client_from
    router_client s = client_from (read w.system w.zero_settings s.file)

    -- A handler that needs the router: an unreadable file is an error 500.
    with_client : R → Server → (RouterConfig → R × Response) → R × Response
    unfolding router_client
    with_client r s act = elim (router_client s) [ some c ↦ act c | none ↦ (r, fail_with 500) ]

    unfoldable pub get_peers : R → Server → R × Response
    unfolding with_client list_peers found
    get_peers r s = with_client r s (λ c.
        let (r', ps) = list_peers (connect c) r c.iface in
        (r', found (write_json 200) (elim ps [ some xs ↦ some (peers xs) | none ↦ none ])))

    unfoldable pub post_peer : R → Server → Option Peer → R × Response
    unfolding with_client add_peer
    post_peer r s none = (r, fail_with 400)
    post_peer r s (some p) =
        with_client r s
          (λ c. let (r', good) = add_peer (connect c) r c.iface p in (r', done_or_502 "added" good))

    unfoldable pub patch_peer : R → Server → Request → Option Peer → R × Response
    unfolding with_client update_peer
    patch_peer r s q none = (r, fail_with 400)
    patch_peer r s q (some p) = with_client r s (λ c.
        let (r', good) = update_peer (connect c) r c.iface q.id p in
        (r', done_or_502 "updated" good))

    unfoldable pub remove_peer : R → Server → Request → R × Response
    unfolding with_client delete_peer
    remove_peer r s q =
        with_client r s
          (λ c. let (r', good) = delete_peer (connect c) r q.id in (r', done_or_502 "deleted" good))

    unfoldable pub get_addresses : R → Server → R × Response
    unfolding with_client list_addresses found
    get_addresses r s = with_client r s (λ c.
        let (r', listed) = list_addresses (connect c) r in
        (r', found (write_json 200) (elim listed [ some xs ↦ some (addresses xs) | none ↦ none ])))

    unfoldable pub get_interfaces : R → Server → R × Response
    unfolding with_client list_interfaces found
    get_interfaces r s = with_client r s (λ c.
        let (r', is) = list_interfaces (connect c) r in
        (r', found (write_json 200) (elim is [ some xs ↦ some (interfaces xs) | none ↦ none ])))

    -- The body has a private key and an address.
    unfoldable pub post_interface : R → Server → Option (String × String) → R × Response
    unfolding with_client set_interface applied
    post_interface r s none = (r, fail_with 400)
    post_interface r s (some (private, address)) =
        with_client r s (λ c.
          let (r', e) = set_interface (connect c) c.iface r private address in (r', applied e))

    config_for : R → Server → PeerConfigRequest → Settings → R × Response
    unfolding with_client server_key render_client_config found
    config_for r s req st = with_client r s (λ c.
        let (r', key) = server_key (connect c) r c.iface in
        (
          r',
          found (write_json 200) (elim key [
            | some k ↦ some (client_config (render_client_config st k req))
            | none ↦ none
          ]),
        ))

    config_of : R → Server → PeerConfigRequest → Result ConfigError Settings → R × Response
    unfolding config_for
    config_of r s req (err e) = (r, fail_with 500)
    config_of r s req (ok st) =
        if st.server.public_endpoint == "" then (r, fail_with 400) else config_for r s req st

    -- peerConfig, whose answer has a QR code of the same text besides: encoding it succeeds.
    unfoldable pub peer_config : R → Server → Option PeerConfigRequest → R × Response
    unfolding read config_of
    peer_config r s none = (r, fail_with 400)
    peer_config r s (some req) =
        if req.private_key == "" || req.address == ""
        then (r, fail_with 400)
        else config_of r s req (read w.system w.zero_settings s.file)
