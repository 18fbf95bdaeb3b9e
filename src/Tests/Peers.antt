-- ===== src/Tests/Peers.antt =====
-- internal/router/peers.go and iface.go on a router with one table.
use awg_proxy_go.Prelude.{◌≡◌, refl, true, false, List, [], ◌∷◌, ◌++◌, some}
use awg_proxy_go.Prelude.Eq.{string_eq}
use awg_proxy_go.Prelude.Dict.{lookup}
use awg_proxy_go.Prelude.Strings.{trim_space, trim_left, trim_right, cut_at}
use awg_proxy_go.Router.Api.{Row, value}
use awg_proxy_go.Router.Peers.{Peer, own_peers, peers_path, list_peers, add_peer}
use awg_proxy_go.Router.Peers.Added.{list_peers-add_peer}
use awg_proxy_go.Router.Peers.Interface.{normalize_iface_address}
use awg_proxy_go.Router.Peers.Listed.{IsStored}
use awg_proxy_go.Tests.Tables.{table, table_laws}

abbrev laptop : Peer
laptop = record {
  id = "";
  interface = "";
  disabled = false;
  name = "laptop";
  comment = "";
  public_key = "";
  private_key = "BwcHBwcHBwcHBwcHBwcHBwcHBwcHBwcHBwcHBwcHBwc=";
  preshared_key = "";
  allowed_address = "10.0.0.2/32";
  endpoint_address = "";
  endpoint_port = "";
  persistent_keepalive = "25";
  current_endpoint = "";
  rx = "";
  tx = "";
  last_handshake = "";
}

abbrev stored_rows : List Row
stored_rows = ((".id", "*1") ∷ ("interface", "wg1") ∷ []) ∷ []

none_before : (list_peers table stored_rows "wg0").1 ≡ some []
unfolding list_peers own_peers value lookup
none_before = refl

list_peers-add_peer_example :
    ((add_peer table stored_rows "wg0" laptop).1 ≡ true)
    × ((q : Peer) × IsStored "wg0" laptop q
        × ((list_peers table (add_peer table stored_rows "wg0" laptop).0 "wg0").1
            ≡ some ([] ++ q ∷ [])))
list_peers-add_peer_example =
    list_peers-add_peer table (λ rs. rs) (table_laws peers_path) stored_rows "wg0" laptop []
      none_before

addresses :
    (normalize_iface_address " 10.0.0.1/32" ≡ "10.0.0.1/24")
    × (normalize_iface_address "10.0.0.1" ≡ "10.0.0.1/24")
    × (normalize_iface_address "10.0.0.1/16" ≡ "10.0.0.1/16")
    × (normalize_iface_address "fd00::1/128" ≡ "fd00::1/128")
unfolding normalize_iface_address trim_space trim_left trim_right cut_at
addresses = (refl, refl, refl, refl)
