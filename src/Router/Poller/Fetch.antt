-- ===== src/Router/Poller/Fetch.antt =====
-- fetchAPI of internal/router/api.go, and tick and Run of internal/router/poller.go.
use awg_proxy_go.Prelude.{ℕ, String, List, [], ◌∷◌, Option, none, some, replicate, if◌then◌else◌}
use awg_proxy_go.Prelude.Eq.{◌==◌, string_eq}
use awg_proxy_go.Prelude.Int.{ℤ, pos}
use awg_proxy_go.Prelude.Strings.{atoi}
use awg_proxy_go.Router.Api.{Row, Api, value}
use awg_proxy_go.Router.Settings.{RouterConfig, mode_client}
use awg_proxy_go.Router.Keys.{parse_pub_key, key_or_zero}
use awg_proxy_go.Router.Snapshot.{Snapshot}
use awg_proxy_go.Router.Poller.{Resolver, MarkedPeer, pick_upstream}

pub record InterfaceKeys : Type 0 where
  pub server_pub : List ℕ
  pub server_priv : List ℕ
  pub listen_port : ℤ

unfoldable pub interface_keys : Row → Option (List ℕ) → Option InterfaceKeys
unfolding value key_or_zero atoi
interface_keys it none = none
interface_keys it (some key) = some (record {
  server_pub = key;
  server_priv =
      if value "private-key" it == "" then replicate 32 0 else key_or_zero (value "private-key" it);
  listen_port = if value "listen-port" it == "" then pos 0 else (atoi (value "listen-port" it)).0;
})

-- The first interface of the name; `none` if there is none, or its public key is no key.
unfoldable pub find_interface : String → List Row → Option InterfaceKeys
unfolding value parse_pub_key interface_keys
find_interface iface [] = none
find_interface iface (it ∷ rows) =
    let rest = find_interface iface rows in
    if value "name" it == iface
    then interface_keys it (parse_pub_key (value "public-key" it))
    else rest

unfoldable pub marked_peer : Row → MarkedPeer
unfolding value atoi
marked_peer r = record {
  id = value ".id" r;
  comment = value "comment" r;
  public_key = value "public-key" r;
  psk = value "preshared-key" r;
  endpoint_addr = value "endpoint-address" r;
  endpoint_port = (atoi (value "endpoint-port" r)).0;
  disabled = value "disabled" r == "true";
}

unfoldable pub marked_peers : String → List Row → List MarkedPeer
unfolding value marked_peer
marked_peers iface [] = []
marked_peers iface (r ∷ rows) =
    let rest = marked_peers iface rows in
    if value "interface" r == iface then marked_peer r ∷ rest else rest

unfoldable pub cons_key : Option (List ℕ) → Option (List (List ℕ)) → Option (List (List ℕ))
cons_key (some key) (some keys) = some (key ∷ keys)
cons_key _ _ = none

-- The keys of the interface's peers; `none` if one of them is no key.
unfoldable pub client_keys : String → List Row → Option (List (List ℕ))
unfolding value parse_pub_key cons_key
client_keys iface [] = some []
client_keys iface (r ∷ rows) =
    let rest = client_keys iface rows in
    if value "interface" r == iface
    then cons_key (parse_pub_key (value "public-key" r)) rest
    else rest

abbrev pub client_snapshot : Resolver → String → InterfaceKeys → List Row → Snapshot
client_snapshot dns iface keys rows = record {
  server_pub = keys.server_pub;
  server_priv = keys.server_priv;
  wg_listen_port = keys.listen_port;
  client_pubs = [];
  upstream = pick_upstream dns (marked_peers iface rows);
}

abbrev pub server_snapshot : InterfaceKeys → List (List ℕ) → Snapshot
server_snapshot keys pubs = record {
  server_pub = keys.server_pub;
  server_priv = keys.server_priv;
  wg_listen_port = keys.listen_port;
  client_pubs = pubs;
  upstream = none;
}

-- The snapshot from what the two calls of print give.
unfoldable pub snapshot_of :
    Resolver → RouterConfig → InterfaceKeys → Option (List Row) → Option Snapshot
unfolding pick_upstream marked_peers client_keys
snapshot_of dns c keys none = none
snapshot_of dns c keys (some rows) =
    if c.mode == mode_client
    then some (client_snapshot dns c.iface keys rows)
    else elim (client_keys c.iface rows) [
      | none ↦ none
      | some pubs ↦ some (server_snapshot keys pubs)
    ]

unfoldable pub found_interface : RouterConfig → Option (List Row) → Option InterfaceKeys
unfolding find_interface
found_interface c none = none
found_interface c (some rows) = find_interface c.iface rows

module _ {R : Type 0} (api : Api R) (dns : Resolver) (c : RouterConfig) where
  unfoldable pub fetch_peers : R → Option InterfaceKeys → R × Option Snapshot
  unfolding snapshot_of
  fetch_peers r none = (r, none)
  fetch_peers r (some keys) =
      let (r', rows) = api.print r "/interface/wireguard/peers" in (r', snapshot_of dns c keys rows)

  -- fetchAPI: `none` for an error.
  unfoldable pub fetch_api : R → R × Option Snapshot
  unfolding fetch_peers found_interface
  fetch_api r =
      let (r', rows) = api.print r "/interface/wireguard" in fetch_peers r' (found_interface c rows)

-- `hooks` is the state that onTick keeps.
pub record Poller (R H : Type 0) : Type 0 where
  pub router : R
  pub hooks : H
  pub cur : Option Snapshot

-- `hook` is onTick; a poller without one has a hook that does nothing.
module _ {R H : Type 0} (api : Api R) (dns : Resolver) (c : RouterConfig)
    (hook : R → H → Snapshot → R × H) where
  unfoldable pub ticked : Poller R H → R × Option Snapshot → Poller R H
  ticked p (r, none) = record p { router = r }
  ticked p (r, some snap) =
      let (r', h) = hook r p.hooks snap in record { router = r'; hooks = h; cur = some snap }

  unfoldable pub tick : Poller R H → Poller R H
  unfolding fetch_api ticked
  tick p = ticked p (fetch_api api dns c p.router)

  -- The loop of Run, with what others do to the router before each tick.
  unfoldable pub run_ticks : Poller R H → List (R → R) → Poller R H
  unfolding tick
  run_ticks p [] = p
  run_ticks p (change ∷ changes) = run_ticks (tick (record p { router = change p.router })) changes

  unfoldable pub run : Poller R H → List (R → R) → Poller R H
  unfolding tick run_ticks
  run p changes = run_ticks (tick p) changes
