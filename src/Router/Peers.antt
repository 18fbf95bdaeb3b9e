-- ===== src/Router/Peers.antt =====
-- internal/router/peers.go, over a router that is a parameter (Router.Api). An error is `none` or
-- `false`.
pub mod Interface
pub mod Listed
pub mod Added
use awg_proxy_go.Prelude.{
  Bool, true, false, ◌&&◌, ◌||◌, String, List, [], ◌∷◌, Option, none, some, if◌then◌else◌,
}
use awg_proxy_go.Prelude.Eq.{◌==◌, string_eq}
use awg_proxy_go.Prelude.Dict.{Dict, lookup, insert}
use awg_proxy_go.Config.Convert.{◌+s◌}
use awg_proxy_go.Router.Api.{Row, Api, value}

pub record Peer : Type 0 where
  pub id : String
  pub interface : String
  pub disabled : Bool
  pub name : String
  pub comment : String
  pub public_key : String
  pub private_key : String
  pub preshared_key : String
  pub allowed_address : String
  pub endpoint_address : String
  pub endpoint_port : String
  pub persistent_keepalive : String
  pub current_endpoint : String
  pub rx : String
  pub tx : String
  pub last_handshake : String

current_endpoint_of : Row → String
unfolding value
current_endpoint_of m =
    let ce = value "current-endpoint-address" m in
    let port = value "current-endpoint-port" m in
    if ce == "" || port == "" then ce else ce +s ":" +s port

unfoldable pub peer_from_map : Row → Peer
unfolding value current_endpoint_of
peer_from_map m = record {
  id = value ".id" m;
  interface = value "interface" m;
  disabled = value "disabled" m == "true";
  name = value "name" m;
  comment = value "comment" m;
  public_key = value "public-key" m;
  private_key = value "private-key" m;
  preshared_key = value "preshared-key" m;
  allowed_address = value "allowed-address" m;
  endpoint_address = value "endpoint-address" m;
  endpoint_port = value "endpoint-port" m;
  persistent_keepalive = value "persistent-keepalive" m;
  current_endpoint = current_endpoint_of m;
  rx = value "rx" m;
  tx = value "tx" m;
  last_handshake = value "last-handshake" m;
}

abbrev pub bool_str : Bool → String
bool_str true = "true"
bool_str false = "false"

unfoldable pub numeric_field : String → Bool
numeric_field k = k == "endpoint-port" || k == "persistent-keepalive"

-- The loop that deletes the empty numeric fields.
unfoldable pub without_empty : Row → Row
unfolding numeric_field
without_empty [] = []
without_empty ((k, v) ∷ m) =
    let rest = without_empty m in if v == "" && numeric_field k then rest else (k, v) ∷ rest

unfoldable pub with_key : Peer → Row → Row
unfolding insert
with_key p m =
    if p.private_key == ""
    then insert "public-key" p.public_key m
    else insert "private-key" p.private_key m

unfoldable pub body : String → Peer → Bool → Row
unfolding insert without_empty with_key
body iface p with_iface =
    let m = with_key p (
      ("name", p.name)
      ∷ ("allowed-address", p.allowed_address)
      ∷ ("endpoint-address", p.endpoint_address)
      ∷ ("endpoint-port", p.endpoint_port)
      ∷ ("persistent-keepalive", p.persistent_keepalive)
      ∷ ("preshared-key", p.preshared_key)
      ∷ ("comment", p.comment)
      ∷ ("disabled", bool_str p.disabled)
      ∷ []) in
    without_empty (if with_iface then insert "interface" iface m else m)

pub record InterfaceInfo : Type 0 where
  pub name : String
  pub public_key : String
  pub listen_port : String
  pub address : String

pub record Address : Type 0 where
  pub interface : String
  pub address : String

-- From an interface to its first enabled address.
unfoldable pub addrs_of : Row → List Row → Row
unfolding value lookup insert
addrs_of m [] = m
addrs_of m (r ∷ rows) =
    let iface = value "interface" r in
    addrs_of
      (if value "disabled" r == "true"
        then m
        else elim (lookup iface m) [ some _ ↦ m | none ↦ insert iface (value "address" r) m ])
      rows

unfoldable pub infos : Row → List Row → List InterfaceInfo
unfolding value
infos addrs [] = []
infos addrs (it ∷ rows) =
    record {
      name = value "name" it;
      public_key = value "public-key" it;
      listen_port = value "listen-port" it;
      address = value (value "name" it) addrs;
    }
    ∷ infos addrs rows

unfoldable pub addresses : List Row → List Address
unfolding value
addresses [] = []
addresses (r ∷ rows) =
    let rest = addresses rows in
    if value "disabled" r == "true"
    then rest
    else record { interface = value "interface" r; address = value "address" r } ∷ rest

unfoldable pub own_peers : String → List Row → List Peer
unfolding value peer_from_map
own_peers iface [] = []
own_peers iface (r ∷ rows) =
    let rest = own_peers iface rows in
    if value "interface" r == iface then peer_from_map r ∷ rest else rest

unfoldable pub key_of_interface : String → List InterfaceInfo → Option String
key_of_interface iface [] = none
key_of_interface iface (it ∷ ifs) =
    let rest = key_of_interface iface ifs in if it.name == iface then some it.public_key else rest

abbrev pub peers_path : String
peers_path = "/interface/wireguard/peers"

module _ {R : Type 0} (api : Api R) where
  -- An error gives no addresses.
  iface_addrs : R → R × Row
  unfolding addrs_of
  iface_addrs r =
      let (r', rows) = api.print r "/ip/address" in
      (r', elim rows [ none ↦ [] | some xs ↦ addrs_of [] xs ])

  interfaces_listed : R × Option (List Row) → R × Option (List InterfaceInfo)
  unfolding iface_addrs infos
  interfaces_listed (r, none) = (r, none)
  interfaces_listed (r, some rows) =
      let (r', addrs) = iface_addrs r in (r', some (infos addrs rows))

  unfoldable pub list_interfaces : R → R × Option (List InterfaceInfo)
  unfolding interfaces_listed
  list_interfaces r = interfaces_listed (api.print r "/interface/wireguard")

  unfoldable pub list_addresses : R → R × Option (List Address)
  unfolding addresses
  list_addresses r =
      let (r', rows) = api.print r "/ip/address" in
      (r', elim rows [ none ↦ none | some xs ↦ some (addresses xs) ])

  unfoldable pub server_key : R → String → R × Option String
  unfolding list_interfaces key_of_interface
  server_key r iface =
      let (r', ifs) = list_interfaces r in
      (r', elim ifs [ none ↦ none | some xs ↦ key_of_interface iface xs ])

  unfoldable pub list_peers : R → String → R × Option (List Peer)
  unfolding own_peers
  list_peers r iface =
      let (r', rows) = api.print r peers_path in
      (r', elim rows [ none ↦ none | some xs ↦ some (own_peers iface xs) ])

  unfoldable pub add_peer : R → String → Peer → R × Bool
  unfolding body
  add_peer r iface p =
      let (r', id) = api.add r peers_path (body iface p true) in
      (r', elim id [ none ↦ false | some _ ↦ true ])

  unfoldable pub update_peer : R → String → String → Peer → R × Bool
  unfolding body
  update_peer r iface id p =
      if id == "" then (r, false) else api.set r peers_path id (body iface p false)

  unfoldable pub set_disabled : R → String → Bool → R × Bool
  set_disabled r id disabled =
      if id == ""
      then (r, false)
      else api.set r peers_path id (("disabled", bool_str disabled) ∷ [])

  unfoldable pub delete_peer : R → String → R × Bool
  delete_peer r id = if id == "" then (r, false) else api.remove r peers_path id
