-- ===== src/Router/Poller/Sound.antt =====
-- The snapshots of internal/router/poller.go: the sizes that Go's array types promise.
use awg_proxy_go.Prelude.{
  refl, ℕ, ◌<◌, ◌^◌, true, false, Bool-cases, Option-cases, String, List, [], ◌∷◌, Option, none,
  some, All, arith, inl, inr, if◌then◌else◌, replicate, subst, Bool, ◌||◌,
}
use awg_proxy_go.Prelude.Eq.{◌==◌, string_eq}
use awg_proxy_go.Prelude.Int.{ℤ, pos, negsuc, int_eq}
use awg_proxy_go.Prelude.Netip.{Addr}
use awg_proxy_go.Router.Api.{Row, Api, value}
use awg_proxy_go.Router.Settings.{RouterConfig, mode_client}
use awg_proxy_go.Router.Keys.{parse_pub_key, key_or_zero}
use awg_proxy_go.Router.Keys.Generated.{IsKey, parse_pub_key-IsKey, key_or_zero-IsKey}
use awg_proxy_go.Router.Snapshot.{Upstream, Snapshot}
use awg_proxy_go.Router.Poller.{
  Resolver, MarkedPeer, uint16, looked_up, resolve_addr_port, upstream_of, single, candidates,
  pick_upstream,
}
use awg_proxy_go.Router.Poller.Fetch.{
  InterfaceKeys, interface_keys, find_interface, marked_peers, cons_key, client_keys, snapshot_of,
  found_interface, fetch_peers, fetch_api, Poller, ticked, tick, run_ticks, run,
}

abbrev IsSoundUpstream : Option Upstream → Type 0
IsSoundUpstream none = Unit
IsSoundUpstream (some u) = IsKey u.server_pub × IsKey u.psk × (u.remote_addr.1 < 2 ^ 16)

-- Keys have 32 bytes and ports 16 bits.
abbrev pub IsSound : Snapshot → Type 0
IsSound s =
    IsKey s.server_pub × IsKey s.server_priv × All IsKey s.client_pubs × IsSoundUpstream s.upstream

abbrev pub IsSoundOption : Option Snapshot → Type 0
IsSoundOption none = Unit
IsSoundOption (some s) = IsSound s

uint16-bound : (port : ℤ) → uint16 port < 2 ^ 16
uint16-bound (pos n) = omega arith
uint16-bound (negsuc n) = omega arith

abbrev IsPortOption : Option (Addr × ℕ) → Type 0
IsPortOption none = Unit
IsPortOption (some a) = a.1 < 2 ^ 16

looked_up-IsPort :
    (show : Addr → String) (o : Option (List Addr)) (port : ℤ)
    → IsPortOption (looked_up show o port)
unfolding looked_up
looked_up-IsPort show none port = tt
looked_up-IsPort show (some []) port = tt
looked_up-IsPort show (some (ip ∷ ips)) port = uint16-bound port

resolve-IsPort :
    (dns : Resolver) (host : String) (port : ℤ) → IsPortOption (resolve_addr_port dns host port)
unfolding resolve_addr_port
resolve-IsPort dns host port = elim (Option-cases (dns.parse_addr host)) [
  | inl e ↦ rw (resolve_addr_port, e) (looked_up-IsPort dns.show (dns.lookup_ip host) port)
  | inr (a, e) ↦ rw (resolve_addr_port, e) (uint16-bound port)
]

abbrev IsKeyOption : Option (List ℕ) → Type 0
IsKeyOption none = Unit
IsKeyOption (some k) = IsKey k

parse_pub_key-IsKeyOption : (s : String) → IsKeyOption (parse_pub_key s)
parse_pub_key-IsKeyOption s = elim (Option-cases (parse_pub_key s)) [
  | inl e ↦ rw e tt
  | inr (k, e) ↦ rw e (parse_pub_key-IsKey s k e)
]

-- A key that may be missing.
chosen-IsKey : (b : Bool) (k : List ℕ) → IsKey k → IsKey (if b then replicate 32 0 else k)
chosen-IsKey true k h = refl
chosen-IsKey false k h = h

upstream_of-IsSound :
    (m : MarkedPeer) (key : Option (List ℕ)) (addr : Option (Addr × ℕ))
    → IsKeyOption key
    → IsPortOption addr
    → IsSoundUpstream (upstream_of m key addr)
unfolding upstream_of
upstream_of-IsSound m none addr h k = tt
upstream_of-IsSound m (some key) none h k = tt
upstream_of-IsSound m (some key) (some addr) h k =
    (h, chosen-IsKey (m.psk == "") (key_or_zero m.psk) (key_or_zero-IsKey m.psk), k)

single-IsSound : (dns : Resolver) (peers : List MarkedPeer) → IsSoundUpstream (single dns peers)
unfolding single
single-IsSound dns [] = tt
single-IsSound dns (m ∷ n ∷ rest) = tt
single-IsSound dns (m ∷ []) =
    elim (Bool-cases (m.endpoint_addr == "" || m.endpoint_port == pos 0)) [
      | inl e ↦ rw (single, e) tt
      | inr e ↦
          rw (single, e)
            (upstream_of-IsSound m (parse_pub_key m.public_key)
              (resolve_addr_port dns m.endpoint_addr m.endpoint_port)
              (parse_pub_key-IsKeyOption m.public_key)
              (resolve-IsPort dns m.endpoint_addr m.endpoint_port))
    ]

abbrev AreSound : Option InterfaceKeys → Type 0
AreSound none = Unit
AreSound (some keys) = IsKey keys.server_pub × IsKey keys.server_priv

interface_keys-AreSound :
    (it : Row) (key : Option (List ℕ)) → IsKeyOption key → AreSound (interface_keys it key)
unfolding interface_keys
interface_keys-AreSound it none h = tt
interface_keys-AreSound it (some key) h = (
  h,
  chosen-IsKey (value "private-key" it == "") (key_or_zero (value "private-key" it))
      (key_or_zero-IsKey (value "private-key" it)),
)

find_interface-AreSound : (iface : String) (rows : List Row) → AreSound (find_interface iface rows)
unfolding find_interface
find_interface-AreSound iface [] = tt
find_interface-AreSound iface (it ∷ rows) = elim (Bool-cases (value "name" it == iface)) [
  | inl e ↦
      rw (find_interface, e)
        (interface_keys-AreSound it (parse_pub_key (value "public-key" it))
          (parse_pub_key-IsKeyOption (value "public-key" it)))
  | inr e ↦ rw (find_interface, e) (find_interface-AreSound iface rows)
]

found_interface-AreSound :
    (c : RouterConfig) (rows : Option (List Row)) → AreSound (found_interface c rows)
unfolding found_interface
found_interface-AreSound c none = tt
found_interface-AreSound c (some rows) = find_interface-AreSound c.iface rows

abbrev AreKeys : Option (List (List ℕ)) → Type 0
AreKeys none = Unit
AreKeys (some keys) = All IsKey keys

cons_key-AreKeys :
    (key : Option (List ℕ)) (keys : Option (List (List ℕ)))
    → IsKeyOption key
    → AreKeys keys
    → AreKeys (cons_key key keys)
unfolding cons_key
cons_key-AreKeys none keys h k = tt
cons_key-AreKeys (some key) none h k = tt
cons_key-AreKeys (some key) (some keys) h k = (h, k)

client_keys-AreKeys : (iface : String) (rows : List Row) → AreKeys (client_keys iface rows)
unfolding client_keys
client_keys-AreKeys iface [] = tt
client_keys-AreKeys iface (r ∷ rows) = elim (Bool-cases (value "interface" r == iface)) [
  | inl e ↦
      rw (client_keys, e)
        (cons_key-AreKeys (parse_pub_key (value "public-key" r)) (client_keys iface rows)
          (parse_pub_key-IsKeyOption (value "public-key" r)) (client_keys-AreKeys iface rows))
  | inr e ↦ rw (client_keys, e) (client_keys-AreKeys iface rows)
]

snapshot_of-IsSound :
    (dns : Resolver) (c : RouterConfig) (keys : InterfaceKeys) (rows : Option (List Row))
    → AreSound (some keys)
    → IsSoundOption (snapshot_of dns c keys rows)
unfolding snapshot_of pick_upstream
snapshot_of-IsSound dns c keys none h = tt
snapshot_of-IsSound dns c keys (some rows) h = elim (Bool-cases (c.mode == mode_client)) [
  | inl e ↦
      rw (snapshot_of, e)
        (h.0, h.1, tt, single-IsSound dns (candidates (marked_peers c.iface rows)))
  | inr e ↦ elim (Option-cases (client_keys c.iface rows)) [
    | inl f ↦ rw (snapshot_of, e, f) tt
    | inr (pubs, f) ↦
        rw (snapshot_of, e, f) (h.0, h.1, subst AreKeys f (client_keys-AreKeys c.iface rows), tt)
  ]
]

module _ {R : Type 0} (api : Api R) (dns : Resolver) (c : RouterConfig) where
  fetch_peers-IsSound :
      (r : R) (keys : Option InterfaceKeys)
      → AreSound keys
      → IsSoundOption (fetch_peers api dns c r keys).1
  unfolding fetch_peers
  fetch_peers-IsSound r none h = tt
  fetch_peers-IsSound r (some keys) h =
      snapshot_of-IsSound dns c keys (api.print r "/interface/wireguard/peers").1 h

  fetch_api-IsSound : (r : R) → IsSoundOption (fetch_api api dns c r).1
  unfolding fetch_api
  fetch_api-IsSound r =
      fetch_peers-IsSound (api.print r "/interface/wireguard").0
        (found_interface c (api.print r "/interface/wireguard").1)
        (found_interface-AreSound c (api.print r "/interface/wireguard").1)

  module _ {H : Type 0} (hook : R → H → Snapshot → R × H) where
    ticked-IsSound :
        (p : Poller R H) (o : R × Option Snapshot)
        → IsSoundOption p.cur
        → IsSoundOption o.1
        → IsSoundOption (ticked api dns c hook p o).cur
    unfolding ticked
    ticked-IsSound p (r, none) h k = h
    ticked-IsSound p (r, some snap) h k = k

    tick-IsSound :
        (p : Poller R H) → IsSoundOption p.cur → IsSoundOption (tick api dns c hook p).cur
    unfolding tick
    tick-IsSound p h =
        ticked-IsSound p (fetch_api api dns c p.router) h (fetch_api-IsSound p.router)

    run_ticks-IsSound :
        (p : Poller R H) (changes : List (R → R))
        → IsSoundOption p.cur
        → IsSoundOption (run_ticks api dns c hook p changes).cur
    unfolding run_ticks
    run_ticks-IsSound p [] h = h
    run_ticks-IsSound p (change ∷ changes) h =
        run_ticks-IsSound (tick api dns c hook (record p { router = change p.router })) changes
          (tick-IsSound (record p { router = change p.router }) h)

    -- Whatever the router answers and whatever happens to it between the ticks, a poller that starts
    -- with no snapshot, or with a sound one, never shows a snapshot that is not sound: all keys in it
    -- have 32 bytes, and the upstream's port has 16 bits.
    pub run-IsSound :
        (p : Poller R H) (changes : List (R → R))
        → IsSoundOption p.cur
        → IsSoundOption (run api dns c hook p changes).cur
    unfolding run
    run-IsSound p changes h = run_ticks-IsSound (tick api dns c hook p) changes (tick-IsSound p h)
