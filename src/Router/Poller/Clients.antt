-- ===== src/Router/Poller/Clients.antt =====
-- The clients' keys of a snapshot.
use awg_proxy_go.Prelude.{
  ◌≡◌, ◌≢◌, refl, sym, subst, ap, ◌∙◌, ℕ, Bool-cases, Option-cases, String, List, [], ◌∷◌, map,
  Option, none, some, some_inj, arith, inl, inr, if◌then◌else◌,
}
use awg_proxy_go.Prelude.Eq.{◌==◌, string_eq, ne-equals}
use awg_proxy_go.Router.Api.{Row, Api, value}
use awg_proxy_go.Router.Settings.{RouterConfig, mode_client}
use awg_proxy_go.Router.Keys.{parse_pub_key}
use awg_proxy_go.Router.Snapshot.{Snapshot}
use awg_proxy_go.Router.Poller.{Resolver}
use awg_proxy_go.Router.Poller.Fetch.{
  InterfaceKeys, cons_key, client_keys, server_snapshot, snapshot_of, found_interface, fetch_peers,
  fetch_api,
}

-- The peers of an interface.
abbrev pub peers_of : String → List Row → List Row
peers_of iface [] = []
peers_of iface (r ∷ rows) =
    let rest = peers_of iface rows in if value "interface" r == iface then r ∷ rest else rest

abbrev pub key_of : Row → Option (List ℕ)
key_of r = parse_pub_key (value "public-key" r)

cons_key-some :
    (key : Option (List ℕ)) (keys : Option (List (List ℕ))) (pubs : List (List ℕ))
    → cons_key key keys ≡ some pubs
    → (k : List ℕ) × (ks : List (List ℕ)) × (key ≡ some k) × (keys ≡ some ks) × (pubs ≡ k ∷ ks)
unfolding cons_key
cons_key-some none keys pubs h = cc
cons_key-some (some k) none pubs h = cc
cons_key-some (some k) (some ks) pubs h = (k, ks, refl, refl, cc)

client_keys-some :
    (iface : String) (rows : List Row) (pubs : List (List ℕ))
    → client_keys iface rows ≡ some pubs
    → map some pubs ≡ map key_of (peers_of iface rows)
unfolding client_keys
client_keys-some iface [] pubs h = cc
client_keys-some iface (r ∷ rows) pubs h = elim (Bool-cases (value "interface" r == iface)) [
  | inl e ↦
      let (k, ks, key, keys, all) =
        cons_key-some (key_of r) (client_keys iface rows) pubs (ground (arith, h, e)) in
      rw (e, all, key) (ap (◌∷◌ (some k)) (client_keys-some iface rows ks keys))
  | inr e ↦ rw e (client_keys-some iface rows pubs (ground (arith, h, e)))
]

module _ {R : Type 0} (api : Api R) (dns : Resolver) (c : RouterConfig) where
  snapshot_of-client_pubs :
      (keys : InterfaceKeys) (rows : List Row) (snap : Snapshot)
      → c.mode ≢ mode_client
      → snapshot_of dns c keys (some rows) ≡ some snap
      → map some snap.client_pubs ≡ map key_of (peers_of c.iface rows)
  unfolding snapshot_of
  snapshot_of-client_pubs keys rows snap server h = elim (Option-cases (client_keys c.iface rows)) [
    | inl e ↦ absurd (ground (arith, h, e, ne-equals c.mode mode_client server))
    | inr (pubs, e) ↦
        let same : some (server_snapshot keys pubs) ≡ some snap =
          ground (arith, h, e, ne-equals c.mode mode_client server) in
        let all = ap (λ s. s.client_pubs) (some_inj same) in
        ap (map some) (sym all) ∙ client_keys-some c.iface rows pubs e
  ]

  fetch_peers-listed :
      (r r' : R) (keys : InterfaceKeys) (rows : Option (List Row))
      → api.print r "/interface/wireguard/peers" ≡ (r', rows)
      → fetch_peers api dns c r (some keys) ≡ (r', snapshot_of dns c keys rows)
  unfolding fetch_peers
  fetch_peers-listed r r' keys rows e = ap (λ o. (o.0, snapshot_of dns c keys o.1)) e

  fetch_api-listed :
      (r r' : R) (rows : Option (List Row))
      → api.print r "/interface/wireguard" ≡ (r', rows)
      → fetch_api api dns c r ≡ fetch_peers api dns c r' (found_interface c rows)
  unfolding fetch_api
  fetch_api-listed r r' rows e = ap (λ o. fetch_peers api dns c o.0 (found_interface c o.1)) e

  fetch_peers-nothing : (r : R) (snap : Snapshot) → (fetch_peers api dns c r none).1 ≢ some snap
  unfolding fetch_peers
  fetch_peers-nothing r snap e = cc e

  -- In server mode, where the router lists its interfaces and then its peers, a fetch that succeeds
  -- gives the public keys of the peers of the proxy's interface, all of them, in the router's order:
  -- one key that does not parse makes the fetch fail.
  pub fetch_api-client_pubs :
      (r r' r'' : R) (ifs : Option (List Row)) (rows : List Row) (snap : Snapshot)
      → c.mode ≢ mode_client
      → api.print r "/interface/wireguard" ≡ (r', ifs)
      → api.print r' "/interface/wireguard/peers" ≡ (r'', some rows)
      → (fetch_api api dns c r).1 ≡ some snap
      → map some snap.client_pubs ≡ map key_of (peers_of c.iface rows)
  fetch_api-client_pubs r r' r'' ifs rows snap server listed then_listed h =
      let found : (fetch_peers api dns c r' (found_interface c ifs)).1 ≡ some snap =
        ap (λ o. o.1) (sym (fetch_api-listed r r' ifs listed)) ∙ h in
      elim (Option-cases (found_interface c ifs)) [
        | inl e ↦ absurd (
            fetch_peers-nothing r' snap
              (subst (λ o. (fetch_peers api dns c r' o).1 ≡ some snap) e found))
        | inr (keys, e) ↦ snapshot_of-client_pubs keys rows snap server (
            ap (λ o. o.1) (sym (fetch_peers-listed r' r'' keys (some rows) then_listed))
            ∙ subst (λ o. (fetch_peers api dns c r' o).1 ≡ some snap) e found)
      ]
