-- ===== src/Router/Peers/Added.antt =====
-- internal/router/peers.go: AddPeer, then ListPeers.
use awg_proxy_go.Prelude.{
  ◌≡◌, refl, sym, ap, ◌∙◌, true, String, List, [], ◌∷◌, ◌++◌, some, some_inj, Bool-cases, inl, inr,
}
use awg_proxy_go.Prelude.Eq.{◌==◌, string_eq}
use awg_proxy_go.Router.Api.{Row, Api, value}
use awg_proxy_go.Router.Table.{TableLaws}
use awg_proxy_go.Router.Peers.{
  Peer, peer_from_map, body, own_peers, peers_path, list_peers, add_peer,
}
use awg_proxy_go.Router.Peers.Listed.{IsStored, stored, body-Distinct, body_no_id, body-IsFilled}

own_peers-append :
    (iface : String) (rows : List Row) (x : Row)
    → value "interface" x ≡ iface
    → own_peers iface (rows ++ x ∷ []) ≡ own_peers iface rows ++ peer_from_map x ∷ []
unfolding own_peers
own_peers-append iface [] x e = rw ((string_eq.equals_iff (value "interface" x) iface).1 e) refl
own_peers-append iface (y ∷ rows) x e = elim (Bool-cases (value "interface" y == iface)) [
  | inl own ↦ rw own (ap (◌∷◌ (peer_from_map y)) (own_peers-append iface rows x e))
  | inr other ↦ rw other (own_peers-append iface rows x e)
]

module _ {R : Type 0} (api : Api R) (rows : R → List Row)
    (laws : TableLaws api peers_path rows) where
  list_peers-rows :
      (r : R) (iface : String) → (list_peers api r iface).1 ≡ some (own_peers iface (rows r))
  unfolding list_peers
  list_peers-rows r iface = rw (list_peers, laws.prints r) refl

  add_peer-added :
      (r : R) (iface : String) (p : Peer) {id : String}
      → (api.add r peers_path (body iface p true)).1 ≡ some id
      → add_peer api r iface p ≡ ((api.add r peers_path (body iface p true)).0, true)
  unfolding add_peer
  add_peer-added r iface p e = rw (add_peer, e) refl

  -- On a router whose table of peers obeys the laws, which say nothing of a record with an empty integer, AddPeer succeeds, and ListPeers then gives the
  -- peers that it gave before and behind them the new one, with the fields that were sent: the
  -- numbers where they are not empty, the private key where there is one, else the public key.
  pub list_peers-add_peer :
      (r : R) (iface : String) (p : Peer) (old : List Peer)
      → (list_peers api r iface).1 ≡ some old
      → ((add_peer api r iface p).1 ≡ true)
        × ((q : Peer) × IsStored iface p q
            × ((list_peers api (add_peer api r iface p).0 iface).1 ≡ some (old ++ q ∷ [])))
  unfolding peer_from_map
  list_peers-add_peer r iface p old h =
      let (id, x, done, grown, _, a) =
        laws.adds r (body iface p true) (body-Distinct iface p) (body_no_id iface p)
          (body-IsFilled iface p) in
      let result = add_peer-added r iface p done in
      let is = stored iface p x a in
      let before : own_peers iface (rows r) ≡ old = some_inj (sym (list_peers-rows r iface) ∙ h) in
      (
        ap (λ o. o.1) result,
        (
          peer_from_map x,
          is,
          list_peers-rows (add_peer api r iface p).0 iface
              ∙ ap (λ o. some (own_peers iface (rows o.0))) result
              ∙ ap (λ t. some (own_peers iface t)) grown
              ∙ ap some (own_peers-append iface (rows r) x is.0)
              ∙ ap (λ t. some (t ++ peer_from_map x ∷ [])) before,
        ),
      )
