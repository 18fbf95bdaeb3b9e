-- ===== src/Router/Poller/Choice.antt =====
-- pickUpstream of internal/router/poller.go: which peer is the upstream.
use awg_proxy_go.Prelude.{
  ◌≡◌, ◌≢◌, refl, sym, ap, ◌∙◌, true, false, not, ◌&&◌, ◌||◌, Bool, Bool-cases, String, List, [],
  ◌∷◌, ◌++◌, Option, none, some, some_inj, All, arith, inl, inr, if◌then◌else◌, ℕ,
}
use awg_proxy_go.Prelude.Eq.{◌==◌, string_eq}
use awg_proxy_go.Prelude.Int.{pos, int_eq}
use awg_proxy_go.Prelude.Netip.{Addr}
use awg_proxy_go.Prelude.Strings.{trim_space, has_prefix, cut_prefix}
use awg_proxy_go.Router.Keys.{parse_pub_key}
use awg_proxy_go.Router.Snapshot.{Upstream}
use awg_proxy_go.Router.Poller.{
  peer_marker, Resolver, MarkedPeer, resolve_addr_port, marked_comment, candidates, upstream_of,
  single, pick_upstream,
}

-- Enabled, with a comment that starts with the marker.
abbrev pub is_marked : MarkedPeer → Bool
is_marked m = not m.disabled && has_prefix (trim_space m.comment) peer_marker

either_test :
    (off : Bool) (o : Option String) (m : MarkedPeer) (rest : List MarkedPeer)
    → (if off then rest else elim o [ some _ ↦ m ∷ rest | none ↦ rest ])
      ≡ (if not off && elim o [ some _ ↦ true | none ↦ false ] then m ∷ rest else rest)
either_test true o m rest = refl
either_test false none m rest = refl
either_test false (some text) m rest = refl

candidates-cons :
    (m : MarkedPeer) (peers : List MarkedPeer)
    → candidates (m ∷ peers) ≡ (if is_marked m then m ∷ candidates peers else candidates peers)
unfolding candidates marked_comment has_prefix
candidates-cons m peers =
    either_test m.disabled (cut_prefix (trim_space m.comment) peer_marker) m (candidates peers)

abbrev pub AreUnmarked : List MarkedPeer → Type 0
AreUnmarked = All (λ m. is_marked m ≡ false)

candidates-nil : (peers : List MarkedPeer) → candidates peers ≡ [] → AreUnmarked peers
candidates-nil [] h = tt
candidates-nil (m ∷ peers) h = elim (Bool-cases (is_marked m)) [
  | inl e ↦ absurd (cc (h, candidates-cons m peers, e))
  | inr e ↦ (e, candidates-nil peers (ground (arith, h, candidates-cons m peers, e)))
]

-- The only marked peer stands in the list once.
abbrev pub IsOnly : MarkedPeer → List MarkedPeer → Type 0
IsOnly m peers =
    (before : List MarkedPeer) × (after : List MarkedPeer) × (peers ≡ before ++ m ∷ after)
    × AreUnmarked before
    × (is_marked m ≡ true)
    × AreUnmarked after

candidates-one :
    (m : MarkedPeer) (peers : List MarkedPeer) → candidates peers ≡ m ∷ [] → IsOnly m peers
unfolding candidates
candidates-one m [] h = cc
candidates-one m (n ∷ peers) h = elim (Bool-cases (is_marked n)) [
  | inl e ↦
      let eqs : n ∷ candidates peers ≡ m ∷ [] = ground (arith, h, candidates-cons n peers, e) in
      let same : n ≡ m = cc eqs in
      let left : candidates peers ≡ [] = cc eqs in
      (
        [],
        peers,
        ap (λ k. k ∷ peers) same,
        tt,
        ap is_marked (sym same) ∙ e,
        candidates-nil peers left,
      )
  | inr e ↦
      let (before, after, split, front, marked, back) =
        candidates-one m peers (ground (arith, h, candidates-cons n peers, e)) in
      (n ∷ before, after, ap (◌∷◌ n) split, (e, front), marked, back)
]

upstream_of-some :
    (m : MarkedPeer) (key : Option (List ℕ)) (addr : Option (Addr × ℕ)) (u : Upstream)
    → upstream_of m key addr ≡ some u
    → (u.peer_id ≡ m.id) × (key ≡ some u.server_pub) × (addr ≡ some u.remote_addr)
unfolding upstream_of
upstream_of-some m none addr u h = cc
upstream_of-some m (some key) none u h = cc
upstream_of-some m (some key) (some addr) u h =
    let same = some_inj h in
    (
      ap (λ w. w.peer_id) (sym same),
      ap (λ w. some w.server_pub) same,
      ap (λ w. some w.remote_addr) same,
    )

-- The peer has an endpoint, and the upstream has its id, its key and the endpoint's address.
abbrev pub IsUpstream : Resolver → MarkedPeer → Upstream → Type 0
IsUpstream dns m u =
    (m.endpoint_addr ≢ "")
    × (m.endpoint_port ≢ pos 0)
    × (u.peer_id ≡ m.id)
    × (parse_pub_key m.public_key ≡ some u.server_pub)
    × (resolve_addr_port dns m.endpoint_addr m.endpoint_port ≡ some u.remote_addr)

single-some :
    (dns : Resolver) (peers : List MarkedPeer) (u : Upstream)
    → single dns peers ≡ some u
    → (m : MarkedPeer) × (peers ≡ m ∷ []) × IsUpstream dns m u
unfolding single
single-some dns [] u h = cc
single-some dns (m ∷ n ∷ rest) u h = cc
single-some dns (m ∷ []) u h =
    elim (Bool-cases (m.endpoint_addr == "" || m.endpoint_port == pos 0)) [
      | inl e ↦ absurd (ground (arith, h, e))
      | inr e ↦
          let (id, key, addr) =
            upstream_of-some m (parse_pub_key m.public_key)
              (resolve_addr_port dns m.endpoint_addr m.endpoint_port) u (ground (arith, h, e)) in
          let named : m.endpoint_addr ≢ "" =
            ground (arith, string_eq.equals_iff m.endpoint_addr "", e) in
          let bound : m.endpoint_port ≢ pos 0 =
            ground (arith, int_eq.equals_iff m.endpoint_port (pos 0), e) in
          (m, refl, (named, bound, id, key, addr))
    ]

-- Where pickUpstream gives an upstream, the list has exactly one enabled peer with the marker, that
-- peer has an endpoint, and the upstream has its id, its public key and the resolved endpoint. With
-- no such peer, or with two, there is no upstream.
pub pick_upstream-IsOnly :
    (dns : Resolver) (peers : List MarkedPeer) (u : Upstream)
    → pick_upstream dns peers ≡ some u
    → (m : MarkedPeer) × IsOnly m peers × IsUpstream dns m u
unfolding pick_upstream
pick_upstream-IsOnly dns peers u h =
    let (m, one, is) = single-some dns (candidates peers) u h in (m, candidates-one m peers one, is)
