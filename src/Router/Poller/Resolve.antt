-- ===== src/Router/Poller/Resolve.antt =====
-- resolveAddrPort of internal/router/poller.go: which address of several is taken.
use awg_proxy_go.Prelude.{
  ◌≡◌, refl, ap, ◌∙◌, ℕ, true, false, Bool-cases, String, List, [], ◌∷◌, none, some, All, get_elem?,
  subst, zero, suc, arith, inl, inr,
}
use awg_proxy_go.Prelude.Int.{ℤ}
use awg_proxy_go.Prelude.Netip.{Addr}
use awg_proxy_go.Prelude.Strings.{precedes}
use awg_proxy_go.Prelude.Strings.Order.{precedes_trans, precedes_irrefl}
use awg_proxy_go.Router.Poller.{Resolver, uint16, pick_first, looked_up, resolve_addr_port}

module _ (show : Addr → String) where
  below_pick :
      (x : String) (pick : Addr) (ips : List Addr)
      → precedes x (show pick) ≡ false
      → precedes x (show (pick_first show pick ips)) ≡ false
  unfolding pick_first
  below_pick x pick [] h = h
  below_pick x pick (ip ∷ ips) h = elim (Bool-cases (precedes (show ip) (show pick))) [
    | inl less ↦
        rw less
          (below_pick x ip ips (ground (arith, h, precedes_trans x (show ip) (show pick), less)))
    | inr other ↦ rw other (below_pick x pick ips h)
  ]

  -- No address stands in front of the one that is taken.
  abbrev pub IsLeast : Addr → List Addr → Type 0
  IsLeast a = All (λ x. precedes (show x) (show a) ≡ false)

  pick_less :
      (pick ip : Addr) (ips : List Addr)
      → precedes (show ip) (show pick) ≡ true
      → pick_first show ip ips ≡ pick_first show pick (ip ∷ ips)
  unfolding pick_first
  pick_less pick ip ips less = rw less refl

  pick_other :
      (pick ip : Addr) (ips : List Addr)
      → precedes (show ip) (show pick) ≡ false
      → pick_first show pick ips ≡ pick_first show pick (ip ∷ ips)
  unfolding pick_first
  pick_other pick ip ips other = rw other refl

  rest_IsLeast : (pick : Addr) (ips : List Addr) → IsLeast (pick_first show pick ips) ips
  rest_IsLeast pick [] = tt
  rest_IsLeast pick (ip ∷ ips) = elim (Bool-cases (precedes (show ip) (show pick))) [
    | inl less ↦
        subst (λ a. IsLeast a (ip ∷ ips)) (pick_less pick ip ips less)
          (below_pick (show ip) ip ips (precedes_irrefl (show ip)), rest_IsLeast ip ips)
    | inr other ↦
        subst (λ a. IsLeast a (ip ∷ ips)) (pick_other pick ip ips other)
          (below_pick (show ip) pick ips other, rest_IsLeast pick ips)
  ]

  pick_first-IsLeast :
      (pick : Addr) (ips : List Addr) → IsLeast (pick_first show pick ips) (pick ∷ ips)
  pick_first-IsLeast pick ips =
      (below_pick (show pick) pick ips (precedes_irrefl (show pick)), rest_IsLeast pick ips)

  behind :
      (pick ip : Addr) (ips : List Addr) {a : Addr}
      → (i : ℕ) × (get_elem? (pick ∷ ips) i ≡ some a)
      → (i : ℕ) × (get_elem? (pick ∷ ip ∷ ips) i ≡ some a)
  behind pick ip ips (zero, e) = (zero, e)
  behind pick ip ips (suc i, e) = (suc (suc i), e)

  -- The place of the address among the others.
  pick_first_found :
      (pick : Addr) (ips : List Addr)
      → (i : ℕ) × (get_elem? (pick ∷ ips) i ≡ some (pick_first show pick ips))
  unfolding pick_first
  pick_first_found pick [] = (0, refl)
  pick_first_found pick (ip ∷ ips) = elim (Bool-cases (precedes (show ip) (show pick))) [
    | inl less ↦
        let (i, e) = pick_first_found ip ips in (suc i, e ∙ ap some (pick_less pick ip ips less))
    | inr other ↦
        let (i, e) = behind pick ip ips (pick_first_found pick ips) in
        (i, e ∙ ap some (pick_other pick ip ips other))
  ]

-- For a host that is no address but has addresses in the DNS, resolveAddrPort succeeds with one of
-- them, and none of them has a text that comes before its text. The port is the given one, cut to 16
-- bits.
pub resolve_addr_port-IsLeast :
    (dns : Resolver) (host : String) (port : ℤ) (ip : Addr) (ips : List Addr)
    → dns.parse_addr host ≡ none
    → dns.lookup_ip host ≡ some (ip ∷ ips)
    → (a : Addr) × (resolve_addr_port dns host port ≡ some (a, uint16 port))
      × ((i : ℕ) × (get_elem? (ip ∷ ips) i ≡ some a))
      × IsLeast dns.show a (ip ∷ ips)
unfolding resolve_addr_port looked_up
resolve_addr_port-IsLeast dns host port ip ips named found = (
  pick_first dns.show ip ips,
  rw (resolve_addr_port, named, found) refl,
  pick_first_found dns.show ip ips,
  pick_first-IsLeast dns.show ip ips,
)
