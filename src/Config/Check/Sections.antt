-- ===== src/Config/Check/Sections.antt =====
-- config.go: what the checks accept.
use awg_proxy_go.Prelude.{◌≡◌, ◌≢◌, ◌↔◌, ◌⊎◌, refl, true, false, String, Option, none, arith}
use awg_proxy_go.Prelude.Eq.{equals-ne, string_eq}
use awg_proxy_go.Prelude.Int.{ℤ, ◌≤ℤ◌}
use awg_proxy_go.Prelude.Netip.{Addr}
use awg_proxy_go.Config.Settings.{Config, mode_server, mode_client}
use awg_proxy_go.Config.Check.{
  validate_router, check_mode, check_rest, is_plain_v6, validate_service, validate,
}

-- The access to the router is given.
abbrev pub CanReach : Config → Type 0
CanReach c = (c.router.address ≢ "") × (c.router.password ≢ "")

-- The server mode knows where the WireGuard server is, and both modes know the container where they
-- make a NAT rule.
abbrev pub HasEnds : Config → Type 0
HasEnds c =
    ((c.mode ≡ mode_server) × (c.remote ≢ "") × ((c.divert ≡ false) ⊎ (c.container_addr ≢ "")))
    ⊎ ((c.mode ≡ mode_client) × (c.container_addr ≢ ""))

validate_router_iff : (c : Config) → (validate_router c ≡ none) ↔ CanReach c
unfolding validate_router
validate_router_iff c =
    ground
      (arith, string_eq.equals_iff c.router.address "", string_eq.equals_iff c.router.password "")

modes_differ : mode_server ≢ mode_client
modes_differ = equals-ne mode_server mode_client refl

check_mode_iff : (c : Config) → (check_mode c ≡ none) ↔ HasEnds c
unfolding check_mode
check_mode_iff c = ground (
  arith,
  modes_differ,
  string_eq.equals_iff c.mode mode_server,
  string_eq.equals_iff c.mode mode_client,
  string_eq.equals_iff c.remote "",
  string_eq.equals_iff c.container_addr "",
)

module _ (parse_addr : String → Option Addr) where
  -- The junk sizes are a range, and the container's second address is an IPv6 one, where it is given.
  abbrev pub IsSound : Config → Type 0
  IsSound c =
      (c.jmin ≤ℤ c.jmax)
      × ((c.container_addr6 ≡ "") ⊎ (is_plain_v6 (parse_addr c.container_addr6) ≡ true))

  check_rest_iff : (c : Config) → (check_rest parse_addr c ≡ none) ↔ IsSound c
  unfolding check_rest
  check_rest_iff c = ground (arith, string_eq.equals_iff c.container_addr6 "")

  pub validate_service_iff :
      (c : Config)
      → (validate_service parse_addr c ≡ none) ↔ ((c.router.wg_iface ≢ "") × HasEnds c × IsSound c)
  unfolding validate_service
  validate_service_iff c =
      ground (arith, check_mode_iff c, check_rest_iff c, string_eq.equals_iff c.router.wg_iface "")

  -- A configuration is accepted exactly when the router can be reached, its WireGuard interface is
  -- named, the mode is known and has its addresses, and the sizes and the IPv6 address are sound.
  pub validate_iff :
      (c : Config)
      → (validate parse_addr c ≡ none)
        ↔ (CanReach c × (c.router.wg_iface ≢ "") × HasEnds c × IsSound c)
  unfolding validate
  validate_iff c = ground (arith, validate_router_iff c, validate_service_iff c)

  -- The checks accept every session lifetime and every poll interval, also zero and negative ones:
  -- with other values of the two the result is the same.
  pub validate_any_intervals :
      (c : Config) (ttl poll : ℤ)
      → validate parse_addr (record c { session_ttl = ttl; poll_interval = poll })
        ≡ validate parse_addr c
  unfolding validate validate_router validate_service check_mode check_rest
  validate_any_intervals c ttl poll = refl
