-- ===== src/Router/Poller.antt =====
-- internal/router/poller.go and fetchAPI of internal/router/api.go. The router is a parameter
-- (Router.Api); netip.ParseAddr, the DNS and Addr.String are those of a Resolver.
pub mod Fetch
pub mod Sound
pub mod Choice
pub mod Resolve
pub mod Clients
use Prim.Native.Nat.{Ordering}
use Prim.Native.String
use awg_proxy_go.Prelude.{
  ℕ, suc, zero, ◌-◌, ◌%◌, ◌^◌, Bool, true, false, ◌||◌, String, List, [], ◌∷◌, Option, none, some,
  replicate, if◌then◌else◌,
}
use awg_proxy_go.Prelude.Eq.{◌==◌, string_eq}
use awg_proxy_go.Prelude.Int.{ℤ, pos, negsuc, int_eq}
use awg_proxy_go.Prelude.Netip.{Addr}
use awg_proxy_go.Prelude.Strings.{trim_space, cut_prefix, precedes}
use awg_proxy_go.Router.Api.{Row, Api, value}
use awg_proxy_go.Router.Settings.{RouterConfig, mode_client}
use awg_proxy_go.Router.Keys.{parse_pub_key, key_or_zero}
use awg_proxy_go.Router.Snapshot.{Upstream, Snapshot}

abbrev pub peer_marker : String
peer_marker = "[awgproxy]"

-- LookupNetIP gives `none` for an error.
pub record Resolver : Type 0 where
  pub parse_addr : String → Option Addr
  pub lookup_ip : String → Option (List Addr)
  pub show : Addr → String

pub record MarkedPeer : Type 0 where
  pub id : String
  pub comment : String
  pub public_key : String
  pub psk : String
  pub endpoint_addr : String
  pub endpoint_port : ℤ
  pub disabled : Bool

-- uint16(port)
abbrev pub uint16 : ℤ → ℕ
uint16 (pos n) = n % 2 ^ 16
uint16 (negsuc n) = 2 ^ 16 - 1 - n % 2 ^ 16

-- The first address in the order of the texts.
unfoldable pub pick_first : (Addr → String) → Addr → List Addr → Addr
pick_first show pick [] = pick
pick_first show pick (ip ∷ ips) =
    pick_first show (if precedes (show ip) (show pick) then ip else pick) ips

unfoldable pub looked_up : (Addr → String) → Option (List Addr) → ℤ → Option (Addr × ℕ)
unfolding pick_first
looked_up show none port = none
looked_up show (some []) port = none
looked_up show (some (ip ∷ ips)) port = some (pick_first show ip ips, uint16 port)

unfoldable pub resolve_addr_port : Resolver → String → ℤ → Option (Addr × ℕ)
unfolding looked_up
resolve_addr_port dns host port = elim (dns.parse_addr host) [
  | some a ↦ some (a, uint16 port)
  | none ↦ looked_up dns.show (dns.lookup_ip host) port
]

-- What stands behind the marker in a comment.
unfoldable pub marked_comment : String → Option String
unfolding trim_space cut_prefix
marked_comment comment = cut_prefix (trim_space comment) peer_marker

unfoldable pub candidates : List MarkedPeer → List MarkedPeer
unfolding marked_comment
candidates [] = []
candidates (m ∷ peers) =
    let rest = candidates peers in
    if m.disabled then rest else elim (marked_comment m.comment) [ some _ ↦ m ∷ rest | none ↦ rest ]

unfoldable pub comment_of : Option String → String
unfolding trim_space
comment_of none = ""
comment_of (some rest) = trim_space rest

unfoldable pub upstream_of : MarkedPeer → Option (List ℕ) → Option (Addr × ℕ) → Option Upstream
unfolding marked_comment key_or_zero comment_of
upstream_of m none addr = none
upstream_of m (some key) none = none
upstream_of m (some key) (some addr) = some (record {
  peer_id = m.id;
  server_pub = key;
  remote_addr = addr;
  psk = if m.psk == "" then replicate 32 0 else key_or_zero m.psk;
  comment = comment_of (marked_comment m.comment);
})

unfoldable pub single : Resolver → List MarkedPeer → Option Upstream
unfolding parse_pub_key resolve_addr_port upstream_of
single dns [] = none
single dns (m ∷ n ∷ rest) = none
single dns (m ∷ []) =
    if m.endpoint_addr == "" || m.endpoint_port == pos 0
    then none
    else upstream_of m (parse_pub_key m.public_key)
        (resolve_addr_port dns m.endpoint_addr m.endpoint_port)

unfoldable pub pick_upstream : Resolver → List MarkedPeer → Option Upstream
unfolding candidates single
pick_upstream dns peers = single dns (candidates peers)
