-- ===== src/Web/Network.antt =====
-- internal/api/netauto.go, with strings.Split, strings.Fields and hex.DecodeString of Go's standard
-- library. The interfaces and the routing table are what the system gives.
use Prim.Native.Char.{Char, code}
use Prim.Native.Nat.{◌/◌, ◌%◌, ◌*◌, ◌^◌}
use awg_proxy_go.Prelude.{
  ℕ, ◌+◌, ◌-◌, Bool, not, ◌&&◌, ◌||◌, String, List, [], ◌∷◌, Option, none, some, leb, if◌then◌else◌,
}
use awg_proxy_go.Prelude.Eq.{◌==◌, nat_eq, string_eq}
use awg_proxy_go.Prelude.Int.{pos}
use awg_proxy_go.Prelude.Netip.{Addr, no_addr, v4, v6, unmap}
use awg_proxy_go.Prelude.Strings.{is_space}
use awg_proxy_go.Prelude.Text.{codes}
use awg_proxy_go.Config.Convert.{◌+s◌, itoa}

-- An interface: `addrs` has `none` for an address that is no *net.IPNet.
pub record NetInterface : Type 0 where
  pub is_loopback : Bool
  pub is_up : Bool
  pub addrs : List (Option Addr)

-- The text of an IPv4 address.
unfoldable pub dotted : ℕ → ℕ → ℕ → ℕ → String
unfolding itoa
dotted a b c d = itoa (pos a) +s "." +s itoa (pos b) +s "." +s itoa (pos c) +s "." +s itoa (pos d)

abbrev show4 : ℕ → String
show4 n = dotted (n / 16777216) (n / 65536 % 256) (n / 256 % 256) (n % 256)

-- IP.To4 and IsLoopback: the first octet is 127.
own4 : Addr → Option String
unfolding dotted
own4 no_addr = none
own4 (v4 n) = if n / 16777216 == 127 then none else some (show4 n)
own4 (v6 n) = none

first4 : List (Option Addr) → Option String
unfolding own4
first4 [] = none
first4 (none ∷ addrs) = first4 addrs
first4 (some a ∷ addrs) = elim (own4 (unmap a)) [ some text ↦ some text | none ↦ first4 addrs ]

-- ::1, and fe80::/10.
own6 : (Addr → String) → Addr → Option String
own6 show no_addr = none
own6 show (v4 n) = none
own6 show (v6 n) = if n == 1 || n / 2 ^ 118 == 0x3fa then none else some (show (v6 n))

first6 : (Addr → String) → List (Option Addr) → Option String
unfolding own6
first6 show [] = none
first6 show (none ∷ addrs) = first6 show addrs
first6 show (some a ∷ addrs) = elim (own6 show (unmap a)) [
  | some text ↦ some text
  | none ↦ first6 show addrs
]

first_addr : (List (Option Addr) → Option String) → List NetInterface → String
first_addr pick [] = ""
first_addr pick (i ∷ ifs) =
    let rest = first_addr pick ifs in
    if i.is_loopback || not i.is_up
    then rest
    else elim (pick i.addrs) [ some text ↦ text | none ↦ rest ]

-- `none` is an error of net.Interfaces.
unfoldable pub detect_container_addr : Option (List NetInterface) → String
unfolding first_addr first4
detect_container_addr none = ""
detect_container_addr (some ifs) = first_addr first4 ifs

unfoldable pub detect_container_addr6 : (Addr → String) → Option (List NetInterface) → String
unfolding first_addr first6
detect_container_addr6 show none = ""
detect_container_addr6 show (some ifs) = first_addr (first6 show) ifs

push : Char → List String → List String
push c [] = String.◌∷◌ c "" ∷ []
push c (s ∷ ss) = String.◌∷◌ c s ∷ ss

-- strings.Split: the parts between line ends.
unfoldable pub lines : String → List String
unfolding push
lines String.[] = "" ∷ []
lines (String.◌∷◌ c s) = let rest = lines s in if code c == 10 then "" ∷ rest else push c rest

-- The parts between single white spaces, which may be empty.
blank_parts : String → List String
unfolding push
blank_parts String.[] = "" ∷ []
blank_parts (String.◌∷◌ c s) =
    let rest = blank_parts s in if is_space (code c) then "" ∷ rest else push c rest

full_parts : List String → List String
full_parts [] = []
full_parts (s ∷ ss) = let rest = full_parts ss in if s == "" then rest else s ∷ rest

-- strings.Fields
unfoldable pub fields : String → List String
unfolding blank_parts full_parts
fields s = full_parts (blank_parts s)

hex_value : ℕ → Option ℕ
hex_value c =
    if leb b'0' c && leb c b'9'
    then some (c - 48)
    else if leb b'a' c && leb c b'f'
    then some (c - 87)
    else if leb b'A' c && leb c b'F'
    then some (c - 55)
    else none

hex_byte : Option ℕ → Option ℕ → Option (List ℕ) → Option (List ℕ)
hex_byte (some a) (some b) (some rest) = some ((a * 16 + b) ∷ rest)
hex_byte _ _ _ = none

-- hex.DecodeString
unfoldable pub decode_hex : List ℕ → Option (List ℕ)
unfolding hex_value hex_byte
decode_hex [] = some []
decode_hex (a ∷ []) = none
decode_hex (a ∷ b ∷ s) = hex_byte (hex_value a) (hex_value b) (decode_hex s)

gateway_of : Option (List ℕ) → Option String
unfolding dotted
gateway_of (some (a ∷ b ∷ c ∷ d ∷ [])) = some (dotted d c b a)
gateway_of _ = none

-- The gateway of a line, where the line is the default route.
route_gateway : List String → Option String
unfolding decode_hex gateway_of
route_gateway (iface ∷ dest ∷ gateway ∷ rest) =
    if dest == "00000000" then gateway_of (decode_hex (codes gateway)) else none
route_gateway _ = none

first_gateway : List String → String
unfolding fields route_gateway
first_gateway [] = ""
first_gateway (l ∷ ls) = elim (route_gateway (fields l)) [
  | some text ↦ text
  | none ↦ first_gateway ls
]

behind_first : List String → List String
behind_first [] = []
behind_first (l ∷ ls) = ls

-- `none` is a file that cannot be read.
unfoldable pub detect_gateway : Option String → String
unfolding lines first_gateway behind_first
detect_gateway none = ""
detect_gateway (some text) = first_gateway (behind_first (lines text))
