-- ===== src/Router/Nat.antt =====
-- internal/router/nat.go: the rules that the proxy wants and how they are compared.
pub mod Fields
pub mod Reconcile
use awg_proxy_go.Prelude.{
  ℕ, Bool, true, false, not, ◌||◌, String, List, [], ◌∷◌, Option, none, some, if◌then◌else◌,
}
use awg_proxy_go.Prelude.Eq.{Comparable, ◌==◌, string_eq}
use awg_proxy_go.Prelude.Int.{ℤ, pos, leb_ℤ, ltb_ℤ}
use awg_proxy_go.Prelude.Netip.{Addr, is6, is_valid}
use awg_proxy_go.Prelude.Dict.{Dict, insert, delete}
use awg_proxy_go.Config.Convert.{itoa}
use awg_proxy_go.Router.Api.{Row, value}

abbrev pub chain_output : String
chain_output = "output"

abbrev pub chain_dst_nat : String
chain_dst_nat = "dstnat"

pub record DivertRule : Type 0 where
  pub chain : String
  pub src_port : ℤ
  pub dst_address : Addr
  pub dst_port : ℤ
  pub to_address : Addr
  pub to_port : ℤ

pub data NatError : Type 0 where
  bad_src_port bad_dst_address other_families bad_chain bad_dst_port bad_to_address bad_to_port :
      NatError
  bad_network call_failed : NatError

-- p <= 0 || p > 65535
abbrev pub bad_port : ℤ → Bool
bad_port p = leb_ℤ p (pos 0) || ltb_ℤ (pos 65535) p

abbrev pub same_bool : Bool → Bool → Bool
same_bool true b = b
same_bool false b = not b

check_chain : DivertRule → Option NatError
check_chain r =
    if r.chain == chain_output
    then (if bad_port r.src_port
        then some bad_src_port
        else if not (is_valid r.dst_address)
        then some bad_dst_address
        else if not (same_bool (is6 r.dst_address) (is6 r.to_address))
        then some other_families
        else none)
    else if r.chain == chain_dst_nat
    then none
    else some bad_chain

check_ends : DivertRule → Option NatError
check_ends r =
    if bad_port r.dst_port
    then some bad_dst_port
    else if not (is_valid r.to_address)
    then some bad_to_address
    else if bad_port r.to_port
    then some bad_to_port
    else none

unfoldable pub validate : DivertRule → Option NatError
unfolding check_chain check_ends
validate r = elim (check_chain r) [ some e ↦ some e | none ↦ check_ends r ]

-- Addr.String, and the text of the prefix /128 of an address.
pub record AddrText : Type 0 where
  pub show : Addr → String
  pub show128 : Addr → String

output_fields : AddrText → DivertRule → Row → Row
unfolding insert itoa
output_fields x r f =
    if r.chain == chain_output
    then insert "dst-address" (x.show r.dst_address) (insert "src-port" (itoa r.src_port) f)
    else f

v6_fields : AddrText → DivertRule → Row → Row
unfolding insert delete
v6_fields x r f =
    if is6 r.to_address
    then (let g = insert "to-address" (x.show128 r.to_address) (delete "to-addresses" f) in
        if r.chain == chain_output then insert "dst-address" (x.show128 r.dst_address) g else g)
    else f

unfoldable pub fields : AddrText → DivertRule → Row
unfolding itoa output_fields v6_fields
fields x r = v6_fields x r (
    output_fields x r (
      ("chain", r.chain)
      ∷ ("protocol", "udp")
      ∷ ("action", "dst-nat")
      ∷ ("dst-port", itoa r.dst_port)
      ∷ ("to-addresses", x.show r.to_address)
      ∷ ("to-ports", itoa r.to_port)
      ∷ ("disabled", "false")
      ∷ []))

pub record NatRule : Type 0 where
  pub id : String
  pub chain : String
  pub protocol : String
  pub action : String
  pub src_address : String
  pub src_port : String
  pub dst_address : String
  pub dst_port : String
  pub to_addresses : String
  pub to_ports : String
  pub comment : String
  pub disabled : String
  pub to_address : String

unfoldable pub nat_rule_from_map : Row → NatRule
unfolding value
nat_rule_from_map m = record {
  id = value ".id" m;
  chain = value "chain" m;
  protocol = value "protocol" m;
  action = value "action" m;
  src_address = value "src-address" m;
  src_port = value "src-port" m;
  dst_address = value "dst-address" m;
  dst_port = value "dst-port" m;
  to_addresses = value "to-addresses" m;
  to_ports = value "to-ports" m;
  comment = value "comment" m;
  disabled = value "disabled" m;
  to_address = value "to-address" m;
}

-- The map `cur` of diffFields.
abbrev pub current : NatRule → Row
current got =
    ("chain", got.chain)
    ∷ ("protocol", got.protocol)
    ∷ ("action", got.action)
    ∷ ("src-port", got.src_port)
    ∷ ("dst-address", got.dst_address)
    ∷ ("dst-port", got.dst_port)
    ∷ ("to-addresses", got.to_addresses)
    ∷ ("to-ports", got.to_ports)
    ∷ ("comment", got.comment)
    ∷ ("disabled", got.disabled)
    ∷ ("to-address", got.to_address)
    ∷ []

-- The map `cur` of diffMasqFields.
abbrev pub current_masq : NatRule → Row
current_masq got =
    ("chain", got.chain)
    ∷ ("action", got.action)
    ∷ ("src-address", got.src_address)
    ∷ ("comment", got.comment)
    ∷ ("disabled", got.disabled)
    ∷ []

-- `for k, v := range want`: each key is set once, so the order does not matter.
unfoldable pub differing : Row → Row → Row
unfolding value
differing cur [] = []
differing cur ((k, v) ∷ want) =
    let rest = differing cur want in if value k cur == v then rest else (k, v) ∷ rest

unfoldable pub diff_fields : NatRule → Row → Row
unfolding differing
diff_fields got want = differing (current got) want

unfoldable pub diff_masq_fields : NatRule → Row → Row
unfolding differing
diff_masq_fields got want = differing (current_masq got) want
