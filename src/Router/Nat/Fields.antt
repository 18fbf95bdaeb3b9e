-- ===== src/Router/Nat/Fields.antt =====
-- nat.go: diffFields and validate.
use awg_proxy_go.Prelude.{
  ◌≡◌, ◌≢◌, ◌↔◌, ◌⊎◌, refl, true, String, [], ◌∷◌, Option, none, some, if◌then◌else◌, arith, subst,
  Bool-cases, inl, inr,
}
use awg_proxy_go.Prelude.Eq.{equals-ne, ◌==◌, string_eq}
use awg_proxy_go.Prelude.Int.{ℤ, pos, ◌≤ℤ◌}
use awg_proxy_go.Prelude.Netip.{is6, is_valid}
use awg_proxy_go.Prelude.Dict.{lookup, Distinct}
use awg_proxy_go.Router.Api.{Row, value}
use awg_proxy_go.Router.Nat.{
  DivertRule, chain_output, chain_dst_nat, check_chain, check_ends, validate, NatRule, current,
  differing, diff_fields,
}

differing-none :
    (cur want : Row) (k : String) → lookup k want ≡ none → lookup k (differing cur want) ≡ none
unfolding differing lookup
differing-none cur [] k h = refl
differing-none cur ((j, v) ∷ want) k h = ground (
  arith,
  string_eq.equals_iff j k,
  string_eq.equals_iff (value j cur) v,
  differing-none cur want k,
)

-- The change of one field: none where the current value is the wanted one.
abbrev pub change : Row → String → Option String → Option String
change cur k none = none
change cur k (some v) = if value k cur == v then none else some v

lookup-differing :
    (cur want : Row) (k : String)
    → Distinct want
    → lookup k (differing cur want) ≡ change cur k (lookup k want)
unfolding differing lookup
lookup-differing cur [] k d = refl
lookup-differing cur ((j, v) ∷ want) k d = elim (Bool-cases (j == k)) [
  | inl same ↦
      let e = (string_eq.equals_iff j k).0 same in
      subst
        (λ i. lookup i (differing cur ((j, v) ∷ want)) ≡ change cur i (lookup i ((j, v) ∷ want))) e
        (ground (arith, string_eq.equals_iff j j, differing-none cur want j d.0))
  | inr other ↦ ground (arith, other, lookup-differing cur want k d.1)
]

-- The change that diffFields asks for holds exactly the wanted fields whose current value differs,
-- each with its wanted value; a field that is not wanted is not in it. `want` has each key once.
pub lookup-diff_fields :
    (got : NatRule) (want : Row) (k : String)
    → Distinct want
    → lookup k (diff_fields got want) ≡ change (current got) k (lookup k want)
unfolding diff_fields
lookup-diff_fields got want k d = lookup-differing (current got) want k d

-- A port that a packet can have.
abbrev pub IsPort : ℤ → Type 0
IsPort p = (pos 1 ≤ℤ p) × (p ≤ℤ pos 65535)

-- The source of an `output` rule.
abbrev pub HasSource : DivertRule → Type 0
HasSource r =
    IsPort r.src_port × (is_valid r.dst_address ≡ true) × (is6 r.dst_address ≡ is6 r.to_address)

check_ends_iff :
    (r : DivertRule)
    → (check_ends r ≡ none)
      ↔ (IsPort r.dst_port × (is_valid r.to_address ≡ true) × IsPort r.to_port)
unfolding check_ends
check_ends_iff r = ground arith

chains_differ : chain_output ≢ chain_dst_nat
chains_differ = equals-ne chain_output chain_dst_nat refl

check_chain_iff :
    (r : DivertRule)
    → (check_chain r ≡ none)
      ↔ (((r.chain ≡ chain_output) × HasSource r) ⊎ (r.chain ≡ chain_dst_nat))
unfolding check_chain
check_chain_iff r = ground (
  arith,
  chains_differ,
  string_eq.equals_iff r.chain chain_output,
  string_eq.equals_iff r.chain chain_dst_nat,
)

-- A rule is accepted exactly when its ports are ports, its target is an address, and its chain is
-- `dstnat`, or `output` with a source port and a destination of the target's family.
pub validate-none_iff :
    (r : DivertRule)
    → (validate r ≡ none) ↔ (
        (((r.chain ≡ chain_output) × HasSource r) ⊎ (r.chain ≡ chain_dst_nat))
        × IsPort r.dst_port
        × (is_valid r.to_address ≡ true)
        × IsPort r.to_port)
unfolding validate
validate-none_iff r = ground (arith, check_chain_iff r, check_ends_iff r)
