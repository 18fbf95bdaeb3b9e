-- ===== src/Service/Hooks/Tables.antt =====
-- cmd/awgproxy/main.go: the rules of the hooks in the two NAT tables of a router.
use awg_proxy_go.Prelude.{
  ◌≡◌, sym, ap, subst, ◌∙◌, Bool, true, false, not, String, List, [], ◌∷◌, none,
}
use awg_proxy_go.Prelude.Int.{int_eq}
use awg_proxy_go.Router.Api.{Row, Api}
use awg_proxy_go.Router.Table.{TableLaws, IsUnique, Agrees}
use awg_proxy_go.Router.Nat.{DivertRule, AddrText, validate, nat_rule_from_map}
use awg_proxy_go.Router.Nat.Reconcile.{Reconciler, nat_comment, own_rules, ensure, remove}
use awg_proxy_go.Router.Nat.Reconcile.Removal.{foreign, remove-foreign}
use awg_proxy_go.Router.Nat.Reconcile.Split.{AreForeign-foreign}
use awg_proxy_go.Router.Nat.Reconcile.Placed.{all_foreign, foreign_self}
use awg_proxy_go.Router.Nat.Reconcile.Wanted.{wanted_row}
use awg_proxy_go.Router.Nat.Reconcile.Converged.{ensure-IsConverged}
use awg_proxy_go.Router.Nat.Reconcile.Untouched.{Keeps}

abbrev pub path_of : Bool → String
path_of true = "/ipv6/firewall/nat"
path_of false = "/ip/firewall/nat"

-- No rule of the proxy stands in the table.
abbrev pub IsClean : {R : Type 0} → (Bool → R → List Row) → String → Bool → R → Type 0
IsClean rows iface v6 r = own_rules (nat_comment iface) (rows v6 r) ≡ []

-- One rule of the proxy stands in the table, with the wanted fields, and the records of others are
-- as they were.
abbrev pub IsDiverted :
    {R : Type 0} → AddrText → (Bool → R → List Row) → String → Bool → DivertRule → R → R → Type 0
IsDiverted text rows iface v6 want r r' =
    (x : Row) × (own_rules (nat_comment iface) (rows v6 r') ≡ nat_rule_from_map x ∷ [])
    × Agrees x (wanted_row text (nat_comment iface) want)
    × (foreign (nat_comment iface) (rows v6 r') ≡ foreign (nat_comment iface) (rows v6 r))

-- `rows true` is the IPv6 table and `rows false` the IPv4 table.
module _ {R : Type 0} (api : Api R) (text : AddrText) (rows : Bool → R → List Row)
    (laws : (v6 : Bool) → TableLaws api (path_of v6) (rows v6))
    (apart : (v6 : Bool) → Keeps api (path_of v6) (rows (not v6))) (iface : String) where
  pub laws_of : (n : Reconciler) (v6 : Bool) → n.path ≡ path_of v6 → TableLaws api n.path (rows v6)
  laws_of n v6 at = subst (λ p. TableLaws api p (rows v6)) (sym at) (laws v6)

  pub Keeps-of :
      (n : Reconciler) (v6 : Bool) → n.path ≡ path_of v6 → Keeps api n.path (rows (not v6))
  Keeps-of n v6 at = subst (λ p. Keeps api p (rows (not v6))) (sym at) (apart v6)

  pub removed-IsClean :
      (n : Reconciler) (v6 : Bool) (r : R)
      → n.path ≡ path_of v6
      → n.iface ≡ iface
      → IsUnique (rows v6 r)
      → ((remove api r n).2 ≡ none)
        × IsClean rows iface v6 (remove api r n).0
        × (foreign (nat_comment iface) (rows v6 (remove api r n).0)
            ≡ foreign (nat_comment iface) (rows v6 r))
  removed-IsClean n v6 r at named unique =
      let (done, left) = remove-foreign api n (rows v6) (laws_of n v6 at) r unique in
      let left' : rows v6 (remove api r n).0 ≡ foreign (nat_comment iface) (rows v6 r) =
        left ∙ ap (λ i. foreign (nat_comment i) (rows v6 r)) named in
      let others = AreForeign-foreign (nat_comment iface) (rows v6 r) in
      (
        done,
        ap (own_rules (nat_comment iface)) left' ∙ all_foreign (nat_comment iface) _ others,
        ap (foreign (nat_comment iface)) left' ∙ foreign_self (nat_comment iface) _ others,
      )

  pub ensured :
      (v6 : Bool) (r : R) (n : Reconciler) (want : DivertRule)
      → n.path ≡ path_of v6
      → n.iface ≡ iface
      → validate want ≡ none
      → IsUnique (rows v6 r)
      → IsDiverted text rows iface v6 want r (ensure api text r n want).0
  ensured v6 r n want at named valid unique =
      let (_, converged) =
        ensure-IsConverged api n (rows v6) (laws_of n v6 at) text r want valid unique in
      let (x, one, a, others) = converged in
      subst
        (λ i.
          (x : Row) × (own_rules (nat_comment i) (rows v6 (ensure api text r n want).0)
            ≡ nat_rule_from_map x ∷ [])
          × Agrees x (wanted_row text (nat_comment i) want)
          × (foreign (nat_comment i) (rows v6 (ensure api text r n want).0)
              ≡ foreign (nat_comment i) (rows v6 r)))
        named (x, one, a, others)
