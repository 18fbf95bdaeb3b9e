-- ===== src/Router/Nat/Reconcile/Settled.antt =====
-- nat.go: Ensure on a router that has the wanted rule.
use awg_proxy_go.Prelude.{◌≡◌, refl, String, List, [], ◌∷◌, none, some, ap, ◌∙◌, arith}
use awg_proxy_go.Prelude.Eq.{string_eq}
use awg_proxy_go.Prelude.Dict.{insert}
use awg_proxy_go.Router.Api.{Row, Api, value}
use awg_proxy_go.Router.Table.{Agrees}
use awg_proxy_go.Router.Nat.{
  DivertRule, validate, AddrText, fields, NatRule, current, differing, diff_fields,
}
use awg_proxy_go.Router.Nat.Reconcile.{
  Reconciler, nat_comment, log_transition, own_rules, list_rules, converge, ensure_listed, update,
  remove_extra, ensure,
}

differing-nil : (cur want : Row) → Agrees cur want → differing cur want ≡ []
unfolding differing
differing-nil cur [] h = refl
differing-nil cur ((k, v) ∷ want) h =
    ground (arith, string_eq.equals_iff (value k cur) v, differing-nil cur want h.1)

module _ {R : Type 0} (api : Api R) where
  pub list_rules-own :
      (r r' : R) (path want : String) (rows : List Row)
      → api.print r path ≡ (r', some rows)
      → list_rules api r path want ≡ (r', some (own_rules want rows))
  unfolding list_rules
  list_rules-own r r' path want rows e = rw (list_rules, e) refl

  converge_settled :
      (r : R) (n : Reconciler) (existing : NatRule) (chain : String) (want : Row)
      → existing.chain ≡ chain
      → Agrees (current existing) want
      → converge api r n chain want (existing ∷ []) ≡ (r, log_transition n "active", none)
  unfolding converge remove_extra update diff_fields
  converge_settled r n existing chain want same fit =
      ground (
        arith,
        string_eq.equals_iff existing.chain chain,
        differing-nil (current existing) want fit,
      )

  pub ensure-validate :
      (x : AddrText) (r : R) (n : Reconciler) (want : DivertRule)
      → validate want ≡ none
      → ensure api x r n want
        ≡ ensure_listed api n want.chain
            (insert "comment" (nat_comment n.iface) (fields x want))
            (list_rules api r n.path (nat_comment n.iface))
  unfolding ensure
  ensure-validate x r n want e = rw (ensure, e) refl

  -- On a router whose print lists one rule with the reconciler's comment, and that one in the wanted
  -- chain with every wanted field, Ensure of a valid rule only prints: it adds, changes and removes
  -- nothing, and reports no error.
  pub ensure_settled :
      (x : AddrText) (r r' : R) (n : Reconciler) (want : DivertRule) (rows : List Row)
      (existing : NatRule)
      → validate want ≡ none
      → api.print r n.path ≡ (r', some rows)
      → own_rules (nat_comment n.iface) rows ≡ existing ∷ []
      → existing.chain ≡ want.chain
      → Agrees (current existing) (insert "comment" (nat_comment n.iface) (fields x want))
      → ensure api x r n want ≡ (r', log_transition n "active", none)
  unfolding ensure_listed
  ensure_settled x r r' n want rows existing valid printed own same fit =
      ensure-validate x r n want valid
      ∙ ap (ensure_listed api n want.chain _) (
          list_rules-own r r' n.path (nat_comment n.iface) rows printed
          ∙ ap (λ o. (r', some o)) own)
      ∙ converge_settled r' n existing want.chain _ same fit
