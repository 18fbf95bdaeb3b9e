-- ===== src/Router/Nat/Reconcile/Repeated.antt =====
-- nat.go: a second Ensure with the same rule.
use awg_proxy_go.Prelude.{◌≡◌, ◌∙◌, String, List, [], ◌∷◌, none}
use awg_proxy_go.Router.Api.{Row, Api}
use awg_proxy_go.Router.Table.{TableLaws, IsUnique, Agrees, Agrees-lookup}
use awg_proxy_go.Router.Nat.{DivertRule, AddrText, validate, nat_rule_from_map, current}
use awg_proxy_go.Router.Nat.Reconcile.{Reconciler, nat_comment, log_transition, ensure}
use awg_proxy_go.Router.Nat.Reconcile.Settled.{ensure_settled}
use awg_proxy_go.Router.Nat.Reconcile.Merge.{Covers}
use awg_proxy_go.Router.Nat.Reconcile.Wanted.{wanted_row, wanted_row-IsWanted}
use awg_proxy_go.Router.Nat.Reconcile.Converged.{ensure-IsConverged}

Agrees-Covers : (cur x want : Row) → Covers cur x want → Agrees x want → Agrees cur want
Agrees-Covers cur x [] h a = tt
Agrees-Covers cur x ((k, v) ∷ want) h a = (h.0 ∙ a.0, Agrees-Covers cur x want h.1 a.1)

module _ {R : Type 0} (api : Api R) (n : Reconciler) (rows : R → List Row)
    (laws : TableLaws api n.path rows) where
  -- On a router whose table obeys the laws and whose records have ids of their own, a second Ensure
  -- of the same valid rule, whatever the reconciler has logged last, only prints: it leaves the
  -- router as the first one left it and reports no error.
  pub ensure_twice :
      (t : AddrText) (r : R) (w : DivertRule) (last : String)
      → validate w ≡ none
      → IsUnique (rows r)
      → ensure api t (ensure api t r n w).0 (record n { last_log = last }) w
        ≡ ((ensure api t r n w).0, log_transition (record n { last_log = last }) "active", none)
  unfolding nat_rule_from_map
  ensure_twice t r w last valid unique =
      let r' = (ensure api t r n w).0 in
      let want = wanted_row t (nat_comment n.iface) w in
      let (_, converged) = ensure-IsConverged api n rows laws t r w valid unique in
      let (x, one, a, _) = converged in
      let good = wanted_row-IsWanted x t w (nat_comment n.iface) in
      ensure_settled api t r' r' (record n { last_log = last }) w (rows r') (nat_rule_from_map x)
        valid (laws.prints r') one (Agrees-lookup x want "chain" w.chain a good.2)
        (Agrees-Covers (current (nat_rule_from_map x)) x want good.1 a)
