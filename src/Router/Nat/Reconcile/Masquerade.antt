-- ===== src/Router/Nat/Reconcile/Masquerade.antt =====
-- nat.go: Ensure of the MasqueradeReconciler on a router whose table obeys the laws of Router.Table.
use awg_proxy_go.Prelude.{
  ◌≡◌, ◌≢◌, refl, sym, ap, subst, String, List, [], ◌∷◌, ◌++◌, Option, none, some, true,
}
use awg_proxy_go.Prelude.Eq.{◌==◌, string_eq}
use awg_proxy_go.Prelude.Dict.{lookup, Distinct}
use awg_proxy_go.Router.Api.{Row, Api, value}
use awg_proxy_go.Router.Table.{TableLaws, IsUnique, is_number, IsFilled}
use awg_proxy_go.Router.Nat.{
  NatRule, NatError, nat_rule_from_map, current_masq, differing, diff_masq_fields,
}
use awg_proxy_go.Router.Nat.Reconcile.{
  Reconciler, masq_comment, own_rules, remove_extra, update, converge_masq, masq_listed,
  ensure_masq,
}
use awg_proxy_go.Router.Nat.Reconcile.Settled.{list_rules-own}
use awg_proxy_go.Router.Nat.Reconcile.Split.{AreForeign, own_rules-nil, own_rules-cons}
use awg_proxy_go.Router.Nat.Reconcile.Merge.{Covers, Agrees-merged, differing-All}
use awg_proxy_go.Router.Nat.Reconcile.Placed.{foreign_self}
use awg_proxy_go.Router.Nat.Reconcile.Converged.{
  IsConverged, added, updated-IsConverged, cleaned-rows,
}

-- The wanted fields.
abbrev pub masq_row : String → String → Row
masq_row comment network =
    ("chain", "srcnat")
    ∷ ("action", "masquerade")
    ∷ ("src-address", network)
    ∷ ("comment", comment)
    ∷ ("disabled", "false")
    ∷ []

masq_row-Distinct : (comment network : String) → Distinct (masq_row comment network)
unfolding lookup
masq_row-Distinct comment network = (refl, (refl, (refl, (refl, (refl, tt)))))

masq_row-Covers :
    (comment network : String) (x : Row)
    → Covers (current_masq (nat_rule_from_map x)) x (masq_row comment network)
unfolding value lookup nat_rule_from_map
masq_row-Covers comment network x = (refl, (refl, (refl, (refl, (refl, tt)))))

masq_row-comment :
    (comment network : String) → lookup "comment" (masq_row comment network) ≡ some comment
unfolding lookup
masq_row-comment comment network = refl

masq_row_no_id : (comment network : String) → lookup ".id" (masq_row comment network) ≡ none
unfolding lookup
masq_row_no_id comment network = refl

masq_row-IsFilled : (comment network : String) → IsFilled (masq_row comment network)
masq_row-IsFilled comment network =
    ((λ e. cc e), ((λ e. cc e), ((λ e. cc e), ((λ e. cc e), ((λ e. cc e), tt)))))

module _ {R : Type 0} (api : Api R) (n : Reconciler) (rows : R → List Row)
    (laws : TableLaws api n.path rows) (network : String) where
  abbrev own : String
  own = masq_comment n.iface

  abbrev want : Row
  want = masq_row own network

  abbrev HasMasqueraded : R → R × Reconciler × Option NatError → Type 0
  HasMasqueraded old o = (o.2 ≡ none) × IsConverged api n rows laws own want old o.0

  converge_masq-cons :
      (r : R) (w : Row) (x : NatRule) (extra : List NatRule)
      → converge_masq api r n w (x ∷ extra)
        ≡ update api (remove_extra api r n.path extra) n x (differing (current_masq x) w)
  unfolding converge_masq diff_masq_fields
  converge_masq-cons r w x extra = refl

  first-HasMasqueraded :
      (r : R) (x : Row) (before after : List Row)
      → AreForeign own before
      → (value "comment" x == own) ≡ true
      → rows r ≡ before ++ x ∷ after
      → IsUnique (rows r)
      → HasMasqueraded r (converge_masq api r n want (nat_rule_from_map x ∷ own_rules own after))
  first-HasMasqueraded r x before after front mine was unique =
      let named = masq_row-comment own network in
      let distinct = masq_row-Distinct own network in
      let no_id = masq_row_no_id own network in
      let filled = masq_row-IsFilled own network in
      let cur = current_masq (nat_rule_from_map x) in
      let apart = subst IsUnique was unique in
      subst (HasMasqueraded r)
        (sym (converge_masq-cons r want (nat_rule_from_map x) (own_rules own after)))
        (updated-IsConverged api n rows laws own want named distinct no_id filled x before after
          front mine apart (remove_extra api r n.path (own_rules own after)) r (differing cur want)
          (differing-All (λ kv. is_number kv.0 ≡ true → kv.1 ≢ "") cur want filled)
          (cleaned-rows api n rows laws own want named distinct no_id filled x before after front
            mine apart r was)
          was (Agrees-merged cur x want distinct (masq_row-Covers own network x)))

  converge_masq-HasMasqueraded :
      (r : R) (cur : List NatRule)
      → IsUnique (rows r)
      → own_rules own (rows r) ≡ cur
      → HasMasqueraded r (converge_masq api r n want cur)
  unfolding converge_masq
  converge_masq-HasMasqueraded r [] unique e =
      let others = own_rules-nil own (rows r) e in
      added api n rows laws own want (masq_row-comment own network) (masq_row-Distinct own network)
        (masq_row_no_id own network) (masq_row-IsFilled own network) r r "installed" others
        (sym (foreign_self own (rows r) others))
  converge_masq-HasMasqueraded r (found ∷ extra) unique e =
      let (x, before, after, (front, mine, was), same, behind) =
        own_rules-cons own found extra (rows r) e in
      let all : found ∷ extra ≡ nat_rule_from_map x ∷ own_rules own after = cc (same, behind) in
      subst (λ ys. HasMasqueraded r (converge_masq api r n want ys)) (sym all)
        (first-HasMasqueraded r x before after front mine was unique)

  -- On a router whose table obeys the laws and whose records have ids of their own, Ensure of a
  -- network succeeds whatever stands in the table. Afterwards there is one record with the
  -- masquerade's comment, it masquerades that network, enabled, in the chain srcnat, and all other
  -- records stay, in their order.
  pub ensure_masq-IsConverged :
      (r : R)
      → IsUnique (rows r)
      → ((ensure_masq api r n (some network)).2 ≡ none)
        × IsConverged api n rows laws
            (masq_comment n.iface)
            (masq_row (masq_comment n.iface) network)
            r
            (ensure_masq api r n (some network)).0
  unfolding ensure_masq masq_listed
  ensure_masq-IsConverged r unique =
      subst (HasMasqueraded r)
        (ap (masq_listed api n want)
          (sym (list_rules-own api r r n.path own (rows r) (laws.prints r))))
        (converge_masq-HasMasqueraded r (own_rules own (rows r)) unique refl)
