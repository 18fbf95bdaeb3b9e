-- ===== src/Router/Nat/Reconcile/Placed.antt =====
-- nat.go: a table with one own record.
use awg_proxy_go.Prelude.{◌≡◌, refl, ap, ◌∙◌, true, String, List, [], ◌∷◌, ◌++◌}
use awg_proxy_go.Prelude.Eq.{◌==◌, string_eq}
use awg_proxy_go.Router.Api.{Row, value}
use awg_proxy_go.Router.Nat.{nat_rule_from_map}
use awg_proxy_go.Router.Nat.Reconcile.{own_rules}
use awg_proxy_go.Router.Nat.Reconcile.Removal.{foreign}
use awg_proxy_go.Router.Nat.Reconcile.Split.{AreForeign, own_rules-AreForeign, foreign-AreForeign}

module _ (comment : String) where
  pub foreign_self : (rows : List Row) → AreForeign comment rows → foreign comment rows ≡ rows
  foreign_self [] h = refl
  foreign_self (y ∷ rows) h = rw (h.0) (ap (◌∷◌ y) (foreign_self rows h.1))

  pub all_foreign : (rows : List Row) → AreForeign comment rows → own_rules comment rows ≡ []
  unfolding own_rules
  all_foreign [] h = refl
  all_foreign (y ∷ rows) h = rw (h.0) (all_foreign rows h.1)

  -- A record between records of others.
  pub placed :
      (x : Row) (before rest : List Row)
      → AreForeign comment before
      → (value "comment" x == comment) ≡ true
      → AreForeign comment rest
      → (own_rules comment (before ++ x ∷ rest) ≡ nat_rule_from_map x ∷ [])
        × (foreign comment (before ++ x ∷ rest) ≡ before ++ rest)
  unfolding own_rules
  placed x before rest front own back = (
    own_rules-AreForeign comment before (x ∷ rest) front
        ∙ rw own (ap (◌∷◌ (nat_rule_from_map x)) (all_foreign rest back)),
    foreign-AreForeign comment before (x ∷ rest) front
        ∙ rw own (ap (◌++◌ before) (foreign_self rest back)),
  )

  pub foreign_first :
      (x : Row) (before after : List Row)
      → AreForeign comment before
      → (value "comment" x == comment) ≡ true
      → foreign comment (before ++ x ∷ after) ≡ before ++ foreign comment after
  foreign_first x before after front own =
      foreign-AreForeign comment before (x ∷ after) front ∙ rw own refl
