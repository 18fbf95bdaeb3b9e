-- ===== src/Router/Nat/Reconcile/Split.antt =====
-- nat.go: a table with its first own record, and what is left of it.
use awg_proxy_go.Prelude.{
  ◌≡◌, ◌≢◌, refl, sym, ap, ◌∙◌, true, false, Bool-cases, String, List, [], ◌∷◌, ◌++◌, All, inl, inr,
  arith,
}
use awg_proxy_go.Prelude.Eq.{◌==◌, string_eq}
use awg_proxy_go.Router.Api.{Row, value}
use awg_proxy_go.Router.Table.{
  without, without-IsFresh, merged, updated, updated-IsFresh, has_id, IsFresh, IsUnique,
}
use awg_proxy_go.Router.Nat.{NatRule, nat_rule_from_map}
use awg_proxy_go.Router.Nat.Reconcile.{own_rules}
use awg_proxy_go.Router.Nat.Reconcile.Removal.{
  foreign, without_all, without_all-keeps, without_all-own,
}

module _ (want : String) where
  abbrev pub AreForeign : List Row → Type 0
  AreForeign = All (λ x. (value "comment" x == want) ≡ false)

  -- The first own record of a table.
  abbrev pub IsFirst : Row → List Row → List Row → List Row → Type 0
  IsFirst x before after rows =
      AreForeign before × ((value "comment" x == want) ≡ true) × (rows ≡ before ++ x ∷ after)

  pub own_rules-nil : (rows : List Row) → own_rules want rows ≡ [] → AreForeign rows
  unfolding own_rules
  own_rules-nil [] h = tt
  own_rules-nil (x ∷ rows) h = elim (Bool-cases (value "comment" x == want)) [
    | inl own ↦ absurd (ground (arith, h, own))
    | inr other ↦ (other, own_rules-nil rows (ground (arith, h, other)))
  ]

  pub own_rules-AreForeign :
      (before rows : List Row)
      → AreForeign before
      → own_rules want (before ++ rows) ≡ own_rules want rows
  unfolding own_rules
  own_rules-AreForeign [] rows h = refl
  own_rules-AreForeign (x ∷ before) rows h = rw (h.0) (own_rules-AreForeign before rows h.1)

  pub foreign-AreForeign :
      (before rows : List Row)
      → AreForeign before
      → foreign want (before ++ rows) ≡ before ++ foreign want rows
  foreign-AreForeign [] rows h = refl
  foreign-AreForeign (x ∷ before) rows h =
      rw (h.0) (ap (◌∷◌ x) (foreign-AreForeign before rows h.1))

  pub AreForeign-foreign : (rows : List Row) → AreForeign (foreign want rows)
  AreForeign-foreign [] = tt
  AreForeign-foreign (x ∷ rows) = elim (Bool-cases (value "comment" x == want)) [
    | inl own ↦ rw own (AreForeign-foreign rows)
    | inr other ↦ rw (other) (other, AreForeign-foreign rows)
  ]

  pub own_rules-cons :
      (e : NatRule) (extra : List NatRule) (rows : List Row)
      → own_rules want rows ≡ e ∷ extra
      → (x : Row) × (before : List Row) × (after : List Row) × IsFirst x before after rows
        × (e ≡ nat_rule_from_map x)
        × (extra ≡ own_rules want after)
  unfolding own_rules
  own_rules-cons e extra [] h = cc
  own_rules-cons e extra (y ∷ rows) h = elim (Bool-cases (value "comment" y == want)) [
    | inl own ↦
        let both : nat_rule_from_map y ∷ own_rules want rows ≡ e ∷ extra = ground (arith, h, own) in
        let same : e ≡ nat_rule_from_map y = cc both in
        let left : extra ≡ own_rules want rows = cc both in
        (y, [], rows, (tt, own, refl), same, left)
    | inr other ↦
        let (x, before, after, (front, own, split), same, left) =
          own_rules-cons e extra rows (ground (arith, h, other)) in
        (x, y ∷ before, after, ((other, front), own, ap (◌∷◌ y) split), same, left)
  ]

  IsFresh-behind :
      (id : String) (before : List Row) (x : Row) (after : List Row)
      → IsFresh id (before ++ x ∷ after)
      → (value ".id" x ≢ id) × IsFresh id after
  IsFresh-behind id [] x after h = h
  IsFresh-behind id (y ∷ before) x after h = IsFresh-behind id before x after h.1

  -- Without the own records behind the first.
  pub without_extra :
      (before : List Row) (x : Row) (after : List Row)
      → IsUnique (before ++ x ∷ after)
      → without_all (own_rules want after) (before ++ x ∷ after) ≡ before ++ x ∷ foreign want after
  without_extra [] x after h =
      without_all-keeps want x after after h.0 ∙ ap (◌∷◌ x) (without_all-own want after h.1)
  without_extra (y ∷ before) x after h =
      without_all-keeps want y after (before ++ x ∷ after)
        (IsFresh-behind (value ".id" y) before x after h.0).1
      ∙ ap (◌∷◌ y) (without_extra before x after h.1)

  IsFresh-foreign :
      (id : String) (rows : List Row) → IsFresh id rows → IsFresh id (foreign want rows)
  IsFresh-foreign id [] h = tt
  IsFresh-foreign id (x ∷ rows) h = elim (Bool-cases (value "comment" x == want)) [
    | inl own ↦ rw own (IsFresh-foreign id rows h.1)
    | inr other ↦ rw other (h.0, IsFresh-foreign id rows h.1)
  ]

  -- The id of a record that stands once.
  pub first_id :
      (before : List Row) (x : Row) (after : List Row)
      → IsUnique (before ++ x ∷ after)
      → All (λ y. value ".id" y ≢ value ".id" x) before
        × IsFresh (value ".id" x) (foreign want after)
  first_id [] x after h = (tt, IsFresh-foreign (value ".id" x) after h.0)
  first_id (y ∷ before) x after h =
      let (front, back) = first_id before x after h.1 in
      let (apart, _) = IsFresh-behind (value ".id" y) before x after h.0 in
      (((λ e. apart (sym e)), front), back)

pub has_id-first :
    (before : List Row) (x : Row) (rest : List Row)
    → has_id (value ".id" x) (before ++ x ∷ rest) ≡ true
has_id-first [] x rest = ground (arith, string_eq.equals_iff (value ".id" x) (value ".id" x))
has_id-first (y ∷ before) x rest = ground (arith, has_id-first before x rest)

module _ (x : Row) (rest : List Row) (back : IsFresh (value ".id" x) rest) where
  pub without-first :
      (before : List Row)
      → All (λ y. value ".id" y ≢ value ".id" x) before
      → without (value ".id" x) (before ++ x ∷ rest) ≡ before ++ rest
  without-first [] h = ground (
    arith,
    string_eq.equals_iff (value ".id" x) (value ".id" x),
    without-IsFresh (value ".id" x) rest back,
  )
  without-first (y ∷ before) h =
      ground (arith, string_eq.equals_iff (value ".id" y) (value ".id" x), without-first before h.1)

  pub updated-first :
      (kv : Row) (before : List Row)
      → All (λ y. value ".id" y ≢ value ".id" x) before
      → updated (value ".id" x) kv (before ++ x ∷ rest) ≡ before ++ merged kv x ∷ rest
  updated-first kv [] h = ground (
    arith,
    string_eq.equals_iff (value ".id" x) (value ".id" x),
    updated-IsFresh (value ".id" x) kv rest back,
  )
  updated-first kv (y ∷ before) h =
      ground
        (arith, string_eq.equals_iff (value ".id" y) (value ".id" x), updated-first kv before h.1)
