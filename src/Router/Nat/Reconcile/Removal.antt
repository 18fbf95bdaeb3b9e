-- ===== src/Router/Nat/Reconcile/Removal.antt =====
-- nat.go: Remove on a router whose table obeys the laws of Router.Table.
use awg_proxy_go.Prelude.{
  ◌≡◌, refl, sym, subst, ◌∙◌, ap, true, Bool-cases, String, List, [], ◌∷◌, none, some, inl, inr,
  if◌then◌else◌, arith,
}
use awg_proxy_go.Prelude.Eq.{◌==◌, string_eq, ne-equals}
use awg_proxy_go.Router.Api.{Row, Api, value}
use awg_proxy_go.Router.Table.{without, without-IsFresh, has_id, IsFresh, IsUnique, TableLaws}
use awg_proxy_go.Router.Nat.{NatRule, nat_rule_from_map}
use awg_proxy_go.Router.Nat.Reconcile.{
  Reconciler, nat_comment, own_rules, remove_all, remove_listed, remove,
}
use awg_proxy_go.Router.Nat.Reconcile.Settled.{list_rules-own}

abbrev pub without_all : List NatRule → List Row → List Row
without_all [] rows = rows
without_all (x ∷ xs) rows = without_all xs (without x.id rows)

-- The records with another comment.
abbrev pub foreign : String → List Row → List Row
foreign want [] = []
foreign want (x ∷ rows) =
    let rest = foreign want rows in if value "comment" x == want then rest else x ∷ rest

pub without_all-keeps :
    (want : String) (x : Row) (ys rows : List Row)
    → IsFresh (value ".id" x) ys
    → without_all (own_rules want ys) (x ∷ rows) ≡ x ∷ without_all (own_rules want ys) rows
unfolding own_rules nat_rule_from_map
without_all-keeps want x [] rows h = refl
without_all-keeps want x (y ∷ ys) rows h = elim (Bool-cases (value "comment" y == want)) [
  | inl own ↦ ground (
    arith,
    own,
    string_eq.equals_iff (value ".id" x) (value ".id" y),
    without_all-keeps want x ys (without (value ".id" y) rows) h.1,
  )
  | inr other ↦ ground (arith, other, without_all-keeps want x ys rows h.1)
]

pub without_all-own :
    (want : String) (rows : List Row)
    → IsUnique rows
    → without_all (own_rules want rows) rows ≡ foreign want rows
unfolding own_rules nat_rule_from_map
without_all-own want [] h = refl
without_all-own want (x ∷ rows) h = elim (Bool-cases (value "comment" x == want)) [
  | inl own ↦ ground (
    arith,
    own,
    string_eq.equals_iff (value ".id" x) (value ".id" x),
    without-IsFresh (value ".id" x) rows h.0,
    without_all-own want rows h.1,
  )
  | inr other ↦
      ground (arith, other, without_all-keeps want x rows rows h.0, without_all-own want rows h.1)
]

-- Each rule has a record in the table when its turn comes.
abbrev Present : List NatRule → List Row → Type 0
Present [] rows = Unit
Present (x ∷ xs) rows = (has_id x.id rows ≡ true) × Present xs (without x.id rows)

Present-cons :
    (want : String) (x : Row) (ys rows : List Row)
    → IsFresh (value ".id" x) ys
    → Present (own_rules want ys) rows
    → Present (own_rules want ys) (x ∷ rows)
unfolding own_rules nat_rule_from_map
Present-cons want x [] rows h p = tt
Present-cons want x (y ∷ ys) rows h p = elim (Bool-cases (value "comment" y == want)) [
  | inl own ↦
      let q : Present (nat_rule_from_map y ∷ own_rules want ys) rows =
        subst
          (λ b.
            Present (if b then nat_rule_from_map y ∷ own_rules want ys else own_rules want ys) rows)
          own p in
      rw own (
        ground (arith, q.0),
        rw (ne-equals (value ".id" x) (value ".id" y) (λ e. h.0 (sym e)))
            (Present-cons want x ys (without (value ".id" y) rows) h.1 q.1),
      )
  | inr other ↦ rw other (
      Present-cons want x ys rows h.1 (
        subst
          (λ b.
            Present (if b then nat_rule_from_map y ∷ own_rules want ys else own_rules want ys) rows)
          other p))
]

Present-own : (want : String) (rows : List Row) → IsUnique rows → Present (own_rules want rows) rows
unfolding own_rules nat_rule_from_map
Present-own want [] h = tt
Present-own want (x ∷ rows) h = elim (Bool-cases (value "comment" x == want)) [
  | inl own ↦
      let same = (string_eq.equals_iff (value ".id" x) (value ".id" x)).1 refl in
      rw own (
        ground (arith, same),
        rw (same, without-IsFresh (value ".id" x) rows h.0) (Present-own want rows h.1),
      )
  | inr other ↦ rw other (Present-cons want x rows rows h.0 (Present-own want rows h.1))
]

module _ {R : Type 0} (api : Api R) (n : Reconciler) (rows : R → List Row)
    (laws : TableLaws api n.path rows) where
  remove_all-rows :
      (r : R) (xs : List NatRule)
      → Present xs (rows r)
      → ((remove_all api r n.path xs).1 ≡ true)
        × (rows (remove_all api r n.path xs).0 ≡ without_all xs (rows r))
  unfolding remove_all
  remove_all-rows r [] p = (refl, refl)
  remove_all-rows r (x ∷ xs) p =
      let r' = (api.remove r n.path x.id).0 in
      let left = laws.removes_one r x.id in
      let removed = laws.removes r x.id p.0 in
      let (done, rest) = remove_all-rows r' xs (subst (Present xs) (sym left) p.1) in
      (ground (arith, removed, done), rw removed (rest ∙ ap (without_all xs) left))

  remove_listed-rows :
      (r : R) (xs : List NatRule)
      → Present xs (rows r)
      → ((remove_listed api n (r, some xs)).2 ≡ none)
        × (rows (remove_listed api n (r, some xs)).0 ≡ without_all xs (rows r))
  unfolding remove_listed
  remove_listed-rows r [] p = (refl, refl)
  remove_listed-rows r (x ∷ xs) p =
      let (done, left) = remove_all-rows r (x ∷ xs) p in (rw done refl, rw done left)

  -- On a router whose table obeys the laws and whose records have ids of their own, Remove succeeds
  -- and takes exactly the records with the reconciler's comment out of the table: all other records
  -- stay, in their order.
  pub remove-foreign :
      (r : R)
      → IsUnique (rows r)
      → ((remove api r n).2 ≡ none)
        × (rows (remove api r n).0 ≡ foreign (nat_comment n.iface) (rows r))
  unfolding remove
  remove-foreign r unique =
      let comment = nat_comment n.iface in
      let own = own_rules comment (rows r) in
      let removed : remove api r n ≡ remove_listed api n (r, some own) =
        ap (remove_listed api n) (list_rules-own api r r n.path comment (rows r) (laws.prints r)) in
      let (done, left) = remove_listed-rows r own (Present-own comment (rows r) unique) in
      (
        ap (λ o. o.2) removed ∙ done,
        ap (λ o. rows o.0) removed ∙ left ∙ without_all-own comment (rows r) unique,
      )
