-- ===== src/Router/Nat/Reconcile/Converged.antt =====
-- nat.go: Ensure on a router whose table obeys the laws of Router.Table.
use awg_proxy_go.Prelude.{
  ◌≡◌, ◌≢◌, refl, sym, ap, subst, ◌∙◌, true, false, Bool, String, List, [], ◌∷◌, ◌++◌, append-nil,
  Option, none, some, All-append, if◌then◌else◌,
}
use awg_proxy_go.Prelude.Eq.{◌==◌, string_eq}
use awg_proxy_go.Prelude.Dict.{lookup, lookup-insert_self, Distinct}
use awg_proxy_go.Router.Api.{Row, Api, value}
use awg_proxy_go.Router.Table.{
  TableLaws, without, merged, updated, has_id, IsUnique, Agrees, Agrees-lookup, is_number, IsFilled,
}
use awg_proxy_go.Router.Nat.{
  DivertRule, NatError, AddrText, validate, fields, NatRule, nat_rule_from_map, current, differing,
  diff_fields,
}
use awg_proxy_go.Router.Nat.Reconcile.{
  Reconciler, nat_comment, log_transition, own_rules, remove_extra, add_rule, rebuild, update,
  converge, ensure_listed, ensure,
}
use awg_proxy_go.Router.Nat.Reconcile.Settled.{list_rules-own, ensure-validate}
use awg_proxy_go.Router.Nat.Reconcile.Removal.{foreign, without_all}
use awg_proxy_go.Router.Nat.Reconcile.Split.{
  AreForeign, own_rules-nil, own_rules-cons, AreForeign-foreign, without_extra, first_id,
  has_id-first, without-first, updated-first,
}
use awg_proxy_go.Router.Nat.Reconcile.Merge.{Agrees-merged, differing-All}
use awg_proxy_go.Router.Nat.Reconcile.Wanted.{IsWanted, wanted_row, wanted_row-IsWanted}
use awg_proxy_go.Router.Nat.Reconcile.Placed.{placed, foreign_self, foreign_first}

module _ {R : Type 0} (api : Api R) (n : Reconciler) (rows : R → List Row)
    (laws : TableLaws api n.path rows) where
  remove_extra-rows :
      (r : R) (xs : List NatRule) → rows (remove_extra api r n.path xs) ≡ without_all xs (rows r)
  unfolding remove_extra
  remove_extra-rows r [] = refl
  remove_extra-rows r (x ∷ xs) =
      remove_extra-rows (api.remove r n.path x.id).0 xs
      ∙ ap (without_all xs) (laws.removes_one r x.id)

  -- There is one own record, it has the wanted fields, and the others are as they were.
  abbrev pub IsConverged : String → Row → R → R → Type 0
  IsConverged comment want r r' =
      (x : Row) × (own_rules comment (rows r') ≡ nat_rule_from_map x ∷ [])
      × Agrees x want
      × (foreign comment (rows r') ≡ foreign comment (rows r))

  abbrev HasDone : String → Row → R → R × Reconciler × Option NatError → Type 0
  HasDone comment want old o = (o.2 ≡ none) × IsConverged comment want old o.0

  either :
      (comment : String) (want : Row) (old : R) (b : Bool) (p q : R × Reconciler × Option NatError)
      → HasDone comment want old p
      → HasDone comment want old q
      → HasDone comment want old (if b then p else q)
  either comment want old true p q h k = h
  either comment want old false p q h k = k

  module _ (comment : String) (want : Row) (named : lookup "comment" want ≡ some comment)
      (distinct : Distinct want) (no_id : lookup ".id" want ≡ none) (filled : IsFilled want) where
    own_comment : (x : Row) → Agrees x want → (value "comment" x == comment) ≡ true
    own_comment x a =
        (string_eq.equals_iff (value "comment" x) comment).1
          (Agrees-lookup x want "comment" comment a named)

    add_rule-result :
        (r : R) (action id : String)
        → (api.add r n.path want).1 ≡ some id
        → add_rule api r n want action ≡ ((api.add r n.path want).0, log_transition n action, none)
    unfolding add_rule
    add_rule-result r action id e = rw (add_rule, e) refl

    -- A table without own records gets one.
    pub added :
        (r old : R) (action : String)
        → AreForeign comment (rows r)
        → rows r ≡ foreign comment (rows old)
        → ((add_rule api r n want action).2 ≡ none)
          × IsConverged comment want old (add_rule api r n want action).0
    added r old action other same =
        let (id, x, done, grown, _, a) = laws.adds r want distinct no_id filled in
        let result = add_rule-result r action id done in
        let (one, rest) = placed comment x (rows r) [] other (own_comment x a) tt in
        let final = ap (λ o. rows o.0) result ∙ grown in
        (
          ap (λ o. o.2) result,
          (
            x,
            ap (own_rules comment) final ∙ one,
            a,
            ap (foreign comment) final ∙ rest ∙ append-nil (rows r) ∙ same,
          ),
        )

    module _ (x : Row) (before after : List Row) (front : AreForeign comment before)
        (own : (value "comment" x == comment) ≡ true)
        (unique : IsUnique (before ++ x ∷ after)) where
      abbrev rest : List Row
      rest = foreign comment after

      set_done :
          (r : R) (diff : Row)
          → IsFilled diff
          → rows r ≡ before ++ x ∷ rest
          → ((update api r n (nat_rule_from_map x) diff).2 ≡ none)
            × (rows (update api r n (nat_rule_from_map x) diff).0 ≡ before ++ merged diff x ∷ rest)
      unfolding update nat_rule_from_map
      set_done r [] all e = (refl, e)
      set_done r (d ∷ diff) all e =
          let found = ap (has_id (value ".id" x)) e ∙ has_id-first before x rest in
          let done = laws.sets r (value ".id" x) (d ∷ diff) found all in
          let (apart, back) = first_id comment before x after unique in
          (
            rw done refl,
            rw done (
                laws.sets_one r (value ".id" x) (d ∷ diff) all
                ∙ ap (updated (value ".id" x) (d ∷ diff)) e
                ∙ updated-first x rest back (d ∷ diff) before apart),
          )

      rebuilt :
          (r old : R)
          → rows r ≡ before ++ x ∷ rest
          → rows old ≡ before ++ x ∷ after
          → ((rebuild api r n (nat_rule_from_map x) want).2 ≡ none)
            × IsConverged comment want old (rebuild api r n (nat_rule_from_map x) want).0
      unfolding rebuild nat_rule_from_map
      rebuilt r old e was =
          let found = ap (has_id (value ".id" x)) e ∙ has_id-first before x rest in
          let done = laws.removes r (value ".id" x) found in
          let (apart, back) = first_id comment before x after unique in
          let left =
            laws.removes_one r (value ".id" x)
            ∙ ap (without (value ".id" x)) e
            ∙ without-first x rest back before apart in
          let others =
            All-append (λ y. (value "comment" y == comment) ≡ false) before rest front
              (AreForeign-foreign comment after) in
          let same =
            left
            ∙ sym (foreign_first comment x before after front own)
            ∙ ap (foreign comment) (sym was) in
          let removed = (api.remove r n.path (value ".id" x)).0 in
          let result : rebuild api r n (nat_rule_from_map x) want
              ≡ add_rule api removed n want "rebuilt" =
            rw (rebuild, done) refl in
          let (fine, one) =
            added removed old "rebuilt" (subst (AreForeign comment) (sym left) others) same in
          (
            ap (λ o. o.2) result ∙ fine,
            subst (λ o. IsConverged comment want old o.0) (sym result) one,
          )

      -- Where the first own record stands between others.
      pub updated-IsConverged :
          (r old : R) (diff : Row)
          → IsFilled diff
          → rows r ≡ before ++ x ∷ rest
          → rows old ≡ before ++ x ∷ after
          → Agrees (merged diff x) want
          → ((update api r n (nat_rule_from_map x) diff).2 ≡ none)
            × IsConverged comment want old (update api r n (nat_rule_from_map x) diff).0
      updated-IsConverged r old diff all e was a =
          let new = merged diff x in
          let (fine, final) = set_done r diff all e in
          let (one, others) =
            placed comment new before rest front (own_comment new a)
              (AreForeign-foreign comment after) in
          (
            fine,
            (
              new,
              ap (own_rules comment) final ∙ one,
              a,
              ap (foreign comment) final
                  ∙ others
                  ∙ sym (foreign_first comment x before after front own)
                  ∙ ap (foreign comment) (sym was),
            ),
          )

      kept :
          (r old : R) (chain : String)
          → rows r ≡ before ++ x ∷ rest
          → rows old ≡ before ++ x ∷ after
          → IsWanted x chain want
          → ((update api r n (nat_rule_from_map x) (diff_fields (nat_rule_from_map x) want)).2
              ≡ none)
            × IsConverged comment want old
                (update api r n (nat_rule_from_map x) (diff_fields (nat_rule_from_map x) want)).0
      unfolding diff_fields
      kept r old chain e was good =
          updated-IsConverged r old (differing (current (nat_rule_from_map x)) want)
            (differing-All (λ kv. is_number kv.0 ≡ true → kv.1 ≢ "") (current (nat_rule_from_map x))
              want filled)
            e was (Agrees-merged (current (nat_rule_from_map x)) x want good.0 good.1)

      -- Behind the removal of the other own records.
      pub cleaned-rows :
          (r : R)
          → rows r ≡ before ++ x ∷ after
          → rows (remove_extra api r n.path (own_rules comment after)) ≡ before ++ x ∷ rest
      cleaned-rows r was =
          remove_extra-rows r (own_rules comment after)
          ∙ ap (without_all (own_rules comment after)) was
          ∙ without_extra comment before x after unique

      converge_found :
          (r : R) (chain : String)
          → rows r ≡ before ++ x ∷ after
          → IsWanted x chain want
          → ((converge api r n chain want (nat_rule_from_map x ∷ own_rules comment after)).2 ≡ none)
            × IsConverged comment want r
                (converge api r n chain want (nat_rule_from_map x ∷ own_rules comment after)).0
      unfolding converge own_rules
      converge_found r chain was good =
          let cleaned = remove_extra api r n.path (own_rules comment after) in
          let e = cleaned-rows r was in
          either comment want r (value "chain" x == chain) _ _ (kept cleaned r chain e was good)
            (rebuilt cleaned r e was)

  converge_all :
      (r : R) (comment chain : String) (want : Row) (cur : List NatRule)
      → ((x : Row) → IsWanted x chain want)
      → lookup "comment" want ≡ some comment
      → IsUnique (rows r)
      → own_rules comment (rows r) ≡ cur
      → HasDone comment want r (converge api r n chain want cur)
  unfolding converge
  converge_all r comment chain want [] good named unique e =
      let others = own_rules-nil comment (rows r) e in
      added comment want named (good []).0 (good []).3 (good []).4 r r "installed" others
        (sym (foreign_self comment (rows r) others))
  converge_all r comment chain want (found ∷ extra) good named unique e =
      let (x, before, after, (front, own, was), same, behind) =
        own_rules-cons comment found extra (rows r) e in
      rw (same, behind)
        (converge_found comment want named (good x).0 (good x).3 (good x).4 x before after front own
          (subst IsUnique was unique) r chain was (good x))

  -- On a router whose table obeys the laws and whose records have ids of their own, Ensure of a valid
  -- rule succeeds whatever stands in the table. Afterwards there is one record with the reconciler's
  -- comment, it has every wanted field, and all other records stay, in their order.
  pub ensure-IsConverged :
      (t : AddrText) (r : R) (w : DivertRule)
      → validate w ≡ none
      → IsUnique (rows r)
      → ((ensure api t r n w).2 ≡ none)
        × IsConverged
            (nat_comment n.iface)
            (wanted_row t (nat_comment n.iface) w)
            r
            (ensure api t r n w).0
  unfolding ensure_listed
  ensure-IsConverged t r w valid unique =
      let comment = nat_comment n.iface in
      let want = wanted_row t comment w in
      let cur = own_rules comment (rows r) in
      let result : ensure api t r n w ≡ converge api r n w.chain want cur =
        ensure-validate api t r n w valid
        ∙ ap (ensure_listed api n w.chain want)
            (list_rules-own api r r n.path comment (rows r) (laws.prints r)) in
      subst (HasDone comment want r) (sym result) (
        converge_all r comment w.chain want cur (λ x. wanted_row-IsWanted x t w comment)
          (lookup-insert_self "comment" comment (fields t w)) unique refl)
