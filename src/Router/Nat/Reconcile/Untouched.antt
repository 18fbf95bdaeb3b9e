-- ===== src/Router/Nat/Reconcile/Untouched.antt =====
-- nat.go: Ensure and Remove change nothing but their own table.
use awg_proxy_go.Prelude.{
  ◌≡◌, refl, ◌∙◌, Bool, Bool-cases, true, false, String, List, [], ◌∷◌, Option, none, some,
  Option-cases, inl, inr, if◌then◌else◌,
}
use awg_proxy_go.Prelude.Eq.{◌==◌, string_eq}
use awg_proxy_go.Prelude.Dict.{insert}
use awg_proxy_go.Router.Api.{Row, Api}
use awg_proxy_go.Router.Nat.{DivertRule, NatError, AddrText, validate, fields, NatRule, diff_fields}
use awg_proxy_go.Router.Nat.Reconcile.{
  Reconciler, nat_comment, list_rules, remove_extra, add_rule, rebuild, update, converge,
  ensure_listed, ensure, remove_all, remove_listed, remove,
}

-- The operations on a path leave a part of the router as it is.
pub record Keeps {R A : Type 0} (api : Api R) (path : String) (part : R → A) : Type 0 where
  pub print_keeps : (r : R) → part (api.print r path).0 ≡ part r
  pub add_keeps : (r : R) (kv : Row) → part (api.add r path kv).0 ≡ part r
  pub set_keeps : (r : R) (id : String) (kv : Row) → part (api.set r path id kv).0 ≡ part r
  pub remove_keeps : (r : R) (id : String) → part (api.remove r path id).0 ≡ part r

module _ {R A : Type 0} (api : Api R) (n : Reconciler) (part : R → A)
    (keeps : Keeps api n.path part) where
  abbrev pub HasKept : R → R × Reconciler × Option NatError → Type 0
  HasKept r o = part o.0 ≡ part r

  either_kept :
      (r : R) (b : Bool) (p q : R × Reconciler × Option NatError)
      → HasKept r p
      → HasKept r q
      → HasKept r (if b then p else q)
  either_kept r true p q h k = h
  either_kept r false p q h k = k

  remove_extra_keeps : (r : R) (xs : List NatRule) → part (remove_extra api r n.path xs) ≡ part r
  unfolding remove_extra
  remove_extra_keeps r [] = refl
  remove_extra_keeps r (x ∷ xs) =
      remove_extra_keeps (api.remove r n.path x.id).0 xs ∙ keeps.remove_keeps r x.id

  add_rule_keeps : (r : R) (want : Row) (action : String) → HasKept r (add_rule api r n want action)
  unfolding add_rule
  add_rule_keeps r want action = elim (Option-cases (api.add r n.path want).1) [
    | inl e ↦ rw (add_rule, e) (keeps.add_keeps r want)
    | inr (id, e) ↦ rw (add_rule, e) (keeps.add_keeps r want)
  ]

  rebuild_keeps : (r : R) (e : NatRule) (want : Row) → HasKept r (rebuild api r n e want)
  unfolding rebuild
  rebuild_keeps r e want =
      either_kept r (api.remove r n.path e.id).1 _ _
        (add_rule_keeps (api.remove r n.path e.id).0 want "rebuilt" ∙ keeps.remove_keeps r e.id)
        (keeps.remove_keeps r e.id)

  update_keeps : (r : R) (e : NatRule) (diff : Row) → HasKept r (update api r n e diff)
  unfolding update
  update_keeps r e [] = refl
  update_keeps r e (d ∷ diff) =
      either_kept r (api.set r n.path e.id (d ∷ diff)).1 _ _ (keeps.set_keeps r e.id (d ∷ diff))
        (keeps.set_keeps r e.id (d ∷ diff))

  converge_keeps :
      (r : R) (chain : String) (want : Row) (cur : List NatRule)
      → HasKept r (converge api r n chain want cur)
  unfolding converge
  converge_keeps r chain want [] = add_rule_keeps r want "installed"
  converge_keeps r chain want (e ∷ extra) =
      let r' = remove_extra api r n.path extra in
      either_kept r (e.chain == chain) (update api r' n e (diff_fields e want))
        (rebuild api r' n e want)
        (update_keeps r' e (diff_fields e want) ∙ remove_extra_keeps r extra)
        (rebuild_keeps r' e want ∙ remove_extra_keeps r extra)

  ensure_listed_keeps :
      (chain : String) (want : Row) (r : R) (o : Option (List NatRule))
      → HasKept r (ensure_listed api n chain want (r, o))
  unfolding ensure_listed
  ensure_listed_keeps chain want r none = refl
  ensure_listed_keeps chain want r (some cur) = converge_keeps r chain want cur

  pub ensure_keeps : (t : AddrText) (r : R) (w : DivertRule) → HasKept r (ensure api t r n w)
  unfolding ensure list_rules
  ensure_keeps t r w = elim (Option-cases (validate w)) [
    | inl e ↦
        rw (ensure, e)
          (ensure_listed_keeps w.chain (insert "comment" (nat_comment n.iface) (fields t w))
              (api.print r n.path).0 (list_rules api r n.path (nat_comment n.iface)).1
            ∙ keeps.print_keeps r)
    | inr (bad, e) ↦ rw (ensure, e) refl
  ]

  remove_all_keeps : (r : R) (xs : List NatRule) → part (remove_all api r n.path xs).0 ≡ part r
  unfolding remove_all
  remove_all_keeps r [] = refl
  remove_all_keeps r (x ∷ xs) = elim (Bool-cases (api.remove r n.path x.id).1) [
    | inl e ↦ rw (e) (remove_all_keeps (api.remove r n.path x.id).0 xs ∙ keeps.remove_keeps r x.id)
    | inr e ↦ rw (e) (keeps.remove_keeps r x.id)
  ]

  remove_listed_keeps : (r : R) (o : Option (List NatRule)) → HasKept r (remove_listed api n (r, o))
  unfolding remove_listed
  remove_listed_keeps r none = refl
  remove_listed_keeps r (some []) = refl
  remove_listed_keeps r (some (x ∷ xs)) =
      either_kept r (remove_all api r n.path (x ∷ xs)).1 _ _ (remove_all_keeps r (x ∷ xs))
        (remove_all_keeps r (x ∷ xs))

  pub remove_keeps_part : (r : R) → HasKept r (remove api r n)
  unfolding remove list_rules
  remove_keeps_part r =
      remove_listed_keeps (api.print r n.path).0 (list_rules api r n.path (nat_comment n.iface)).1
      ∙ keeps.print_keeps r
