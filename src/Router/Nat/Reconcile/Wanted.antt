-- ===== src/Router/Nat/Reconcile/Wanted.antt =====
-- nat.go: the fields that Ensure wants.
use awg_proxy_go.Prelude.{
  ◌≡◌, ◌≢◌, refl, ◌∙◌, Bool, true, false, Bool-cases, String, [], ◌∷◌, none, some, All, inl, inr,
  if◌then◌else◌,
}
use awg_proxy_go.Prelude.Eq.{◌==◌, string_eq, equals-ne}
use awg_proxy_go.Prelude.Dict.{
  lookup, insert, delete, Distinct, Distinct-insert, Distinct-delete, lookup-insert_ne,
  lookup-delete_ne,
}
use awg_proxy_go.Prelude.Netip.{is6}
use awg_proxy_go.Config.Convert.{itoa}
use awg_proxy_go.Router.Api.{Row, value}
use awg_proxy_go.Router.Table.{is_number, IsFilled}
use awg_proxy_go.Router.Nat.{
  chain_output, DivertRule, AddrText, fields, output_fields, v6_fields, nat_rule_from_map, current,
}
use awg_proxy_go.Router.Nat.Reconcile.Merge.{Covers}

All-insert :
    (P : String × String → Type 0) (k v : String) (es : Row)
    → P (k, v)
    → All P es
    → All P (insert k v es)
unfolding insert
All-insert P k v [] p h = (p, tt)
All-insert P k v ((j, w) ∷ es) p h = elim (Bool-cases (j == k)) [
  | inl e ↦ rw e (p, h.1)
  | inr e ↦ rw e (h.0, All-insert P k v es p h.1)
]

All-delete : (P : String × String → Type 0) (k : String) (es : Row) → All P es → All P (delete k es)
unfolding delete
All-delete P k [] h = tt
All-delete P k ((j, w) ∷ es) h = elim (Bool-cases (j == k)) [
  | inl e ↦ rw e (All-delete P k es h.1)
  | inr e ↦ rw e (h.0, All-delete P k es h.1)
]

module _ (x : Row) (chain : String) where
  -- A map of wanted fields: its keys stand once, are known to diffFields, the chain is one, and no
  -- integer is empty.
  abbrev pub IsWanted : Row → Type 0
  IsWanted want =
      Distinct want
      × Covers (current (nat_rule_from_map x)) x want
      × (lookup "chain" want ≡ some chain)
      × (lookup ".id" want ≡ none)
      × IsFilled want

  IsWanted-insert :
      (k v : String) (want : Row)
      → value k (current (nat_rule_from_map x)) ≡ value k x
      → k ≢ "chain"
      → k ≢ ".id"
      → (is_number k ≡ true → v ≢ "")
      → IsWanted want
      → IsWanted (insert k v want)
  IsWanted-insert k v want covered apart named filled h = (
    Distinct-insert k v want h.0,
    All-insert (λ kv. value kv.0 (current (nat_rule_from_map x)) ≡ value kv.0 x) k v want covered
        h.1,
    lookup-insert_ne k "chain" v want apart ∙ h.2,
    lookup-insert_ne k ".id" v want named ∙ h.3,
    All-insert (λ kv. is_number kv.0 ≡ true → kv.1 ≢ "") k v want filled h.4,
  )

  IsWanted-delete :
      (k : String) (want : Row) → k ≢ "chain" → k ≢ ".id" → IsWanted want → IsWanted (delete k want)
  IsWanted-delete k want apart named h = (
    Distinct-delete k want h.0,
    All-delete (λ kv. value kv.0 (current (nat_rule_from_map x)) ≡ value kv.0 x) k want h.1,
    lookup-delete_ne k "chain" want apart ∙ h.2,
    lookup-delete_ne k ".id" want named ∙ h.3,
    All-delete (λ kv. is_number kv.0 ≡ true → kv.1 ≢ "") k want h.4,
  )

  IsWanted-if : (b : Bool) (p q : Row) → IsWanted p → IsWanted q → IsWanted (if b then p else q)
  IsWanted-if true p q h k = h
  IsWanted-if false p q h k = k

-- The row that Ensure wants.
abbrev pub wanted_row : AddrText → String → DivertRule → Row
wanted_row t comment r = insert "comment" comment (fields t r)

module _ (x : Row) (t : AddrText) (r : DivertRule) where
  output_fields-IsWanted :
      (f : Row) → IsWanted x r.chain f → IsWanted x r.chain (output_fields t r f)
  unfolding output_fields value nat_rule_from_map lookup
  output_fields-IsWanted f h =
      IsWanted-if x r.chain (r.chain == chain_output) _ f
        (IsWanted-insert x r.chain "dst-address" (t.show r.dst_address) _ refl
          (equals-ne {A = String} "dst-address" "chain" refl)
          (equals-ne {A = String} "dst-address" ".id" refl) (λ e. cc e)
          (IsWanted-insert x r.chain "src-port" (itoa r.src_port) f refl
            (equals-ne {A = String} "src-port" "chain" refl)
            (equals-ne {A = String} "src-port" ".id" refl) (λ e. cc e) h))
        h

  v6_fields-IsWanted : (f : Row) → IsWanted x r.chain f → IsWanted x r.chain (v6_fields t r f)
  unfolding v6_fields value nat_rule_from_map lookup
  v6_fields-IsWanted f h =
      let g = insert "to-address" (t.show128 r.to_address) (delete "to-addresses" f) in
      let good : IsWanted x r.chain g =
        IsWanted-insert x r.chain "to-address" (t.show128 r.to_address) (delete "to-addresses" f)
          refl (equals-ne {A = String} "to-address" "chain" refl)
          (equals-ne {A = String} "to-address" ".id" refl) (λ e. cc e)
          (IsWanted-delete x r.chain "to-addresses" f
            (equals-ne {A = String} "to-addresses" "chain" refl)
            (equals-ne {A = String} "to-addresses" ".id" refl) h) in
      IsWanted-if x r.chain (is6 r.to_address) _ f
        (IsWanted-if x r.chain (r.chain == chain_output) _ g
          (IsWanted-insert x r.chain "dst-address" (t.show128 r.dst_address) g refl
            (equals-ne {A = String} "dst-address" "chain" refl)
            (equals-ne {A = String} "dst-address" ".id" refl) (λ e. cc e) good)
          good)
        h

  pub wanted_row-IsWanted : (comment : String) → IsWanted x r.chain (wanted_row t comment r)
  unfolding fields value nat_rule_from_map lookup
  wanted_row-IsWanted comment =
      IsWanted-insert x r.chain "comment" comment (fields t r) refl
        (equals-ne {A = String} "comment" "chain" refl)
        (equals-ne {A = String} "comment" ".id" refl) (λ e. cc e)
        (v6_fields-IsWanted _ (
          output_fields-IsWanted
            (("chain", r.chain)
              ∷ ("protocol", "udp")
              ∷ ("action", "dst-nat")
              ∷ ("dst-port", itoa r.dst_port)
              ∷ ("to-addresses", t.show r.to_address)
              ∷ ("to-ports", itoa r.to_port)
              ∷ ("disabled", "false")
              ∷ [])
            (
              (refl, (refl, (refl, (refl, (refl, (refl, (refl, tt))))))),
              (refl, (refl, (refl, (refl, (refl, (refl, (refl, tt))))))),
              refl,
              refl,
              (
                (λ e. cc e),
                (
                  (λ e. cc e),
                  ((λ e. cc e), ((λ e. cc e), ((λ e. cc e), ((λ e. cc e), ((λ e. cc e), tt))))),
                ),
              ),
            )))
