-- ===== src/Router/Nat/Reconcile/Merge.antt =====
-- nat.go: a record that is changed by diffFields has the wanted fields.
use awg_proxy_go.Prelude.{
  ◌≡◌, refl, subst, true, false, Bool-cases, String, [], ◌∷◌, none, All, inl, inr, if◌then◌else◌,
  arith,
}
use awg_proxy_go.Prelude.Eq.{◌==◌, string_eq}
use awg_proxy_go.Prelude.Dict.{lookup, insert, lookup-insert, Distinct}
use awg_proxy_go.Router.Api.{Row, value}
use awg_proxy_go.Router.Table.{merged, Agrees}
use awg_proxy_go.Router.Nat.{differing}

value-insert :
    (k j : String) (v : String) (x : Row)
    → value j (insert k v x) ≡ (if k == j then v else value j x)
unfolding value
value-insert k j v x = ground (arith, lookup-insert k j v x)

-- A field that is not wanted keeps its value.
value-merged_other :
    (cur want x : Row) (k : String)
    → lookup k want ≡ none
    → value k (merged (differing cur want) x) ≡ value k x
unfolding lookup differing
value-merged_other cur [] x k h = refl
value-merged_other cur ((j, v) ∷ want) x k h = ground (
  arith,
  string_eq.equals_iff j k,
  value-merged_other cur want x k,
  value-insert j k v (merged (differing cur want) x),
)

Agrees-insert :
    (k v : String) (x want : Row)
    → lookup k want ≡ none
    → Agrees x want
    → Agrees (insert k v x) want
unfolding lookup
Agrees-insert k v x [] h a = tt
Agrees-insert k v x ((j, w) ∷ want) h a = (
  ground (arith, string_eq.equals_iff j k, string_eq.equals_iff k j, value-insert k j v x),
  Agrees-insert k v x want (ground (arith, h)) a.1,
)

-- The map of a diff has the values of the record at the wanted fields.
abbrev pub Covers : Row → Row → Row → Type 0
Covers cur x = All (λ kv. value kv.0 cur ≡ value kv.0 x)

differing_same :
    (cur want : Row) (k v : String)
    → (value k cur == v) ≡ true
    → differing cur want ≡ differing cur ((k, v) ∷ want)
unfolding differing
differing_same cur want k v e = rw e refl

differing_other :
    (cur want : Row) (k v : String)
    → (value k cur == v) ≡ false
    → (k, v) ∷ differing cur want ≡ differing cur ((k, v) ∷ want)
unfolding differing
differing_other cur want k v e = rw e refl

pub differing-All :
    (P : String × String → Type 0) (cur want : Row) → All P want → All P (differing cur want)
differing-All P cur [] h = unfold differing in tt
differing-All P cur ((k, v) ∷ want) h = elim (Bool-cases (value k cur == v)) [
  | inl same ↦ subst (All P) (differing_same cur want k v same) (differing-All P cur want h.1)
  | inr other ↦
      subst (All P) (differing_other cur want k v other) (h.0, differing-All P cur want h.1)
]

pub Agrees-merged :
    (cur x want : Row)
    → Distinct want
    → Covers cur x want
    → Agrees (merged (differing cur want) x) want
Agrees-merged cur x [] d h = tt
Agrees-merged cur x ((k, v) ∷ want) d h = elim (Bool-cases (value k cur == v)) [
  | inl same ↦
      subst (λ diff. Agrees (merged diff x) ((k, v) ∷ want)) (differing_same cur want k v same)
        (
          ground (
            arith,
            h.0,
            string_eq.equals_iff (value k cur) v,
            value-merged_other cur want x k d.0,
          ),
          Agrees-merged cur x want d.1 h.1,
        )
  | inr other ↦
      subst (λ diff. Agrees (merged diff x) ((k, v) ∷ want)) (differing_other cur want k v other)
        (
          ground
              (arith, value-insert k k v (merged (differing cur want) x), string_eq.equals_iff k k),
          Agrees-insert k v (merged (differing cur want) x) want d.0
              (Agrees-merged cur x want d.1 h.1),
        )
]
