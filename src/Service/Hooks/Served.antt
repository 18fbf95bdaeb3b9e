-- ===== src/Service/Hooks/Served.antt =====
-- cmd/awgproxy/main.go: the server's hook on the two NAT tables of a router.
use awg_proxy_go.Prelude.{
  ◌≡◌, refl, sym, ap, subst, ◌∙◌, Bool, Bool-cases, true, false, not, String, List, none, inl, inr,
}
use awg_proxy_go.Prelude.Netip.{is_valid}
use awg_proxy_go.Router.Api.{Row, Api}
use awg_proxy_go.Router.Table.{TableLaws, IsUnique}
use awg_proxy_go.Router.Nat.{DivertRule, AddrText, validate}
use awg_proxy_go.Router.Nat.Reconcile.{nat_comment, own_rules, ensure}
use awg_proxy_go.Router.Nat.Reconcile.Removal.{foreign}
use awg_proxy_go.Router.Nat.Reconcile.Untouched.{Keeps, ensure_keeps, remove_keeps_part}
use awg_proxy_go.Service.Hooks.{ServerHook, clean6, ensure6, server_tick}
use awg_proxy_go.Service.Hooks.Tables.{
  path_of, IsClean, IsDiverted, Keeps-of, removed-IsClean, ensured,
}

-- The reconcilers are those of the interface and of the two tables.
abbrev pub IsServerHookOf : String → ServerHook → Type 0
IsServerHookOf iface h =
    (h.rec4.path ≡ path_of false)
    × (h.rec4.iface ≡ iface)
    × (h.rec6.path ≡ path_of true)
    × (h.rec6.iface ≡ iface)

IsDiverted-same :
    {R : Type 0} (text : AddrText) (rows : Bool → R → List Row) (iface : String) (v6 : Bool)
    (want : DivertRule) (r r' old old' : R)
    → rows v6 r ≡ rows v6 r'
    → rows v6 old ≡ rows v6 old'
    → IsDiverted text rows iface v6 want old r
    → IsDiverted text rows iface v6 want old' r'
IsDiverted-same text rows iface v6 want r r' old old' e e' (x, one, a, others) = (
  x,
  ap (own_rules (nat_comment iface)) (sym e) ∙ one,
  a,
  ap (foreign (nat_comment iface)) (sym e) ∙ others ∙ ap (foreign (nat_comment iface)) e',
)

-- `rows true` is the IPv6 table and `rows false` the IPv4 table.
module _ {R : Type 0} (api : Api R) (text : AddrText) (rows : Bool → R → List Row)
    (laws : (v6 : Bool) → TableLaws api (path_of v6) (rows v6))
    (apart : (v6 : Bool) → Keeps api (path_of v6) (rows (not v6))) (iface : String) where
  -- What the hook leaves in the IPv6 table, the container's IPv6 address being known or not.
  abbrev pub IsServed6 : DivertRule → R → R → Type 0
  IsServed6 want r r' =
      (is_valid want.to_address ≡ true → IsDiverted text rows iface true want r r')
      × (is_valid want.to_address ≡ false
          → IsClean rows iface true r'
            × (foreign (nat_comment iface) (rows true r')
                ≡ foreign (nat_comment iface) (rows true r)))

  ensure6-IsServed6 :
      (r : R) (h : ServerHook)
      → h.rec6.path ≡ path_of true
      → h.rec6.iface ≡ iface
      → (is_valid h.want6.to_address ≡ true → validate h.want6 ≡ none)
      → (h.cleaned6 ≡ true → IsClean rows iface true r)
      → IsUnique (rows true r)
      → (rows false (ensure6 api text r h).0 ≡ rows false r)
        × IsServed6 h.want6 r (ensure6 api text r h).0
  unfolding ensure6 clean6
  ensure6-IsServed6 r h at named valid cleaned unique =
      let keeps = Keeps-of api text rows laws apart iface h.rec6 true at in
      elim (Bool-cases (is_valid h.want6.to_address)) [
        | inl e ↦
            rw (ensure6, e)
              (
                ensure_keeps api h.rec6 (rows false) keeps text r h.want6,
                (
                  (λ k.
                      ensured api text rows laws apart iface true r h.rec6 h.want6 at named
                        (valid e) unique),
                  (λ k. cc),
                ),
              )
        | inr e ↦ elim (Bool-cases h.cleaned6) [
          | inl done ↦ rw (ensure6, e, done) (refl, ((λ k. cc), (λ k. (cleaned done, refl))))
          | inr todo ↦
              let (_, clean, same) =
                removed-IsClean api text rows laws apart iface h.rec6 true r at named unique in
              rw (ensure6, e, todo)
                (
                  remove_keeps_part api h.rec6 (rows false) keeps r,
                  ((λ k. cc), (λ k. (clean, same))),
                )
        ]
      ]

  server_tick-ensure6 :
      (r : R) (h : ServerHook)
      → server_tick api text r h
        ≡ ensure6 api text
            (ensure api text r h.rec4 h.want4).0
            (record h { rec4 = (ensure api text r h.rec4 h.want4).1 })
  unfolding server_tick
  server_tick-ensure6 r h = refl

  -- On a router whose two NAT tables obey the laws, change independently and have records with ids of
  -- their own, where the rules are valid: behind a tick the IPv4 table has exactly one rule of the
  -- proxy, with the wanted fields. So has the IPv6 table, if the container has an IPv6 address; else
  -- it has none. The records of others are as they were. The hook may know that the IPv6 table is
  -- clean only where it is.
  pub server_tick-IsServed :
      (r : R) (h : ServerHook)
      → IsServerHookOf iface h
      → validate h.want4 ≡ none
      → (is_valid h.want6.to_address ≡ true → validate h.want6 ≡ none)
      → (h.cleaned6 ≡ true → IsClean rows iface true r)
      → ((v6 : Bool) → IsUnique (rows v6 r))
      → IsDiverted text rows iface false h.want4 r (server_tick api text r h).0
        × IsServed6 h.want6 r (server_tick api text r h).0
  server_tick-IsServed r h (at4, named4, at6, named6) valid4 valid6 cleaned unique =
      let r1 = (ensure api text r h.rec4 h.want4).0 in
      let h1 = record h { rec4 = (ensure api text r h.rec4 h.want4).1 } in
      let kept : rows true r1 ≡ rows true r =
        ensure_keeps api h.rec4 (rows true)
          (Keeps-of api text rows laws apart iface h.rec4 false at4) text r h.want4 in
      let one =
        ensured api text rows laws apart iface false r h.rec4 h.want4 at4 named4 valid4
          (unique false) in
      let (same, left) =
        ensure6-IsServed6 r1 h1 at6 named6 valid6
          (λ e. ap (own_rules (nat_comment iface)) kept ∙ cleaned e)
          (subst IsUnique (sym kept) (unique true)) in
      let result = sym (server_tick-ensure6 r h) in
      subst (λ o. IsDiverted text rows iface false h.want4 r o.0 × IsServed6 h.want6 r o.0) result
        (
          IsDiverted-same text rows iface false h.want4 r1 _ r r (sym same) refl one,
          (
            (λ e. IsDiverted-same text rows iface true h.want6 _ _ r1 r refl kept (left.0 e)),
            (λ e. ((left.1 e).0, (left.1 e).1 ∙ ap (foreign (nat_comment iface)) kept)),
          ),
        )
