-- ===== src/Service/Hooks/Diverted.antt =====
-- cmd/awgproxy/main.go: the client's hook on the two NAT tables of a router.
use awg_proxy_go.Prelude.{
  ◌≡◌, ◌≢◌, refl, sym, ap, subst, ◌∙◌, Bool, Bool-cases, true, false, not, String, List, Option,
  none, some, inl, inr,
}
use awg_proxy_go.Prelude.Eq.{ne-equals}
use awg_proxy_go.Prelude.Int.{pos, int_eq}
use awg_proxy_go.Prelude.Netip.{is6, is_valid, unmap}
use awg_proxy_go.Router.Api.{Row, Api}
use awg_proxy_go.Router.Table.{TableLaws, IsUnique}
use awg_proxy_go.Router.Snapshot.{Upstream, Snapshot}
use awg_proxy_go.Router.Nat.{DivertRule, AddrText, validate}
use awg_proxy_go.Router.Nat.Reconcile.{Reconciler, nat_comment, own_rules, ensure, remove}
use awg_proxy_go.Router.Nat.Reconcile.Removal.{foreign}
use awg_proxy_go.Router.Nat.Reconcile.Untouched.{Keeps, ensure_keeps, remove_keeps_part}
use awg_proxy_go.Service.Hooks.{
  ClientHook, rec_of, with_rec, to_of, is_switch, client_rule, remove_rec, leave_other, keep_rule,
  divert_to, client_tick,
}
use awg_proxy_go.Service.Hooks.Tables.{
  path_of, IsClean, IsDiverted, Keeps-of, removed-IsClean, ensured,
}

-- The reconcilers are those of the interface and of the two tables.
abbrev pub IsHookOf : String → ClientHook → Type 0
IsHookOf iface h = (v6 : Bool) → ((rec_of v6 h).path ≡ path_of v6) × ((rec_of v6 h).iface ≡ iface)

-- The family of the upstream's address, `true` for IPv6.
abbrev pub family : Upstream → Bool
family u = is6 (unmap u.remote_addr.0)

other_rec :
    (v6 : Bool) (n : Reconciler) (h : ClientHook) → rec_of v6 (with_rec (not v6) n h) ≡ rec_of v6 h
other_rec true n h = refl
other_rec false n h = refl

other_to : (v6 k : Bool) (n : Reconciler) (h : ClientHook) → to_of k (with_rec v6 n h) ≡ to_of k h
other_to true true n h = refl
other_to true false n h = refl
other_to false true n h = refl
other_to false false n h = refl

other_port : (v6 : Bool) (n : Reconciler) (h : ClientHook) → (with_rec v6 n h).to_port ≡ h.to_port
other_port true n h = refl
other_port false n h = refl

known_rec : (v6 k : Bool) (h : ClientHook) → rec_of k (record h { last_is6 = some v6 }) ≡ rec_of k h
known_rec v6 true h = refl
known_rec v6 false h = refl

known_to : (v6 k : Bool) (h : ClientHook) → to_of k (record h { last_is6 = some v6 }) ≡ to_of k h
known_to v6 true h = refl
known_to v6 false h = refl

not-not : (b : Bool) → not (not b) ≡ b
not-not true = refl
not-not false = refl

not_switch : (last : Option Bool) (v6 : Bool) → is_switch last v6 ≡ false → last ≡ some v6
not_switch none v6 h = cc
not_switch (some true) true h = refl
not_switch (some true) false h = cc
not_switch (some false) true h = cc
not_switch (some false) false h = refl

-- The rule for an upstream.
abbrev pub rule_for : ClientHook → Snapshot → Upstream → DivertRule
rule_for h snap u = client_rule snap u (to_of (family u) h) h.to_port

-- `rows true` is the IPv6 table and `rows false` the IPv4 table.
module _ {R : Type 0} (api : Api R) (text : AddrText) (rows : Bool → R → List Row)
    (laws : (v6 : Bool) → TableLaws api (path_of v6) (rows v6))
    (apart : (v6 : Bool) → Keeps api (path_of v6) (rows (not v6))) (iface : String) where
  -- What the removal of the other family's rule leaves.
  abbrev HasLeft : Bool → R → ClientHook → R × ClientHook → Type 0
  HasLeft v6 r h o =
      IsClean rows iface (not v6) o.0
      × (foreign (nat_comment iface) (rows (not v6) o.0)
          ≡ foreign (nat_comment iface) (rows (not v6) r))
      × (rows v6 o.0 ≡ rows v6 r)
      × (rec_of v6 o.1 ≡ rec_of v6 h)
      × (to_of v6 o.1 ≡ to_of v6 h)
      × (o.1.to_port ≡ h.to_port)

  left_other :
      (v6 : Bool) (r : R) (h : ClientHook)
      → IsHookOf iface h
      → IsUnique (rows (not v6) r)
      → (h.last_is6 ≡ some v6 → IsClean rows iface (not v6) r)
      → HasLeft v6 r h (leave_other api text v6 r h)
  unfolding leave_other remove_rec
  left_other v6 r h of unique known =
      let n = rec_of (not v6) h in
      let (at, named) = of (not v6) in
      let (done, clean, same) =
        removed-IsClean api text rows laws apart iface n (not v6) r at named unique in
      let n' = (remove api r n).1 in
      elim (Bool-cases (is_switch h.last_is6 v6)) [
        | inl e ↦
            rw (leave_other, e, done)
              (
                clean,
                same,
                ap (λ k. rows k (remove api r n).0) (sym (not-not v6))
                    ∙ remove_keeps_part api n (rows (not (not v6)))
                        (Keeps-of api text rows laws apart iface n (not v6) at) r
                    ∙ ap (λ k. rows k r) (not-not v6),
                known_rec v6 v6 (with_rec (not v6) n' h) ∙ other_rec v6 n' h,
                known_to v6 v6 (with_rec (not v6) n' h) ∙ other_to (not v6) v6 n' h,
                other_port (not v6) n' h,
              )
        | inr e ↦
            rw (leave_other, e) (known (not_switch h.last_is6 v6 e), refl, refl, refl, refl, refl)
      ]

  kept_rule :
      (v6 : Bool) (r : R) (h : ClientHook) (want : DivertRule)
      → is_valid want.to_address ≡ true
      → (keep_rule api text v6 r h want).0 ≡ (ensure api text r (rec_of v6 h) want).0
  unfolding keep_rule remove_rec
  kept_rule v6 r h want good = rw (keep_rule, good) refl

  tick-some :
      (r : R) (h : ClientHook) (snap : Snapshot) (u : Upstream)
      → snap.wg_listen_port ≢ pos 0
      → snap.upstream ≡ some u
      → client_tick api text r h snap ≡ divert_to api text snap r h (some u)
  unfolding client_tick
  tick-some r h snap u port up =
      rw (client_tick, ne-equals snap.wg_listen_port (pos 0) port, up) refl

  divert_to-keep_rule :
      (r : R) (h : ClientHook) (snap : Snapshot) (u : Upstream)
      → divert_to api text snap r h (some u)
        ≡ keep_rule api text
            (family u)
            (leave_other api text (family u) r h).0
            (leave_other api text (family u) r h).1
            (client_rule snap u
              (to_of (family u) (leave_other api text (family u) r h).1)
              (leave_other api text (family u) r h).1.to_port)
  unfolding divert_to
  divert_to-keep_rule r h snap u = refl

  kept-IsDiverted :
      (v6 : Bool) (r : R) (h : ClientHook) (o : R × ClientHook) (want : DivertRule)
      → IsHookOf iface h
      → HasLeft v6 r h o
      → is_valid want.to_address ≡ true
      → validate want ≡ none
      → IsUnique (rows v6 r)
      → IsDiverted text rows iface v6 want r (keep_rule api text v6 o.0 o.1 want).0
        × IsClean rows iface (not v6) (keep_rule api text v6 o.0 o.1 want).0
        × (foreign (nat_comment iface) (rows (not v6) (keep_rule api text v6 o.0 o.1 want).0)
            ≡ foreign (nat_comment iface) (rows (not v6) r))
  kept-IsDiverted v6 r h o want of (clean, same, table, rec, _, _) good valid unique =
      let n = rec_of v6 o.1 in
      let at : n.path ≡ path_of v6 = ap (λ k. k.path) rec ∙ (of v6).0 in
      let named : n.iface ≡ iface = ap (λ k. k.iface) rec ∙ (of v6).1 in
      let kept = kept_rule v6 o.0 o.1 want good in
      let left : rows (not v6) (keep_rule api text v6 o.0 o.1 want).0 ≡ rows (not v6) o.0 =
        ap (rows (not v6)) kept
        ∙ ensure_keeps api n (rows (not v6)) (Keeps-of api text rows laws apart iface n v6 at) text
            o.0 want in
      let (x, one, a, others) =
        ensured api text rows laws apart iface v6 o.0 n want at named valid
          (subst IsUnique (sym table) unique) in
      (
        (
          x,
          ap (λ k. own_rules (nat_comment iface) (rows v6 k)) kept ∙ one,
          a,
          ap (λ k. foreign (nat_comment iface) (rows v6 k)) kept
              ∙ others
              ∙ ap (foreign (nat_comment iface)) table,
        ),
        ap (own_rules (nat_comment iface)) left ∙ clean,
        ap (foreign (nat_comment iface)) left ∙ same,
      )

  -- On a router whose two NAT tables obey the laws, change independently and have records with ids of
  -- their own: after a poll that found an upstream and a listen port, where the container has an
  -- address of the upstream's family and the rule is valid, the table of that family has exactly one
  -- rule of the proxy, with the wanted fields, and the other table has none; the records of others
  -- are as they were. The hook may know that the last upstream had this family only where the other
  -- table has no rule of the proxy.
  pub client_tick-IsDiverted :
      (r : R) (h : ClientHook) (snap : Snapshot) (u : Upstream)
      → IsHookOf iface h
      → (h.last_is6 ≡ some (family u) → IsClean rows iface (not (family u)) r)
      → snap.wg_listen_port ≢ pos 0
      → snap.upstream ≡ some u
      → is_valid (to_of (family u) h) ≡ true
      → validate (rule_for h snap u) ≡ none
      → ((v6 : Bool) → IsUnique (rows v6 r))
      → IsDiverted text rows iface
          (family u)
          (rule_for h snap u)
          r
          (client_tick api text r h snap).0
        × IsClean rows iface (not (family u)) (client_tick api text r h snap).0
        × (foreign (nat_comment iface) (rows (not (family u)) (client_tick api text r h snap).0)
            ≡ foreign (nat_comment iface) (rows (not (family u)) r))
  client_tick-IsDiverted r h snap u of known port up good valid unique =
      let v6 = family u in
      let o = leave_other api text v6 r h in
      let left = left_other v6 r h of (unique (not v6)) known in
      let want = rule_for h snap u in
      let same : client_rule snap u (to_of v6 o.1) o.1.to_port ≡ want =
        ap (λ a. client_rule snap u a o.1.to_port) left.4
        ∙ ap (λ p. client_rule snap u (to_of v6 h) p) left.5 in
      let ticked : client_tick api text r h snap ≡ keep_rule api text v6 o.0 o.1 want =
        tick-some r h snap u port up
        ∙ divert_to-keep_rule r h snap u
        ∙ ap (keep_rule api text v6 o.0 o.1) same in
      let (one, clean, others) = kept-IsDiverted v6 r h o want of left good valid (unique v6) in
      (
        subst (λ k. IsDiverted text rows iface v6 want r k.0) (sym ticked) one,
        ap (λ k. own_rules (nat_comment iface) (rows (not v6) k.0)) ticked ∙ clean,
        ap (λ k. foreign (nat_comment iface) (rows (not v6) k.0)) ticked ∙ others,
      )
