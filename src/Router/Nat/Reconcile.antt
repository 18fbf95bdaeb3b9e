-- ===== src/Router/Nat/Reconcile.antt =====
-- internal/router/nat.go: NatReconciler and MasqueradeReconciler. The router is a parameter; a
-- reconciler's log says only what `last_log` becomes.
pub mod Settled
pub mod Removal
pub mod Split
pub mod Merge
pub mod Wanted
pub mod Placed
pub mod Repeated
pub mod Untouched
pub mod Converged
pub mod Masquerade
use awg_proxy_go.Prelude.{
  Bool, true, false, String, List, [], ◌∷◌, Option, none, some, if◌then◌else◌,
}
use awg_proxy_go.Prelude.Eq.{◌==◌, string_eq}
use awg_proxy_go.Prelude.Dict.{insert}
use awg_proxy_go.Config.Convert.{◌+s◌}
use awg_proxy_go.Router.Api.{Row, Api, value}
use awg_proxy_go.Router.Nat.{
  DivertRule, NatError, bad_network, call_failed, validate, AddrText, fields, NatRule,
  nat_rule_from_map, diff_fields, diff_masq_fields,
}

unfoldable pub nat_comment : String → String
nat_comment iface = "awgproxy-divert:" +s iface

unfoldable pub masq_comment : String → String
masq_comment iface = "awgproxy-masquerade:" +s iface

pub record Reconciler : Type 0 where
  pub iface : String
  pub path : String
  pub last_log : String

unfoldable pub new_nat : String → Reconciler
new_nat iface = record { iface = iface; path = "/ip/firewall/nat"; last_log = "" }

unfoldable pub new_nat6 : String → Reconciler
new_nat6 iface = record { iface = iface; path = "/ipv6/firewall/nat"; last_log = "" }

-- The masquerade rule stands in the IPv4 table.
unfoldable pub new_masq : String → Reconciler
new_masq iface = record { iface = iface; path = "/ip/firewall/nat"; last_log = "" }

abbrev pub log_transition : Reconciler → String → Reconciler
log_transition n action = if action == n.last_log then n else record n { last_log = action }

unfoldable pub own_rules : String → List Row → List NatRule
unfolding value nat_rule_from_map
own_rules want [] = []
own_rules want (r ∷ rows) =
    let rest = own_rules want rows in
    if value "comment" r == want then nat_rule_from_map r ∷ rest else rest

module _ {R : Type 0} (api : Api R) where
  abbrev pub Result : Type 0
  Result = R × Reconciler × Option NatError

  unfoldable pub list_rules : R → String → String → R × Option (List NatRule)
  unfolding own_rules
  list_rules r path want =
      let (r', rows) = api.print r path in
      (r', elim rows [ none ↦ none | some xs ↦ some (own_rules want xs) ])

  -- The rules behind the first; an error is ignored.
  unfoldable pub remove_extra : R → String → List NatRule → R
  remove_extra r path [] = r
  remove_extra r path (x ∷ xs) = remove_extra (api.remove r path x.id).0 path xs

  pub add_rule : R → Reconciler → Row → String → Result
  add_rule r n want action =
      let (r', id) = api.add r n.path want in
      elim id [ none ↦ (r', n, some call_failed) | some _ ↦ (r', log_transition n action, none) ]

  rebuild : R → Reconciler → NatRule → Row → Result
  unfolding add_rule
  rebuild r n existing want =
      let (r', removed) = api.remove r n.path existing.id in
      if removed then add_rule r' n want "rebuilt" else (r', n, some call_failed)

  pub update : R → Reconciler → NatRule → Row → Result
  update r n existing [] = (r, log_transition n "active", none)
  update r n existing (d ∷ diff) =
      let (r', done) = api.set r n.path existing.id (d ∷ diff) in
      if done then (r', log_transition n "updated", none) else (r', n, some call_failed)

  converge : R → Reconciler → String → Row → List NatRule → Result
  unfolding remove_extra add_rule rebuild update diff_fields
  converge r n chain want [] = add_rule r n want "installed"
  converge r n chain want (existing ∷ extra) =
      let r' = remove_extra r n.path extra in
      if existing.chain == chain
      then update r' n existing (diff_fields existing want)
      else rebuild r' n existing want

  unfoldable pub ensure_listed : Reconciler → String → Row → R × Option (List NatRule) → Result
  unfolding converge
  ensure_listed n chain want (r, none) = (r, n, some call_failed)
  ensure_listed n chain want (r, some cur) = converge r n chain want cur

  -- NatReconciler.Ensure
  unfoldable pub ensure : AddrText → R → Reconciler → DivertRule → Result
  unfolding validate fields insert nat_comment list_rules ensure_listed
  ensure x r n want = elim (validate want) [
    | some e ↦ (r, n, some e)
    | none ↦
        ensure_listed n want.chain (insert "comment" (nat_comment n.iface) (fields x want))
          (list_rules r n.path (nat_comment n.iface))
  ]

  -- The loop of Remove, up to the first error.
  unfoldable pub remove_all : R → String → List NatRule → R × Bool
  remove_all r path [] = (r, true)
  remove_all r path (x ∷ xs) =
      let (r', removed) = api.remove r path x.id in
      let rest = remove_all r' path xs in if removed then rest else (r', false)

  remove_listed : Reconciler → R × Option (List NatRule) → Result
  unfolding remove_all
  remove_listed n (r, none) = (r, n, some call_failed)
  remove_listed n (r, some []) = (r, n, none)
  remove_listed n (r, some (x ∷ xs)) =
      let (r', removed) = remove_all r n.path (x ∷ xs) in
      if removed then (r', log_transition n "removed", none) else (r', n, some call_failed)

  -- NatReconciler.Remove
  unfoldable pub remove : R → Reconciler → Result
  unfolding list_rules nat_comment remove_listed
  remove r n = remove_listed n (list_rules r n.path (nat_comment n.iface))

  converge_masq : R → Reconciler → Row → List NatRule → Result
  unfolding remove_extra add_rule update diff_masq_fields
  converge_masq r n want [] = add_rule r n want "installed"
  converge_masq r n want (existing ∷ extra) =
      update (remove_extra r n.path extra) n existing (diff_masq_fields existing want)

  masq_listed : Reconciler → Row → R × Option (List NatRule) → Result
  unfolding converge_masq
  masq_listed n want (r, none) = (r, n, some call_failed)
  masq_listed n want (r, some cur) = converge_masq r n want cur

  -- MasqueradeReconciler.Ensure, on a reconciler of `new_masq`: `network` is the text of a prefix,
  -- `none` for an invalid one.
  unfoldable pub ensure_masq : R → Reconciler → Option String → Result
  unfolding masq_comment list_rules masq_listed
  ensure_masq r n none = (r, n, some bad_network)
  ensure_masq r n (some network) =
      let comment = masq_comment n.iface in
      masq_listed n
        (("chain", "srcnat")
          ∷ ("action", "masquerade")
          ∷ ("src-address", network)
          ∷ ("comment", comment)
          ∷ ("disabled", "false")
          ∷ [])
        (list_rules r n.path comment)

  -- MasqueradeReconciler.Remove
  unfoldable pub remove_masq : R → Reconciler → Result
  unfolding list_rules masq_comment remove_listed
  remove_masq r n = remove_listed n (list_rules r n.path (masq_comment n.iface))
