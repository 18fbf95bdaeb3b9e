-- ===== src/Tests/Nat.antt =====
-- internal/router/nat.go on a server's rule.
use awg_proxy_go.Prelude.{String, ℕ, suc, ◌≡◌, refl, true, List, [], ◌∷◌, none, some}
use awg_proxy_go.Prelude.Int.{pos}
use awg_proxy_go.Prelude.Netip.{no_addr, v4}
use awg_proxy_go.Prelude.Eq.{equals-ne, string_eq, nat_eq}
use awg_proxy_go.Prelude.Dict.{lookup}
use awg_proxy_go.Router.Api.{Row, Api, value}
use awg_proxy_go.Router.Nat.{
  DivertRule, chain_dst_nat, validate, AddrText, NatRule, nat_rule_from_map,
}
use awg_proxy_go.Router.Nat.Reconcile.{Reconciler, nat_comment, own_rules, remove, ensure}
use awg_proxy_go.Router.Nat.Reconcile.Removal.{foreign, remove-foreign}
use awg_proxy_go.Router.Table.{IsUnique}
use awg_proxy_go.Router.Nat.Reconcile.Wanted.{wanted_row}
use awg_proxy_go.Router.Nat.Reconcile.Converged.{IsConverged, ensure-IsConverged}
use awg_proxy_go.Router.Nat.Reconcile.{masq_comment, ensure_masq}
use awg_proxy_go.Router.Nat.Reconcile.Masquerade.{masq_row, ensure_masq-IsConverged}
use awg_proxy_go.Tests.Tables.{table, table_laws}

abbrev texts : AddrText
texts = record { show = λ _. "172.17.0.2"; show128 = λ _. "fd00::2/128" }

abbrev wanted : DivertRule
wanted = record {
  chain = chain_dst_nat;
  src_port = pos 0;
  dst_address = no_addr;
  dst_port = pos 51820;
  to_address = v4 0xac110002;
  to_port = pos 51821;
}

-- The rule as RouterOS prints it, behind one of another instance.
abbrev rows : List Row
rows =
    (("comment", "awgproxy-divert:wg1") ∷ [])
    ∷ ((".id", "*3")
        ∷ ("chain", "dstnat")
        ∷ ("protocol", "udp")
        ∷ ("action", "dst-nat")
        ∷ ("dst-port", "51820")
        ∷ ("to-addresses", "172.17.0.2")
        ∷ ("to-ports", "51821")
        ∷ ("disabled", "false")
        ∷ ("comment", "awgproxy-divert:wg0")
        ∷ [])
    ∷ []

-- A router that counts its writes.
abbrev counting : Api ℕ
counting = record {
  print = λ n _. (n, some rows);
  add = λ n _ _. (suc n, some "*9");
  set = λ n _ _ _. (suc n, true);
  remove = λ n _ _. (suc n, true);
}

abbrev reconciler : Reconciler
reconciler = record { iface = "wg0"; path = "/ip/firewall/nat"; last_log = "" }

abbrev existing : NatRule
existing = record {
  id = "*3";
  chain = "dstnat";
  protocol = "udp";
  action = "dst-nat";
  src_address = "";
  src_port = "";
  dst_address = "";
  dst_port = "51820";
  to_addresses = "172.17.0.2";
  to_ports = "51821";
  comment = "awgproxy-divert:wg0";
  disabled = "false";
  to_address = "";
}

wanted_valid : validate wanted ≡ none
unfolding validate
wanted_valid = refl

own_found : own_rules (nat_comment "wg0") rows ≡ existing ∷ []
unfolding own_rules value lookup nat_rule_from_map nat_comment
own_found = refl

abbrev own_and_other : List Row
own_and_other =
    ((".id", "*1") ∷ ("comment", "awgproxy-divert:wg1") ∷ [])
    ∷ ((".id", "*2") ∷ ("comment", "awgproxy-divert:wg0") ∷ [])
    ∷ []

ids_differ : IsUnique own_and_other
unfolding value lookup
ids_differ = ((equals-ne {A = String} "*2" "*1" refl, tt), (tt, tt))

remove-foreign_example :
    ((remove table own_and_other reconciler).2 ≡ none)
    × ((remove table own_and_other reconciler).0 ≡ foreign (nat_comment "wg0") own_and_other)
remove-foreign_example =
    remove-foreign table reconciler (λ rs. rs) (table_laws "/ip/firewall/nat") own_and_other
      ids_differ

-- The old rule of the proxy is in the wrong chain, and is built again.
ensure-IsConverged_example :
    ((ensure table texts own_and_other reconciler wanted).2 ≡ none)
    × IsConverged table reconciler
        (λ rs. rs)
        (table_laws "/ip/firewall/nat")
        (nat_comment "wg0")
        (wanted_row texts (nat_comment "wg0") wanted)
        own_and_other
        (ensure table texts own_and_other reconciler wanted).0
ensure-IsConverged_example =
    ensure-IsConverged table reconciler (λ rs. rs) (table_laws "/ip/firewall/nat") texts
      own_and_other wanted wanted_valid ids_differ

-- There is no masquerade rule yet.
ensure_masq-IsConverged_example :
    ((ensure_masq table own_and_other reconciler (some "10.8.0.0/24")).2 ≡ none)
    × IsConverged table reconciler
        (λ rs. rs)
        (table_laws "/ip/firewall/nat")
        (masq_comment "wg0")
        (masq_row (masq_comment "wg0") "10.8.0.0/24")
        own_and_other
        (ensure_masq table own_and_other reconciler (some "10.8.0.0/24")).0
ensure_masq-IsConverged_example =
    ensure_masq-IsConverged table reconciler (λ rs. rs) (table_laws "/ip/firewall/nat")
      "10.8.0.0/24" own_and_other ids_differ

-- The rule of the other instance is left.
left_over :
    foreign (nat_comment "wg0") own_and_other
    ≡ ((".id", "*1") ∷ ("comment", "awgproxy-divert:wg1") ∷ []) ∷ []
unfolding value lookup nat_comment
left_over = refl
