-- ===== src/Tests/Service.antt =====
-- cmd/awgproxy/main.go on a router with two NAT tables, and the supervisor behind one save.
use awg_proxy_go.Prelude.{
  ℕ, zero, suc, ◌≡◌, refl, Bool, true, false, String, [], ◌∷◌, Option, none, some,
}
use awg_proxy_go.Prelude.Eq.{equals-ne, string_eq}
use awg_proxy_go.Prelude.Int.{pos, int_eq}
use awg_proxy_go.Prelude.Netip.{no_addr, v4}
use awg_proxy_go.Prelude.Dict.{lookup}
use awg_proxy_go.Config.Settings.{Config}
use awg_proxy_go.Config.Convert.{fresh_config}
use awg_proxy_go.Router.Api.{value}
use awg_proxy_go.Router.Table.{IsUnique}
use awg_proxy_go.Router.Settings.{RouterConfig}
use awg_proxy_go.Router.Snapshot.{Upstream, Snapshot}
use awg_proxy_go.Router.Nat.{chain_dst_nat, DivertRule, AddrText, validate}
use awg_proxy_go.Router.Nat.Reconcile.{nat_comment}
use awg_proxy_go.Router.Nat.Reconcile.Removal.{foreign}
use awg_proxy_go.Service.{stale_config}
use awg_proxy_go.Service.Hooks.{ClientHook, ServerHook, client_tick, server_tick}
use awg_proxy_go.Service.Hooks.Tables.{IsClean, IsDiverted}
use awg_proxy_go.Service.Hooks.Diverted.{IsHookOf, rule_for, client_tick-IsDiverted}
use awg_proxy_go.Service.Hooks.Served.{IsServed6, server_tick-IsServed}
use awg_proxy_go.Service.Supervisor.{
  waiting, Supervisor, start, IsCurrent, cannot_load, own, writes, signals, here, next, Reach,
  Reach-IsCurrent,
}
use awg_proxy_go.Service.Supervisor.Progress.{OwnReach, HasLoaded, pending-HasLoaded}
use awg_proxy_go.Tests.Tables.{Tables, rows_of, tables, tables_laws, tables_apart}

abbrev texts : AddrText
texts = record { show = λ _. "172.17.0.2"; show128 = λ _. "fd00::2/128" }

abbrev upstream : Upstream
upstream = record {
  peer_id = "*4";
  server_pub = [];
  remote_addr = (v4 0xc0000207, 51820);
  psk = [];
  comment = "";
}

abbrev snapshot : Snapshot
snapshot = record {
  server_pub = [];
  server_priv = [];
  wg_listen_port = pos 13231;
  client_pubs = [];
  upstream = some upstream;
}

abbrev hook : ClientHook
hook = record {
  rec4 = record { iface = "wg0"; path = "/ip/firewall/nat"; last_log = "" };
  rec6 = record { iface = "wg0"; path = "/ipv6/firewall/nat"; last_log = "" };
  container_addr = v4 0xac110002;
  container_addr6 = no_addr;
  to_port = pos 51821;
  warned6 = false;
  last_is6 = none;
}

-- A rule of another instance and an old one of the proxy in each table.
abbrev before : Tables
before = record {
  ip4 =
      ((".id", "*1") ∷ ("comment", "awgproxy-divert:wg1") ∷ [])
      ∷ ((".id", "*2") ∷ ("comment", "awgproxy-divert:wg0") ∷ ("chain", "dstnat") ∷ [])
      ∷ [];
  ip6 =
      ((".id", "*1") ∷ ("comment", "awgproxy-divert:wg0") ∷ [])
      ∷ ((".id", "*2") ∷ ("comment", "awgproxy-divert:wg1") ∷ [])
      ∷ [];
}

hook_of : IsHookOf "wg0" hook
hook_of true = (refl, refl)
hook_of false = (refl, refl)

unique : (v6 : Bool) → IsUnique (rows_of v6 before)
unfolding value lookup
unique true = ((equals-ne {A = String} "*2" "*1" refl, tt), (tt, tt))
unique false = ((equals-ne {A = String} "*2" "*1" refl, tt), (tt, tt))

rule_valid : validate (rule_for hook snapshot upstream) ≡ none
unfolding validate
rule_valid = refl

client_tick-IsDiverted_example :
    IsDiverted texts rows_of "wg0" false
      (rule_for hook snapshot upstream)
      before
      (client_tick tables texts before hook snapshot).0
    × IsClean rows_of "wg0" true (client_tick tables texts before hook snapshot).0
    × (foreign (nat_comment "wg0") (client_tick tables texts before hook snapshot).0.ip6
        ≡ foreign (nat_comment "wg0") before.ip6)
client_tick-IsDiverted_example =
    client_tick-IsDiverted tables texts rows_of tables_laws tables_apart "wg0" before hook snapshot
      upstream hook_of (λ e. cc e) (equals-ne (pos 13231) (pos 0) refl) refl refl rule_valid unique

abbrev served : DivertRule
served = record {
  chain = chain_dst_nat;
  src_port = pos 0;
  dst_address = no_addr;
  dst_port = pos 443;
  to_address = v4 0xac110002;
  to_port = pos 51821;
}

-- The container has no IPv6 address.
abbrev server_hook : ServerHook
server_hook = record {
  rec4 = record { iface = "wg0"; path = "/ip/firewall/nat"; last_log = "" };
  rec6 = record { iface = "wg0"; path = "/ipv6/firewall/nat"; last_log = "" };
  want4 = served;
  want6 = record served { to_address = no_addr };
  cleaned6 = false;
}

served_valid : validate served ≡ none
unfolding validate
served_valid = refl

server_tick-IsServed_example :
    IsDiverted texts rows_of "wg0" false served before
      (server_tick tables texts before server_hook).0
    × IsServed6 tables texts rows_of tables_laws tables_apart "wg0" server_hook.want6 before
        (server_tick tables texts before server_hook).0
server_tick-IsServed_example =
    server_tick-IsServed tables texts rows_of tables_laws tables_apart "wg0" before server_hook
      (refl, refl, refl, refl) served_valid (λ e. cc e) (λ e. cc e) unique

abbrev config : Config
config = fresh_config "server" ":8080" (pos 0)

-- Every version but the first is a configuration.
abbrev load : ℕ → Option Config
load zero = none
load (suc v) = some config

abbrev unread : Supervisor
unread = record start { phase = waiting }

abbrev written : Supervisor
written = record unread { version = 1; unsignalled = 1 }

abbrev signalled : Supervisor
signalled = record written { pending = true; unsignalled = 0 }

to_signalled : Reach load start signalled
to_signalled =
    next (next (next here (own (cannot_load start refl refl))) (writes unread))
      (signals written 0 refl)

Reach-IsCurrent_example : IsCurrent signalled
Reach-IsCurrent_example = Reach-IsCurrent load signalled to_signalled

pending-HasLoaded_example : (t : Supervisor) × OwnReach load signalled t × HasLoaded load 1 t
pending-HasLoaded_example = pending-HasLoaded load signalled (λ e. cc e) (λ e. cc e) refl

-- A configuration without a password ran in between, so the rules of its predecessor with the same
-- interface are not removed when the interface changes.
abbrev access : String → String → RouterConfig
access iface password = record {
  address = "10.0.0.1";
  api_port = pos 8728;
  api_tls = false;
  user = "admin";
  password = password;
  iface = iface;
  interval = pos 0;
  mode = "client";
}

incomplete_between :
    (stale_config (some (access "wg0" "secret")) (access "wg0" "") ≡ none)
    × (stale_config (some (access "wg0" "")) (access "wg1" "secret") ≡ none)
    × (stale_config (some (access "wg0" "secret")) (access "wg1" "secret")
        ≡ some (access "wg0" "secret"))
unfolding stale_config
incomplete_between = (refl, refl, refl)
