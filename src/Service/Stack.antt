-- ===== src/Service/Stack.antt =====
-- cmd/awgproxy/main.go: startStack's choice of the hooks, the masquerade hook and the clean-up.
use awg_proxy_go.Prelude.{Bool, not, ◌&&◌, String, List, [], ◌∷◌, Option, none, some, if◌then◌else◌}
use awg_proxy_go.Prelude.Eq.{◌==◌, string_eq}
use awg_proxy_go.Prelude.Netip.{Addr}
use awg_proxy_go.Config.Settings.{Config}
use awg_proxy_go.Router.Api.{Api}
use awg_proxy_go.Router.Settings.{RouterConfig, mode_client, mode_server}
use awg_proxy_go.Router.Snapshot.{Snapshot}
use awg_proxy_go.Router.Peers.{InterfaceInfo, list_interfaces}
use awg_proxy_go.Router.Nat.{AddrText}
use awg_proxy_go.Router.Nat.Reconcile.{
  Reconciler, new_nat, new_nat6, new_masq, remove, ensure_masq, remove_masq,
}
use awg_proxy_go.Service.Hooks.{
  ClientHook, ServerHook, make_client_divert_hook, make_server_divert_hook, client_tick,
  server_tick,
}

pub data DivertHook : Type 0 where
  no_divert : DivertHook
  client_divert : ClientHook → DivertHook
  server_divert : ServerHook → DivertHook

-- The hooks of a stack, and which rules it removes once when it starts.
pub record Stack : Type 0 where
  pub divert : DivertHook
  pub masquerade : Option Reconciler
  pub clean_divert : Bool
  pub clean_masquerade : Bool

client_choice : Option ClientHook → DivertHook
client_choice none = no_divert
client_choice (some h) = client_divert h

server_choice : Option ServerHook → DivertHook
server_choice none = no_divert
server_choice (some h) = server_divert h

divert_choice : (String → Option Addr) → Config → RouterConfig → DivertHook
unfolding client_choice server_choice make_client_divert_hook make_server_divert_hook
divert_choice parse_addr cfg c =
    if not cfg.divert
    then no_divert
    else if cfg.mode == mode_client
    then client_choice (make_client_divert_hook parse_addr c cfg)
    else if cfg.mode == mode_server
    then server_choice (make_server_divert_hook parse_addr c cfg)
    else no_divert

wants_masquerade : Config → Bool
wants_masquerade cfg = cfg.masquerade && cfg.mode == mode_server && not (cfg.router.address == "")

unfoldable pub start_stack : (String → Option Addr) → Config → RouterConfig → Stack
unfolding divert_choice wants_masquerade
start_stack parse_addr cfg c = record {
  divert = divert_choice parse_addr cfg c;
  masquerade = if wants_masquerade cfg then some (new_masq c.iface) else none;
  clean_divert = not cfg.divert && not (cfg.router.address == "");
  clean_masquerade = not (wants_masquerade cfg) && not (cfg.router.address == "");
}

-- The address of the first interface of the name, empty where there is none.
unfoldable pub address_of : String → List InterfaceInfo → String
address_of iface [] = ""
address_of iface (it ∷ ifs) =
    let rest = address_of iface ifs in if it.name == iface then it.address else rest

-- `masked` gives the text of the masked prefix of ParsePrefix, `none` for an error.
module _ {R : Type 0} (api : Api R) (text : AddrText) (masked : String → Option String) where
  keep_masquerade : R → Reconciler → Option String → R × Reconciler
  unfolding ensure_masq
  keep_masquerade r n none = (r, n)
  keep_masquerade r n (some network) =
      let (r', n', _) = ensure_masq api r n (some network) in (r', n')

  masquerade_on : String → Reconciler → R × Option (List InterfaceInfo) → R × Reconciler
  unfolding address_of keep_masquerade
  masquerade_on iface n (r, none) = (r, n)
  masquerade_on iface n (r, some ifs) =
      let addr = address_of iface ifs in
      if addr == "" then (r, n) else keep_masquerade r n (masked addr)

  -- The hook of makeMasqueradeHook.
  unfoldable pub masquerade_tick : String → R → Reconciler → R × Reconciler
  unfolding list_interfaces masquerade_on
  masquerade_tick iface r n = masquerade_on iface n (list_interfaces api r)

  divert_tick : R → DivertHook → Snapshot → R × DivertHook
  unfolding client_tick server_tick
  divert_tick r no_divert snap = (r, no_divert)
  divert_tick r (client_divert h) snap =
      let (r', h') = client_tick api text r h snap in (r', client_divert h')
  divert_tick r (server_divert h) snap =
      let (r', h') = server_tick api text r h in (r', server_divert h')

  then_masquerade : String → R → Stack → Option Reconciler → R × Stack
  unfolding masquerade_tick
  then_masquerade iface r s none = (r, s)
  then_masquerade iface r s (some n) =
      let (r', n') = masquerade_tick iface r n in (r', record s { masquerade = some n' })

  -- onTick: the hooks in their order.
  unfoldable pub on_tick : String → R → Stack → Snapshot → R × Stack
  unfolding divert_tick then_masquerade
  on_tick iface r s snap =
      let (r', h) = divert_tick r s.divert snap in
      then_masquerade iface r' (record s { divert = h }) s.masquerade

  unfoldable pub cleanup_divert : R → String → R
  unfolding remove
  cleanup_divert r iface =
      let (r', _, _) = remove api r (new_nat iface) in (remove api r' (new_nat6 iface)).0

  unfoldable pub cleanup_masquerade : R → String → R
  unfolding remove_masq
  cleanup_masquerade r iface = (remove_masq api r (new_masq iface)).0
