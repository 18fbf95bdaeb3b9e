-- ===== src/Service/Hooks.antt =====
-- cmd/awgproxy/main.go: the hooks that the poller runs after a successful poll. The router is a
-- parameter; a failing call is only logged.
pub mod Tables
pub mod Diverted
pub mod Served
use awg_proxy_go.Prelude.{
  ℕ, Bool, true, false, not, ◌&&◌, ◌||◌, String, List, [], ◌∷◌, Option, none, some, if◌then◌else◌,
}
use awg_proxy_go.Prelude.Eq.{◌==◌, string_eq}
use awg_proxy_go.Prelude.Int.{ℤ, pos, int_eq}
use awg_proxy_go.Prelude.Netip.{Addr, no_addr, is6, is_valid, unmap}
use awg_proxy_go.Config.Settings.{Config}
use awg_proxy_go.Router.Api.{Api}
use awg_proxy_go.Router.Settings.{RouterConfig, mode_client, mode_server}
use awg_proxy_go.Router.Snapshot.{Upstream, Snapshot}
use awg_proxy_go.Router.Peers.{InterfaceInfo, list_interfaces}
use awg_proxy_go.Router.Nat.{chain_output, chain_dst_nat, DivertRule, NatError, AddrText, same_bool}
use awg_proxy_go.Router.Nat.Reconcile.{
  Reconciler, new_nat, new_nat6, new_masq, ensure, remove, ensure_masq, remove_masq,
}
use awg_proxy_go.Service.{port_from_listen, port_from_endpoint}

-- What the hook of makeClientDivertHook holds. `last_is6` is `none` while the family of the last
-- upstream is not known.
pub record ClientHook : Type 0 where
  pub rec4 : Reconciler
  pub rec6 : Reconciler
  pub container_addr : Addr
  pub container_addr6 : Addr
  pub to_port : ℤ
  pub warned6 : Bool
  pub last_is6 : Option Bool

pub record ServerHook : Type 0 where
  pub rec4 : Reconciler
  pub rec6 : Reconciler
  pub want4 : DivertRule
  pub want6 : DivertRule
  pub cleaned6 : Bool

abbrev pub addr_or_none : Option Addr → Addr
addr_or_none none = no_addr
addr_or_none (some a) = a

module _ (parse_addr : String → Option Addr) where
  client_hook : RouterConfig → Config → Option Addr → Option ℤ → Option ClientHook
  client_hook c cfg none port = none
  client_hook c cfg (some addr) none = none
  client_hook c cfg (some addr) (some port) = some (record {
    rec4 = new_nat c.iface;
    rec6 = new_nat6 c.iface;
    container_addr = addr;
    container_addr6 = addr_or_none (parse_addr cfg.container_addr6);
    to_port = port;
    warned6 = false;
    last_is6 = none;
  })

  -- `none` where divert is disabled.
  unfoldable pub make_client_divert_hook : RouterConfig → Config → Option ClientHook
  unfolding client_hook port_from_listen
  make_client_divert_hook c cfg =
      client_hook c cfg (parse_addr cfg.container_addr) (port_from_listen cfg.listen)

  external_port : String → ℤ → ℤ
  unfolding port_from_endpoint
  external_port ep port =
      if ep == "" then port else elim (port_from_endpoint ep) [ some p ↦ p | none ↦ port ]

  abbrev server_rule : ℤ → ℤ → Addr → DivertRule
  server_rule dst_port to_port to = record {
    chain = chain_dst_nat;
    src_port = pos 0;
    dst_address = no_addr;
    dst_port = dst_port;
    to_address = to;
    to_port = to_port;
  }

  server_hook : RouterConfig → Config → Option Addr → Option ℤ → Option ServerHook
  unfolding external_port
  server_hook c cfg none port = none
  server_hook c cfg (some addr) none = none
  server_hook c cfg (some addr) (some port) = some (record {
    rec4 = new_nat c.iface;
    rec6 = new_nat6 c.iface;
    want4 = server_rule (external_port cfg.public_endpoint port) port addr;
    want6 =
        server_rule (external_port cfg.public_endpoint port) port
          (addr_or_none (parse_addr cfg.container_addr6));
    cleaned6 = false;
  })

  unfoldable pub make_server_divert_hook : RouterConfig → Config → Option ServerHook
  unfolding server_hook port_from_listen
  make_server_divert_hook c cfg =
      server_hook c cfg (parse_addr cfg.container_addr) (port_from_listen cfg.listen)

-- The reconciler of a family, IPv6 for `true`.
abbrev pub rec_of : Bool → ClientHook → Reconciler
rec_of true h = h.rec6
rec_of false h = h.rec4

abbrev pub with_rec : Bool → Reconciler → ClientHook → ClientHook
with_rec true n h = record h { rec6 = n }
with_rec false n h = record h { rec4 = n }

abbrev pub to_of : Bool → ClientHook → Addr
to_of true h = h.container_addr6
to_of false h = h.container_addr

-- *lastIs6 != dst.Is6(), or nothing is known.
abbrev pub is_switch : Option Bool → Bool → Bool
is_switch none v6 = true
is_switch (some last) v6 = not (same_bool last v6)

abbrev pub client_rule : Snapshot → Upstream → Addr → ℤ → DivertRule
client_rule snap u to port = record {
  chain = chain_output;
  src_port = snap.wg_listen_port;
  dst_address = unmap u.remote_addr.0;
  dst_port = pos u.remote_addr.1;
  to_address = to;
  to_port = port;
}

module _ {R : Type 0} (api : Api R) (text : AddrText) where
  unfoldable pub remove_rec : Bool → R → ClientHook → R × ClientHook × Option NatError
  unfolding remove
  remove_rec v6 r h = let (r', n, e) = remove api r (rec_of v6 h) in (r', with_rec v6 n h, e)

  -- No upstream: both rules go.
  unfoldable pub remove_both : R → ClientHook → R × ClientHook
  unfolding remove_rec
  remove_both r h =
      let (r1, h1, _) = remove_rec false r h in
      let (r2, h2, _) = remove_rec true r1 h1 in (r2, record h2 { last_is6 = none })

  -- The rule of the other family goes when the family changes.
  unfoldable pub leave_other : Bool → R → ClientHook → R × ClientHook
  unfolding remove_rec
  leave_other v6 r h =
      let (r', h', e) = remove_rec (not v6) r h in
      if is_switch h.last_is6 v6
      then (r', elim e [ some _ ↦ h' | none ↦ record h' { last_is6 = some v6 } ])
      else (r, h)

  unfoldable pub keep_rule : Bool → R → ClientHook → DivertRule → R × ClientHook
  unfolding remove_rec ensure
  keep_rule v6 r h want =
      let (r1, h1, _) = remove_rec v6 r (record h { warned6 = true }) in
      let (r2, n, _) = ensure api text r (rec_of v6 h) want in
      if is_valid want.to_address
      then (r2, with_rec v6 n (record h { warned6 = false }))
      else (r1, h1)

  unfoldable pub divert_to : Snapshot → R → ClientHook → Option Upstream → R × ClientHook
  unfolding remove_both leave_other keep_rule
  divert_to snap r h none = remove_both r h
  divert_to snap r h (some u) =
      let v6 = is6 (unmap u.remote_addr.0) in
      let (r', h') = leave_other v6 r h in
      keep_rule v6 r' h' (client_rule snap u (to_of v6 h') h'.to_port)

  -- The hook of makeClientDivertHook.
  unfoldable pub client_tick : R → ClientHook → Snapshot → R × ClientHook
  unfolding remove_both divert_to
  client_tick r h snap =
      if snap.wg_listen_port == pos 0 then remove_both r h else divert_to snap r h snap.upstream

  clean6 : R → ServerHook → R × ServerHook
  unfolding remove
  clean6 r h =
      let (r', n, e) = remove api r h.rec6 in
      (
        r',
        elim e [ some _ ↦ record h { rec6 = n } | none ↦ record h { rec6 = n; cleaned6 = true } ],
      )

  ensure6 : R → ServerHook → R × ServerHook
  unfolding ensure clean6
  ensure6 r h =
      let (r', n, _) = ensure api text r h.rec6 h.want6 in
      let cleaned = clean6 r h in
      if is_valid h.want6.to_address
      then (r', record h { rec6 = n })
      else if h.cleaned6
      then (r, h)
      else cleaned

  -- The hook of makeServerDivertHook.
  unfoldable pub server_tick : R → ServerHook → R × ServerHook
  unfolding ensure ensure6
  server_tick r h =
      let (r', n, _) = ensure api text r h.rec4 h.want4 in ensure6 r' (record h { rec4 = n })
