-- ===== src/Web.antt =====
-- internal/api/server.go: the state of the web server, its requests and answers, and who may pass.
pub mod Escape
pub mod Login
pub mod Network
pub mod ClientConfig
pub mod Handlers
pub mod Routes
pub mod Redirect
pub mod Access
pub mod Attempts
pub mod Saved
use Prim.Native.Nat.{◌*◌}
use awg_proxy_go.Prelude.{
  ℕ, ◌-◌, Bool, true, false, not, ◌&&◌, ◌||◌, String, List, [], ◌∷◌, Option, none, some, ltb,
  if◌then◌else◌,
}
use awg_proxy_go.Prelude.Eq.{◌==◌, string_eq}
use awg_proxy_go.Prelude.Int.{ℤ}
use awg_proxy_go.Prelude.Netip.{Addr}
use awg_proxy_go.Prelude.Strings.{has_prefix, split_host_port}
use awg_proxy_go.Prelude.Results.{Result, ok, err}
use awg_proxy_go.Config.Settings.{Settings, RouterSettings}
use awg_proxy_go.Config.Convert.{itoa, join_host_port, active_router}
use awg_proxy_go.Config.Check.{ConfigError}
use awg_proxy_go.Config.Store.{System, File, read}
use awg_proxy_go.Router.Settings.{RouterConfig}
use awg_proxy_go.Router.Snapshot.{Snapshot}
use awg_proxy_go.Router.Peers.{Peer, Address, InterfaceInfo}
use awg_proxy_go.Auth.Sessions.{WebSessions, valid}
use awg_proxy_go.Auth.Limiter.{Limits}

-- `signals` counts the calls of onSaved. `reach_key`, `reach_at` and `reach_ok` are the cache of
-- routerReachable.
pub record Server : Type 0 where
  pub file : File
  pub signals : ℕ
  pub auth : WebSessions
  pub limit : Limits
  pub reach_key : String
  pub reach_at : ℕ
  pub reach_ok : Bool

-- What a request meets: the variable AWGPROXY_NO_AUTH, the time in nanoseconds, a TCP dial, a login
-- of the RouterOS API, the bytes of crypto/rand as a token, the poller's snapshot, Go's zero value of
-- the settings and AddrPort.String.
pub record World : Type 0 where
  pub system : System
  pub zero_settings : Settings
  pub no_auth : String
  pub now : ℕ
  pub dial : String → Bool
  pub verify : RouterConfig → Bool
  pub token : Option String
  pub snapshot : Option Snapshot
  pub show_addr_port : Addr × ℕ → String

pub record Request : Type 0 where
  pub path : String
  pub next : String
  pub section : String
  pub id : String
  pub cookie : Option String
  pub remote_addr : String

pub data Cookie : Type 0 where
  no_cookie clear_cookie : Cookie
  set_cookie : String → Cookie

pub record Status : Type 0 where
  pub mode : String
  pub poll_ok : Bool
  pub server_key : Bool
  pub clients : ℕ
  pub wg_listen_port : ℤ
  pub upstream_ready : Bool
  pub upstream_addr : String
  pub upstream_comment : String

pub data Body : Type 0 where
  empty failed static login_page version : Body
  accepted : String → Body
  auth_state : Bool → Bool → Body
  settings : Settings → Body
  status_of : Status → Body
  peers : List Peer → Body
  addresses : List Address → Body
  interfaces : List InterfaceInfo → Body
  key_pair : String → String → Body
  client_config : String → Body
  networks : String → String → String → Body

pub record Response : Type 0 where
  pub code : ℕ
  pub location : String
  pub retry_after : Option ℕ
  pub cookie : Cookie
  pub body : Body

abbrev pub write_json : ℕ → Body → Response
write_json code body = record {
  code = code;
  location = "";
  retry_after = none;
  cookie = no_cookie;
  body = body;
}

abbrev pub fail_with : ℕ → Response
fail_with code = write_json code failed

abbrev pub redirect : String → Response
redirect to = record {
  code = 302;
  location = to;
  retry_after = none;
  cookie = no_cookie;
  body = empty;
}

abbrev pub reach_cache_ttl : ℕ
reach_cache_ttl = 10 * 1000000000

-- safeNext
unfoldable pub safe_next : String → String
unfolding has_prefix
safe_next s = if has_prefix s "/" && not (has_prefix s "//") then s else "/"

unfoldable pub client_ip : Request → String
unfolding split_host_port
client_ip q = elim (split_host_port q.remote_addr) [ some (host, _) ↦ host | none ↦ q.remote_addr ]

module _ (w : World) where
  -- The time passes, so `now` does not lie before `reach_at`.
  unfoldable pub router_reachable : Server → RouterSettings → Server × Bool
  unfolding join_host_port itoa
  router_reachable s rt =
      let addr = join_host_port rt.address (itoa rt.api_port) in
      if s.reach_key == addr && ltb (w.now - s.reach_at) reach_cache_ttl
      then (s, s.reach_ok)
      else (record s { reach_key = addr; reach_at = w.now; reach_ok = w.dial addr }, w.dial addr)

  unfoldable pub required_by : Server → Result ConfigError Settings → Server × Bool
  unfolding active_router router_reachable
  required_by s (err e) = (s, false)
  required_by s (ok st) =
      if (active_router st).address == "" then (s, false) else router_reachable s (active_router st)

  -- authRequired
  unfoldable pub auth_required : Server → Server × Bool
  unfolding read required_by
  auth_required s =
      if w.no_auth == "1" || w.no_auth == "true"
      then (s, false)
      else required_by s (read w.system w.zero_settings s.file)

  unfoldable pub with_cookie : Server → Option String → Server × Bool
  unfolding valid
  with_cookie s none = (s, false)
  with_cookie s (some tok) = let (m, good) = valid s.auth tok w.now in (record s { auth = m }, good)

  unfoldable pub authed : Server → Request → Server × Bool
  unfolding with_cookie
  authed s q = with_cookie s q.cookie

  -- Whether protect lets a request through: a session counts only where one is required.
  unfoldable pub passes : Server → Request → Server × Bool
  unfolding auth_required authed
  passes s q =
      let (s', required) = auth_required s in
      let (s'', good) = authed s' q in if required then (s'', good) else (s', true)

  -- protect, around a handler that may also change the router `R`.
  unfoldable pub protect :
      {R : Type 0}
      → (R → Server → R × Server × Response)
      → R
      → Server
      → Request
      → R × Server × Response
  unfolding passes
  protect h r s q = let (s', pass) = passes s q in if pass then h r s' else (r, s', fail_with 401)
