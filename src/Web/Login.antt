-- ===== src/Web/Login.antt =====
-- internal/api/server.go: authStatus, login, logout, gateStatic and serveLogin.
use Prim.Native.Nat.{◌/◌, ◌*◌}
use awg_proxy_go.Prelude.{ℕ, suc, Bool, true, false, String, Option, none, some, if◌then◌else◌}
use awg_proxy_go.Prelude.Eq.{◌==◌, string_eq}
use awg_proxy_go.Prelude.Results.{Result, ok, err}
use awg_proxy_go.Prelude.Int.{pos}
use awg_proxy_go.Config.Settings.{Settings, RouterSettings}
use awg_proxy_go.Config.Convert.{◌+s◌, active_router}
use awg_proxy_go.Config.Check.{ConfigError}
use awg_proxy_go.Config.Store.{read}
use awg_proxy_go.Router.Settings.{RouterConfig}
use awg_proxy_go.Auth.Sessions.{WebSessions, create, drop}
use awg_proxy_go.Auth.Limiter.{allowed, fail, reset}
use awg_proxy_go.Web.{
  Server, World, Request, clear_cookie, set_cookie, Response, static, login_page, accepted,
  auth_state, write_json, fail_with, redirect, safe_next, client_ip, auth_required, authed,
}
use awg_proxy_go.Web.Escape.{query_escape}

-- The credentials that are tried are the ones that were typed in, at the router of the settings.
abbrev pub login_config : RouterSettings → String → String → RouterConfig
login_config rt user password = record {
  address = rt.address;
  api_port = rt.api_port;
  api_tls = rt.api_tls;
  user = user;
  password = password;
  iface = "";
  interval = pos 0;
  mode = "";
}

module _ (w : World) where
  unfoldable pub auth_status : Server → Request → Server × Response
  unfolding auth_required authed
  auth_status s q =
      let (s', required) = auth_required w s in
      let (s'', good) = authed w s' q in (s'', write_json 200 (auth_state required good))

  unfoldable pub with_token : Server → WebSessions × Option String → Server × Response
  with_token s (m, none) = (record s { auth = m }, fail_with 500)
  with_token s (m, some tok) =
      (record s { auth = m }, record (write_json 200 (accepted "ok")) { cookie = set_cookie tok })

  unfoldable pub verified : Server → Request → Bool → Server × Response
  unfolding fail reset create with_token client_ip
  verified s q false = (record s { limit = fail s.limit (client_ip q) w.now }, fail_with 401)
  verified s q true =
      with_token (record s { limit = reset s.limit (client_ip q) }) (create s.auth w.token w.now)

  unfoldable pub check_login :
      Server → Request → String → String → Result ConfigError Settings → Server × Response
  unfolding active_router verified
  check_login s q user password (err e) = (s, fail_with 500)
  check_login s q user password (ok st) =
      verified s q (w.verify (login_config (active_router st) user password))

  unfoldable pub try_login : Server → Request → String → String → Bool × ℕ → Server × Response
  unfolding read check_login
  try_login s q user password (false, wait) =
      (s, record (fail_with 429) { retry_after = some (suc (wait / (1000 * 1000000))) })
  try_login s q user password (true, wait) =
      check_login s q user password (read w.system w.zero_settings s.file)

  -- The body is `none` where it does not decode.
  unfoldable pub login : Server → Request → Option (String × String) → Server × Response
  unfolding auth_required allowed try_login client_ip
  login s q none = (s, fail_with 400)
  login s q (some (user, password)) =
      let (s', required) = auth_required w s in
      if required
      then try_login s' q user password (allowed s'.limit (client_ip q) w.now)
      else (s', write_json 200 (accepted "ok"))

  unfoldable pub logged_out : Server → Option String → Server
  unfolding drop
  logged_out s none = s
  logged_out s (some tok) = record s { auth = drop s.auth tok }

  unfoldable pub logout : Server → Request → Server × Response
  unfolding logged_out
  logout s q =
      (logged_out s q.cookie, record (write_json 200 (accepted "ok")) { cookie = clear_cookie })

  pub login_target : String → String
  unfolding query_escape
  login_target path =
      if path == ""
      then "/login"
      else if path == "/"
      then "/login"
      else "/login?next=" +s query_escape path

  -- gateStatic, in front of the file server.
  unfoldable pub gate_static : Server → Request → Server × Response
  unfolding auth_required authed login_target
  gate_static s q =
      let (s', required) = auth_required w s in
      let (s'', good) = authed w s' q in
      let page = write_json 200 static in
      if required then (s'', if good then page else redirect (login_target q.path)) else (s', page)

  -- The page is embedded, so that reading it succeeds.
  unfoldable pub serve_login : Server → Request → Server × Response
  unfolding authed safe_next
  serve_login s q =
      let (s', good) = authed w s q in
      (s', if good then redirect (safe_next q.next) else write_json 200 login_page)
