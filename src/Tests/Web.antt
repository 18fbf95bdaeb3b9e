-- ===== src/Tests/Web.antt =====
-- internal/api/server.go on a small configuration.
use awg_proxy_go.Prelude.{ℕ, ◌≡◌, refl, true, false, String, [], Option, none, some, arith}
use awg_proxy_go.Prelude.Eq.{equals-ne, string_eq, nat_eq}
use awg_proxy_go.Prelude.Dict.{lookup, insert, delete}
use awg_proxy_go.Prelude.Strings.{has_prefix, cut_prefix, split_host_port, cut_last, cut_at}
use awg_proxy_go.Config.Defaults.{
  with_defaults, server_defaults, client_defaults, default_router, default_obfuscation, or_text,
  or_int,
}
use awg_proxy_go.Config.Convert.{to_config, active_router, join_host_port, itoa}
use awg_proxy_go.Config.Store.{content, is_blank, read}
use awg_proxy_go.Auth.Sessions.{create}
use awg_proxy_go.Auth.Limiter.{allowed, reset}
use awg_proxy_go.Web.{
  Server, World, Request, write_json, settings as settings_body, router_reachable, required_by,
  auth_required, authed, passes, safe_next, client_ip,
}
use awg_proxy_go.Web.Login.{login, logout, try_login, check_login, verified, with_token}
use awg_proxy_go.Web.Attempts.{HasSession, IsGranted, IsVerified, login-IsVerified, login-passes}
use awg_proxy_go.Web.Handlers.{client_of, get_config, put_config, router_client}
use awg_proxy_go.Web.Routes.{Machine}
use awg_proxy_go.Web.Saved.{get_config-put_config}
use awg_proxy_go.Tests.Config.{settings, disk, accepted, full}
use awg_proxy_go.Tests.Tables.{table}

abbrev world : ℕ → World
world now = record {
  system = disk;
  zero_settings = settings "";
  no_auth = "";
  now = now;
  dial = λ _. true;
  verify = λ _. true;
  token = some "c0ffee";
  snapshot = none;
  show_addr_port = λ _. "";
}

abbrev server : Server
server = record {
  file = content "{}";
  signals = 0;
  auth = [];
  limit = [];
  reach_key = "";
  reach_at = 0;
  reach_ok = false;
}

abbrev asks : Option String → Request
asks cookie = record {
  path = "/api/peers/*4";
  next = "";
  section = "";
  id = "*4";
  cookie = cookie;
  remote_addr = "10.0.0.9:4100";
}

abbrev machine : Machine
machine = record {
  x25519 = λ _ _. none;
  rand = none;
  show = λ _. "";
  net_interfaces = none;
  routes = none;
}

get_config-put_config_example :
    ((put_config (world 100) server (asks none) (some (settings "10.0.0.1"))).0.signals ≡ 1)
    × (get_config
          (world 100)
          (put_config (world 100) server (asks none) (some (settings "10.0.0.1"))).0
        ≡ write_json 200 (settings_body (with_defaults (settings "10.0.0.1"))))
    × (router_client
          (world 100)
          (λ _. table)
          (put_config (world 100) server (asks none) (some (settings "10.0.0.1"))).0
        ≡ some (client_of (to_config (settings "10.0.0.1"))))
get_config-put_config_example =
    get_config-put_config (world 100) (asks none) (settings "10.0.0.1") server (λ _. table) accepted
      refl refl full

granted : HasSession (login (world 100) server (asks none) (some ("admin", "secret"))) "c0ffee"
unfolding login auth_required read is_blank required_by active_router router_reachable with_defaults
    server_defaults client_defaults default_router default_obfuscation or_text or_int join_host_port
    itoa client_ip split_host_port cut_last cut_at allowed lookup try_login check_login verified
    with_token create insert reset delete
granted = refl

login-IsVerified_example :
    IsVerified
      (world 100)
      (asks none)
      "admin"
      "secret"
      "c0ffee"
      (read disk (settings "") (content "{}"))
    × ((allowed [] (client_ip (asks none)) 100).0 ≡ true)
    × IsGranted
        (world 100)
        (asks none)
        "admin"
        "secret"
        "c0ffee"
        server
        (login (world 100) server (asks none) (some ("admin", "secret")))
login-IsVerified_example =
    login-IsVerified (world 100) (asks none) "admin" "secret" "c0ffee" server granted

login-passes_example :
    ((passes
        (world 200)
        (login (world 100) server (asks none) (some ("admin", "secret"))).0
        (asks (some "c0ffee"))).1
      ≡ true)
    × ((authed
          (world 200)
          (logout
            (world 200)
            (login (world 100) server (asks none) (some ("admin", "secret"))).0
            (asks (some "c0ffee"))).0
          (asks (some "c0ffee"))).1
        ≡ false)
login-passes_example =
    login-passes (world 100) (world 200) (asks none) (asks (some "c0ffee")) "admin" "secret"
      "c0ffee" server granted (equals-ne {A = String} "c0ffee" "" refl) refl (omega arith)

-- A browser takes a backslash for a slash, so this target leaves the site.
backslash : safe_next "/\\example.org" ≡ "/\\example.org"
unfolding safe_next has_prefix cut_prefix
backslash = refl
