-- ===== src/Config/Convert.antt =====
-- internal/config/config.go: ToConfig. strconv.Itoa and net.JoinHostPort of the standard library
-- are written out.
pub mod Stable
use Prim.Native.Nat.{◌/◌, ◌%◌, ◌*◌, ◌^◌}
use Prim.Native.String
use awg_proxy_go.Prelude.{
  ℕ, zero, suc, ◌+◌, ◌-◌, Bool, true, false, not, ◌&&◌, ◌||◌, String, List, [], ◌∷◌, ltb,
  if◌then◌else◌,
}
use awg_proxy_go.Prelude.Eq.{◌==◌, string_eq, nat_eq}
use awg_proxy_go.Prelude.Int.{ℤ, pos, negsuc, int_eq}
use awg_proxy_go.Prelude.Text.{codes}
use awg_proxy_go.Config.Settings.{
  Obfuscation, RouterSettings, ServerSettings, ClientSettings, Settings, RouterConn, Config,
  mode_client,
}
use awg_proxy_go.Config.Defaults.{with_defaults}

infixr 60 ◌+s◌
abbrev pub ◌+s◌ : String → String → String
a +s b = String.◌++◌ a b

digit : ℕ → String
digit d =
    if d == 0
    then "0"
    else if d == 1
    then "1"
    else if d == 2
    then "2"
    else if d == 3
    then "3"
    else if d == 4
    then "4"
    else if d == 5
    then "5"
    else if d == 6
    then "6"
    else if d == 7
    then "7"
    else if d == 8
    then "8"
    else "9"

-- With fuel n + 1 for the number n: each step divides it by ten.
decimal : ℕ → ℕ → String
unfolding digit
decimal zero n = ""
decimal (suc fuel) n =
    let rest = decimal fuel (n / 10) in (if ltb n 10 then "" else rest) +s digit (n % 10)

unfoldable pub itoa : ℤ → String
unfolding decimal
itoa (pos n) = decimal (suc n) n
itoa (negsuc n) = "-" +s decimal (suc (suc n)) (suc n)

has_colon : List ℕ → Bool
has_colon [] = false
has_colon (c ∷ s) = c == b':' || has_colon s

unfoldable pub join_host_port : String → String → String
unfolding has_colon
join_host_port host port =
    if has_colon (codes host) then "[" +s host +s "]:" +s port else host +s ":" +s port

-- An int64 from its residue.
abbrev pub int64 : ℕ → ℤ
int64 r = if ltb r (2 ^ 63) then pos r else negsuc (2 ^ 64 - r - 1)

-- time.Duration(n) * time.Second, an int64 that wraps around.
unfoldable pub seconds : ℤ → ℤ
seconds (pos n) = int64 (n * 1000000000 % 2 ^ 64)
seconds (negsuc n) = int64 ((2 ^ 64 - suc n * 1000000000 % 2 ^ 64) % 2 ^ 64)

-- The levels of slog: debug -4, info 0, warn 4, error 8.
unfoldable pub parse_level : String → ℤ
parse_level s =
    if s == "debug"
    then negsuc 3
    else if s == "warn"
    then pos 4
    else if s == "error"
    then pos 8
    else if s == "none"
    then pos 12
    else pos 0

unfoldable pub router_conn : RouterSettings → RouterConn
router_conn r = record {
  address = r.address;
  api_port = r.api_port;
  api_tls = r.api_tls;
  user = r.user;
  password = r.password;
  wg_iface = r.wg_iface;
}

abbrev zero_conn : RouterConn
zero_conn = record {
  address = "";
  api_port = pos 0;
  api_tls = false;
  user = "";
  password = "";
  wg_iface = "";
}

-- &Config{…}: Go sets the other fields to zero.
unfoldable pub fresh_config : String → String → ℤ → Config
fresh_config mode web_listen log_level = record {
  mode = mode;
  web_listen = web_listen;
  log_level = log_level;
  listen = "";
  remote = "";
  public_endpoint = "";
  container_addr = "";
  divert = false;
  masquerade = false;
  jc = pos 0;
  jmin = pos 0;
  jmax = pos 0;
  s1 = pos 0;
  s2 = pos 0;
  h1 = 0;
  h2 = 0;
  h3 = 0;
  h4 = 0;
  session_ttl = pos 0;
  poll_interval = pos 0;
  router = zero_conn;
  container_addr6 = "";
}

unfoldable pub remote_of : ServerSettings → String
unfolding join_host_port itoa
remote_of sv =
    if not (sv.remote_addr == "") && not (sv.remote_port == pos 0)
    then join_host_port sv.remote_addr (itoa sv.remote_port)
    else ""

unfoldable pub fill_server : Config → ServerSettings → Config
unfolding remote_of seconds router_conn
fill_server c sv =
    let o = sv.obfuscation in
    record c {
      listen = sv.listen;
      remote = remote_of sv;
      public_endpoint = sv.public_endpoint;
      container_addr = sv.container_addr;
      divert = sv.divert;
      masquerade = sv.masquerade;
      jc = o.jc;
      jmin = o.jmin;
      jmax = o.jmax;
      s1 = o.s1;
      s2 = o.s2;
      h1 = o.h1;
      h2 = o.h2;
      h3 = o.h3;
      h4 = o.h4;
      session_ttl = seconds sv.session_ttl_sec;
      poll_interval = seconds sv.poll_interval_sec;
      router = router_conn sv.router;
      container_addr6 = sv.container_addr6;
    }

unfoldable pub fill_client : Config → ClientSettings → Config
unfolding seconds router_conn
fill_client c cl =
    let o = cl.obfuscation in
    record c {
      listen = cl.listen;
      container_addr = cl.container_addr;
      divert = cl.divert;
      jc = o.jc;
      jmin = o.jmin;
      jmax = o.jmax;
      s1 = o.s1;
      s2 = o.s2;
      h1 = o.h1;
      h2 = o.h2;
      h3 = o.h3;
      h4 = o.h4;
      session_ttl = seconds cl.session_ttl_sec;
      poll_interval = seconds cl.poll_interval_sec;
      router = router_conn cl.router;
      container_addr6 = cl.container_addr6;
    }

-- The settings have their defaults.
fill : Settings → Config
unfolding parse_level fresh_config fill_server fill_client
fill s =
    let c = fresh_config s.mode s.web_listen (parse_level s.log_level) in
    if s.mode == mode_client then fill_client c s.client else fill_server c s.server

unfoldable pub to_config : Settings → Config
unfolding with_defaults fill
to_config s = fill (with_defaults s)

-- ActiveRouter
unfoldable pub active_router : Settings → RouterSettings
active_router s = if s.mode == mode_client then s.client.router else s.server.router
