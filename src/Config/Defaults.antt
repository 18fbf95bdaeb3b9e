-- ===== src/Config/Defaults.antt =====
-- internal/config/config.go: the default values.
pub mod Idempotent
use awg_proxy_go.Prelude.{ℕ, Bool, ◌&&◌, String, if◌then◌else◌}
use awg_proxy_go.Prelude.Eq.{◌==◌, string_eq, nat_eq}
use awg_proxy_go.Prelude.Int.{ℤ, pos, negsuc, int_eq}
use awg_proxy_go.Config.Settings.{
  Obfuscation, RouterSettings, ServerSettings, ClientSettings, Settings, mode_server,
}

-- cmp.Or of two values
unfoldable pub or_text : String → String → String
or_text a b = if a == "" then b else a

unfoldable pub or_int : ℤ → ℤ → ℤ
or_int a b = if a == pos 0 then b else a

abbrev pub is_empty : Obfuscation → Bool
is_empty o =
    o.jc == pos 0
    && o.jmin == pos 0
    && o.jmax == pos 0
    && o.s1 == pos 0
    && o.s2 == pos 0
    && o.h1 == 0
    && o.h2 == 0
    && o.h3 == 0
    && o.h4 == 0

abbrev pub standard : Obfuscation
standard = record {
  jc = pos 4;
  jmin = pos 40;
  jmax = pos 70;
  s1 = pos 0;
  s2 = pos 0;
  h1 = 1;
  h2 = 2;
  h3 = 3;
  h4 = 4;
}

unfoldable pub default_obfuscation : Obfuscation → Obfuscation
default_obfuscation o = if is_empty o then standard else o

unfoldable pub default_router : RouterSettings → RouterSettings
unfolding or_text or_int
default_router r = record r {
  user = or_text r.user "admin";
  api_port = or_int r.api_port (pos 8728);
}

unfoldable pub server_defaults : ServerSettings → ServerSettings
unfolding or_text or_int default_obfuscation default_router
server_defaults sv = record sv {
  listen = or_text sv.listen ":51820";
  session_ttl_sec = or_int sv.session_ttl_sec (pos 180);
  poll_interval_sec = or_int sv.poll_interval_sec (pos 30);
  obfuscation = default_obfuscation sv.obfuscation;
  router = default_router sv.router;
}

unfoldable pub client_defaults : ClientSettings → ClientSettings
unfolding or_text or_int default_obfuscation default_router
client_defaults cl = record cl {
  listen = or_text cl.listen ":51820";
  session_ttl_sec = or_int cl.session_ttl_sec (pos 180);
  poll_interval_sec = or_int cl.poll_interval_sec (pos 30);
  obfuscation = default_obfuscation cl.obfuscation;
  router = default_router cl.router;
}

unfoldable pub with_defaults : Settings → Settings
unfolding or_text server_defaults client_defaults
with_defaults s = record s {
  mode = or_text s.mode mode_server;
  web_listen = or_text s.web_listen ":8088";
  log_level = or_text s.log_level "info";
  server = server_defaults s.server;
  client = client_defaults s.client;
}
