-- ===== src/Config/Defaults/Idempotent.antt =====
-- config.go: defaults are set once.
use awg_proxy_go.Prelude.{◌≡◌, String, arith}
use awg_proxy_go.Prelude.Eq.{string_eq, nat_eq}
use awg_proxy_go.Prelude.Int.{ℤ, pos, int_eq}
use awg_proxy_go.Config.Settings.{
  Obfuscation, RouterSettings, ServerSettings, ClientSettings, Settings, mode_server,
}
use awg_proxy_go.Config.Defaults.{
  or_text, or_int, default_obfuscation, default_router, server_defaults, client_defaults,
  with_defaults,
}

or_text_again : (a b : String) → or_text (or_text a b) b ≡ or_text a b
unfolding or_text
or_text_again a b = ground (arith, string_eq.equals_iff a "", string_eq.equals_iff b "")

or_int_again : (a b : ℤ) → or_int (or_int a b) b ≡ or_int a b
unfolding or_int
or_int_again a b = ground (arith, int_eq.equals_iff a (pos 0), int_eq.equals_iff b (pos 0))

default_obfuscation_again :
    (o : Obfuscation) → default_obfuscation (default_obfuscation o) ≡ default_obfuscation o
unfolding default_obfuscation
default_obfuscation_again o = ground arith

default_router_again : (r : RouterSettings) → default_router (default_router r) ≡ default_router r
unfolding default_router
default_router_again r = cc (or_text_again r.user "admin", or_int_again r.api_port (pos 8728))

server_defaults_again :
    (sv : ServerSettings) → server_defaults (server_defaults sv) ≡ server_defaults sv
unfolding server_defaults
server_defaults_again sv = cc (
  or_text_again sv.listen ":51820",
  or_int_again sv.session_ttl_sec (pos 180),
  or_int_again sv.poll_interval_sec (pos 30),
  default_obfuscation_again sv.obfuscation,
  default_router_again sv.router,
)

client_defaults_again :
    (cl : ClientSettings) → client_defaults (client_defaults cl) ≡ client_defaults cl
unfolding client_defaults
client_defaults_again cl = cc (
  or_text_again cl.listen ":51820",
  or_int_again cl.session_ttl_sec (pos 180),
  or_int_again cl.poll_interval_sec (pos 30),
  default_obfuscation_again cl.obfuscation,
  default_router_again cl.router,
)

-- Settings that have their defaults get no others: what Read shows and Write stores is stable.
pub with_defaults_idem : (s : Settings) → with_defaults (with_defaults s) ≡ with_defaults s
unfolding with_defaults
with_defaults_idem s = cc (
  or_text_again s.mode mode_server,
  or_text_again s.web_listen ":8088",
  or_text_again s.log_level "info",
  server_defaults_again s.server,
  client_defaults_again s.client,
)
