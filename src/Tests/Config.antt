-- ===== src/Tests/Config.antt =====
-- internal/config/config.go on small settings.
use awg_proxy_go.Prelude.{◌≡◌, ◌≢◌, ◌↔◌, refl, true, false, String, none, some}
use awg_proxy_go.Prelude.Int.{pos, negsuc}
use awg_proxy_go.Prelude.Eq.{string_eq, nat_eq}
use awg_proxy_go.Prelude.Text.{codes}
use awg_proxy_go.Config.Settings.{Obfuscation, RouterSettings, Settings}
use awg_proxy_go.Config.Defaults.{
  with_defaults, server_defaults, client_defaults, default_router, default_obfuscation, or_text,
  or_int,
}
use awg_proxy_go.Config.Convert.{
  to_config, router_conn, fill_server, fill_client, remote_of, join_host_port, itoa, seconds,
  parse_level, fresh_config,
}
use awg_proxy_go.Config.Check.{no_router_address, validate_router, validate_service, validate}
use awg_proxy_go.Config.Check.Sections.{CanReach, HasEnds, IsSound, validate_iff}
use awg_proxy_go.Config.Store.{missing, content, System, is_blank, check_section, write}
use awg_proxy_go.Config.Store.RoundTrip.{write_refused}

abbrev no_obfuscation : Obfuscation
no_obfuscation = record {
  jc = pos 0;
  jmin = pos 0;
  jmax = pos 0;
  s1 = pos 0;
  s2 = pos 0;
  h1 = 0;
  h2 = 0;
  h3 = 0;
  h4 = 0;
}

abbrev router : String → RouterSettings
router address = record {
  address = address;
  api_port = pos 0;
  api_tls = false;
  user = "";
  password = "secret";
  wg_iface = "wg0";
}

abbrev pub settings : String → Settings
settings address = record {
  mode = "";
  web_listen = "";
  log_level = "debug";
  server = record {
    listen = "";
    remote_addr = "fd00::1";
    remote_port = pos 51820;
    public_endpoint = "";
    client_dns = "";
    container_addr = "172.17.0.2";
    divert = true;
    masquerade = false;
    session_ttl_sec = negsuc 0;
    poll_interval_sec = pos 0;
    obfuscation = no_obfuscation;
    router = router address;
    container_addr6 = "";
  };
  client = record {
    listen = "";
    container_addr = "";
    session_ttl_sec = pos 0;
    poll_interval_sec = pos 0;
    obfuscation = no_obfuscation;
    router = router address;
    divert = false;
    container_addr6 = "";
  };
}

-- A file system that takes every write, and a JSON that knows one text.
abbrev pub disk : System
disk = record {
  marshal = λ _. "{}";
  unmarshal = λ _. some (with_defaults (settings "10.0.0.1"));
  parse_addr = λ _. none;
  write_file = λ text _. (content text, true);
}

pub accepted : check_section disk "" (to_config (settings "10.0.0.1")) ≡ none
unfolding check_section validate validate_router validate_service to_config with_defaults
    server_defaults client_defaults default_router default_obfuscation or_text or_int fill_server
    fill_client router_conn remote_of join_host_port itoa seconds parse_level fresh_config
accepted = refl

refused : check_section disk "router" (to_config (settings "")) ≡ some no_router_address
unfolding check_section validate validate_router validate_service to_config with_defaults
    server_defaults client_defaults default_router default_obfuscation or_text or_int fill_server
    fill_client router_conn remote_of join_host_port itoa seconds parse_level fresh_config
refused = refl

remote : (to_config (settings "10.0.0.1")).remote ≡ "[fd00::1]:51820"
unfolding to_config with_defaults server_defaults client_defaults default_router default_obfuscation
    or_text or_int fill_server fill_client router_conn remote_of join_host_port itoa seconds
    parse_level fresh_config
remote = refl

pub full : is_blank (codes "{}") ≡ false
unfolding is_blank
full = refl

validate_iff_example : (validate (λ _. none) (to_config (settings "10.0.0.1")) ≡ none) ↔ (
    CanReach (to_config (settings "10.0.0.1"))
    × ((to_config (settings "10.0.0.1")).router.wg_iface ≢ "")
    × HasEnds (to_config (settings "10.0.0.1"))
    × IsSound (λ _. none) (to_config (settings "10.0.0.1")))
validate_iff_example = validate_iff (λ _. none) (to_config (settings "10.0.0.1"))

write_refused_example :
    write disk missing (settings "") "router" ≡ (missing, some no_router_address)
write_refused_example = write_refused disk (settings "") missing "router" no_router_address refused
