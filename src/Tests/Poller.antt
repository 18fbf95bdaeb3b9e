-- ===== src/Tests/Poller.antt =====
-- internal/router/poller.go, api.go and keys.go on small routers.
use awg_proxy_go.Prelude.{
  ℕ, ◌≡◌, refl, false, String, List, [], ◌∷◌, map, none, some, replicate, All-replicate, arith, suc,
  if◌then◌else◌,
}
use awg_proxy_go.Prelude.Bytes.{IsByte}
use awg_proxy_go.Prelude.Eq.{equals-ne, string_eq, ◌==◌}
use awg_proxy_go.Prelude.Int.{pos}
use awg_proxy_go.Prelude.Netip.{v4}
use awg_proxy_go.Prelude.Dict.{lookup}
use awg_proxy_go.Prelude.Strings.{trim_space, trim_left, trim_right, cut_prefix, atoi, unsigned}
use awg_proxy_go.Prelude.Base64.{encode, decode, digit, digits, padded, quads}
use awg_proxy_go.Router.Api.{Row, Api, value}
use awg_proxy_go.Router.Settings.{RouterConfig, mode_server, mode_client}
use awg_proxy_go.Router.Keys.{sized_key, parse_pub_key, clamp, generate_keypair}
use awg_proxy_go.Router.Keys.Generated.{IsClamped, generate_keypair-parse_pub_key}
use awg_proxy_go.Router.Snapshot.{Upstream, Snapshot}
use awg_proxy_go.Router.Poller.{
  Resolver, MarkedPeer, resolve_addr_port, marked_comment, candidates, comment_of, upstream_of,
  single, pick_upstream,
}
use awg_proxy_go.Router.Poller.Choice.{IsOnly, IsUpstream, pick_upstream-IsOnly}
use awg_proxy_go.Router.Poller.Clients.{peers_of, key_of, fetch_api-client_pubs}
use awg_proxy_go.Router.Poller.Fetch.{
  interface_keys, find_interface, found_interface, fetch_peers, cons_key, client_keys, snapshot_of,
  fetch_api, Poller, run,
}
use awg_proxy_go.Router.Poller.Sound.{IsSoundOption, run-IsSound}

abbrev sevens : List ℕ
sevens = replicate 32 7

abbrev key_text : String
key_text = "BwcHBwcHBwcHBwcHBwcHBwcHBwcHBwcHBwcHBwcHBwc="

encoded : encode sevens ≡ key_text
unfolding encode digit
encoded = refl

key_parses : parse_pub_key key_text ≡ some sevens
unfolding parse_pub_key trim_space trim_left trim_right decode digits padded quads sized_key
key_parses = refl

generate_keypair-parse_pub_key_example :
    (private : String) × (public : String) × (generate_keypair
        (λ k u. some sevens)
        (some (replicate 32 255))
      ≡ some (private, public))
    × (parse_pub_key private ≡ some (clamp (replicate 32 255)))
    × (parse_pub_key public ≡ some sevens)
    × IsClamped (clamp (replicate 32 255))
generate_keypair-parse_pub_key_example =
    generate_keypair-parse_pub_key (λ k u. some sevens) (replicate 32 255) sevens refl
      (All-replicate IsByte 32 255 (omega arith)) refl refl
      (All-replicate IsByte 32 7 (omega arith))

abbrev dns : Resolver
dns = record { parse_addr = λ _. some (v4 7); lookup_ip = λ _. none; show = λ _. "0.0.0.7" }

abbrev plain : MarkedPeer
plain = record {
  id = "*1";
  comment = "laptop";
  public_key = key_text;
  psk = "";
  endpoint_addr = "";
  endpoint_port = pos 0;
  disabled = false;
}

abbrev marked : MarkedPeer
marked = record {
  id = "*2";
  comment = " [awgproxy] home";
  public_key = key_text;
  psk = "";
  endpoint_addr = "vpn.example.org";
  endpoint_port = pos 51820;
  disabled = false;
}

abbrev chosen : Upstream
chosen = record {
  peer_id = "*2";
  server_pub = sevens;
  remote_addr = (v4 7, 51820);
  psk = replicate 32 0;
  comment = "home";
}

marked-chosen : pick_upstream dns (plain ∷ marked ∷ []) ≡ some chosen
unfolding pick_upstream candidates marked_comment trim_space trim_left trim_right cut_prefix single
    upstream_of resolve_addr_port comment_of parse_pub_key decode digits padded quads sized_key
marked-chosen = refl

-- With two marked peers there is no upstream.
two_marked : pick_upstream dns (marked ∷ plain ∷ marked ∷ []) ≡ none
unfolding pick_upstream candidates marked_comment trim_space trim_left trim_right cut_prefix single
two_marked = refl

pick_upstream-IsOnly_example :
    (m : MarkedPeer) × IsOnly m (plain ∷ marked ∷ []) × IsUpstream dns m chosen
pick_upstream-IsOnly_example = pick_upstream-IsOnly dns (plain ∷ marked ∷ []) chosen marked-chosen

abbrev interfaces : List Row
interfaces = (("name", "wg0") ∷ ("public-key", key_text) ∷ ("listen-port", "13231") ∷ []) ∷ []

abbrev peers : List Row
peers =
    (("interface", "wg1") ∷ ("public-key", "bad") ∷ [])
    ∷ (("interface", "wg0") ∷ ("public-key", key_text) ∷ [])
    ∷ []

-- A router that answers two paths and counts its calls.
abbrev router : Api ℕ
router = record {
  print = λ n path. (suc n, some (if path == "/interface/wireguard" then interfaces else peers));
  add = λ n _ _. (n, none);
  set = λ n _ _ _. (n, false);
  remove = λ n _ _. (n, false);
}

abbrev access : RouterConfig
access = record {
  address = "10.0.0.1";
  api_port = pos 8728;
  api_tls = false;
  user = "admin";
  password = "secret";
  iface = "wg0";
  interval = pos 0;
  mode = mode_server;
}

abbrev fetched : Snapshot
fetched = record {
  server_pub = sevens;
  server_priv = replicate 32 0;
  wg_listen_port = pos 13231;
  client_pubs = sevens ∷ [];
  upstream = none;
}

fetch_done : (fetch_api router dns access 0).1 ≡ some fetched
unfolding fetch_api fetch_peers found_interface find_interface interface_keys snapshot_of
    client_keys cons_key value lookup atoi parse_pub_key trim_space trim_left trim_right decode
    digits padded quads sized_key unsigned
fetch_done = refl

fetch_api-client_pubs_example : map some (sevens ∷ []) ≡ map key_of (peers_of "wg0" peers)
fetch_api-client_pubs_example =
    fetch_api-client_pubs router dns access 0 1 2 (some interfaces) peers fetched
      (equals-ne mode_server mode_client refl) refl refl fetch_done

abbrev fresh : Poller ℕ ℕ
fresh = record { router = 0; hooks = 0; cur = none }

sound_run :
    IsSoundOption (run router dns access (λ r h snap. (r, suc h)) fresh ((λ r. suc r) ∷ [])).cur
sound_run = run-IsSound router dns access (λ r h snap. (r, suc h)) fresh ((λ r. suc r) ∷ []) tt
