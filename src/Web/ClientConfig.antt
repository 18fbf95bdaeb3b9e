-- ===== src/Web/ClientConfig.antt =====
-- internal/api/peerconfig.go: renderClientConfig.

use awg_proxy_go.Prelude.{String, if◌then◌else◌}
use awg_proxy_go.Prelude.Eq.{◌==◌, string_eq}
use awg_proxy_go.Prelude.Int.{pos}
use awg_proxy_go.Config.Settings.{Obfuscation, Settings}
use awg_proxy_go.Config.Convert.{◌+s◌, itoa}

pub record PeerConfigRequest : Type 0 where
  pub private_key : String
  pub address : String
  pub preshared_key : String
  pub name : String

abbrev pub newline : String
newline = "\n"

-- One line `name = value`.
unfoldable pub line : String → String → String
line name value = name +s " = " +s value +s newline

unfoldable pub line_if : String → String → String
unfolding line
line_if name value = if value == "" then "" else line name value

unfoldable pub obfuscation_lines : Obfuscation → String
unfolding line itoa
obfuscation_lines o =
    line "Jc" (itoa o.jc)
    +s line "Jmin" (itoa o.jmin)
    +s line "Jmax" (itoa o.jmax)
    +s line "S1" (itoa o.s1)
    +s line "S2" (itoa o.s2)
    +s line "H1" (itoa (pos o.h1))
    +s line "H2" (itoa (pos o.h2))
    +s line "H3" (itoa (pos o.h3))
    +s line "H4" (itoa (pos o.h4))

unfoldable pub render_client_config : Settings → String → PeerConfigRequest → String
unfolding line line_if obfuscation_lines
render_client_config s server_key q =
    "[Interface]"
    +s newline
    +s line "PrivateKey" q.private_key
    +s line "Address" q.address
    +s line_if "DNS" s.server.client_dns
    +s obfuscation_lines s.server.obfuscation
    +s newline
    +s "[Peer]"
    +s newline
    +s line "PublicKey" server_key
    +s line_if "PresharedKey" q.preshared_key
    +s "AllowedIPs = 0.0.0.0/0, ::/0"
    +s newline
    +s line "Endpoint" s.server.public_endpoint
    +s "PersistentKeepalive = 25"
    +s newline
