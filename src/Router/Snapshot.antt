-- ===== src/Router/Snapshot.antt =====
-- internal/router/poller.go: Snapshot and Upstream. Keys are lists of 32 bytes.
use awg_proxy_go.Prelude.{ℕ, String, List, Option}
use awg_proxy_go.Prelude.Int.{ℤ}
use awg_proxy_go.Prelude.Netip.{Addr}

pub record Upstream : Type 0 where
  pub peer_id : String
  pub server_pub : List ℕ
  pub remote_addr : Addr × ℕ
  pub psk : List ℕ
  pub comment : String

pub record Snapshot : Type 0 where
  pub server_pub : List ℕ
  pub server_priv : List ℕ
  pub wg_listen_port : ℤ
  pub client_pubs : List (List ℕ)
  pub upstream : Option Upstream
