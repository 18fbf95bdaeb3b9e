-- ===== src/Proxy/Client.antt =====
-- internal/proxy/client.go: one turn of routerLoop and of awgLoop, and New of proxy.go. Time is in
-- nanoseconds from Go's zero time.
pub mod Turns
use Prim.Native.Nat.{◌*◌}
use awg_proxy_go.Prelude.{
  ℕ, suc, ◌-◌, Bool, true, false, String, List, [], ◌∷◌, ◌++◌, ◌==◌, Option, none, some, ltb,
  if◌then◌else◌, Run, done, panic, ◌>>=◌,
}
use awg_proxy_go.Wg.{type, type_init}
use awg_proxy_go.Awg.Crypto.{Blake2s}
use awg_proxy_go.Awg.Transform.{Params, deobfuscate, obfuscate}
use awg_proxy_go.Awg.Junk.{junk_packets}
use awg_proxy_go.Config.Settings.{Config}
use awg_proxy_go.Router.Snapshot.{Snapshot, Upstream}

pub record ClientProxy : Type 0 where
  pub router_src : Option String
  pub last_log : ℕ

-- The parameters that New takes from the configuration, for both modes.
unfoldable pub params_of : Config → Params
params_of c = record {
  h1 = c.h1;
  h2 = c.h2;
  h3 = c.h3;
  h4 = c.h4;
  s1 = c.s1;
  s2 = c.s2;
  jc = c.jc;
  jmin = c.jmin;
  jmax = c.jmax;
}

-- Whether a warning is written.
unfoldable pub warn_rate_limited : ClientProxy → ℕ → ClientProxy × Bool
warn_rate_limited c now =
    if ltb (now - c.last_log) (5 * 1000000000)
    then (c, false)
    else (record c { last_log = now }, true)

-- The junk packets up to the first whose write fails, that one with them.
unfoldable pub send_junk : (ℕ → Bool) → List (List ℕ) → ℕ → List (List ℕ)
send_junk sent [] i = []
send_junk sent (j ∷ js) i =
    let rest = send_junk sent js (suc i) in j ∷ (if sent i then rest else [])

module _ (b : Blake2s) (p : Params) where
  -- What is written to the upstream: `draw` and `rand` are the random numbers and bytes of the junk,
  -- `prefix` the random bytes in front of the message.
  to_upstream :
      (ℕ → ℕ → ℕ)
      → (ℕ → ℕ → List ℕ)
      → (ℕ → List ℕ)
      → (ℕ → Bool)
      → Upstream
      → List ℕ
      → Run (List (List ℕ))
  unfolding type junk_packets send_junk obfuscate
  to_upstream draw rand prefix sent up pkt = do
    junk ← if type pkt == type_init then junk_packets draw rand p else done []
    out ← obfuscate b p prefix pkt up.server_pub
    done (send_junk sent junk 0 ++ out ∷ [])

  with_upstream :
      (ℕ → ℕ → ℕ)
      → (ℕ → ℕ → List ℕ)
      → (ℕ → List ℕ)
      → (ℕ → Bool)
      → ClientProxy
      → Option Upstream
      → List ℕ
      → ℕ
      → Run (ClientProxy × List (List ℕ))
  unfolding to_upstream warn_rate_limited
  with_upstream draw rand prefix sent c none pkt now = done ((warn_rate_limited c now).0, [])
  with_upstream draw rand prefix sent c (some up) pkt now = do
    outs ← to_upstream draw rand prefix sent up pkt
    done (c, outs)

  abbrev pub upstream_of : Option Snapshot → Option Upstream
  upstream_of none = none
  upstream_of (some snap) = snap.upstream

  -- routerLoop
  unfoldable pub router_packet :
      (ℕ → ℕ → ℕ)
      → (ℕ → ℕ → List ℕ)
      → (ℕ → List ℕ)
      → (ℕ → Bool)
      → ClientProxy
      → Option Snapshot
      → String
      → List ℕ
      → ℕ
      → Run (ClientProxy × List (List ℕ))
  unfolding with_upstream
  router_packet draw rand prefix sent c snap addr pkt now =
      with_upstream draw rand prefix sent (record c { router_src = some addr }) (upstream_of snap)
        pkt now

  to_router :
      ClientProxy → ℕ → Option String → Option (List ℕ × ℕ) → ClientProxy × Option (String × List ℕ)
  unfolding warn_rate_limited
  to_router c now src none = (c, none)
  to_router c now none (some (plain, typ)) = ((warn_rate_limited c now).0, none)
  to_router c now (some addr) (some (plain, typ)) = (c, some (addr, plain))

  -- awgLoop
  unfoldable pub awg_packet :
      ClientProxy → Option Snapshot → List ℕ → ℕ → Run (ClientProxy × Option (String × List ℕ))
  unfolding deobfuscate to_router
  awg_packet c none pkt now = done (c, none)
  awg_packet c (some snap) pkt now = do
    found ← deobfuscate b p pkt snap.server_pub
    done (to_router c now c.router_src found)
