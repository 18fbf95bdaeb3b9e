-- ===== src/Proxy/Client/Turns.antt =====
-- client.go: the two directions of a turn.
use awg_proxy_go.Prelude.{
  ℕ, suc, ◌<◌, ◌≤◌, ◌≡◌, refl, Bool, true, String, List, [], ◌∷◌, ◌++◌, Option, none, some, length,
  All, done, >>=-eq-done, arith,
}
use awg_proxy_go.Prelude.Int.{pos_part, neg_part, ◌≤ℤ◌}
use awg_proxy_go.Prelude.Machine.{max_datagram}
use awg_proxy_go.Wg.{type, type_init}
use awg_proxy_go.Awg.Crypto.{Blake2s}
use awg_proxy_go.Awg.Transform.{Params, deobfuscate, obfuscate}
use awg_proxy_go.Awg.Transform.Standard.{IsStandard, deobfuscate-IsStandard}
use awg_proxy_go.Awg.Junk.{junk_packets, junk_packets_range}
use awg_proxy_go.Router.Snapshot.{Snapshot, Upstream}
use awg_proxy_go.Proxy.Client.{
  ClientProxy, warn_rate_limited, send_junk, to_upstream, with_upstream, router_packet, to_router,
  awg_packet,
}

send_junk_all :
    (sent : ℕ → Bool) (js : List (List ℕ)) (i : ℕ)
    → ((k : ℕ) → sent k ≡ true)
    → send_junk sent js i ≡ js
unfolding send_junk
send_junk_all sent [] i all = refl
send_junk_all sent (j ∷ js) i all = rw (all i, send_junk_all sent js (suc i) all) refl

module _ (b : Blake2s) (p : Params) (draw : ℕ → ℕ → ℕ) (rand : ℕ → ℕ → List ℕ)
    (prefix : ℕ → List ℕ) where
  with_upstream-src :
      (sent : ℕ → Bool) (c c' : ClientProxy) (up : Option Upstream) (pkt : List ℕ) (now : ℕ)
      (outs : List (List ℕ))
      → with_upstream b p draw rand prefix sent c up pkt now ≡ done (c', outs)
      → c'.router_src ≡ c.router_src
  unfolding with_upstream warn_rate_limited
  with_upstream-src sent c c' none pkt now outs e = ground (arith, e)
  with_upstream-src sent c c' (some up) pkt now outs e =
      let (got, _, r) = >>=-eq-done (to_upstream b p draw rand prefix sent up pkt) _ e in cc r

  -- What Deobfuscate takes from the upstream behind a packet of the router goes to the address that
  -- packet came from, whatever became of that packet; and it is a standard message with the MAC1 for
  -- the key of the router's interface.
  pub reply_returns :
      (sent : ℕ → Bool) (c c' : ClientProxy) (snap : Option Snapshot) (snap' : Snapshot)
      (addr : String) (pkt reply plain : List ℕ) (outs : List (List ℕ)) (typ now later : ℕ)
      → router_packet b p draw rand prefix sent c snap addr pkt now ≡ done (c', outs)
      → deobfuscate b p reply snap'.server_pub ≡ done (some (plain, typ))
      → (awg_packet b p c' (some snap') reply later ≡ done (c', some (addr, plain)))
        × IsStandard b snap'.server_pub typ plain
  unfolding router_packet awg_packet to_router
  reply_returns sent c c' snap snap' addr pkt reply plain outs typ now later e d = (
    rw
        (
          awg_packet,
          d,
          with_upstream-src sent (record c { router_src = some addr }) c' _ pkt now outs e,
        )
        refl,
    (deobfuscate-IsStandard b p reply snap'.server_pub plain typ d).0,
  )

  to_upstream-junk :
      (sent : ℕ → Bool) (up : Upstream) (pkt out : List ℕ) (junk : List (List ℕ))
      → type pkt ≡ type_init
      → ((k : ℕ) → sent k ≡ true)
      → junk_packets draw rand p ≡ done junk
      → obfuscate b p prefix pkt up.server_pub ≡ done out
      → to_upstream b p draw rand prefix sent up pkt ≡ done (junk ++ out ∷ [])
  unfolding to_upstream
  to_upstream-junk sent up pkt out junk kind all made e =
      rw (to_upstream, e, kind, made, send_junk_all sent junk 0 all) refl

  -- An initiation of the router, where the upstream is known, 0 <= Jmin <= Jmax, neither Jmax nor Jc
  -- is above 65535, the random source gives what it is asked for, Obfuscate does not panic, and every
  -- write succeeds: exactly Jc junk packets with lengths from Jmin to Jmax go out first, then the obfuscated
  -- initiation, with the MAC1 for the upstream's key.
  pub init_burst :
      (sent : ℕ → Bool) (c : ClientProxy) (snap : Snapshot) (up : Upstream) (addr : String)
      (pkt out : List ℕ) (now : ℕ)
      → ((i k : ℕ) → 0 < k → draw i k < k)
      → ((i n : ℕ) → length (rand i n) ≡ n)
      → neg_part p.jmin ≡ 0
      → p.jmin ≤ℤ p.jmax
      → pos_part p.jmax ≤ max_datagram
      → pos_part p.jc ≤ max_datagram
      → snap.upstream ≡ some up
      → type pkt ≡ type_init
      → ((k : ℕ) → sent k ≡ true)
      → obfuscate b p prefix pkt up.server_pub ≡ done out
      → (junk : List (List ℕ)) × (router_packet b p draw rand prefix sent c (some snap) addr pkt now
          ≡ done (record c { router_src = some addr }, junk ++ out ∷ []))
        × (length junk ≡ pos_part p.jc)
        × All (λ j. (pos_part p.jmin ≤ length j) × (length j ≤ pos_part p.jmax)) junk
  unfolding router_packet with_upstream
  init_burst sent c snap up addr pkt out now drawn full low range small few known kind all e =
      let (junk, made, count, sizes) =
        junk_packets_range draw rand p drawn full low range small few in
      (
        junk,
        rw
            (
              router_packet,
              known,
              with_upstream,
              to_upstream-junk sent up pkt out junk kind all made e,
            )
            refl,
        count,
        sizes,
      )
