-- ===== src/Proxy/Server/Forwarding.antt =====
-- server.go: what reaches the WireGuard server.
use awg_proxy_go.Prelude.{
  ℕ, ◌≤◌, ◌≡◌, ◌∙◌, ap, String, List, Option, none, some, length, done, >>=-eq-done,
}
use awg_proxy_go.Awg.Crypto.{Blake2s}
use awg_proxy_go.Awg.Identify.{Noise}
use awg_proxy_go.Awg.Transform.{Params, deobfuscate}
use awg_proxy_go.Awg.Transform.Standard.{IsStandard, deobfuscate-IsStandard}
use awg_proxy_go.Router.Snapshot.{Snapshot}
use awg_proxy_go.Proxy.Sessions.{Table}
use awg_proxy_go.Proxy.Server.{note, forward, client_packet}

-- What one turn may do with a packet: nothing at all, or to write a standard message to the server.
abbrev pub IsForwarded : Blake2s → Snapshot → Table → List ℕ → Table → Option (List ℕ) → Type 0
IsForwarded b snap t pkt t' none = t' ≡ t
IsForwarded b snap t pkt t' (some plain) =
    (typ : ℕ) × IsStandard b snap.server_pub typ plain × (length plain ≤ length pkt)

module _ (b : Blake2s) (n : Noise) (p : Params) where
  forward-IsForwarded :
      (t t' : Table) (snap : Snapshot) (addr : String) (pkt spare : List ℕ) (now : ℕ)
      (found : Option (List ℕ × ℕ)) (out : Option (List ℕ))
      → deobfuscate b p pkt snap.server_pub ≡ done found
      → forward b n p t snap addr spare now found ≡ done (t', out)
      → IsForwarded b snap t pkt t' out
  unfolding forward
  forward-IsForwarded t t' snap addr pkt spare now none none d e = cc e
  forward-IsForwarded t t' snap addr pkt spare now none (some plain) d e = cc e
  forward-IsForwarded t t' snap addr pkt spare now (some (got, typ)) none d e =
      let (t1, _, r) = >>=-eq-done (note b n p t snap addr got spare typ now) _ e in cc r
  forward-IsForwarded t t' snap addr pkt spare now (some (got, typ)) (some plain) d e =
      let (t1, _, r) = >>=-eq-done (note b n p t snap addr got spare typ now) _ e in
      let same : got ≡ plain = cc r in
      let (standard, short) =
        deobfuscate-IsStandard b p pkt snap.server_pub plain typ
          (d ∙ ap (λ x. done (some (x, typ))) same) in
      (typ, standard, short)

  -- A packet of a client leaves the table as it is and nothing is written, or the WireGuard server
  -- gets a standard message with the MAC1 for its key, no longer than the packet.
  pub client_packet-IsForwarded :
      (t t' : Table) (snap : Snapshot) (addr : String) (pkt spare : List ℕ) (now : ℕ)
      (out : Option (List ℕ))
      → client_packet b n p t (some snap) addr pkt spare now ≡ done (t', out)
      → IsForwarded b snap t pkt t' out
  unfolding client_packet
  client_packet-IsForwarded t t' snap addr pkt spare now out e =
      let (found, d, r) = >>=-eq-done (deobfuscate b p pkt snap.server_pub) _ e in
      forward-IsForwarded t t' snap addr pkt spare now found out d r
