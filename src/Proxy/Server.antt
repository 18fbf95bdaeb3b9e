-- ===== src/Proxy/Server.antt =====
-- internal/proxy/server.go: one turn of clientLoop and of serverLoop. The turns of the two
-- goroutines interleave at the table's methods, each of which holds the mutex.
pub mod Forwarding
pub mod Handshake
use awg_proxy_go.Prelude.{
  ℕ, suc, Bool, not, String, List, [], ◌∷◌, ◌==◌, Option, none, some, if◌then◌else◌, Run, done,
  panic, ◌>>=◌,
}
use awg_proxy_go.Prelude.Eq.{nat_eq, list_eq, ◌==◌ as eq}
use awg_proxy_go.Wg.{
  Slice, type, type_init, type_response, type_transport, sender_index, receiver_index,
}
use awg_proxy_go.Awg.Crypto.{Blake2s}
use awg_proxy_go.Awg.Transform.{Params, deobfuscate, obfuscate}
use awg_proxy_go.Awg.Identify.{Noise, client_pub_from_init}
use awg_proxy_go.Router.Snapshot.{Snapshot}
use awg_proxy_go.Proxy.Sessions.{
  Table, client_init, client_traffic, set_pub, response_targets, zero_key,
}

module _ (b : Blake2s) (n : Noise) (p : Params) where
  identify_client : Table → Snapshot → String → List ℕ → Table
  unfolding client_pub_from_init set_pub
  identify_client t snap addr plain =
      if list_eq.equals snap.server_priv zero_key
      then t
      else elim (client_pub_from_init n plain snap.server_priv snap.server_pub) [
        | some key ↦ set_pub t addr key
        | none ↦ t
      ]

  -- `switch typ`. The message ends where the packet ends, and `spare` is the buffer behind it.
  note : Table → Snapshot → String → List ℕ → List ℕ → ℕ → ℕ → Run Table
  unfolding sender_index client_init client_traffic identify_client
  note t snap addr plain spare typ now =
      if typ == type_init
      then (do
        index ← sender_index (record { bytes = plain; spare = spare })
        done (identify_client (client_init t addr index now) snap addr plain))
      else if typ == type_transport
      then done (client_traffic t addr now)
      else done t

  forward :
      Table → Snapshot → String → List ℕ → ℕ → Option (List ℕ × ℕ) → Run (Table × Option (List ℕ))
  unfolding note
  forward t snap addr spare now none = done (t, none)
  forward t snap addr spare now (some (plain, typ)) = do
    t' ← note t snap addr plain spare typ now
    done (t', some plain)

  -- clientLoop: the table, and what is written to the WireGuard server.
  unfoldable pub client_packet :
      Table → Option Snapshot → String → List ℕ → List ℕ → ℕ → Run (Table × Option (List ℕ))
  unfolding deobfuscate forward
  client_packet t none addr pkt spare now = done (t, none)
  client_packet t (some snap) addr pkt spare now = do
    found ← deobfuscate b p pkt snap.server_pub
    forward t snap addr spare now found

  -- `for _, pub := range pubs`: copy i is made with the random bytes of `rand i`, `sent i` says
  -- whether its write succeeds. The loop ends at a write that fails.
  unfoldable pub send_copies :
      (ℕ → ℕ → List ℕ)
      → (ℕ → Bool)
      → String
      → List ℕ
      → List (List ℕ)
      → ℕ
      → Run (List (String × List ℕ))
  unfolding obfuscate
  send_copies rand sent addr plain [] i = done []
  send_copies rand sent addr plain (key ∷ keys) i = do
    out ← obfuscate b p (rand i) plain key
    let rest = send_copies rand sent addr plain keys (suc i)
    if sent i then (do outs ← rest; done ((addr, out) ∷ outs)) else done ((addr, out) ∷ [])

  answer_clients :
      (ℕ → ℕ → List ℕ)
      → (ℕ → Bool)
      → List ℕ
      → Table × Option (String × List (List ℕ))
      → Run (Table × List (String × List ℕ))
  unfolding send_copies
  answer_clients rand sent plain (t, none) = done (t, [])
  answer_clients rand sent plain (t, some (addr, keys)) = do
    outs ← send_copies rand sent addr plain keys 0
    done (t, outs)

  -- serverLoop: the table, and what is written to clients.
  unfoldable pub server_packet :
      Table
      → Option Snapshot
      → List ℕ
      → List ℕ
      → ℕ
      → (ℕ → ℕ → List ℕ)
      → (ℕ → Bool)
      → Run (Table × List (String × List ℕ))
  unfolding type receiver_index response_targets answer_clients
  server_packet t none plain spare now rand sent = done (t, [])
  server_packet t (some snap) plain spare now rand sent = do
    index ← receiver_index (record { bytes = plain; spare = spare })
    answer_clients rand sent plain
        (response_targets t index snap.client_pubs (type plain == type_response) now)
