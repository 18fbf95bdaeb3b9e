-- ===== src/Proxy/Server/Handshake.antt =====
-- server.go: a handshake through the proxy.
use awg_proxy_go.Prelude.{
  ℕ, ◌≡◌, ◌≢◌, refl, ap, true, false, String, Bool, List, [], ◌∷◌, some, done, Bool-cases, arith,
  inl, inr,
}
use awg_proxy_go.Prelude.Eq.{nat_eq, list_eq}
use awg_proxy_go.Wg.{type, type_init, type_response, sender_index, receiver_index}
use awg_proxy_go.Awg.Crypto.{Blake2s}
use awg_proxy_go.Awg.Identify.{Noise, client_pub_from_init}
use awg_proxy_go.Awg.Transform.{Params, deobfuscate, obfuscate}
use awg_proxy_go.Router.Snapshot.{Snapshot}
use awg_proxy_go.Proxy.Sessions.{Table, client_init, set_pub, response_targets, zero_key}
use awg_proxy_go.Proxy.Sessions.Invariant.{IsValid}
use awg_proxy_go.Proxy.Sessions.Replies.{response_targets-set_pub}
use awg_proxy_go.Proxy.Server.{
  identify_client, note, forward, client_packet, send_copies, answer_clients, server_packet,
}

module _ (b : Blake2s) (n : Noise) (p : Params) where
  identify_client-known :
      (t : Table) (snap : Snapshot) (addr : String) (plain key : List ℕ)
      → snap.server_priv ≢ zero_key
      → client_pub_from_init n plain snap.server_priv snap.server_pub ≡ some key
      → identify_client b n p t snap addr plain ≡ set_pub t addr key
  unfolding identify_client
  identify_client-known t snap addr plain key secret opened = rw (opened, differ) refl
    where
      differ : list_eq.equals snap.server_priv zero_key ≡ false
      differ = elim (Bool-cases (list_eq.equals snap.server_priv zero_key)) [
        | inl same ↦ absurd (secret ((list_eq.equals_iff snap.server_priv zero_key).0 same))
        | inr other ↦ other
      ]

  -- An initiation that the proxy takes and decrypts.
  client_packet-init :
      (t : Table) (snap : Snapshot) (addr : String) (pkt spare plain key : List ℕ) (index now : ℕ)
      → deobfuscate b p pkt snap.server_pub ≡ done (some (plain, type_init))
      → sender_index (record { bytes = plain; spare = spare }) ≡ done index
      → snap.server_priv ≢ zero_key
      → client_pub_from_init n plain snap.server_priv snap.server_pub ≡ some key
      → client_packet b n p t (some snap) addr pkt spare now
        ≡ done (set_pub (client_init t addr index now) addr key, some plain)
  unfolding client_packet forward note
  client_packet-init t snap addr pkt spare plain key index now clear sent secret opened =
      rw
        (
          client_packet,
          clear,
          forward,
          note,
          sent,
          identify_client-known (client_init t addr index now) snap addr plain key secret opened,
        )
        refl

  answer_clients-one :
      (rand : ℕ → ℕ → List ℕ) (sent : ℕ → Bool) (t : Table) (addr : String) (plain key out : List ℕ)
      → obfuscate b p (rand 0) plain key ≡ done out
      → answer_clients b n p rand sent plain (t, some (addr, key ∷ [])) ≡ done (t, (addr, out) ∷ [])
  unfolding answer_clients send_copies
  answer_clients-one rand sent t addr plain key out e = ground (arith, e)

  server_packet-target :
      (t t' : Table) (snap : Snapshot) (plain spare : List ℕ) (addr : String) (key out : List ℕ)
      (index now : ℕ) (rand : ℕ → ℕ → List ℕ) (sent : ℕ → Bool)
      → type plain ≡ type_response
      → receiver_index (record { bytes = plain; spare = spare }) ≡ done index
      → response_targets t index snap.client_pubs true now ≡ (t', some (addr, key ∷ []))
      → obfuscate b p (rand 0) plain key ≡ done out
      → server_packet b n p t (some snap) plain spare now rand sent ≡ done (t', (addr, out) ∷ [])
  unfolding server_packet
  server_packet-target t t' snap plain spare addr key out index now rand sent kind found target e =
      rw (server_packet, found, kind, target) (answer_clients-one rand sent t' addr plain key out e)

  -- A handshake through the server proxy, from a valid session table. The packet of a client clears to an initiation with the
  -- sender index `index`, and the server's private key, which is known, opens the client's key in it.
  -- Then the initiation goes to the WireGuard server; and the response that names `index` goes, once,
  -- to the address of that client, obfuscated with the MAC1 for that client's key, whatever peers
  -- the snapshot at that time lists and whether or not the write succeeds.
  pub handshake :
      (t : Table) (snap snap' : Snapshot) (addr : String) (pkt spare plain key : List ℕ)
      (response behind out : List ℕ) (index now later : ℕ) (rand : ℕ → ℕ → List ℕ) (sent : ℕ → Bool)
      → IsValid t
      → deobfuscate b p pkt snap.server_pub ≡ done (some (plain, type_init))
      → sender_index (record { bytes = plain; spare = spare }) ≡ done index
      → snap.server_priv ≢ zero_key
      → client_pub_from_init n plain snap.server_priv snap.server_pub ≡ some key
      → type response ≡ type_response
      → receiver_index (record { bytes = response; spare = behind }) ≡ done index
      → obfuscate b p (rand 0) response key ≡ done out
      → (t1 : Table) × (t2 : Table) × (client_packet b n p t (some snap) addr pkt spare now
          ≡ done (t1, some plain))
        × (server_packet b n p t1 (some snap') response behind later rand sent
            ≡ done (t2, (addr, out) ∷ []))
  handshake t snap snap' addr pkt spare plain key response behind out index now later rand sent v
        clear from secret opened kind named made =
      let t1 = set_pub (client_init t addr index now) addr key in
      let answered = response_targets t1 index snap'.client_pubs true later in
      (
        t1,
        answered.0,
        client_packet-init t snap addr pkt spare plain key index now clear from secret opened,
        server_packet-target t1 answered.0 snap' response behind addr key out index later rand sent
            kind named
            (ap (λ r. (answered.0, r))
              (response_targets-set_pub t addr index now later key snap'.client_pubs v))
            made,
      )
