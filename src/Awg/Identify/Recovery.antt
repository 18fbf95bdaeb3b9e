-- ===== src/Awg/Identify/Recovery.antt =====
-- identify.go against the initiator's side of the handshake.
use awg_proxy_go.Prelude.{
  ℕ, ◌+◌, ◌≤◌, ◌≡◌, ap, List, [], ◌∷◌, ◌++◌, append-nil, append_assoc, Option, some, length,
  length-append, take, drop, take_exact, drop_exact, replicate, arith,
}
use awg_proxy_go.Awg.Identify.{
  Noise, hash_all, kdf1, kdf2, open_static, client_pub_from_init, initiator_hash, initiator_key,
  initiation,
}

hash_all_two : (n : Noise) (a c : List ℕ) → hash_all n (a ∷ c ∷ []) ≡ n.sum256 (a ++ c)
unfolding hash_all
hash_all_two n a c = ap (λ (x : List ℕ). n.sum256 (a ++ x)) (append-nil c)

module _ (n : Noise) (seal : List ℕ → List ℕ → List ℕ → List ℕ)
    (open_aead : List ℕ → List ℕ → List ℕ → List ℕ → Option (List ℕ))
    (aead : (key : List ℕ) → n.new_aead key ≡ some (open_aead key))
    (open-seal : (key msg ad : List ℕ)
      → open_aead key (replicate 12 0) (seal key msg ad) ad ≡ some msg)
    (length-seal : (key msg ad : List ℕ) → length (seal key msg ad) ≡ length msg + 16) where
  open_static_seal :
      (server_pub server_priv ephemeral shared client_pub : List ℕ)
      → length client_pub ≡ 32
      → n.x25519 server_priv ephemeral ≡ some shared
      → open_static n server_priv server_pub ephemeral (
          seal
            (initiator_key n seal ephemeral shared)
            client_pub
            (initiator_hash n seal server_pub ephemeral))
        ≡ some client_pub
  unfolding open_static kdf1 kdf2
  open_static_seal server_pub server_priv ephemeral shared client_pub c dh =
      simp (hash_all_two n, dh, aead, open-seal, c)

  -- The key that the initiator encrypted comes out, if the AEAD opens what it sealed, the initiation is
  -- laid out as the protocol says and both sides have the same Diffie-Hellman secret.
  pub client_pub_from_init-initiation :
      (front server_pub server_priv ephemeral shared client_pub rest : List ℕ)
      → length front ≡ 8
      → length ephemeral ≡ 32
      → length client_pub ≡ 32
      → n.x25519 server_priv ephemeral ≡ some shared
      → client_pub_from_init n
          (initiation n seal front server_pub ephemeral shared client_pub rest)
          server_priv
          server_pub
        ≡ some client_pub
  unfolding client_pub_from_init
  client_pub_from_init-initiation front server_pub server_priv ephemeral shared client_pub rest f e
        c dh =
      ground (arith, long, opened)
    where
      sealed : List ℕ
      sealed =
          seal (initiator_key n seal ephemeral shared) client_pub
            (initiator_hash n seal server_pub ephemeral)

      init : List ℕ
      init = front ++ (ephemeral ++ (sealed ++ rest))

      eph_at : take 32 (drop 8 init) ≡ ephemeral
      eph_at =
          rw (drop_exact 8 front (ephemeral ++ (sealed ++ rest)) f)
            (take_exact 32 ephemeral (sealed ++ rest) e)

      enc_at : take 48 (drop 40 init) ≡ sealed
      enc_at =
          rw
            (
              ← append_assoc front ephemeral (sealed ++ rest),
              drop_exact 40 (front ++ ephemeral) (sealed ++ rest)
                  (omega (arith, length-append front ephemeral)),
            )
            (take_exact 48 sealed rest (
              omega (
                arith,
                length-seal (initiator_key n seal ephemeral shared) client_pub
                    (initiator_hash n seal server_pub ephemeral),
              )))

      long : 88 ≤ length init
      long = omega (
        arith,
        length-append front (ephemeral ++ (sealed ++ rest)),
        length-append ephemeral (sealed ++ rest),
        length-append sealed rest,
        length-seal (initiator_key n seal ephemeral shared) client_pub
            (initiator_hash n seal server_pub ephemeral),
      )

      opened :
          open_static n server_priv server_pub (take 32 (drop 8 init)) (take 48 (drop 40 init))
          ≡ some client_pub
      opened =
          rw (eph_at, enc_at)
            (open_static_seal server_pub server_priv ephemeral shared client_pub c dh)
