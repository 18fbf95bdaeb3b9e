-- ===== src/Tests/Identify.antt =====
-- internal/awg/identify.go on a concrete initiation, over toy primitives.
use awg_proxy_go.Prelude.{
  ℕ, ◌+◌, ◌-◌, ◌≡◌, refl, List, [], ◌∷◌, ◌++◌, Option, none, some, length, length-append, replicate,
  take, take_exact, arith,
}
use awg_proxy_go.Awg.Identify.{Noise, open_static, client_pub_from_init, initiation}
use awg_proxy_go.Awg.Identify.Recovery.{client_pub_from_init-initiation}

abbrev toy_open : List ℕ → List ℕ → List ℕ → List ℕ → Option (List ℕ)
toy_open key nonce sealed ad = some (take (length sealed - 16) sealed)

abbrev toy_seal : List ℕ → List ℕ → List ℕ → List ℕ
toy_seal key msg ad = msg ++ replicate 16 0

abbrev pub toy_noise : Noise
toy_noise = record {
  sum256 = λ xs. length xs ∷ [];
  hmac = λ key msg. key ++ msg;
  x25519 = λ scalar point. some (replicate 32 5);
  new_aead = λ key. some (toy_open key);
}

length-toy_seal : (key msg ad : List ℕ) → length (toy_seal key msg ad) ≡ length msg + 16
length-toy_seal key msg ad = length-append msg (replicate 16 0)

toy_open-toy_seal :
    (key msg ad : List ℕ) → toy_open key (replicate 12 0) (toy_seal key msg ad) ad ≡ some msg
toy_open-toy_seal key msg ad =
    rw
      (take_exact (length (msg ++ replicate 16 0) - 16) msg (replicate 16 0)
        (omega (arith, length-append msg (replicate 16 0))))
      refl

client_pub_from_init-initiation_example :
    client_pub_from_init toy_noise
      (initiation toy_noise toy_seal
        (replicate 8 1)
        (replicate 32 2)
        (replicate 32 3)
        (replicate 32 5)
        (replicate 32 4)
        (replicate 60 0))
      (replicate 32 9)
      (replicate 32 2)
    ≡ some (replicate 32 4)
client_pub_from_init-initiation_example =
    client_pub_from_init-initiation toy_noise toy_seal toy_open (λ key. refl) toy_open-toy_seal
      length-toy_seal (replicate 8 1) (replicate 32 2) (replicate 32 9) (replicate 32 3)
      (replicate 32 5) (replicate 32 4) (replicate 60 0) refl refl refl refl

-- A packet of the right size whose sealed field does not open to 32 bytes.
short_key :
    client_pub_from_init
      (record toy_noise { new_aead = λ key. some (λ n c a. some []) })
      (replicate 148 1)
      (replicate 32 9)
      (replicate 32 2)
    ≡ none
unfolding client_pub_from_init open_static
short_key = refl
