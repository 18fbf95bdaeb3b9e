-- ===== src/Awg/Identify.antt =====
-- internal/awg/identify.go: the client's static key out of a handshake initiation.
pub mod Recovery
use awg_proxy_go.Prelude.{
  ℕ, ◌+◌, ◌≡◌, refl, sym, ap, ◌∙◌, List, [], ◌∷◌, ◌++◌, append-nil, append_assoc, Option, none,
  some, if◌then◌else◌, ltb, ◌==◌, length, length-append, take, drop, take-append, drop-append,
  replicate, arith,
}
use awg_proxy_go.Prelude.Text.{codes}

-- What the code takes from golang.org/x/crypto and crypto/hmac. `new_aead` gives, for a key, the
-- `Open` of its AEAD, by nonce, ciphertext and additional data; `none` is an error.
pub record Noise : Type 0 where
  pub sum256 : List ℕ → List ℕ
  pub hmac : List ℕ → List ℕ → List ℕ
  pub x25519 : List ℕ → List ℕ → Option (List ℕ)
  pub new_aead : List ℕ → Option (List ℕ → List ℕ → List ℕ → Option (List ℕ))

abbrev pub noise_construction : List ℕ
noise_construction = codes "Noise_IKpsk2_25519_ChaChaPoly_BLAKE2s"

abbrev pub wg_identifier : List ℕ
wg_identifier = codes "WireGuard v1 zx2c4 Jason@zx2c4.com"

infixl 5 ◌>>=◌
abbrev ◌>>=◌ {ℓ κ} : {A : Type ℓ} {B : Type κ} → Option A → (A → Option B) → Option B
none >>= f = none
some a >>= f = f a

concat : List (List ℕ) → List ℕ
concat [] = []
concat (p ∷ ps) = p ++ concat ps

module _ (n : Noise) where
  -- hashAll(parts...)
  unfoldable pub hash_all : List (List ℕ) → List ℕ
  unfolding concat
  hash_all parts = n.sum256 (concat parts)

  unfoldable pub kdf1 : List ℕ → List ℕ → List ℕ
  kdf1 key input = let prk = n.hmac key input in n.hmac prk (1 ∷ [])

  unfoldable pub kdf2 : List ℕ → List ℕ → List ℕ × List ℕ
  kdf2 key input =
      let prk = n.hmac key input in
      let t1 = n.hmac prk (1 ∷ []) in (t1, n.hmac prk (t1 ++ (2 ∷ [])))

  -- The Noise chain on the responder's side, up to the opened `encrypted_static`.
  unfoldable pub open_static : List ℕ → List ℕ → List ℕ → List ℕ → Option (List ℕ)
  open_static server_priv server_pub ephemeral enc_static = do
    let chain_key = n.sum256 noise_construction
    let h0 = hash_all (chain_key ∷ wg_identifier ∷ [])
    let h1 = hash_all (h0 ∷ server_pub ∷ [])
    let h2 = hash_all (h1 ∷ ephemeral ∷ [])
    let chain_key1 = kdf1 chain_key ephemeral
    ss ← n.x25519 server_priv ephemeral
    let key = (kdf2 chain_key1 ss).1
    aead ← n.new_aead key
    out ← aead (replicate 12 0) enc_static h2
    if length out == 32 then some out else none

  unfoldable pub client_pub_from_init : List ℕ → List ℕ → List ℕ → Option (List ℕ)
  client_pub_from_init init server_priv server_pub =
      if ltb (length init) 88
      then none
      else open_static server_priv server_pub (take 32 (drop 8 init)) (take 48 (drop 40 init))

-- The initiator's side of the Noise IK handshake, by the WireGuard protocol: Hash is over a
-- concatenation, `seal` encrypts under a key and additional data with counter 0.
module _ (n : Noise) (seal : List ℕ → List ℕ → List ℕ → List ℕ) where
  -- H_i after the responder's static key and the ephemeral key are mixed in.
  abbrev pub initiator_hash : List ℕ → List ℕ → List ℕ
  initiator_hash server_pub ephemeral = n.sum256 (
      n.sum256 (n.sum256 (n.sum256 noise_construction ++ wg_identifier) ++ server_pub) ++ ephemeral)

  -- KDF_1 and KDF_2 of the protocol, as HMACs of counters.
  abbrev pub initiator_key : List ℕ → List ℕ → List ℕ
  initiator_key ephemeral shared =
      let chain = n.hmac (n.hmac (n.sum256 noise_construction) ephemeral) (1 ∷ []) in
      let prk = n.hmac chain shared in n.hmac prk (n.hmac prk (1 ∷ []) ++ (2 ∷ []))

  -- type and sender (8 bytes), ephemeral key, encrypted static key, and what follows.
  abbrev pub initiation : List ℕ → List ℕ → List ℕ → List ℕ → List ℕ → List ℕ → List ℕ
  initiation front server_pub ephemeral shared client_pub rest =
      front
      ++ (ephemeral
          ++ (seal (initiator_key ephemeral shared) client_pub (initiator_hash server_pub ephemeral)
              ++ rest))
