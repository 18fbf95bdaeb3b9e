-- ===== src/Awg/Crypto.antt =====
-- internal/awg/mac.go, over the BLAKE2s of golang.org/x/crypto.
use awg_proxy_go.Prelude.{ℕ, ◌≡◌, List, [], ◌∷◌, ◌++◌, length}

-- What the code takes from golang.org/x/crypto/blake2s: the 256-bit hash, and the keyed 128-bit MAC
-- by key and message. The digest of the MAC is 16 bytes long.
pub record Blake2s : Type 0 where
  pub sum256 : List ℕ → List ℕ
  pub keyed128 : List ℕ → List ℕ → List ℕ
  pub length-keyed128 : (key msg : List ℕ) → length (keyed128 key msg) ≡ 16

-- "mac1----"
abbrev pub label_mac1 : List ℕ
label_mac1 = b'm' ∷ b'a' ∷ b'c' ∷ b'1' ∷ b'-' ∷ b'-' ∷ b'-' ∷ b'-' ∷ []

unfoldable pub mac1_key : Blake2s → List ℕ → List ℕ
mac1_key b pub_key = b.sum256 (label_mac1 ++ pub_key)

unfoldable pub compute_mac1 : Blake2s → List ℕ → List ℕ → List ℕ
unfolding mac1_key
compute_mac1 b pub_key msg = b.keyed128 (mac1_key b pub_key) msg
