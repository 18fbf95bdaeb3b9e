-- ===== src/Router/Keys.antt =====
-- parsePubKey of internal/router/poller.go, and internal/router/keys.go, where X25519 is a parameter.
pub mod Generated
use awg_proxy_go.Prelude.{
  ℕ, String, List, [], ◌∷◌, Option, none, some, length, replicate, modify, bit_and, bit_or,
  if◌then◌else◌,
}
use awg_proxy_go.Prelude.Eq.{◌==◌, nat_eq, string_eq}
use awg_proxy_go.Prelude.Strings.{trim_space}
use awg_proxy_go.Prelude.Base64.{encode, decode}

unfoldable pub sized_key : Option (List ℕ) → Option (List ℕ)
sized_key none = none
sized_key (some raw) = if length raw == 32 then some raw else none

-- parsePubKey: `none` for an error.
unfoldable pub parse_pub_key : String → Option (List ℕ)
unfolding trim_space decode sized_key
parse_pub_key s = if trim_space s == "" then none else sized_key (decode (trim_space s))

-- `k, _ = parsePubKey(s)`: zero bytes where there is an error.
unfoldable pub key_or_zero : String → List ℕ
unfolding parse_pub_key
key_or_zero s = elim (parse_pub_key s) [ some k ↦ k | none ↦ replicate 32 0 ]

unfoldable pub clamp : List ℕ → List ℕ
clamp k = modify 31 (λ b. bit_or (bit_and b 127) 64) (modify 0 (λ b. bit_and b 248) k)

abbrev pub basepoint : List ℕ
basepoint = 9 ∷ replicate 31 0

-- GenerateKeypair: `rand` is what crypto/rand puts into the 32 bytes, `none` where it fails.
unfoldable pub generate_keypair :
    (List ℕ → List ℕ → Option (List ℕ)) → Option (List ℕ) → Option (String × String)
unfolding clamp encode
generate_keypair x25519 none = none
generate_keypair x25519 (some rand) = elim (x25519 (clamp rand) basepoint) [
  | none ↦ none
  | some key ↦ some (encode (clamp rand), encode key)
]
