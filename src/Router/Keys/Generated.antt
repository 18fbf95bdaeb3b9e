-- ===== src/Router/Keys/Generated.antt =====
-- parsePubKey on the keys that GenerateKeypair prints.
use awg_proxy_go.Prelude.{
  ◌≡◌, refl, ap, ◌∙◌, ℕ, String, List, Option, none, some, length, length-modify, modify, bit_and,
  bit_or, All-modify, get_elem?, get_elem?-All, get_elem?-modify_self, get_elem?-modify_ne, ◌*◌,
  ◌+◌, ◌/◌, ◌%◌, ◌≤◌, ◌<◌, All, arith, Option-cases, inl, inr,
}
use awg_proxy_go.Prelude.Masks.{bit_and-f8, bit_and_7f, bit_or_40}
use awg_proxy_go.Prelude.Bytes.{IsByte}
use awg_proxy_go.Prelude.Eq.{nat_eq, string_eq}
use awg_proxy_go.Prelude.Strings.{trim_space}
use awg_proxy_go.Prelude.Base64.{encode, decode}
use awg_proxy_go.Prelude.Base64.RoundTrip.{decode-encode, trim_space-encode, encode_nonempty}
use awg_proxy_go.Router.Keys.{
  sized_key, parse_pub_key, key_or_zero, clamp, basepoint, generate_keypair,
}

abbrev pub IsKey : List ℕ → Type 0
IsKey k = length k ≡ 32

sized_key-IsKey : (o : Option (List ℕ)) (k : List ℕ) → sized_key o ≡ some k → IsKey k
unfolding sized_key
sized_key-IsKey none k e = cc
sized_key-IsKey (some raw) k e = ground (arith, e)

pub parse_pub_key-IsKey : (s : String) (k : List ℕ) → parse_pub_key s ≡ some k → IsKey k
unfolding parse_pub_key
parse_pub_key-IsKey s k e = ground (arith, e, sized_key-IsKey (decode (trim_space s)) k)

pub key_or_zero-IsKey : (s : String) → IsKey (key_or_zero s)
unfolding key_or_zero
key_or_zero-IsKey s = elim (Option-cases (parse_pub_key s)) [
  | inl e ↦ rw (key_or_zero, e) refl
  | inr (k, e) ↦ rw (key_or_zero, e) (parse_pub_key-IsKey s k e)
]

pub parse_pub_key-encode : (k : List ℕ) → IsKey k → All IsByte k → parse_pub_key (encode k) ≡ some k
unfolding parse_pub_key sized_key
parse_pub_key-encode k h bytes =
    rw (trim_space-encode k bytes, encode_nonempty k h, decode-encode k bytes, h) refl

clamp-IsKey : (k : List ℕ) → IsKey k → IsKey (clamp k)
unfolding clamp
clamp-IsKey k h =
    length-modify 31 (λ b. bit_or (bit_and b 127) 64) (modify 0 (λ b. bit_and b 248) k)
    ∙ length-modify 0 (λ b. bit_and b 248) k
    ∙ h

low-IsByte : (b : ℕ) → IsByte b → IsByte (bit_and b 248)
low-IsByte b h = ground (arith, bit_and-f8 b)

high_byte : (b : ℕ) → IsByte b → bit_or (bit_and b 127) 64 ≡ b % 64 + 64
high_byte b h = rw (bit_and_7f b h, bit_or_40 (b % 128) (omega arith)) (omega arith)

clamp-bytes : (k : List ℕ) → All IsByte k → All IsByte (clamp k)
unfolding clamp
clamp-bytes k h =
    All-modify IsByte 31 (λ b. bit_or (bit_and b 127) 64) (modify 0 (λ b. bit_and b 248) k)
      (λ b byte. ground (arith, high_byte b byte))
      (All-modify IsByte 0 (λ b. bit_and b 248) k low-IsByte h)

-- As curve25519 wants a private key: a multiple of eight, in [2^254, 2^255), lowest byte first.
abbrev pub IsClamped : List ℕ → Type 0
IsClamped k =
    ((a : ℕ) × (get_elem? k 0 ≡ some (a * 8)))
    × ((b : ℕ) × (get_elem? k 31 ≡ some b) × (64 ≤ b) × (b < 128))

clamp-IsClamped : (k : List ℕ) → IsKey k → All IsByte k → IsClamped (clamp k)
unfolding clamp
clamp-IsClamped k size bytes =
    let low = modify 0 (λ b. bit_and b 248) k in
    let (x, first, byte) = get_elem?-All IsByte 0 k (omega (arith, size)) bytes in
    let (y, last, byte') = get_elem?-All IsByte 31 k (omega (arith, size)) bytes in
    let kept = get_elem?-modify_ne 0 31 (λ b. bit_and b 248) k (λ e. omega (arith, e)) ∙ last in
    (
      (
        x / 8,
        get_elem?-modify_ne 31 0 (λ b. bit_or (bit_and b 127) 64) low (λ e. omega (arith, e))
            ∙ get_elem?-modify_self 0 (λ b. bit_and b 248) k first
            ∙ ap some (bit_and-f8 x byte),
      ),
      (
        y % 64 + 64,
        get_elem?-modify_self 31 (λ b. bit_or (bit_and b 127) 64) low kept
            ∙ ap some (high_byte y byte'),
        omega arith,
        omega arith,
      ),
    )

-- Where crypto/rand gives 32 bytes and X25519 gives 32 bytes for the clamped key, GenerateKeypair
-- succeeds, parsePubKey reads both texts back, as the clamped key and as the public key of X25519,
-- and the private key is a clamped one.
pub generate_keypair-parse_pub_key :
    (x25519 : List ℕ → List ℕ → Option (List ℕ)) (rand key : List ℕ)
    → IsKey rand
    → All IsByte rand
    → x25519 (clamp rand) basepoint ≡ some key
    → IsKey key
    → All IsByte key
    → (private : String) × (public : String) × (generate_keypair x25519 (some rand)
        ≡ some (private, public))
      × (parse_pub_key private ≡ some (clamp rand))
      × (parse_pub_key public ≡ some key)
      × IsClamped (clamp rand)
unfolding generate_keypair
generate_keypair-parse_pub_key x25519 rand key size bytes e size' bytes' = (
  encode (clamp rand),
  encode key,
  rw (generate_keypair, e) refl,
  parse_pub_key-encode (clamp rand) (clamp-IsKey rand size) (clamp-bytes rand bytes),
  parse_pub_key-encode key size' bytes',
  clamp-IsClamped rand size bytes,
)
