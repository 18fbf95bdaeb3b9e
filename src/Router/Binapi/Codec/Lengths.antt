-- ===== src/Router/Binapi/Codec/Lengths.antt =====
-- codec.go: readLength takes back what writeLength wrote.
use Prim.Native.Nat.{◌/◌, ◌%◌, ◌*◌, ◌^◌, ◌<◌, ◌≤◌}
use awg_proxy_go.Prelude.{ℕ, ◌+◌, ◌≡◌, List, ◌∷◌, ◌++◌, arith}
use awg_proxy_go.Prelude.Results.{ok}
use awg_proxy_go.Prelude.Masks.{
  bit_and_80, bit_and-c0, bit_and-e0, bit_and-f0, bit_and_3f, bit_and_1f, bit_and_0f, bit_or-e0,
}
use awg_proxy_go.Router.Binapi.Codec.{
  write_length, read_length, read_byte, read_full, length_behind,
}

-- One lemma for each form of a length.
module _ (b : ℕ) (rest : List ℕ) where
  read_one : b < 128 → read_length (b ∷ rest) ≡ ok (b, rest)
  unfolding read_length length_behind read_byte
  read_one h = ground (arith, bit_and_80 b)

  read_two : (c : ℕ) → 128 ≤ b → b < 192 → read_length (b ∷ c ∷ rest) ≡ ok (b % 64 * 256 + c, rest)
  unfolding read_length length_behind read_byte read_full
  read_two c h k = ground (arith, bit_and_80 b, bit_and-c0 b, bit_and_3f b)

  read_three :
      (c d : ℕ)
      → 192 ≤ b
      → b < 224
      → read_length (b ∷ c ∷ d ∷ rest) ≡ ok ((b % 32 * 256 + c) * 256 + d, rest)
  unfolding read_length length_behind read_byte read_full
  read_three c d h k = ground (arith, bit_and_80 b, bit_and-c0 b, bit_and-e0 b, bit_and_1f b)

  read_four :
      (c d e : ℕ)
      → 224 ≤ b
      → b < 240
      → read_length (b ∷ c ∷ d ∷ e ∷ rest) ≡ ok (((b % 16 * 256 + c) * 256 + d) * 256 + e, rest)
  unfolding read_length length_behind read_byte read_full
  read_four c d e h k =
      ground (arith, bit_and_80 b, bit_and-c0 b, bit_and-e0 b, bit_and-f0 b, bit_and_0f b)

  read_five :
      (c d e : ℕ)
      → read_length (0xf0 ∷ b ∷ c ∷ d ∷ e ∷ rest) ≡ ok (((b * 256 + c) * 256 + d) * 256 + e, rest)
  unfolding read_length length_behind read_byte read_full
  read_five c d e = ground arith

-- A length below 2^32 is read back, and the read stops where the length ends.
pub read_length-write_length :
    (n : ℕ) (rest : List ℕ) → n < 2 ^ 32 → read_length (write_length n ++ rest) ≡ ok (n, rest)
unfolding write_length
read_length-write_length n rest fits = ground (
  arith,
  read_one (n % 256) rest,
  read_two ((n + 0x8000) / 256 % 256) rest ((n + 0x8000) % 256),
  read_three ((n + 0xc00000) / 65536 % 256) rest ((n + 0xc00000) / 256 % 256)
      ((n + 0xc00000) % 256),
  read_four (n / 16777216 % 256 + 224) rest (n / 65536 % 256) (n / 256 % 256) (n % 256),
  bit_or-e0 (n / 16777216 % 256),
  read_five (n / 16777216 % 256) rest (n / 65536 % 256) (n / 256 % 256) (n % 256),
)
