-- ===== src/Prelude/Masks.antt =====
-- Go's `&` and `|` on one byte as arithmetic, from tables that evaluation checks.
use Prim.Native.Nat.{ℕ, zero, suc, ◌+◌, ◌*◌, ◌/◌, ◌%◌, ◌<◌, bit_and, bit_or}
use mathlib.Core.Path.{◌≡◌, refl}
use mathlib.Core.Bool.{Bool, true, ◌&&◌}
use native.Mathlib.Omega.{arith}
use awg_proxy_go.Prelude.Tests.{◌==◌}

-- The functions have the same value at each byte below `n`.
abbrev same_to : (ℕ → ℕ) → (ℕ → ℕ) → ℕ → Bool
same_to f g zero = true
same_to f g (suc n) = f n == g n && same_to f g n

at_byte : (f g : ℕ → ℕ) (n : ℕ) → same_to f g n ≡ true → (b : ℕ) → b < n → f b ≡ g b
at_byte f g zero table b h = absurd (omega arith)
at_byte f g (suc n) table b h = ground (arith, at_byte f g n (ground arith) b)

pub bit_and_80 : (b : ℕ) → b < 256 → bit_and b 0x80 ≡ b / 128 * 128
bit_and_80 = at_byte _ _ 256 refl

pub bit_and-c0 : (b : ℕ) → b < 256 → bit_and b 0xc0 ≡ b / 64 * 64
bit_and-c0 = at_byte _ _ 256 refl

pub bit_and-e0 : (b : ℕ) → b < 256 → bit_and b 0xe0 ≡ b / 32 * 32
bit_and-e0 = at_byte _ _ 256 refl

pub bit_and-f0 : (b : ℕ) → b < 256 → bit_and b 0xf0 ≡ b / 16 * 16
bit_and-f0 = at_byte _ _ 256 refl

pub bit_and_3f : (b : ℕ) → b < 256 → bit_and b 0x3f ≡ b % 64
bit_and_3f = at_byte _ _ 256 refl

pub bit_and_1f : (b : ℕ) → b < 256 → bit_and b 0x1f ≡ b % 32
bit_and_1f = at_byte _ _ 256 refl

pub bit_and_0f : (b : ℕ) → b < 256 → bit_and b 0x0f ≡ b % 16
bit_and_0f = at_byte _ _ 256 refl

pub bit_or-e0 : (b : ℕ) → b < 16 → bit_or b 0xe0 ≡ b + 224
bit_or-e0 = at_byte _ _ 16 refl

pub bit_and-f8 : (b : ℕ) → b < 256 → bit_and b 248 ≡ b / 8 * 8
bit_and-f8 = at_byte _ _ 256 refl

pub bit_and_7f : (b : ℕ) → b < 256 → bit_and b 127 ≡ b % 128
bit_and_7f = at_byte _ _ 256 refl

pub bit_or_40 : (b : ℕ) → b < 128 → bit_or b 64 ≡ b % 64 + 64
bit_or_40 = at_byte _ _ 128 refl
