-- ===== src/Prelude/Netip.antt =====
-- netip.Addr of Go's standard library, as far as the program looks at it. The number of an IPv6
-- address has 128 bits.
use Prim.Native.Nat.{ℕ, ◌/◌, ◌%◌, ◌^◌}
use mathlib.Core.Bool.{Bool, true, false}
use awg_proxy_go.Prelude.Tests.{◌==◌, if◌then◌else◌}

pub data Addr : Type 0 where
  no_addr : Addr
  v4 : ℕ → Addr
  v6 : ℕ → Addr

abbrev pub is_valid : Addr → Bool
is_valid no_addr = false
is_valid (v4 n) = true
is_valid (v6 n) = true

abbrev pub is6 : Addr → Bool
is6 no_addr = false
is6 (v4 n) = false
is6 (v6 n) = true

-- An IPv4 address as an IPv6 address, ::ffff:0:0/96.
abbrev pub is4_in6 : Addr → Bool
is4_in6 no_addr = false
is4_in6 (v4 n) = false
is4_in6 (v6 n) = n / 2 ^ 32 == 0xffff

-- Addr.Unmap
abbrev pub unmap : Addr → Addr
unmap no_addr = no_addr
unmap (v4 n) = v4 n
unmap (v6 n) = if n / 2 ^ 32 == 0xffff then v4 (n % 2 ^ 32) else v6 n
