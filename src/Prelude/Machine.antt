-- ===== src/Prelude/Machine.antt =====
-- Go's `int` of 64 bits, the arguments of make, and the sizes that a UDP datagram can have.
use Prim.Native.Nat.{ℕ, ◌+◌, ◌-◌, ◌*◌, ◌%◌, ◌^◌, ◌≤◌, ◌<◌}
use mathlib.Core.Path.{◌≡◌}
use native.Mathlib.Omega.{arith}
use awg_proxy_go.Prelude.Tests.{ltb, leb, if◌then◌else◌}
use awg_proxy_go.Prelude.Int.{ℤ, pos, negsuc, ◌+ℤ◌}
use awg_proxy_go.Prelude.Panics.{Run, done, panic}

-- The integer that a sum or difference of two `int` stands for.
unfoldable pub wrap : ℤ → ℤ
wrap (pos n) = let m = n % 2 ^ 64 in if ltb m (2 ^ 63) then pos m else negsuc (2 ^ 64 - 1 - m)
wrap (negsuc n) = let m = n % 2 ^ 64 in if ltb m (2 ^ 63) then negsuc m else pos (2 ^ 64 - 1 - m)

pub wrap_pos : (n : ℕ) → n < 2 ^ 63 → wrap (pos n) ≡ pos n
unfolding wrap
wrap_pos n h = ground arith

pub wrap_sum : (n m : ℕ) → n + m < 2 ^ 63 → wrap (pos n +ℤ pos m) ≡ pos (n + m)
unfolding wrap ◌+ℤ◌
wrap_sum n m h = ground arith

-- maxAlloc of the Go run-time.
abbrev pub max_alloc : ℕ
max_alloc = 2 ^ 48

-- make([]T, n), where a T has `size` bytes: the length, or the run-time panic "len out of range".
unfoldable pub make_slice : ℕ → ℤ → Run ℕ
make_slice size (pos n) = if leb (n * size) max_alloc then done n else panic
make_slice size (negsuc n) = panic

pub make_slice_fits : (size n : ℕ) → n * size ≤ max_alloc → make_slice size (pos n) ≡ done n
unfolding make_slice
make_slice_fits size n h = ground arith

abbrev pub max_datagram : ℕ
max_datagram = 65535
