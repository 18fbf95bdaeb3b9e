-- ===== src/Prelude/Bytes.antt =====
-- Byte slices. A byte is a number below 256, a slice's content is a list of bytes.
use Prim.Native.Nat.{ℕ, zero, suc, ◌+◌, ◌*◌, ◌/◌, ◌%◌, ◌^◌, ◌≤◌, ◌<◌}
use mathlib.Core.Path.{◌≡◌, refl, ap, ◌∙◌}
use mathlib.Core.List.{List, [], ◌∷◌, ◌++◌}
use native.Mathlib.Omega.{arith}
use awg_proxy_go.Prelude.Lists.{
  length, take, drop, length-append, length-drop, take-append, drop-append, take-append-drop,
}
use awg_proxy_go.Prelude.Panics.{Run, done, panic}

abbrev pub IsByte : ℕ → Type 0
IsByte b = b < 256

abbrev pub IsU32 : ℕ → Type 0
IsU32 v = v < 2 ^ 32

abbrev pub le32_value : ℕ → ℕ → ℕ → ℕ → ℕ
le32_value a b c d = a + b * 256 + c * 65536 + d * 16777216

-- binary.LittleEndian.Uint32 of the first four bytes; fewer are a failing slice expression.
unfoldable pub le32 : List ℕ → Run ℕ
le32 (a ∷ b ∷ c ∷ d ∷ rest) = done (le32_value a b c d)
le32 _ = panic

-- The four bytes of `v`, lowest first, in front of `rest`.
abbrev pub put_bytes : ℕ → List ℕ → List ℕ
put_bytes v rest = (v % 256) ∷ (v / 256 % 256) ∷ (v / 65536 % 256) ∷ (v / 16777216 % 256) ∷ rest

-- binary.LittleEndian.PutUint32 into the first four bytes.
unfoldable pub put_le32 : List ℕ → ℕ → Run (List ℕ)
put_le32 (a ∷ b ∷ c ∷ d ∷ rest) v = done (put_bytes v rest)
put_le32 _ v = panic

pub put_le32_long :
    (xs : List ℕ) (v : ℕ) → 4 ≤ length xs → put_le32 xs v ≡ done (put_bytes v (drop 4 xs))
unfolding put_le32
put_le32_long (a ∷ b ∷ c ∷ d ∷ rest) v h = refl
put_le32_long [] v h = absurd (omega arith)
put_le32_long (a ∷ []) v h = absurd (omega arith)
put_le32_long (a ∷ b ∷ []) v h = absurd (omega arith)
put_le32_long (a ∷ b ∷ c ∷ []) v h = absurd (omega arith)

pub put_le32_short : (xs : List ℕ) (v : ℕ) → length xs < 4 → put_le32 xs v ≡ panic
unfolding put_le32
put_le32_short (a ∷ b ∷ c ∷ d ∷ rest) v h = absurd (omega arith)
put_le32_short [] v h = refl
put_le32_short (a ∷ []) v h = refl
put_le32_short (a ∷ b ∷ []) v h = refl
put_le32_short (a ∷ b ∷ c ∷ []) v h = refl

-- copy(dst[at:at+size], src), where `src` has that size and the range lies in `dst`.
abbrev pub copy_at : ℕ → ℕ → List ℕ → List ℕ → List ℕ
copy_at at size src dst = take at dst ++ (src ++ drop size (drop at dst))

module _ (k : ℕ) (src : List ℕ) (fits : length src ≡ k) where
  pub length-copy_at :
      (n : ℕ) (dst : List ℕ) → n + k ≤ length dst → length (copy_at n k src dst) ≡ length dst
  length-copy_at zero dst h = omega (arith, length-append src (drop k dst), length-drop k dst, fits)
  length-copy_at (suc n) [] h = absurd (omega arith)
  length-copy_at (suc n) (x ∷ dst) h = ap suc (length-copy_at n dst (omega arith))

  pub take-copy_at :
      (n : ℕ) (dst : List ℕ) → n ≤ length dst → take n (copy_at n k src dst) ≡ take n dst
  take-copy_at zero dst h = refl
  take-copy_at (suc n) [] h = absurd (omega arith)
  take-copy_at (suc n) (x ∷ dst) h = ap (◌∷◌ x) (take-copy_at n dst (omega arith))

  pub field-copy_at :
      (n : ℕ) (dst : List ℕ) → n ≤ length dst → take k (drop n (copy_at n k src dst)) ≡ src
  field-copy_at zero dst h = rw (← fits) (take-append src (drop (length src) dst))
  field-copy_at (suc n) [] h = absurd (omega arith)
  field-copy_at (suc n) (x ∷ dst) h = field-copy_at n dst (omega arith)

  -- A second copy to the same place makes the first one void.
  pub copy_at_again :
      (n : ℕ) (src' dst : List ℕ)
      → n ≤ length dst
      → copy_at n k src' (copy_at n k src dst) ≡ copy_at n k src' dst
  copy_at_again zero src' dst h =
      ap (◌++◌ src') (rw (← fits) (drop-append src (drop (length src) dst)))
  copy_at_again (suc n) src' [] h = absurd (omega arith)
  copy_at_again (suc n) src' (x ∷ dst) h = ap (◌∷◌ x) (copy_at_again n src' dst (omega arith))

-- To copy what stands there already changes nothing.
pub copy_at_self :
    (n k : ℕ) (src dst : List ℕ) → take k (drop n dst) ≡ src → copy_at n k src dst ≡ dst
copy_at_self n k src dst e =
    rw (← e) (ap (◌++◌ (take n dst)) (take-append-drop k (drop n dst)) ∙ take-append-drop n dst)
