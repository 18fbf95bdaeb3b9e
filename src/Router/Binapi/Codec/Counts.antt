-- ===== src/Router/Binapi/Codec/Counts.antt =====
-- codec.go: what bytes give as the length of a word is an `int` of 64 bits.
use Prim.Native.Nat.{◌^◌, ◌<◌}
use awg_proxy_go.Prelude.{ℕ, suc, zero, ◌≡◌, ◌≢◌, bit_and, List, [], ◌∷◌, drop, All, arith}
use awg_proxy_go.Prelude.Bytes.{IsByte}
use awg_proxy_go.Prelude.Masks.{bit_and_3f, bit_and_1f, bit_and_0f}
use awg_proxy_go.Prelude.Results.{ok, err, >>=-eq-ok, >>=-ne-err}
use awg_proxy_go.Router.Binapi.Codec.{
  Width, bits64, panicked, read_length, read_byte, read_full, length_behind, read_word, word_behind,
  read_tail,
}

All-drop : (n : ℕ) (r : List ℕ) → All IsByte r → All IsByte (drop n r)
All-drop zero r h = h
All-drop (suc n) [] h = h
All-drop (suc n) (b ∷ r) h = All-drop n r h.1

read_full-IsBytes :
    (n : ℕ) (r s rest : List ℕ) → All IsByte r → read_full n r ≡ ok (s, rest) → All IsByte rest
unfolding read_full
read_full-IsBytes n r s rest h e = ground (arith, All-drop n r h)

length_behind-IsBytes :
    (b n : ℕ) (r rest : List ℕ) → All IsByte r → length_behind b r ≡ ok (n, rest) → All IsByte rest
unfolding length_behind read_full
length_behind-IsBytes b n r rest h e =
    ground (arith, h, All-drop 1 r h, All-drop 2 r h, All-drop 3 r h, All-drop 4 r h)

-- The bytes behind the first, and the bits of the first.
module _ (n high : ℕ) (rest : List ℕ) where
  tail_fits_1 :
      (r : List ℕ) → All IsByte r → high < 2 ^ 6 → read_tail 1 high r ≡ ok (n, rest) → n < 2 ^ 32
  unfolding read_full
  tail_fits_1 [] h k e = cc
  tail_fits_1 (a ∷ r) h k e = ground (arith, h)

  tail_fits_2 :
      (r : List ℕ) → All IsByte r → high < 2 ^ 5 → read_tail 2 high r ≡ ok (n, rest) → n < 2 ^ 32
  unfolding read_full
  tail_fits_2 [] h k e = cc
  tail_fits_2 (a ∷ []) h k e = cc
  tail_fits_2 (a ∷ b ∷ r) (ha, (hb, hr)) k e = ground (arith, ha, hb)

  tail_fits_3 :
      (r : List ℕ) → All IsByte r → high < 2 ^ 4 → read_tail 3 high r ≡ ok (n, rest) → n < 2 ^ 32
  unfolding read_full
  tail_fits_3 [] h k e = cc
  tail_fits_3 (a ∷ []) h k e = cc
  tail_fits_3 (a ∷ b ∷ []) h k e = cc
  tail_fits_3 (a ∷ b ∷ c ∷ r) (ha, (hb, (hc, hr))) k e = ground (arith, ha, hb, hc)

  tail_fits_4 :
      (r : List ℕ) → All IsByte r → high ≡ 0 → read_tail 4 high r ≡ ok (n, rest) → n < 2 ^ 32
  unfolding read_full
  tail_fits_4 [] h k e = cc
  tail_fits_4 (a ∷ []) h k e = cc
  tail_fits_4 (a ∷ b ∷ []) h k e = cc
  tail_fits_4 (a ∷ b ∷ c ∷ []) h k e = cc
  tail_fits_4 (a ∷ b ∷ c ∷ d ∷ r) (ha, (hb, (hc, (hd, hr)))) k e = ground (arith, ha, hb, hc, hd)

length_behind-fits :
    (b n : ℕ) (r rest : List ℕ)
    → IsByte b
    → All IsByte r
    → length_behind b r ≡ ok (n, rest)
    → n < 2 ^ 32
unfolding length_behind
length_behind-fits b n r rest hb h e = ground (
  arith,
  tail_fits_1 n (bit_and b 0x3f) rest r h,
  tail_fits_2 n (bit_and b 0x1f) rest r h,
  tail_fits_3 n (bit_and b 0x0f) rest r h,
  tail_fits_4 n 0 rest r h,
  bit_and_3f b hb,
  bit_and_1f b hb,
  bit_and_0f b hb,
)

-- The rest of a stream of bytes is bytes.
pub read_word-IsBytes :
    (m : Width) (r w rest : List ℕ) → All IsByte r → read_word m r ≡ ok (w, rest) → All IsByte rest
unfolding read_word read_length read_byte word_behind
read_word-IsBytes m [] w rest h e = cc
read_word-IsBytes m (b ∷ r) w rest h e =
    let ((n, more), got, then_word) = >>=-eq-ok (length_behind b r) _ e in
    ground (
      arith,
      read_full-IsBytes n more w rest (length_behind-IsBytes b n r more h.1 got),
      length_behind-IsBytes b n r more h.1 got,
      then_word,
    )

word_behind-counts : (n : ℕ) (r : List ℕ) → n < 2 ^ 32 → word_behind bits64 n r ≢ err panicked
unfolding word_behind read_full
word_behind-counts n r h = ground arith

length_behind-counts : (b : ℕ) (r : List ℕ) → length_behind b r ≢ err panicked
unfolding length_behind read_full
length_behind-counts b r = ground arith

-- No length that bytes give is negative, so make does not fail.
pub read_word-counts : (r : List ℕ) → All IsByte r → read_word bits64 r ≢ err panicked
unfolding read_word read_length read_byte
read_word-counts [] h = λ e. cc
read_word-counts (b ∷ r) h =
    >>=-ne-err (length_behind b r) _ (length_behind-counts b r)
      λ (n, rest) got. word_behind-counts n rest (length_behind-fits b n r rest h.0 h.1 got)
