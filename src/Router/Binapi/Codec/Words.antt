-- ===== src/Router/Binapi/Codec/Words.antt =====
-- codec.go: words on a stream.
use Prim.Native.Nat.{◌^◌, ◌<◌, ◌≤◌}
use awg_proxy_go.Prelude.{
  ℕ, ◌≡◌, ◌≢◌, refl, List, [], ◌∷◌, ◌++◌, append_assoc, length, arith, length-append, length-drop,
  take-append, drop-append,
}
use awg_proxy_go.Prelude.Results.{ok, err, >>=-eq-ok, >>=-ne-err}
use awg_proxy_go.Router.Binapi.Codec.{
  Width, bits32, bits64, int_limit, out_of_fuel, read_length, read_byte, read_full, length_behind,
  write_word, read_word, word_behind,
}
use awg_proxy_go.Router.Binapi.Codec.Lengths.{read_length-write_length}

-- The words that a length can carry and an `int` can count are shorter.
abbrev pub word_limit : Width → ℕ
word_limit bits32 = 2 ^ 31
word_limit bits64 = 2 ^ 32

below : (m : Width) (n : ℕ) → n < word_limit m → (n < int_limit m) × (n < 2 ^ 32)
below bits32 n h = (h, omega arith)
below bits64 n h = (omega arith, h)

read_full-append : (s rest : List ℕ) → read_full (length s) (s ++ rest) ≡ ok (s, rest)
unfolding read_full
read_full-append s rest =
    ground (arith, length-append s rest, take-append s rest, drop-append s rest)

word_behind-append :
    (m : Width) (s rest : List ℕ)
    → length s < word_limit m
    → word_behind m (length s) (s ++ rest) ≡ ok (s, rest)
unfolding word_behind
word_behind-append m [] rest fits = refl
word_behind-append m (b ∷ s) rest fits =
    ground (arith, read_full-append (b ∷ s) rest, (below m (length (b ∷ s)) fits).0)

-- A word that is not too long is read back, whatever its bytes, and the read stops behind it.
pub read_word-write_word :
    (m : Width) (s rest : List ℕ)
    → length s < word_limit m
    → read_word m (write_word s ++ rest) ≡ ok (s, rest)
unfolding read_word write_word
read_word-write_word m s rest fits =
    rw (append_assoc, read_length-write_length (length s) (s ++ rest) (below m (length s) fits).1)
      (word_behind-append m s rest fits)

-- A read takes bytes off the stream.
read_full-length :
    (n : ℕ) (r s rest : List ℕ) → read_full n r ≡ ok (s, rest) → length rest ≤ length r
unfolding read_full
read_full-length n r s rest e = ground (arith, length-drop n r)

length_behind-length :
    (b n : ℕ) (r rest : List ℕ) → length_behind b r ≡ ok (n, rest) → length rest ≤ length r
unfolding length_behind read_full
length_behind-length b n r rest e =
    ground (arith, length-drop 1 r, length-drop 2 r, length-drop 3 r, length-drop 4 r)

word_behind-length :
    (m : Width) (n : ℕ) (r w rest : List ℕ)
    → word_behind m n r ≡ ok (w, rest)
    → length rest ≤ length r
unfolding word_behind
word_behind-length m n r w rest e = ground (arith, read_full-length n r w rest)

pub read_word-length :
    (m : Width) (r w rest : List ℕ) → read_word m r ≡ ok (w, rest) → length rest < length r
unfolding read_word read_length read_byte
read_word-length m [] w rest e = cc
read_word-length m (b ∷ r) w rest e =
    let ((n, more), got, then_word) = >>=-eq-ok (length_behind b r) _ e in
    omega (arith, length_behind-length b n r more got, word_behind-length m n more w rest then_word)

read_full-ends : (n : ℕ) (r : List ℕ) → read_full n r ≢ err out_of_fuel
unfolding read_full
read_full-ends n r = ground arith

length_behind-ends : (b : ℕ) (r : List ℕ) → length_behind b r ≢ err out_of_fuel
unfolding length_behind read_full
length_behind-ends b r = ground arith

word_behind-ends : (m : Width) (n : ℕ) (r : List ℕ) → word_behind m n r ≢ err out_of_fuel
unfolding word_behind
word_behind-ends m n r = ground (arith, read_full-ends n r)

pub read_word-ends : (m : Width) (r : List ℕ) → read_word m r ≢ err out_of_fuel
unfolding read_word read_length read_byte
read_word-ends m [] = λ e. cc
read_word-ends m (b ∷ r) =
    >>=-ne-err (length_behind b r) _ (length_behind-ends b r)
      (λ (n, rest) _. word_behind-ends m n rest)
