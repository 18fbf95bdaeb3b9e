-- ===== src/Router/Binapi/Codec.antt =====
-- internal/router/binapi/codec.go: words with a length prefix. A stream is the list of the bytes
-- that still come before it ends. The width of `int` is given: the builds have 32 or 64 bits.
pub mod Lengths
pub mod Words
pub mod Counts
use Prim.Native.Nat.{◌/◌, ◌%◌, ◌*◌, ◌^◌}
use awg_proxy_go.Prelude.{
  ℕ, ◌+◌, bit_and, bit_or, List, [], ◌∷◌, ◌++◌, ◌==◌, ltb, if◌then◌else◌, length, take, drop,
}
use awg_proxy_go.Prelude.Results.{Result, ok, err, ◌>>=◌}

-- Of an `int`: 32 bits on armv7, 64 bits on arm64 and amd64.
pub data Width : Type 0 where
  bits32 bits64 : Width

-- A length from here on is a negative `int`.
abbrev pub int_limit : Width → ℕ
int_limit bits32 = 2 ^ 31
int_limit bits64 = 2 ^ 63

-- The errors of a read. A deadline or a closed socket ends the stream like an EOF. `panicked` is
-- the run-time panic that stops the process.
pub data Failure : Type 0 where
  eof unexpected_eof invalid_length out_of_fuel panicked : Failure

-- What was read, and the rest of the stream.
abbrev pub Read : Type 0 → Type 0
Read A = Result Failure (A × List ℕ)

abbrev pub byte : ℕ → ℕ
byte n = n % 256

-- `n |= 0x8000` adds a bit above those of n, and so does `n |= 0xC00000`.
unfoldable pub write_length : ℕ → List ℕ
write_length n =
    if ltb n 0x80
    then byte n ∷ []
    else if ltb n 0x4000
    then byte ((n + 0x8000) / 2 ^ 8) ∷ byte (n + 0x8000) ∷ []
    else if ltb n 0x200000
    then byte ((n + 0xc00000) / 2 ^ 16) ∷ byte ((n + 0xc00000) / 2 ^ 8) ∷ byte (n + 0xc00000) ∷ []
    else if ltb n 0x10000000
    then bit_or (byte (n / 2 ^ 24)) 0xe0 ∷ byte (n / 2 ^ 16) ∷ byte (n / 2 ^ 8) ∷ byte n ∷ []
    else 0xf0 ∷ byte (n / 2 ^ 24) ∷ byte (n / 2 ^ 16) ∷ byte (n / 2 ^ 8) ∷ byte n ∷ []

unfoldable pub read_byte : List ℕ → Read ℕ
read_byte [] = err eof
read_byte (b ∷ r) = ok (b, r)

-- io.ReadFull into a buffer of n bytes.
unfoldable pub read_full : ℕ → List ℕ → Read (List ℕ)
read_full n r =
    if ltb (length r) n
    then err (elim r [ [] ↦ eof | b ∷ more ↦ unexpected_eof ])
    else ok (take n r, drop n r)

-- The shifted bytes of a buffer, the highest first; they overlap in no bit.
abbrev pub big_endian : ℕ → List ℕ → ℕ
big_endian high [] = high
big_endian high (b ∷ bs) = big_endian (high * 2 ^ 8 + b) bs

-- The bytes behind the first, below the bits that the first gives: the bits of the `int` that is read.
abbrev pub read_tail : ℕ → ℕ → List ℕ → Read ℕ
read_tail n high r = do (buf, rest) ← read_full n r; ok (big_endian high buf, rest)

length_behind : ℕ → List ℕ → Read ℕ
unfolding read_full
length_behind b r =
    if bit_and b 0x80 == 0
    then ok (b, r)
    else if bit_and b 0xc0 == 0x80
    then read_tail 1 (bit_and b 0x3f) r
    else if bit_and b 0xe0 == 0xc0
    then read_tail 2 (bit_and b 0x1f) r
    else if bit_and b 0xf0 == 0xe0
    then read_tail 3 (bit_and b 0x0f) r
    else if b == 0xf0
    then read_tail 4 0 r
    else err invalid_length

unfoldable pub read_length : List ℕ → Read ℕ
unfolding read_byte length_behind
read_length r = do (b, rest) ← read_byte r; length_behind b rest

unfoldable pub write_word : List ℕ → List ℕ
unfolding write_length
write_word s = write_length (length s) ++ s

-- make fails for a negative length.
word_behind : Width → ℕ → List ℕ → Read (List ℕ)
unfolding read_full
word_behind m n r =
    if n == 0 then ok ([], r) else if ltb n (int_limit m) then read_full n r else err panicked

unfoldable pub read_word : Width → List ℕ → Read (List ℕ)
unfolding read_length word_behind
read_word m r = do (n, rest) ← read_length r; word_behind m n rest
