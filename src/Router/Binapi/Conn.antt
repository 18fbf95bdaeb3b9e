-- ===== src/Router/Binapi/Conn.antt =====
-- internal/router/binapi/conn.go: Sentence, Send, Recv and indexByte, and kvWords of client.go.
-- Texts are their bytes.
pub mod RoundTrip
pub mod Pairs
pub mod Total
use awg_proxy_go.Prelude.{
  ℕ, suc, zero, ◌+◌, ◌&&◌, List, [], ◌∷◌, ◌++◌, ◌==◌, ltb, if◌then◌else◌, length, take, drop,
}
use awg_proxy_go.Prelude.Eq.{nat_eq, list_eq}
use awg_proxy_go.Prelude.Int.{ℤ, pos, negsuc}
use awg_proxy_go.Prelude.Dict.{Dict, insert}
use awg_proxy_go.Prelude.Results.{ok, err, ◌>>=◌}
use awg_proxy_go.Router.Binapi.Codec.{Width, Read, out_of_fuel, write_length, write_word, read_word}

abbrev pub Bytes : Type 0
Bytes = List ℕ

abbrev pub Words : Type 0
Words = Dict Bytes Bytes

pub record Sentence : Type 0 where
  pub reply : Bytes
  pub words : Words

-- What Send writes when no write fails.
unfoldable pub send : List Bytes → Bytes
unfolding write_word write_length
send [] = write_length 0
send (w ∷ ws) = write_word w ++ send ws

-- The loop of indexByte, at place i.
unfoldable pub index_from : ℕ → Bytes → ℕ → ℤ
index_from i [] b = negsuc 0
index_from i (c ∷ s) b = if c == b then pos i else index_from (suc i) s b

unfoldable pub index_byte : Bytes → ℕ → ℤ
unfolding index_from
index_byte s b = index_from 0 s b

put_at : ℤ → Bytes → Words → Words
unfolding insert
put_at (negsuc _) rest words = insert rest [] words
put_at (pos eq) rest words = insert (take eq rest) (drop (eq + 1) rest) words

-- A word `=key=value` goes into the map, any other word is skipped.
unfoldable pub put_word : Bytes → Words → Words
unfolding index_byte put_at
put_word [] words = words
put_word (c ∷ rest) words =
    if ltb 1 (length (c ∷ rest)) && c == b'='
    then put_at (index_byte rest b'=') rest words
    else words

-- The loop of Recv. The fuel is one more than the bytes that are left: each word takes one at least.
unfoldable pub recv_words : Width → ℕ → Words → Bytes → Read Words
unfolding read_word put_word
recv_words m zero words r = err out_of_fuel
recv_words m (suc fuel) words r = do
  (w, rest) ← read_word m r
  elim w [ [] ↦ ok (words, rest) | c ∷ s ↦ recv_words m fuel (put_word (c ∷ s) words) rest ]

recv_behind : Width → Bytes → Bytes → Read Sentence
unfolding recv_words
recv_behind m [] r = ok (record { reply = []; words = [] }, r)
recv_behind m (c ∷ s) r = do
  (words, rest) ← recv_words m (suc (length r)) [] r
  ok (record { reply = c ∷ s; words = words }, rest)

unfoldable pub recv : Width → Bytes → Read Sentence
unfolding read_word recv_behind
recv m r = do (first, rest) ← read_word m r; recv_behind m first rest

-- kvWords. Go's `range` takes the entries of a map in any order: the list has the order it took.
unfoldable pub kv_words : Words → List Bytes
kv_words [] = []
kv_words ((k, v) ∷ kv) = ((b'=' ∷ k) ++ b'=' ∷ v) ∷ kv_words kv
