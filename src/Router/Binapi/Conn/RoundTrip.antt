-- ===== src/Router/Binapi/Conn/RoundTrip.antt =====
-- conn.go: Recv takes back what Send wrote.
use Prim.Native.Nat.{◌<◌, ◌≤◌}
use awg_proxy_go.Prelude.{
  ℕ, suc, zero, ◌≡◌, refl, ◌∙◌, ◌≢◌, List, [], ◌∷◌, ◌++◌, append_assoc, append-nil, length,
  length-append, All, arith, ap,
}
use awg_proxy_go.Prelude.Eq.{nat_eq, list_eq}
use awg_proxy_go.Prelude.Results.{ok}
use awg_proxy_go.Router.Binapi.Codec.{Width, bits32, bits64, write_length, write_word}
use awg_proxy_go.Router.Binapi.Codec.Words.{word_limit, read_word-write_word}
use awg_proxy_go.Router.Binapi.Conn.{Bytes, Words, send, recv, recv_words, recv_behind, put_word}

-- A word that a length prefix can carry, that an `int` can count and that does not end the sentence.
abbrev pub IsWord : Width → Bytes → Type 0
IsWord m w = (w ≢ []) × (length w < word_limit m)

-- What the words of a sentence leave in the map.
abbrev pub put_words : List Bytes → Words → Words
put_words [] words = words
put_words (w ∷ ws) words = put_words ws (put_word w words)

recv_words-write_word :
    (m : Width) (fuel : ℕ) (words : Words) (w rest : Bytes)
    → IsWord m w
    → recv_words m (suc fuel) words (write_word w ++ rest)
      ≡ recv_words m fuel (put_word w words) rest
unfolding recv_words
recv_words-write_word m fuel words [] rest h = absurd (h.0 refl)
recv_words-write_word m fuel words (c ∷ w) rest h =
    rw (read_word-write_word m (c ∷ w) rest h.1) refl

write_word_empty : write_word [] ≡ write_length 0
unfolding write_word
write_word_empty = append-nil _

empty_fits : (m : Width) → 0 < word_limit m
empty_fits bits32 = omega arith
empty_fits bits64 = omega arith

recv_words_end :
    (m : Width) (fuel : ℕ) (words : Words) (rest : Bytes)
    → recv_words m (suc fuel) words (write_length 0 ++ rest) ≡ ok (words, rest)
unfolding recv_words
recv_words_end m fuel words rest =
    rw (← write_word_empty, recv_words, read_word-write_word m [] rest (empty_fits m)) refl

recv_words-send :
    (m : Width) (ws : List Bytes) (fuel : ℕ) (words : Words) (rest : Bytes)
    → All (IsWord m) ws
    → length ws < fuel
    → recv_words m fuel words (send ws ++ rest) ≡ ok (put_words ws words, rest)
unfolding send
recv_words-send m ws zero words rest h enough = absurd (omega arith)
recv_words-send m [] (suc fuel) words rest h enough = recv_words_end m fuel words rest
recv_words-send m (w ∷ ws) (suc fuel) words rest h enough =
    ap (recv_words m (suc fuel) words) (append_assoc (write_word w) (send ws) rest)
    ∙ recv_words-write_word m fuel words w (send ws ++ rest) h.0
    ∙ recv_words-send m ws fuel (put_word w words) rest h.1 (omega arith)

length-write_word : (m : Width) (w : Bytes) → IsWord m w → length w ≤ length (write_word w)
unfolding write_word
length-write_word m w h = omega (arith, length-append (write_length (length w)) w)

pub length-send : (m : Width) (ws : List Bytes) → All (IsWord m) ws → length ws ≤ length (send ws)
unfolding send
length-send m [] h = omega arith
length-send m ([] ∷ ws) h = absurd (h.0.0 refl)
length-send m ((c ∷ w) ∷ ws) h = omega (
  arith,
  length-append (write_word (c ∷ w)) (send ws),
  length-write_word m (c ∷ w) h.0,
  length-send m ws h.1,
)

-- Recv reads a sentence that Send wrote: the first word is the reply, the other words fill the map,
-- and the read stops behind it. No word is empty and none has 2^32 bytes or
-- more, 2^31 where an int has 32 bits.
pub recv-send :
    (m : Width) (w : Bytes) (ws : List Bytes) (rest : Bytes)
    → IsWord m w
    → All (IsWord m) ws
    → recv m (send (w ∷ ws) ++ rest) ≡ ok (record { reply = w; words = put_words ws [] }, rest)
unfolding recv recv_behind send
recv-send m [] ws rest h hs = absurd (h.0 refl)
recv-send m (c ∷ w) ws rest h hs =
    rw
      (
        append_assoc (write_word (c ∷ w)) (send ws) rest,
        recv,
        read_word-write_word m (c ∷ w) (send ws ++ rest) h.1,
        recv_behind,
        recv_words-send m ws (suc (length (send ws ++ rest))) [] rest hs
            (omega (arith, length-send m ws hs, length-append (send ws) rest)),
      )
      refl
