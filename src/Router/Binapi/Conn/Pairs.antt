-- ===== src/Router/Binapi/Conn/Pairs.antt =====
-- conn.go and client.go: Recv reads the map that kvWords wrote.
use Prim.Native.Nat.{◌<◌}
use awg_proxy_go.Prelude.{
  ℕ, suc, ◌+◌, ◌≡◌, refl, ◌∙◌, sym, ◌≢◌, [], ◌∷◌, ◌++◌, Option, none, some, length, length-append,
  All, arith, ap, take-append, drop, subst,
}
use awg_proxy_go.Prelude.Eq.{nat_eq, list_eq}
use awg_proxy_go.Prelude.Int.{pos}
use awg_proxy_go.Prelude.Results.{ok}
use awg_proxy_go.Prelude.Dict.{insert, lookup, Distinct, first_of, first_of-insert}
use awg_proxy_go.Router.Binapi.Codec.{Width}
use awg_proxy_go.Router.Binapi.Codec.Words.{word_limit}
use awg_proxy_go.Router.Binapi.Conn.{
  Bytes, Words, Sentence, send, recv, put_word, put_at, index_from, index_byte, kv_words,
}
use awg_proxy_go.Router.Binapi.Conn.RoundTrip.{IsWord, put_words, recv-send}

-- A key that the first `=` behind it ends.
abbrev pub IsKey : Bytes → Type 0
IsKey k = All (λ c. c ≢ b'=') k

index_from-append :
    (i : ℕ) (k v : Bytes) → IsKey k → index_from i (k ++ b'=' ∷ v) b'=' ≡ pos (i + length k)
unfolding index_from
index_from-append i [] v h = ground arith
index_from-append i (c ∷ k) v h = ground (arith, index_from-append (suc i) k v h.1)

drop_behind : (k v : Bytes) (c n : ℕ) → n ≡ suc (length k) → drop n (k ++ c ∷ v) ≡ v
drop_behind k v c n e = subst (λ m. drop m (k ++ c ∷ v) ≡ v) (sym e) (at k)
  where
    at : (k : Bytes) → drop (suc (length k)) (k ++ c ∷ v) ≡ v
    at [] = refl
    at (x ∷ k) = at k

put_at-append :
    (k v : Bytes) (words : Words) → put_at (pos (length k)) (k ++ b'=' ∷ v) words ≡ insert k v words
unfolding put_at
put_at-append k v words =
    rw (take-append k (b'=' ∷ v), drop_behind k v b'=' (length k + 1) (omega arith)) refl

put_word-pair :
    (k v : Bytes) (words : Words)
    → IsKey k
    → put_word ((b'=' ∷ k) ++ b'=' ∷ v) words ≡ insert k v words
unfolding put_word put_at index_byte
put_word-pair k v words h =
    ground (arith, length-append k (b'=' ∷ v), index_from-append 0 k v h, put_at-append k v words)

put_words-kv_words :
    (kv acc : Words) (j : Bytes)
    → Distinct kv
    → All (λ e. IsKey e.0) kv
    → lookup j (put_words (kv_words kv) acc) ≡ first_of (lookup j kv) (lookup j acc)
unfolding kv_words
put_words-kv_words [] acc j d h = unfold lookup in refl
put_words-kv_words ((k, v) ∷ kv) acc j d h =
    ap (λ m. lookup j (put_words (kv_words kv) m)) (put_word-pair k v acc h.0)
    ∙ put_words-kv_words kv (insert k v acc) j d.1 h.1
    ∙ first_of-insert k j v kv acc d.0

abbrev pub CanSend : Width → Bytes × Bytes → Type 0
CanSend m (k, v) = IsKey k × (length k + length v + 2 < word_limit m)

pub kv_words-IsWord : (m : Width) (kv : Words) → All (CanSend m) kv → All (IsWord m) (kv_words kv)
unfolding kv_words
kv_words-IsWord m [] h = tt
kv_words-IsWord m ((k, v) ∷ kv) h =
    (((λ e. cc), omega (arith, length-append k (b'=' ∷ v), h.0.1)), kv_words-IsWord m kv h.1)

CanSend-IsKey : (m : Width) (kv : Words) → All (CanSend m) kv → All (λ e. IsKey e.0) kv
CanSend-IsKey m [] h = tt
CanSend-IsKey m ((k, v) ∷ kv) h = (h.0.0, CanSend-IsKey m kv h.1)

or_none : (o : Option Bytes) → first_of o none ≡ o
or_none (some v) = refl
or_none none = refl

-- A map that kvWords and Send put behind a reply comes back from Recv: every key has its value
-- again and no other key has one. The keys have no `=` in them (the values may), stand once, and
-- fit a word with their values, on an int of 64 bits or of 32 bits.
pub recv-kv_words :
    (m : Width) (w : Bytes) (kv : Words) (rest : Bytes)
    → IsWord m w
    → Distinct kv
    → All (CanSend m) kv
    → (s : Sentence) × (recv m (send (w ∷ kv_words kv) ++ rest) ≡ ok (s, rest))
      × (s.reply ≡ w)
      × ((j : Bytes) → lookup j s.words ≡ lookup j kv)
unfolding lookup
recv-kv_words m w kv rest h d can = (
  record { reply = w; words = put_words (kv_words kv) [] },
  recv-send m w (kv_words kv) rest h (kv_words-IsWord m kv can),
  refl,
  λ j. put_words-kv_words kv [] j d (CanSend-IsKey m kv can) ∙ or_none (lookup j kv),
)
