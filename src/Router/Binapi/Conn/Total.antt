-- ===== src/Router/Binapi/Conn/Total.antt =====
-- conn.go: Recv ends on every stream, and takes bytes off it.
use Prim.Native.Nat.{◌<◌, ◌≤◌}
use awg_proxy_go.Prelude.{ℕ, suc, zero, ◌≡◌, ◌≢◌, [], ◌∷◌, length, All, arith, ◌∙◌, ap, inl, inr}
use awg_proxy_go.Prelude.Bytes.{IsByte}
use awg_proxy_go.Prelude.Results.{ok, err, Result-cases, >>=-eq-ok, >>=-ne-err}
use awg_proxy_go.Router.Binapi.Codec.{
  Width, Failure, bits32, bits64, Read, out_of_fuel, panicked, read_word,
}
use awg_proxy_go.Router.Binapi.Codec.Counts.{read_word-IsBytes, read_word-counts}
use awg_proxy_go.Router.Binapi.Codec.Words.{read_word-length, read_word-ends}
use awg_proxy_go.Router.Binapi.Conn.{
  Bytes, Words, Sentence, recv, recv_words, recv_behind, put_word,
}

-- What recv_words does behind a word.
abbrev after : Width → ℕ → Words → Bytes → Bytes → Read Words
after m fuel words w rest = elim w [
  | [] ↦ ok (words, rest)
  | c ∷ s ↦ recv_words m fuel (put_word (c ∷ s) words) rest
]

recv_words-ends :
    (m : Width) (fuel : ℕ) (words : Words) (r : Bytes)
    → length r < fuel
    → recv_words m fuel words r ≢ err out_of_fuel
unfolding recv_words
recv_words-ends m zero words r enough = absurd (omega arith)
recv_words-ends m (suc fuel) words r enough =
    >>=-ne-err (read_word m r) _ (read_word-ends m r)
      λ (w, rest) got. then_word (recv_words-ends m fuel) w rest (read_word-length m r w rest got)
  where
    then_word :
        (again : (ws : Words) (q : Bytes)
          → length q < fuel
          → recv_words m fuel ws q ≢ err out_of_fuel)
        (w rest : Bytes)
        → length rest < length r
        → after m fuel words w rest ≢ err out_of_fuel
    then_word again [] rest less = λ e. cc
    then_word again (c ∷ s) rest less = again (put_word (c ∷ s) words) rest (omega arith)

recv_words-length :
    (m : Width) (fuel : ℕ) (words : Words) (r rest : Bytes) (got : Words)
    → recv_words m fuel words r ≡ ok (got, rest)
    → length rest ≤ length r
unfolding recv_words
recv_words-length m zero words r rest got e = cc
recv_words-length m (suc fuel) words r rest got e =
    let ((w, more), at, then_e) = >>=-eq-ok (read_word m r) _ e in
    then_word (recv_words-length m fuel) w more (read_word-length m r w more at) then_e
  where
    then_word :
        (again : (ws : Words) (q rest : Bytes) (got : Words)
          → recv_words m fuel ws q ≡ ok (got, rest)
          → length rest ≤ length q)
        (w more : Bytes)
        → length more < length r
        → after m fuel words w more ≡ ok (got, rest)
        → length rest ≤ length r
    then_word again [] more less e = ground (arith, e)
    then_word again (c ∷ s) more less e =
        omega (arith, again (put_word (c ∷ s) words) more rest got e)

-- The fuel is enough.
pub recv-ends : (m : Width) (r : Bytes) → recv m r ≢ err out_of_fuel
unfolding recv recv_behind
recv-ends m r =
    >>=-ne-err (read_word m r) _ (read_word-ends m r) λ (first, rest) _. then_first first rest
  where
    then_first : (first rest : Bytes) → recv_behind m first rest ≢ err out_of_fuel
    then_first [] rest = λ e. cc
    then_first (c ∷ s) rest =
        >>=-ne-err _ _ (recv_words-ends m (suc (length rest)) [] rest (omega arith)) (λ _ _ e. cc)

-- A sentence takes a byte at least.
pub recv-length :
    (m : Width) (r rest : Bytes) (s : Sentence) → recv m r ≡ ok (s, rest) → length rest < length r
unfolding recv recv_behind
recv-length m r rest s e =
    let ((first, more), at, then_e) = >>=-eq-ok (read_word m r) _ e in
    omega (arith, read_word-length m r first more at, then_first first more then_e)
  where
    then_first :
        (first more : Bytes) → recv_behind m first more ≡ ok (s, rest) → length rest ≤ length more
    then_first [] more e = ground (arith, e)
    then_first (c ∷ w) more e =
        let ((got, left), at, then_e) = >>=-eq-ok (recv_words m (suc (length more)) [] more) _ e in
        ground (arith, recv_words-length m (suc (length more)) [] more left got at, then_e)

-- The fuel is enough, and where an int has 64 bits no read of bytes panics.
recv_words-counts :
    (fuel : ℕ) (words : Words) (r : Bytes)
    → All IsByte r
    → recv_words bits64 fuel words r ≢ err panicked
unfolding recv_words
recv_words-counts zero words r h = λ e. cc
recv_words-counts (suc fuel) words r h =
    >>=-ne-err (read_word bits64 r) _ (read_word-counts r h) λ (w, rest) got.
      then_word (recv_words-counts fuel) w rest (read_word-IsBytes bits64 r w rest h got)
  where
    then_word :
        (again : (ws : Words) (q : Bytes)
          → All IsByte q
          → recv_words bits64 fuel ws q ≢ err panicked)
        (w rest : Bytes)
        → All IsByte rest
        → after bits64 fuel words w rest ≢ err panicked
    then_word again [] rest k = λ e. cc
    then_word again (c ∷ s) rest k = again (put_word (c ∷ s) words) rest k

recv-counts : (r : Bytes) → All IsByte r → recv bits64 r ≢ err panicked
unfolding recv recv_behind
recv-counts r h =
    >>=-ne-err (read_word bits64 r) _ (read_word-counts r h)
      λ (first, rest) got. then_first first rest (read_word-IsBytes bits64 r first rest h got)
  where
    then_first :
        (first rest : Bytes) → All IsByte rest → recv_behind bits64 first rest ≢ err panicked
    then_first [] rest k = λ e. cc
    then_first (c ∷ s) rest k =
        >>=-ne-err _ _ (recv_words-counts (suc (length rest)) [] rest k) (λ _ _ e. cc)

-- The errors that Recv gives.
IsFailure : Width → Failure → Type 0
IsFailure bits32 why = why ≢ out_of_fuel
IsFailure bits64 why = (why ≢ out_of_fuel) × (why ≢ panicked)

pub IsShorter : Width → Bytes → Read Sentence → Type 0
unfolding IsFailure
IsShorter m r (ok (s, rest)) = length rest < length r
IsShorter m r (err why) = IsFailure m why

-- Whether an int has 64 bits or 32 bits, Recv ends on every stream of bytes: its loop is never out of
-- fuel. A sentence that it returns has taken at least a byte off the stream, so that no loop over the
-- sentences of a stream goes on for ever. Where an int has 64 bits it does not panic: there is a
-- sentence or an error of the stream.
pub recv-IsShorter : (m : Width) (r : Bytes) → All IsByte r → IsShorter m r (recv m r)
unfolding IsShorter
recv-IsShorter m r h = elim (Result-cases (recv m r)) [
  | inl ((s, rest), got) ↦ rw (got) (recv-length m r rest s got)
  | inr (why, failed) ↦ rw (failed) (failure m why failed)
]
  where
    failure : (m : Width) (why : Failure) → recv m r ≡ err why → IsFailure m why
    failure bits32 why failed = λ e. recv-ends bits32 r (failed ∙ ap err e)
    failure bits64 why failed =
        ((λ e. recv-ends bits64 r (failed ∙ ap err e)), (λ e. recv-counts r h (failed ∙ ap err e)))
