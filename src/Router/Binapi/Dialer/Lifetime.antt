-- ===== src/Router/Binapi/Dialer/Lifetime.antt =====
-- client.go: the loops end, and no failed call leaves a connection behind.
use Prim.Native.Nat.{◌<◌}
use awg_proxy_go.Prelude.{
  ℕ, suc, zero, ◌≡◌, ◌≢◌, refl, Bool, true, false, List, [], ◌∷◌, ◌++◌, some, none, length, arith,
  inl, inr,
}
use awg_proxy_go.Prelude.Results.{Result, ok, err, Result-cases}
use awg_proxy_go.Router.Binapi.Codec.{out_of_fuel, bits64}
use awg_proxy_go.Router.Binapi.Conn.{Bytes, Words, recv}
use awg_proxy_go.Router.Binapi.Conn.Total.{recv-ends, recv-length}
use awg_proxy_go.Router.Binapi.Dialer.{
  Net, CallError, read_failed, Conn, Dialer, call_loop, Outcome, answer_end, write_end, on_conn,
  try_call, drop_conn, second_end, first_end, call, ensure, login_loop,
}

-- The loop of Call reads on until the answer or the stream ends: with more fuel than there are bytes
-- left, it does not end for lack of fuel.
pub call_loop-ends :
    (fuel : ℕ) (rows : List Words) (r : Bytes)
    → length r < fuel
    → call_loop fuel rows r ≢ err (read_failed out_of_fuel)
unfolding call_loop
call_loop-ends zero rows r enough = absurd (omega arith)
call_loop-ends (suc fuel) rows r enough = elim (Result-cases (recv bits64 r)) [
  | inl ((s, rest), got) ↦
      let less = recv-length bits64 r rest s got in
      ground (
        arith,
        got,
        call_loop-ends fuel rows rest (omega arith),
        call_loop-ends fuel (rows ++ s.words ∷ []) rest (omega arith),
      )
  | inr (why, failed) ↦ ground (arith, failed, recv-ends bits64 r)
]

login_loop-ends :
    (fuel : ℕ) (r : Bytes) → length r < fuel → login_loop fuel r ≢ err (read_failed out_of_fuel)
unfolding login_loop
login_loop-ends zero r enough = absurd (omega arith)
login_loop-ends (suc fuel) r enough = elim (Result-cases (recv bits64 r)) [
  | inl ((s, rest), got) ↦
      let less = recv-length bits64 r rest s got in
      ground (arith, got, login_loop-ends fuel rest (omega arith))
  | inr (why, failed) ↦ ground (arith, failed, recv-ends bits64 r)
]

module _ {W C : Type 0} (n : Net W C) where
  -- A result comes with an open connection, an error with none.
  abbrev pub IsSettled : Outcome n → Type 0
  IsSettled (w, d, ok rows) = (c : Conn C) × (d.conn ≡ some c)
  IsSettled (w, d, err e) = d.conn ≡ none

  abbrev IsOpen : Outcome n → Type 0
  IsOpen (w, d, ok rows) = (c : Conn C) × (d.conn ≡ some c)
  IsOpen (w, d, err e) = Unit

  answer_end-IsOpen :
      (w : W) (d : Dialer C) (c : Conn C) (got : Result CallError (List Words × Bytes))
      → IsOpen (answer_end n w d c got)
  unfolding answer_end
  answer_end-IsOpen w d c (ok (rows, rest)) = (_, refl)
  answer_end-IsOpen w d c (err e) = tt

  write_end-IsOpen :
      (w : W) (d : Dialer C) (c : Conn C) (sent : Bool) → IsOpen (write_end n w d c sent)
  unfolding write_end
  write_end-IsOpen w d c false = tt
  write_end-IsOpen w d c true = answer_end-IsOpen _ d c _

  on_conn-IsOpen :
      (d : Dialer C) (words : List Bytes) (got : W × Result CallError (Conn C))
      → IsOpen (on_conn n d words got)
  unfolding on_conn
  on_conn-IsOpen d words (w, err e) = tt
  on_conn-IsOpen d words (w, ok c) = write_end-IsOpen _ d c _

  try_call-IsOpen : (w : W) (d : Dialer C) (words : List Bytes) → IsOpen (try_call n w d words)
  unfolding try_call
  try_call-IsOpen w d words = on_conn-IsOpen d words (ensure n w d)

  drop_conn-none : (w : W) (d : Dialer C) → (drop_conn n w d).1.conn ≡ none
  unfolding drop_conn
  drop_conn-none w d = ground arith

  second_end-IsSettled : (o : Outcome n) → IsOpen o → IsSettled (second_end n o)
  unfolding second_end
  second_end-IsSettled (w, d, ok rows) h = h
  second_end-IsSettled (w, d, err e) h = drop_conn-none w d

  first_end-IsSettled :
      (words : List Bytes) (o : Outcome n) → IsOpen o → IsSettled (first_end n words o)
  unfolding first_end
  first_end-IsSettled words (w, d, ok rows) h = h
  first_end-IsSettled words (w, d, err e) h =
      let (w', d') = drop_conn n w d in
      second_end-IsSettled (try_call n w' d' words) (try_call-IsOpen w' d' words)

  -- Whatever the network does, Call ends with a result and an open connection, or with an error and
  -- no connection, so that the next call dials again.
  pub call-IsSettled :
      (w : W) (d : Dialer C) (cmd : Bytes) (args : List Bytes) → IsSettled (call n w d cmd args)
  unfolding call
  call-IsSettled w d cmd args =
      first_end-IsSettled (cmd ∷ args) (try_call n w d (cmd ∷ args))
        (try_call-IsOpen w d (cmd ∷ args))
