-- ===== src/Router/Binapi/Dialer/Credentials.antt =====
-- client.go: a call leaves the credentials of its dialer alone.
use awg_proxy_go.Prelude.{◌≡◌, refl, Bool, true, false, List, ◌∷◌, Option-cases, inl, inr}
use awg_proxy_go.Prelude.Results.{Result, ok, err}
use awg_proxy_go.Router.Binapi.Conn.{Bytes, Words}
use awg_proxy_go.Router.Binapi.Dialer.{
  Net, CallError, Conn, Dialer, Outcome, answer_end, write_end, on_conn, try_call, drop_conn,
  second_end, first_end, call, ensure,
}

abbrev pub SameLogin : {C : Type 0} → Dialer C → Dialer C → Type 0
SameLogin d d' = (d'.user ≡ d.user) × (d'.password ≡ d.password)

module _ {W C : Type 0} (n : Net W C) (d₀ : Dialer C) where
  answer_end-SameLogin :
      (w : W) (d : Dialer C) (c : Conn C) (got : Result CallError (List Words × Bytes))
      → SameLogin d₀ d
      → SameLogin d₀ (answer_end n w d c got).1
  unfolding answer_end
  answer_end-SameLogin w d c (ok (rows, rest)) h = h
  answer_end-SameLogin w d c (err e) h = h

  write_end-SameLogin :
      (w : W) (d : Dialer C) (c : Conn C) (sent : Bool)
      → SameLogin d₀ d
      → SameLogin d₀ (write_end n w d c sent).1
  unfolding write_end
  write_end-SameLogin w d c false h = h
  write_end-SameLogin w d c true h = answer_end-SameLogin _ d c _ h

  on_conn-SameLogin :
      (d : Dialer C) (words : List Bytes) (got : W × Result CallError (Conn C))
      → SameLogin d₀ d
      → SameLogin d₀ (on_conn n d words got).1
  unfolding on_conn
  on_conn-SameLogin d words (w, err e) h = h
  on_conn-SameLogin d words (w, ok c) h = write_end-SameLogin _ d c _ h

  try_call-SameLogin :
      (w : W) (d : Dialer C) (words : List Bytes)
      → SameLogin d₀ d
      → SameLogin d₀ (try_call n w d words).1
  unfolding try_call
  try_call-SameLogin w d words h = on_conn-SameLogin d words (ensure n w d) h

  drop_conn-SameLogin : (w : W) (d : Dialer C) → SameLogin d₀ d → SameLogin d₀ (drop_conn n w d).1
  unfolding drop_conn
  drop_conn-SameLogin w d h = elim (Option-cases d.conn) [
    | inl e ↦ rw (e) h
    | inr (c, e) ↦ rw (e) h
  ]

  second_end-SameLogin : (o : Outcome n) → SameLogin d₀ o.1 → SameLogin d₀ (second_end n o).1
  unfolding second_end
  second_end-SameLogin (w, d, ok rows) h = h
  second_end-SameLogin (w, d, err e) h = drop_conn-SameLogin w d h

  first_end-SameLogin :
      (words : List Bytes) (o : Outcome n) → SameLogin d₀ o.1 → SameLogin d₀ (first_end n words o).1
  unfolding first_end
  first_end-SameLogin words (w, d, ok rows) h = h
  first_end-SameLogin words (w, d, err e) h =
      second_end-SameLogin _ (
        try_call-SameLogin (drop_conn n w d).0 (drop_conn n w d).1 words
          (drop_conn-SameLogin w d h))

  pub call-SameLogin :
      (w : W) (cmd : Bytes) (args : List Bytes) → SameLogin d₀ (call n w d₀ cmd args).1
  unfolding call
  call-SameLogin w cmd args =
      first_end-SameLogin (cmd ∷ args) (try_call n w d₀ (cmd ∷ args))
        (try_call-SameLogin w d₀ (cmd ∷ args) (refl, refl))
