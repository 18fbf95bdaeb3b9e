-- ===== src/Router/Binapi/Dialer/Answers.antt =====
-- client.go: Call reads the answer that RouterOS gives.
use Prim.Native.Nat.{◌<◌, ◌≤◌}
use awg_proxy_go.Prelude.{
  ℕ, suc, zero, ◌≡◌, refl, ◌∙◌, ap, true, List, [], ◌∷◌, ◌++◌, map, append_assoc, append-nil, some,
  length, length-append, All, arith,
}
use awg_proxy_go.Prelude.Text.{codes}
use awg_proxy_go.Prelude.Eq.{nat_eq, list_eq}
use awg_proxy_go.Prelude.Results.{ok}
use awg_proxy_go.Router.Binapi.Codec.{bits64}
use awg_proxy_go.Router.Binapi.Conn.{Bytes, Words, send, kv_words}
use awg_proxy_go.Router.Binapi.Conn.RoundTrip.{put_words, recv-send, length-send}
use awg_proxy_go.Router.Binapi.Conn.Pairs.{CanSend, kv_words-IsWord}
use awg_proxy_go.Router.Binapi.Dialer.{
  Net, Conn, Dialer, call_loop, answer_end, write_end, on_conn, ensure, try_call, first_end, call,
}

-- The sentences that answer a command: one `!re` for each row, then `!done`.
abbrev pub answer : List Words → Bytes
answer [] = send (codes "!done" ∷ [])
answer (kv ∷ rows) = send (codes "!re" ∷ kv_words kv) ++ answer rows

-- The map that Recv builds from the words of a row: RoundTrip.recv-kv_words.
abbrev pub read_back : Words → Words
read_back kv = put_words (kv_words kv) []

call_loop-answer :
    (fuel : ℕ) (rows got : List Words) (rest : Bytes)
    → length rows < fuel
    → All (All (CanSend bits64)) rows
    → call_loop fuel got (answer rows ++ rest) ≡ ok (got ++ map read_back rows, rest)
unfolding call_loop
call_loop-answer zero rows got rest enough can = absurd (omega arith)
call_loop-answer (suc fuel) [] got rest enough can =
    rw
      (
        call_loop,
        recv-send bits64 (codes "!done") [] rest ((λ e. cc), omega arith) tt,
        append-nil got,
      )
      refl
call_loop-answer (suc fuel) (kv ∷ rows) got rest enough can =
    rw
      (
        append_assoc,
        call_loop,
        recv-send bits64 (codes "!re") (kv_words kv) (answer rows ++ rest) ((λ e. cc), omega arith)
            (kv_words-IsWord bits64 kv can.0),
      )
      (call_loop-answer fuel rows (got ++ read_back kv ∷ []) rest (omega arith) can.1
        ∙ ap (λ r. ok (r, rest)) (append_assoc got _ _))

length-answer :
    (rows : List Words) → All (All (CanSend bits64)) rows → length rows ≤ length (answer rows)
length-answer [] can = omega arith
length-answer (kv ∷ rows) can =
    let ws = codes "!re" ∷ kv_words kv in
    omega (
      arith,
      length-append (send ws) (answer rows),
      length-send bits64 ws (((λ e. cc), omega arith), kv_words-IsWord bits64 kv can.0),
      length-answer rows can.1,
    )

module _ {W C : Type 0} (n : Net W C) where
  ensure-open : (w : W) (d : Dialer C) (c : Conn C) → d.conn ≡ some c → ensure n w d ≡ (w, ok c)
  unfolding ensure
  ensure-open w d c here = rw here refl

  on_conn-sent :
      {w w' : W} (d : Dialer C) (c : Conn C) (words : List Bytes)
      → n.write w c.socket (send words) ≡ (w', true)
      → on_conn n d words (w, ok c) ≡ write_end n w' d c true
  unfolding on_conn
  on_conn-sent d c words sent = rw sent refl

  write_end-came :
      {w w' : W} {more : Bytes} (d : Dialer C) (c : Conn C)
      → n.incoming w c.socket ≡ (w', more)
      → write_end n w d c true
        ≡ answer_end n w' d c (call_loop (suc (length (c.br ++ more))) [] (c.br ++ more))
  unfolding write_end
  write_end-came d c came = rw came refl

  -- Where the dialer has a connection, the write succeeds and RouterOS sends rows and `!done`, Call
  -- returns those rows in their order, keeps the connection, and leaves what comes behind the answer
  -- in the reader. Rows that fit a word, with no `=` in a key; `read_back` is the map that Recv builds.
  pub call-answer :
      (w w' w'' : W) (d : Dialer C) (c : Conn C) (cmd : Bytes) (args : List Bytes)
      (rows : List Words) (more rest : Bytes)
      → d.conn ≡ some c
      → n.write w c.socket (send (cmd ∷ args)) ≡ (w', true)
      → n.incoming w' c.socket ≡ (w'', more)
      → c.br ++ more ≡ answer rows ++ rest
      → All (All (CanSend bits64)) rows
      → call n w d cmd args
        ≡ (w'', record d { conn = some (record c { br = rest }) }, ok (map read_back rows))
  unfolding call try_call first_end answer_end
  call-answer w w' w'' d c cmd args rows more rest here sent came bytes can =
      ap (first_end n (cmd ∷ args)) tried
    where
      loops :
          call_loop (suc (length (c.br ++ more))) [] (c.br ++ more) ≡ ok (map read_back rows, rest)
      loops = rw bytes (
          call_loop-answer (suc (length (answer rows ++ rest))) rows [] rest
            (omega (arith, length-append (answer rows) rest, length-answer rows can)) can)

      tried :
          try_call n w d (cmd ∷ args)
          ≡ (w'', record d { conn = some (record c { br = rest }) }, ok (map read_back rows))
      tried =
          ap (on_conn n d (cmd ∷ args)) (ensure-open w d c here)
          ∙ on_conn-sent d c (cmd ∷ args) sent
          ∙ write_end-came d c came
          ∙ ap (answer_end n w'' d c) loops
