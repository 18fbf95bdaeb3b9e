-- ===== src/Router/Binapi/Dialer.antt =====
-- internal/router/binapi: Dial and login of conn.go, and the Dialer of client.go. The network is a
-- parameter: what a socket does with a write, and which bytes it still delivers before it falls
-- silent, is closed or passes its deadline. Every method runs under the dialer's mutex. It is the
-- dialer of the builds whose `int` has 64 bits, where no read panics.
pub mod Answers
pub mod Lifetime
pub mod Credentials
pub mod Repeats
use awg_proxy_go.Prelude.{
  ℕ, suc, zero, Bool, true, false, List, [], ◌∷◌, ◌++◌, Option, some, none, if◌then◌else◌, length,
}
use awg_proxy_go.Prelude.Eq.{◌==◌, nat_eq, list_eq}
use awg_proxy_go.Prelude.Text.{codes}
use awg_proxy_go.Prelude.Dict.{lookup}
use awg_proxy_go.Prelude.Results.{Result, ok, err}
use awg_proxy_go.Router.Binapi.Codec.{Failure, out_of_fuel, bits64}
use awg_proxy_go.Router.Binapi.Conn.{Bytes, Words, Sentence, send, recv, kv_words}

pub record Net (W C : Type 0) : Type 0 where
  pub dial : W → W × Option C
  pub write : W → C → Bytes → W × Bool
  pub incoming : W → C → W × Bytes
  pub close : W → C → W

pub data CallError : Type 0 where
  dial_failed write_failed no_reply : CallError
  read_failed : Failure → CallError
  trap : Bytes → Bytes → CallError
  fatal : Bytes → CallError

-- A socket, and what its bufio.Reader holds.
pub record Conn (C : Type 0) : Type 0 where
  pub socket : C
  pub br : Bytes

-- The address and the port are those that `dial` stands for.
pub record Dialer (C : Type 0) : Type 0 where
  pub user : Bytes
  pub password : Bytes
  pub conn : Option (Conn C)

-- m[k], which is empty for a missing key.
unfoldable pub value_of : Bytes → Words → Bytes
unfolding lookup
value_of k words = elim (lookup k words) [ some v ↦ v | none ↦ [] ]

-- The cases of `switch s.Reply`.
pub data Reply : Type 0 where
  row done trapped dead other : Reply

unfoldable pub reply_of : Bytes → Reply
reply_of r =
    if r == codes "!re"
    then row
    else if r == codes "!done"
    then done
    else if r == codes "!trap"
    then trapped
    else if r == codes "!fatal"
    then dead
    else other

abbrev pub trap_of : Sentence → CallError
trap_of s = trap (value_of (codes "category") s.words) (value_of (codes "message") s.words)

-- The loop of login: the rest of the stream. The fuel is one more than the bytes that are left.
login_loop : ℕ → Bytes → Result CallError Bytes
unfolding recv reply_of value_of
login_loop zero r = err (read_failed out_of_fuel)
login_loop (suc fuel) r = elim (recv bits64 r) [
  | err why ↦ err (read_failed why)
  | ok (s, rest) ↦ elim (reply_of s.reply) [
    | done ↦ ok rest
    | trapped ↦ err (trap_of s)
    | dead ↦ err (fatal (value_of (codes "message") s.words))
    | row ↦ login_loop fuel rest
    | other ↦ login_loop fuel rest
  ]
]

-- The loop of call: the rows, and the rest of the stream.
unfoldable pub call_loop : ℕ → List Words → Bytes → Result CallError (List Words × Bytes)
unfolding recv reply_of value_of
call_loop zero rows r = err (read_failed out_of_fuel)
call_loop (suc fuel) rows r = elim (recv bits64 r) [
  | err why ↦ err (read_failed why)
  | ok (s, rest) ↦ elim (reply_of s.reply) [
    | row ↦ call_loop fuel (rows ++ s.words ∷ []) rest
    | done ↦ ok (elim s.words [ [] ↦ rows | w ∷ ws ↦ rows ++ s.words ∷ [] ], rest)
    | trapped ↦ err (trap_of s)
    | dead ↦ err (fatal (value_of (codes "message") s.words))
    | other ↦ call_loop fuel rows rest
  ]
]

abbrev pub login_words : Bytes → Bytes → List Bytes
login_words user password =
    codes "/login" ∷ (codes "=name=" ++ user) ∷ (codes "=password=" ++ password) ∷ []

module _ {W C : Type 0} (n : Net W C) where
  login_end : W → C → Result CallError Bytes → W × Result CallError (Conn C)
  login_end w c (ok rest) = (w, ok (record { socket = c; br = rest }))
  login_end w c (err e) = (n.close w c, err e)

  unfoldable pub login : W → C → Bytes → Bytes → W × Result CallError (Conn C)
  unfolding send login_end login_loop
  login w c user password =
      let (w', sent) = n.write w c (send (login_words user password)) in
      if sent
      then (let (w'', r) = n.incoming w' c in login_end w'' c (login_loop (suc (length r)) r))
      else login_end w' c (err write_failed)

  -- Dial
  unfoldable pub connect : W → Bytes → Bytes → W × Result CallError (Conn C)
  unfolding login
  connect w user password =
      let (w', socket) = n.dial w in
      elim socket [ none ↦ (w', err dial_failed) | some c ↦ login w' c user password ]

  -- ensure
  unfoldable pub ensure : W → Dialer C → W × Result CallError (Conn C)
  unfolding connect
  ensure w d = elim d.conn [ some c ↦ (w, ok c) | none ↦ connect w d.user d.password ]

  abbrev pub Outcome : Type 0
  Outcome = W × Dialer C × Result CallError (List Words)

  -- The rest of the stream stays in the reader. After an error the connection is dropped.
  answer_end : W → Dialer C → Conn C → Result CallError (List Words × Bytes) → Outcome
  answer_end w d c (ok (rows, rest)) =
      (w, record d { conn = some (record c { br = rest }) }, ok rows)
  answer_end w d c (err e) = (w, record d { conn = some c }, err e)

  write_end : W → Dialer C → Conn C → Bool → Outcome
  unfolding call_loop answer_end
  write_end w d c false = (w, record d { conn = some c }, err write_failed)
  write_end w d c true =
      let (w', more) = n.incoming w c.socket in
      let r = c.br ++ more in answer_end w' d c (call_loop (suc (length r)) [] r)

  on_conn : Dialer C → List Bytes → W × Result CallError (Conn C) → Outcome
  unfolding send write_end
  on_conn d words (w, err e) = (w, d, err e)
  on_conn d words (w, ok c) =
      let (w', sent) = n.write w c.socket (send words) in write_end w' d c sent

  -- call
  unfoldable pub try_call : W → Dialer C → List Bytes → Outcome
  unfolding ensure on_conn
  try_call w d words = on_conn d words (ensure w d)

  -- drop
  unfoldable pub drop_conn : W → Dialer C → W × Dialer C
  drop_conn w d = elim d.conn [
    | some c ↦ (n.close w c.socket, record d { conn = none })
    | none ↦ (w, d)
  ]

  -- The end of the second attempt.
  second_end : Outcome → Outcome
  unfolding drop_conn
  second_end (w, d, ok rows) = (w, d, ok rows)
  second_end (w, d, err e) = let (w', d') = drop_conn w d in (w', d', err e)

  first_end : List Bytes → Outcome → Outcome
  unfolding drop_conn second_end try_call
  first_end words (w, d, ok rows) = (w, d, ok rows)
  first_end words (w, d, err e) = let (w', d') = drop_conn w d in second_end (try_call w' d' words)

  -- Call
  unfoldable pub call : W → Dialer C → Bytes → List Bytes → Outcome
  unfolding try_call first_end
  call w d cmd args = first_end (cmd ∷ args) (try_call w d (cmd ∷ args))

  unfoldable pub print : W → Dialer C → Bytes → List Bytes → Outcome
  unfolding call
  print w d path args = call w d (path ++ codes "/print") args

  unfoldable pub added : Outcome → W × Dialer C × Result CallError Bytes
  unfolding value_of
  added (w, d, err e) = (w, d, err e)
  added (w, d, ok []) = (w, d, err no_reply)
  added (w, d, ok (r ∷ rows)) = (w, d, ok (value_of (codes "ret") r))

  unfoldable pub add : W → Dialer C → Bytes → Words → W × Dialer C × Result CallError Bytes
  unfolding call added kv_words
  add w d path kv = added (call w d (path ++ codes "/add") (kv_words kv))

  unfoldable pub set : W → Dialer C → Bytes → Bytes → Words → Outcome
  unfolding call kv_words
  set w d path id kv = call w d (path ++ codes "/set") ((codes "=.id=" ++ id) ∷ kv_words kv)

  unfoldable pub remove : W → Dialer C → Bytes → Bytes → Outcome
  unfolding call
  remove w d path id = call w d (path ++ codes "/remove") ((codes "=.id=" ++ id) ∷ [])

  -- Close, which never fails.
  unfoldable pub close_dialer : W → Dialer C → W × Dialer C
  unfolding drop_conn
  close_dialer w d = drop_conn w d

  checked_end : W × Result CallError (Conn C) → W × Option CallError
  checked_end (w, err e) = (w, some e)
  checked_end (w, ok c) = (n.close w c.socket, none)

  -- Verify: closing a socket is taken to succeed.
  unfoldable pub verify : W → Bytes → Bytes → W × Option CallError
  unfolding connect checked_end
  verify w user password = checked_end (connect w user password)
