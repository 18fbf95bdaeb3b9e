-- ===== src/Router/Binapi/Dialer/Repeats.antt =====
-- client.go: Call repeats a command that RouterOS has answered with an error.
use awg_proxy_go.Prelude.{◌≡◌, refl, Bool, true, false, List, [], ◌∷◌, some, none}
use awg_proxy_go.Prelude.Text.{codes}
use awg_proxy_go.Prelude.Eq.{nat_eq, list_eq}
use awg_proxy_go.Prelude.Dict.{lookup, insert}
use awg_proxy_go.Prelude.Results.{err}
use awg_proxy_go.Router.Binapi.Codec.{read_word, read_full, read_length, read_byte}
use awg_proxy_go.Router.Binapi.Conn.{Bytes, send, recv, recv_words, put_word, index_byte}
use awg_proxy_go.Router.Binapi.Dialer.{
  Net, trap, login_words, login, connect, ensure, try_call, drop_conn, call, call_loop, value_of,
  reply_of,
}

-- A router that accepts every login and refuses every command. Its state is the list of what was
-- written to it, the latest first, and whether the next sentence is a login.
abbrev pub refusing : Net (List Bytes × Bool) Unit
refusing = record {
  dial = λ (log, _). ((log, true), some tt);
  write = λ (log, fresh) _ sentence. ((sentence ∷ log, fresh), true);
  incoming = λ (log, fresh) _. (
    (log, false),
    elim fresh [
      | true ↦ send (codes "!done" ∷ [])
      | false ↦ send (codes "!trap" ∷ codes "=message=no" ∷ [])
    ],
  );
  close = λ w _. w;
}

-- A command that RouterOS refuses by `!trap` over an open connection is written a second time,
-- behind a new login, and only then does Call return the trap.
pub call_repeated :
    (user password cmd : Bytes) (args log : List Bytes)
    → call refusing
        (log, false)
        (record { user = user; password = password; conn = some (record { socket = tt; br = [] }) })
        cmd
        args
      ≡ (
        (send (cmd ∷ args) ∷ send (login_words user password) ∷ send (cmd ∷ args) ∷ log, false),
        record { user = user; password = password; conn = none },
        err (trap [] (codes "no")),
      )
unfolding call try_call ensure connect login drop_conn call_loop recv value_of reply_of lookup
    read_word read_length read_full read_byte recv_words put_word index_byte insert send
call_repeated user password cmd args log = refl
