-- ===== src/Tests/Router.antt =====
-- internal/router/binapi on small sentences.
use awg_proxy_go.Prelude.{
  ◌≡◌, refl, sym, All, append-nil, true, false, List, [], ◌∷◌, ◌++◌, map, some, none, arith,
}
use awg_proxy_go.Prelude.Bytes.{IsByte}
use awg_proxy_go.Prelude.Text.{codes}
use awg_proxy_go.Prelude.Eq.{nat_eq, list_eq}
use awg_proxy_go.Prelude.Dict.{lookup, insert}
use awg_proxy_go.Prelude.Int.{pos}
use awg_proxy_go.Prelude.Results.{ok, err}
use awg_proxy_go.Router.Binapi.Codec.{
  eof, bits32, bits64, panicked, read_word, read_length, read_byte, read_full, write_length,
  write_word,
}
use awg_proxy_go.Router.Binapi.Conn.{Bytes, Words, Sentence, send, recv, kv_words}
use awg_proxy_go.Router.Binapi.Conn.Pairs.{CanSend, recv-kv_words}
use awg_proxy_go.Router.Binapi.Conn.Total.{IsShorter, recv-IsShorter}
use awg_proxy_go.Router.Binapi.Dialer.{Net, trap, Dialer, login_words, call, print}
use awg_proxy_go.Router.Binapi.Dialer.Answers.{answer, read_back, call-answer}
use awg_proxy_go.Router.Binapi.Dialer.Lifetime.{IsSettled, call-IsSettled}
use awg_proxy_go.Router.Binapi.Dialer.Repeats.{refusing, call_repeated}
use awg_proxy_go.Router.Settings.{RouterConfig}
use awg_proxy_go.Router.Dialers.{dialer_of, kept, call_print}
use awg_proxy_go.Router.Dialers.Pool.{
  Command, print_at, IsCalled, IsReused, exec, exec_all, exec_all-IsCalled,
}

-- Lengths of two, three and five bytes.
lengths :
    (write_length 0x87 ≡ 0x80 ∷ 0x87 ∷ [])
    × (write_length 0x4321 ≡ 0xc0 ∷ 0x43 ∷ 0x21 ∷ [])
    × (write_length 0x10000000 ≡ 0xf0 ∷ 0x10 ∷ 0 ∷ 0 ∷ 0 ∷ [])
unfolding write_length
lengths = (refl, refl, refl)

-- A length with the highest of 32 bits set.
negative_length :
    (read_word bits32 (0xf0 ∷ 0xff ∷ 0 ∷ 0 ∷ 0 ∷ []) ≡ err panicked)
    × (read_word bits64 (0xf0 ∷ 0xff ∷ 0 ∷ 0 ∷ 0 ∷ []) ≡ err eof)
unfolding read_word read_length read_byte read_full
negative_length = (refl, refl)

-- A value may have `=` in it.
abbrev peer : Words
peer = (codes "name", codes "wg0") ∷ (codes "key", codes "aGk=") ∷ []

peer_can : All (CanSend bits64) peer
peer_can = (
  (
    ((λ e. omega arith), ((λ e. omega arith), ((λ e. omega arith), ((λ e. omega arith), tt)))),
    omega arith,
  ),
  ((((λ e. omega arith), ((λ e. omega arith), ((λ e. omega arith), tt))), omega arith), tt),
)

recv-kv_words_example :
    (s : Sentence) × (recv bits64 (send (codes "!re" ∷ kv_words peer) ++ []) ≡ ok (s, []))
    × (s.reply ≡ codes "!re")
    × ((j : Bytes) → lookup j s.words ≡ lookup j peer)
unfolding lookup
recv-kv_words_example =
    recv-kv_words bits64 (codes "!re") peer [] ((λ e. cc), omega arith) (refl, (refl, tt)) peer_can

abbrev done_bytes : Bytes
done_bytes = 5 ∷ 33 ∷ 100 ∷ 111 ∷ 110 ∷ 101 ∷ 0 ∷ []

-- `!done`, as it comes over the wire.
done_words : send (codes "!done" ∷ []) ≡ done_bytes
unfolding send write_length write_word
done_words = refl

done_bytes_fit : All IsByte done_bytes
done_bytes_fit = (
  omega arith,
  (omega arith, (omega arith, (omega arith, (omega arith, (omega arith, (omega arith, tt)))))),
)

recv-IsShorter_example : IsShorter bits64 done_bytes (recv bits64 done_bytes)
recv-IsShorter_example = recv-IsShorter bits64 done_bytes done_bytes_fit

abbrev idle : Dialer Unit
idle = record {
  user = codes "admin";
  password = codes "secret";
  conn = some (record { socket = tt; br = [] });
}

-- A router that answers every sentence with one row.
abbrev one_row : Net (List Bytes) Unit
one_row = record {
  dial = λ log. (log, some tt);
  write = λ log _ sentence. (sentence ∷ log, true);
  incoming = λ log _. (log, answer (peer ∷ []));
  close = λ log _. log;
}

call-IsSettled_example :
    IsSettled refusing (call refusing ([], false) idle (codes "/ip/address/print") [])
call-IsSettled_example = call-IsSettled refusing ([], false) idle (codes "/ip/address/print") []

call-answer_example :
    call one_row [] idle (codes "/interface/print") []
    ≡ (send (codes "/interface/print" ∷ []) ∷ [], idle, ok (map read_back (peer ∷ [])))
call-answer_example =
    call-answer one_row [] _ _ idle (record { socket = tt; br = [] }) (codes "/interface/print") []
      (peer ∷ []) (answer (peer ∷ [])) [] refl refl refl (sym (append-nil _)) (peer_can, tt)

twice_sent : call refusing ([], false) idle (codes "/ip/firewall/nat/add") [] ≡ (
  (
    send (codes "/ip/firewall/nat/add" ∷ [])
        ∷ send (login_words (codes "admin") (codes "secret"))
        ∷ send (codes "/ip/firewall/nat/add" ∷ [])
        ∷ [],
    false,
  ),
  record { user = codes "admin"; password = codes "secret"; conn = none },
  err (trap [] (codes "no")),
)
twice_sent = call_repeated (codes "admin") (codes "secret") (codes "/ip/firewall/nat/add") [] []

abbrev home : RouterConfig
home = record {
  address = "192.168.88.1";
  api_port = pos 8728;
  api_tls = false;
  user = "admin";
  password = "secret";
  iface = "wg0";
  interval = pos 30;
  mode = "server";
}

abbrev calls_before : List (RouterConfig × Command)
calls_before =
    (home, print_at "/interface/wireguard" [])
    ∷ (record home { password = "other" }, print_at "/ip/address" [])
    ∷ []

-- The second call under the same credentials writes one sentence: there is no second login.
reused :
    (exec
      (λ k. one_row)
      (exec_all (λ k. one_row) (record { world = []; dialers = [] }) calls_before)
      home
      (print_at "/ip/address" [])).0.world
    ≡ send (codes "/ip/address/print" ∷ [])
      ∷ (exec_all (λ k. one_row) (record { world = []; dialers = [] }) calls_before).world
unfolding call_print print dialer_of kept call lookup insert kv_words
reused = refl

exec_all-IsCalled_example :
    IsCalled (exec_all (λ k. one_row) (record { world = []; dialers = [] }) calls_before) home (
      exec
        (λ k. one_row)
        (exec_all (λ k. one_row) (record { world = []; dialers = [] }) calls_before)
        home
        (print_at "/ip/address" []))
    × IsReused
        (λ k. one_row)
        home
        (exec
          (λ k. one_row)
          (exec_all (λ k. one_row) (record { world = []; dialers = [] }) calls_before)
          home
          (print_at "/ip/address" []))
exec_all-IsCalled_example =
    exec_all-IsCalled (λ k. one_row) [] calls_before home (print_at "/ip/address" [])
