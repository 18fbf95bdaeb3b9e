-- ===== src/Proxy/Sessions/Steps.antt =====
-- sessions.go: the table under any sequence of calls.
use awg_proxy_go.Prelude.{ℕ, String, Bool, List, [], ◌∷◌}
use awg_proxy_go.Proxy.Sessions.{Table, client_init, client_traffic, set_pub, response_targets, gc}
use awg_proxy_go.Proxy.Sessions.Invariant.{
  IsValid, client_init-IsValid, client_traffic-IsValid, set_pub-IsValid, response_targets-IsValid,
  gc-IsValid,
}

-- A call of one of the table's methods, by the goroutine that then holds the mutex.
pub data Call : Type 0 where
  inits : String → ℕ → ℕ → Call
  traffics : String → ℕ → Call
  sets_pub : String → List ℕ → Call
  replies : ℕ → List (List ℕ) → Bool → ℕ → Call
  sweeps : ℕ → Call

unfoldable pub step : Table → Call → Table
step t (inits addr index now) = client_init t addr index now
step t (traffics addr now) = client_traffic t addr now
step t (sets_pub addr key) = set_pub t addr key
step t (replies index cands need_pub now) = (response_targets t index cands need_pub now).0
step t (sweeps now) = gc t now

unfoldable pub run : Table → List Call → Table
unfolding step
run t [] = t
run t (c ∷ cs) = run (step t c) cs

step-IsValid : (t : Table) (c : Call) → IsValid t → IsValid (step t c)
unfolding step
step-IsValid t (inits addr index now) v = client_init-IsValid t addr index now v
step-IsValid t (traffics addr now) v = client_traffic-IsValid t addr now v
step-IsValid t (sets_pub addr key) v = set_pub-IsValid t addr key v
step-IsValid t (replies index cands need_pub now) v =
    response_targets-IsValid t index cands need_pub now v
step-IsValid t (sweeps now) v = gc-IsValid t now v

-- From a table whose two maps point to sessions on the heap, an address to one that carries it, every
-- sequence of calls leads to such a table again.
pub run-IsValid : (t : Table) (cs : List Call) → IsValid t → IsValid (run t cs)
unfolding run
run-IsValid t [] v = v
run-IsValid t (c ∷ cs) v = run-IsValid (step t c) cs (step-IsValid t c v)
