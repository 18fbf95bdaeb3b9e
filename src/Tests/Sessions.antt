-- ===== src/Tests/Sessions.antt =====
-- internal/proxy/sessions.go on a small table.
use mathlib.Core.Option
use awg_proxy_go.Prelude.{
  ℕ, zero, suc, ◌≡◌, refl, String, true, false, List, [], ◌∷◌, none, some, get_elem?, replicate,
  arith,
}
use awg_proxy_go.Prelude.Eq.{nat_eq, string_eq}
use awg_proxy_go.Prelude.Dict.{lookup}
use awg_proxy_go.Proxy.Sessions.{
  Session, Table, new_table, client_init, set_pub, response_targets, gc, zero_key,
}
use awg_proxy_go.Proxy.Sessions.Invariant.{IsValid, new_table-IsValid}
use awg_proxy_go.Proxy.Sessions.Steps.{Call, inits, traffics, replies, sweeps, run, run-IsValid}
use awg_proxy_go.Proxy.Sessions.Routing.{route, route-client_init}
use awg_proxy_go.Proxy.Sessions.Replies.{response_targets-route, response_targets-set_pub}
use awg_proxy_go.Proxy.Sessions.Collection.{gc-by_addr, gc_unroutes_live, gc_keeps_orphan}

abbrev ttl : ℕ
ttl = 180

abbrev key : List ℕ
key = replicate 32 5

runs-IsValid : IsValid (
    run (new_table ttl) (
      inits "10.0.0.7:4000" 77 10
      ∷ traffics "10.0.0.8:4000" 20
      ∷ replies 77 [] true 30
      ∷ sweeps 205
      ∷ []))
runs-IsValid = run-IsValid (new_table ttl) _ (new_table-IsValid ttl)

-- Both clients choose the index 77; the first is silent from time 10 on.
abbrev shared_calls : List Call
shared_calls = inits "10.0.0.7:4000" 77 10 ∷ inits "10.0.0.8:4000" 77 150 ∷ []

shared : Table
unfolding run client_init new_table lookup
shared = run (new_table ttl) shared_calls

shared-IsValid : IsValid shared
unfolding shared
shared-IsValid = run-IsValid (new_table ttl) shared_calls (new_table-IsValid ttl)

route-client_init_example :
    route (client_init shared "10.0.0.9:4000" 78 160) 78 ≡ some "10.0.0.9:4000"
route-client_init_example = route-client_init shared "10.0.0.9:4000" 78 160 78 shared-IsValid

response_targets-route_example :
    Option.map (λ r. r.0) (response_targets shared 77 (key ∷ []) true 160).1 ≡ some "10.0.0.8:4000"
unfolding shared
response_targets-route_example = response_targets-route shared 77 (key ∷ []) true 160 shared-IsValid

response_targets-set_pub_example :
    (response_targets
      (set_pub (client_init shared "10.0.0.7:4000" 5 160) "10.0.0.7:4000" key)
      5
      (zero_key ∷ [])
      true
      161).1
    ≡ some ("10.0.0.7:4000", key ∷ [])
response_targets-set_pub_example =
    response_targets-set_pub shared "10.0.0.7:4000" 5 160 161 key (zero_key ∷ []) shared-IsValid

abbrev silent : Session
silent = record {
  addr = "10.0.0.7:4000";
  client_index = 77;
  pub_key = zero_key;
  pub_known = false;
  last_seen = 10;
}

gc-by_addr_example : lookup "10.0.0.7:4000" (gc shared 200).by_addr ≡ none
unfolding shared
gc-by_addr_example = gc-by_addr shared 200 "10.0.0.7:4000" 0 silent shared-IsValid refl refl

abbrev heard : Session
heard = record silent { addr = "10.0.0.8:4000"; last_seen = 150 }

gc_unroutes_live_example :
    (lookup "10.0.0.8:4000" (gc shared 200).by_addr ≡ some 1)
    × (lookup 77 (gc shared 200).by_index ≡ none)
unfolding shared
gc_unroutes_live_example =
    gc_unroutes_live shared 200 77 "10.0.0.7:4000" "10.0.0.8:4000" 0 1 silent heard shared-IsValid
      refl refl refl (omega arith) refl refl refl (omega arith)

-- A client that has made a second initiation: the index of the first is in no session.
abbrev again_calls : List Call
again_calls = inits "10.0.0.7:4000" 77 10 ∷ inits "10.0.0.7:4000" 78 130 ∷ []

again : Table
unfolding run client_init new_table lookup
again = run (new_table ttl) again_calls

again-IsValid : IsValid again
unfolding again
again-IsValid = run-IsValid (new_table ttl) again_calls (new_table-IsValid ttl)

-- The only session has the index 78.
again_index :
    (k : String) (s : ℕ) (x : Session)
    → lookup k again.by_addr ≡ some s
    → get_elem? again.heap s ≡ some x
    → x.client_index ≡ 78
unfolding again
again_index k zero x e at = cc
again_index k (suc s) x e at = cc

gc_keeps_orphan_example :
    (lookup 77 (gc again 999).by_index ≡ some 0) × (route (gc again 999) 77 ≡ some "10.0.0.7:4000")
unfolding again
gc_keeps_orphan_example =
    gc_keeps_orphan again 999 77 again-IsValid
      (λ k s x e at own. omega (arith, again_index k s x e at))
