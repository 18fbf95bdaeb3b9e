-- ===== src/Proxy/Sessions/Replies.antt =====
-- sessions.go: which address and which keys a reply gets.
use mathlib.Core.Option
use awg_proxy_go.Prelude.{
  ℕ, ◌≡◌, refl, ◌∙◌, ap, inl, inr, String, Bool, true, List, [], ◌∷◌, none, some, Option-cases,
  length, get_elem?, modify, get_elem?-modify_self, get_elem?-append_end,
}
use awg_proxy_go.Prelude.Eq.{nat_eq, string_eq}
use awg_proxy_go.Prelude.Dict.{lookup, insert, lookup-insert_self}
use awg_proxy_go.Proxy.Sessions.{
  Session, Table, registered, identified, fresh_session, reply_keys, get_locked, client_init,
  set_pub, response_targets,
}
use awg_proxy_go.Proxy.Sessions.Invariant.{
  IsValid, with_fresh, get_locked_known, get_locked_new, get_locked_lem, client_init-IsValid,
}
use awg_proxy_go.Proxy.Sessions.Routing.{route}

-- What a reply to a routed index gets.
response_targets_at :
    (t : Table) (index : ℕ) (cands : List (List ℕ)) (need_pub : Bool) (now s : ℕ) (x : Session)
    → lookup index t.by_index ≡ some s
    → get_elem? t.heap s ≡ some x
    → (response_targets t index cands need_pub now).1 ≡ some (x.addr, reply_keys x cands need_pub)
unfolding response_targets
response_targets_at t index cands need_pub now s x e at = rw (e, response_targets) (rw at refl)

-- In a valid table a reply goes where its index is routed, whatever its kind, and is dropped exactly
-- when the index has no route.
pub response_targets-route :
    (t : Table) (index : ℕ) (cands : List (List ℕ)) (need_pub : Bool) (now : ℕ)
    → IsValid t
    → Option.map (λ r. r.0) (response_targets t index cands need_pub now).1 ≡ route t index
response_targets-route t index cands need_pub now v =
    elim (Option-cases (lookup index t.by_index)) [
      | inl e ↦ rw e (unfold response_targets in rw (e, response_targets) refl)
      | inr (s, e) ↦
          let (x, at) = v.at_index index s e in
          rw (e, at, response_targets_at t index cands need_pub now s x e at) refl
    ]

client_init_known :
    (t : Table) (addr : String) (index now s : ℕ)
    → lookup addr t.by_addr ≡ some s
    → client_init t addr index now ≡ record t {
      heap = modify s (registered index now) t.heap;
      by_index = insert index s t.by_index;
    }
unfolding client_init
client_init_known t addr index now s e = rw (client_init, get_locked_known t addr s e) refl

set_pub_known :
    (t : Table) (addr : String) (key : List ℕ) (s : ℕ)
    → lookup addr t.by_addr ≡ some s
    → set_pub t addr key ≡ record t { heap = modify s (identified key) t.heap }
unfolding set_pub
set_pub_known t addr key s e = rw (set_pub, get_locked_known t addr s e) refl

client_init_new :
    (t : Table) (addr : String) (index now : ℕ)
    → lookup addr t.by_addr ≡ none
    → client_init t addr index now ≡ client_init (with_fresh t addr) addr index now
unfolding client_init
client_init_new t addr index now e =
    rw
      (
        get_locked_new t addr e,
        get_locked_known (with_fresh t addr) addr (length t.heap)
            (lookup-insert_self addr (length t.heap) t.by_addr),
      )
      refl

-- The table right after an initiation.
init_known :
    (t : Table) (addr : String) (index now : ℕ)
    → IsValid t
    → (s : ℕ) × (lookup addr (client_init t addr index now).by_addr ≡ some s)
      × (lookup index (client_init t addr index now).by_index ≡ some s)
unfolding client_init
init_known t addr index now v = (
  (get_locked t addr).1,
  (get_locked_lem t addr v).1,
  lookup-insert_self index (get_locked t addr).1 (get_locked t addr).0.by_index,
)

-- In a valid table, once the initiation of a client has been registered and decrypted, a handshake
-- response to its index goes to its address with exactly that client's key for the MAC1, whatever
-- the candidates are.
pub response_targets-set_pub :
    (t : Table) (addr : String) (index now later : ℕ) (key : List ℕ) (cands : List (List ℕ))
    → IsValid t
    → (response_targets (set_pub (client_init t addr index now) addr key) index cands true later).1
      ≡ some (addr, key ∷ [])
response_targets-set_pub t addr index now later key cands v =
    let t' = client_init t addr index now in
    let (s, known, routed) = init_known t addr index now v in
    let (x, at, named) = (client_init-IsValid t addr index now v).at_addr addr s known in
    rw (set_pub_known t' addr key s known) (
      response_targets_at _ index cands true later s (identified key x) routed
        (get_elem?-modify_self s (identified key) t'.heap at)
      ∙ unfold reply_keys in ap (λ a. some (a, key ∷ [])) named)

-- A handshake response to a new client whose initiation was not decrypted goes out once for each
-- candidate, to the address of that client.
pub response_targets_burst :
    (t : Table) (addr : String) (index now later : ℕ) (c : List ℕ) (cs : List (List ℕ))
    → lookup addr t.by_addr ≡ none
    → (response_targets (client_init t addr index now) index (c ∷ cs) true later).1
      ≡ some (addr, c ∷ cs)
response_targets_burst t addr index now later c cs e =
    let s = length t.heap in
    rw
      (
        client_init_new t addr index now e,
        client_init_known (with_fresh t addr) addr index now s
            (lookup-insert_self addr s t.by_addr),
      )
      (response_targets_at _ index (c ∷ cs) true later s (registered index now (fresh_session addr))
          (lookup-insert_self index s t.by_index)
          (get_elem?-modify_self s (registered index now) _
            (get_elem?-append_end t.heap (fresh_session addr)))
        ∙ unfold reply_keys in refl)
