-- ===== src/Proxy/Sessions/Routing.antt =====
-- sessions.go as a routing table: by which address a receiver index is answered.
use mathlib.Core.Option
use awg_proxy_go.Prelude.{
  ℕ, zero, suc, ◌≡◌, refl, ◌∙◌, ap, inl, inr, String, Bool, List, [], ◌∷◌, Option, none, some,
  if◌then◌else◌, ◌==◌, Bool-cases, Option-cases, get_elem?, modify, get_elem?-append_left,
}
use awg_proxy_go.Prelude.Eq.{nat_eq, string_eq}
use awg_proxy_go.Prelude.Dict.{lookup, lookup-insert}
use awg_proxy_go.Proxy.Sessions.{
  Session, Table, fresh_session, get_locked, client_init, client_traffic, set_pub, response_targets,
}
use awg_proxy_go.Proxy.Sessions.Invariant.{
  IsValid, with_fresh, get_locked_known, get_locked_new, get_locked_lem,
}

abbrev pub addr_at : List Session → ℕ → Option String
addr_at heap s = Option.map (λ x. x.addr) (get_elem? heap s)

abbrev pub addr_of : List Session → Option ℕ → Option String
addr_of heap none = none
addr_of heap (some s) = addr_at heap s

-- The address that a reply to `index` goes to.
abbrev pub route : Table → ℕ → Option String
route t index = addr_of t.heap (lookup index t.by_index)

addr_at-modify :
    (s j : ℕ) (f : Session → Session) (heap : List Session)
    → ((y : Session) → (f y).addr ≡ y.addr)
    → addr_at (modify s f heap) j ≡ addr_at heap j
addr_at-modify s j f [] keeps = refl
addr_at-modify zero zero f (x ∷ xs) keeps = ap some (keeps x)
addr_at-modify zero (suc j) f (x ∷ xs) keeps = refl
addr_at-modify (suc s) zero f (x ∷ xs) keeps = refl
addr_at-modify (suc s) (suc j) f (x ∷ xs) keeps = addr_at-modify s j f xs keeps

addr_of-modify :
    (s : ℕ) (f : Session → Session) (heap : List Session) (o : Option ℕ)
    → ((y : Session) → (f y).addr ≡ y.addr)
    → addr_of (modify s f heap) o ≡ addr_of heap o
addr_of-modify s f heap none keeps = refl
addr_of-modify s f heap (some j) keeps = addr_at-modify s j f heap keeps

route-with_fresh :
    (t : Table) (addr : String) (i : ℕ) → IsValid t → route (with_fresh t addr) i ≡ route t i
route-with_fresh t addr i v = elim (Option-cases (lookup i t.by_index)) [
  | inl e ↦ rw e refl
  | inr (j, e) ↦
      let (x, at) = v.at_index i j e in
      rw (e, at, get_elem?-append_left t.heap (fresh_session addr ∷ []) j at) refl
]

route-get_locked :
    (t : Table) (addr : String) (i : ℕ) → IsValid t → route (get_locked t addr).0 i ≡ route t i
route-get_locked t addr i v = elim (Option-cases (lookup addr t.by_addr)) [
  | inl e ↦ rw (get_locked_new t addr e) (route-with_fresh t addr i v)
  | inr (s, e) ↦ rw (get_locked_known t addr s e) refl
]

-- The session that `get_locked` returns carries the address.
addr_at-get_locked :
    (t : Table) (addr : String)
    → IsValid t
    → addr_at (get_locked t addr).0.heap (get_locked t addr).1 ≡ some addr
addr_at-get_locked t addr v =
    let (v', known) = get_locked_lem t addr v in
    let (x, at, named) = v'.at_addr addr (get_locked t addr).1 known in rw at (ap some named)

-- In a valid table, one whose maps point to sessions on the heap, an initiation routes its sender
-- index to the client, and leaves all other routes.
pub route-client_init :
    (t : Table) (addr : String) (index now i : ℕ)
    → IsValid t
    → route (client_init t addr index now) i ≡ (if index == i then some addr else route t i)
unfolding client_init
route-client_init t addr index now i v =
    addr_of-modify (get_locked t addr).1 _ (get_locked t addr).0.heap _ (λ y. refl)
    ∙ rw (lookup-insert index i (get_locked t addr).1 (get_locked t addr).0.by_index)
        (elim (Bool-cases (index == i)) [
          | inl same ↦ rw same (addr_at-get_locked t addr v)
          | inr other ↦ rw other (route-get_locked t addr i v)
        ])

pub route-client_traffic :
    (t : Table) (addr : String) (now i : ℕ)
    → IsValid t
    → route (client_traffic t addr now) i ≡ route t i
unfolding client_traffic
route-client_traffic t addr now i v =
    addr_of-modify (get_locked t addr).1 _ (get_locked t addr).0.heap _ (λ y. refl)
    ∙ route-get_locked t addr i v

pub route-set_pub :
    (t : Table) (addr : String) (key : List ℕ) (i : ℕ)
    → IsValid t
    → route (set_pub t addr key) i ≡ route t i
unfolding set_pub
route-set_pub t addr key i v =
    addr_of-modify (get_locked t addr).1 _ (get_locked t addr).0.heap _ (λ y. refl)
    ∙ route-get_locked t addr i v

pub route-response_targets :
    (t : Table) (index : ℕ) (cands : List (List ℕ)) (need_pub : Bool) (now i : ℕ)
    → route (response_targets t index cands need_pub now).0 i ≡ route t i
unfolding response_targets
route-response_targets t index cands need_pub now i =
    elim (Option-cases (lookup index t.by_index)) [
      | inl e ↦ rw (e, response_targets) refl
      | inr (s, e) ↦ rw (e, response_targets) (addr_of-modify s _ t.heap _ (λ y. refl))
    ]
