-- ===== src/Proxy/Sessions/Invariant.antt =====
-- sessions.go: the maps point to sessions that exist.
use awg_proxy_go.Prelude.{
  ℕ, ◌≡◌, refl, ◌∙◌, inl, inr, String, Bool, List, [], ◌∷◌, ◌++◌, Option, none, some, Bool-cases,
  Option-cases, length, get_elem?, modify, get_elem?-modify_self, get_elem?-modify_ne,
  get_elem?-append_left, get_elem?-append_end, ℕ_discrete,
}
use awg_proxy_go.Prelude.Eq.{nat_eq, string_eq}
use awg_proxy_go.Prelude.Dict.{
  Dict, lookup, insert, delete, Distinct, Distinct-insert, Distinct-delete, insert_cases,
  delete_cases, lookup-insert_self,
}
use awg_proxy_go.Proxy.Sessions.{
  Session, Table, fresh_session, new_table, get_locked, client_init, client_traffic, set_pub,
  response_targets, gc_entry, gc_loop, gc, is_expired,
}

-- An address stands once and has a session that carries it, an index has some session.
pub record IsValid (t : Table) : Type 0 where
  pub distinct : Distinct t.by_addr
  pub at_addr :
      (k : String) (s : ℕ)
      → lookup k t.by_addr ≡ some s
      → (x : Session) × (get_elem? t.heap s ≡ some x) × (x.addr ≡ k)
  pub at_index :
      (i s : ℕ) → lookup i t.by_index ≡ some s → (x : Session) × (get_elem? t.heap s ≡ some x)

pub new_table-IsValid : (ttl : ℕ) → IsValid (new_table ttl)
unfolding new_table lookup
new_table-IsValid ttl = record { distinct = tt; at_addr = λ k s e. cc; at_index = λ i s e. cc }

-- A write to a session that keeps its address.
get_elem?-modify :
    (s j : ℕ) (f : Session → Session) (heap : List Session) (x : Session)
    → ((y : Session) → (f y).addr ≡ y.addr)
    → get_elem? heap j ≡ some x
    → (y : Session) × (get_elem? (modify s f heap) j ≡ some y) × (y.addr ≡ x.addr)
get_elem?-modify s j f heap x keeps e = elim (ℕ_discrete s j) [
  | yes same ↦ (f x, rw (← same) (get_elem?-modify_self s f heap (rw same e)), keeps x)
  | no other ↦ (x, get_elem?-modify_ne s j f heap other ∙ e, refl)
]

modify-IsValid :
    (t : Table) (s : ℕ) (f : Session → Session)
    → ((y : Session) → (f y).addr ≡ y.addr)
    → IsValid t
    → IsValid (record t { heap = modify s f t.heap })
modify-IsValid t s f keeps v = record {
  distinct = v.distinct;
  at_addr = λ k j e.
      let (x, at, named) = v.at_addr k j e in
      let (y, at', kept) = get_elem?-modify s j f t.heap x keeps at in (y, at', kept ∙ named);
  at_index = λ i j e.
      let (x, at) = v.at_index i j e in
      let (y, at', _) = get_elem?-modify s j f t.heap x keeps at in (y, at');
}

pub get_locked_known :
    (t : Table) (addr : String) (s : ℕ)
    → lookup addr t.by_addr ≡ some s
    → get_locked t addr ≡ (t, s)
unfolding get_locked
get_locked_known t addr s e = rw (e, get_locked)

abbrev pub with_fresh : Table → String → Table
with_fresh t addr = record t {
  heap = t.heap ++ fresh_session addr ∷ [];
  by_addr = insert addr (length t.heap) t.by_addr;
}

pub get_locked_new :
    (t : Table) (addr : String)
    → lookup addr t.by_addr ≡ none
    → get_locked t addr ≡ (with_fresh t addr, length t.heap)
unfolding get_locked
get_locked_new t addr e = rw (e, get_locked)

with_fresh-IsValid : (t : Table) (addr : String) → IsValid t → IsValid (with_fresh t addr)
with_fresh-IsValid t addr v = record {
  distinct = Distinct-insert addr (length t.heap) t.by_addr v.distinct;
  at_addr = λ k j e. elim (insert_cases addr k (length t.heap) j t.by_addr e) [
    | inl (same, here) ↦
        (fresh_session addr, rw (← here) (get_elem?-append_end t.heap (fresh_session addr)), same)
    | inr old ↦
        let (x, at, named) = v.at_addr k j old in (x, get_elem?-append_left t.heap _ j at, named)
  ];
  at_index = λ i j e. let (x, at) = v.at_index i j e in (x, get_elem?-append_left t.heap _ j at);
}

pub get_locked_lem :
    (t : Table) (addr : String)
    → IsValid t
    → IsValid (get_locked t addr).0
      × (lookup addr (get_locked t addr).0.by_addr ≡ some (get_locked t addr).1)
get_locked_lem t addr v = elim (Option-cases (lookup addr t.by_addr)) [
  | inl e ↦
      rw (get_locked_new t addr e)
        (with_fresh-IsValid t addr v, lookup-insert_self addr (length t.heap) t.by_addr)
  | inr (s, e) ↦ rw (get_locked_known t addr s e) (v, e)
]

insert_index-IsValid :
    (t : Table) (index s : ℕ) (x : Session)
    → get_elem? t.heap s ≡ some x
    → IsValid t
    → IsValid (record t { by_index = insert index s t.by_index })
insert_index-IsValid t index s x at v = record {
  distinct = v.distinct;
  at_addr = v.at_addr;
  at_index = λ i j e. elim (insert_cases index i s j t.by_index e) [
    | inl (_, here) ↦ (x, rw (← here) at)
    | inr old ↦ v.at_index i j old
  ];
}

pub client_init-IsValid :
    (t : Table) (addr : String) (index now : ℕ) → IsValid t → IsValid (client_init t addr index now)
unfolding client_init
client_init-IsValid t addr index now v =
    let (v', at) = get_locked_lem t addr v in
    let (x, there, _) = v'.at_addr addr (get_locked t addr).1 at in
    modify-IsValid _ (get_locked t addr).1 _ (λ y. refl)
      (insert_index-IsValid (get_locked t addr).0 index (get_locked t addr).1 x there v')

pub client_traffic-IsValid :
    (t : Table) (addr : String) (now : ℕ) → IsValid t → IsValid (client_traffic t addr now)
unfolding client_traffic
client_traffic-IsValid t addr now v =
    modify-IsValid _ (get_locked t addr).1 _ (λ y. refl) (get_locked_lem t addr v).0

pub set_pub-IsValid :
    (t : Table) (addr : String) (key : List ℕ) → IsValid t → IsValid (set_pub t addr key)
unfolding set_pub
set_pub-IsValid t addr key v =
    modify-IsValid _ (get_locked t addr).1 _ (λ y. refl) (get_locked_lem t addr v).0

pub response_targets-IsValid :
    (t : Table) (index : ℕ) (cands : List (List ℕ)) (need_pub : Bool) (now : ℕ)
    → IsValid t
    → IsValid (response_targets t index cands need_pub now).0
unfolding response_targets
response_targets-IsValid t index cands need_pub now v =
    elim (Option-cases (lookup index t.by_index)) [
      | inl e ↦ rw (e, response_targets) v
      | inr (s, e) ↦ rw (e, response_targets) (modify-IsValid t s _ (λ y. refl) v)
    ]

deleted-IsValid :
    (t : Table) (k : String) (i : ℕ)
    → IsValid t
    → IsValid (record t { by_addr = delete k t.by_addr; by_index = delete i t.by_index })
deleted-IsValid t k i v = record {
  distinct = Distinct-delete k t.by_addr v.distinct;
  at_addr = λ j s e. v.at_addr j s (delete_cases k j s t.by_addr e).1;
  at_index = λ j s e. v.at_index j s (delete_cases i j s t.by_index e).1;
}

gc_entry-IsValid :
    (t : Table) (now : ℕ) (k : String) (s : Option Session)
    → IsValid t
    → IsValid (gc_entry t now k s)
unfolding gc_entry
gc_entry-IsValid t now k none v = v
gc_entry-IsValid t now k (some s) v = elim (Bool-cases (is_expired t s now)) [
  | inl old ↦ rw old (deleted-IsValid t k s.client_index v)
  | inr live ↦ rw live v
]

gc_loop-IsValid :
    (entries : Dict String ℕ) (t : Table) (now : ℕ) → IsValid t → IsValid (gc_loop entries t now)
unfolding gc_loop
gc_loop-IsValid [] t now v = v
gc_loop-IsValid ((k, s) ∷ rest) t now v =
    gc_loop-IsValid rest _ now (gc_entry-IsValid t now k (get_elem? t.heap s) v)

pub gc-IsValid : (t : Table) (now : ℕ) → IsValid t → IsValid (gc t now)
unfolding gc
gc-IsValid t now v = gc_loop-IsValid t.by_addr t now v
