-- ===== src/Proxy/Sessions/Collection.antt =====
-- sessions.go: what `gc` removes.
use awg_proxy_go.Prelude.{
  ℕ, ◌-◌, ◌≤◌, ◌<◌, ◌≡◌, refl, ◌∙◌, ◌≢◌, String, Bool, true, false, ◌&&◌, ◌||◌, List, [], ◌∷◌,
  Option, none, some, ltb, leb, if◌then◌else◌, get_elem?, arith,
}
use awg_proxy_go.Prelude.Eq.{◌==◌, nat_eq, string_eq}
use awg_proxy_go.Prelude.Dict.{
  Dict, lookup, Distinct, lookup-delete, lookup-cons_head, lookup-cons_tail,
}
use awg_proxy_go.Proxy.Sessions.{Session, Table, gc_entry, gc_loop, gc}
use awg_proxy_go.Proxy.Sessions.Invariant.{IsValid}
use awg_proxy_go.Proxy.Sessions.Routing.{route}

-- The session at a place is one that `gc` finds too old.
abbrev pub old_at : List Session → ℕ → ℕ → Option Session → Bool
old_at heap ttl now none = false
old_at heap ttl now (some x) = ltb ttl (now - x.last_seen)

abbrev has_index : Option Session → ℕ → Bool
has_index none i = false
has_index (some x) i = x.client_index == i

-- One of the entries has the key `k` and is too old.
drops_addr : List Session → ℕ → ℕ → String → Dict String ℕ → Bool
drops_addr heap ttl now k [] = false
drops_addr heap ttl now k ((j, s) ∷ rest) =
    (j == k && old_at heap ttl now (get_elem? heap s)) || drops_addr heap ttl now k rest

-- One of the entries has a session with the index `i` and is too old.
drops_index : List Session → ℕ → ℕ → ℕ → Dict String ℕ → Bool
drops_index heap ttl now i [] = false
drops_index heap ttl now i ((j, s) ∷ rest) =
    (has_index (get_elem? heap s) i && old_at heap ttl now (get_elem? heap s))
    || drops_index heap ttl now i rest

gc_entry_same :
    (t : Table) (now : ℕ) (k : String) (o : Option Session)
    → ((gc_entry t now k o).heap ≡ t.heap) × ((gc_entry t now k o).ttl ≡ t.ttl)
unfolding gc_entry
gc_entry_same t now k o = ground arith

gc_entry_addr :
    (t : Table) (now : ℕ) (j k : String) (o : Option Session)
    → lookup k (gc_entry t now j o).by_addr
      ≡ (if j == k && old_at t.heap t.ttl now o then none else lookup k t.by_addr)
unfolding gc_entry
gc_entry_addr t now j k o = ground (arith, lookup-delete j k t.by_addr)

gc_entry_index :
    (t : Table) (now : ℕ) (j : String) (i : ℕ) (o : Option Session)
    → lookup i (gc_entry t now j o).by_index
      ≡ (if has_index o i && old_at t.heap t.ttl now o then none else lookup i t.by_index)
unfolding gc_entry
gc_entry_index t now j i none = refl
gc_entry_index t now j i (some x) = ground (arith, lookup-delete x.client_index i t.by_index)

gc_loop_addr :
    (es : Dict String ℕ) (t : Table) (now : ℕ) (k : String)
    → lookup k (gc_loop es t now).by_addr
      ≡ (if drops_addr t.heap t.ttl now k es then none else lookup k t.by_addr)
unfolding gc_loop drops_addr
gc_loop_addr [] t now k = refl
gc_loop_addr ((j, s) ∷ rest) t now k = ground (
  arith,
  gc_loop_addr rest (gc_entry t now j (get_elem? t.heap s)) now k,
  gc_entry_same t now j (get_elem? t.heap s),
  gc_entry_addr t now j k (get_elem? t.heap s),
)

gc_loop_index :
    (es : Dict String ℕ) (t : Table) (now i : ℕ)
    → lookup i (gc_loop es t now).by_index
      ≡ (if drops_index t.heap t.ttl now i es then none else lookup i t.by_index)
unfolding gc_loop drops_index
gc_loop_index [] t now i = refl
gc_loop_index ((j, s) ∷ rest) t now i = ground (
  arith,
  gc_loop_index rest (gc_entry t now j (get_elem? t.heap s)) now i,
  gc_entry_same t now j (get_elem? t.heap s),
  gc_entry_index t now j i (get_elem? t.heap s),
)

drops_addr_absent :
    (heap : List Session) (ttl now : ℕ) (k : String) (es : Dict String ℕ)
    → lookup k es ≡ none
    → drops_addr heap ttl now k es ≡ false
unfolding drops_addr lookup
drops_addr_absent heap ttl now k [] e = refl
drops_addr_absent heap ttl now k ((j, s) ∷ rest) e =
    ground (arith, drops_addr_absent heap ttl now k rest)

drops_addr_known :
    (heap : List Session) (ttl now : ℕ) (k : String) (es : Dict String ℕ) (s : ℕ)
    → Distinct es
    → lookup k es ≡ some s
    → drops_addr heap ttl now k es ≡ old_at heap ttl now (get_elem? heap s)
unfolding drops_addr lookup
drops_addr_known heap ttl now k [] s d e = cc
drops_addr_known heap ttl now k ((j, r) ∷ rest) s d e = ground (
  arith,
  drops_addr_known heap ttl now k rest s d.1,
  drops_addr_absent heap ttl now k rest,
  string_eq.equals_iff j k,
)

drops_index_known :
    (heap : List Session) (ttl now i : ℕ) (es : Dict String ℕ) (k : String) (s : ℕ) (x : Session)
    → lookup k es ≡ some s
    → get_elem? heap s ≡ some x
    → x.client_index ≡ i
    → ttl < now - x.last_seen
    → drops_index heap ttl now i es ≡ true
unfolding drops_index lookup
drops_index_known heap ttl now i [] k s x e at own old = cc
drops_index_known heap ttl now i ((j, r) ∷ rest) k s x e at own old =
    ground (arith, drops_index_known heap ttl now i rest k s x)

drops_index_fresh :
    (heap : List Session) (ttl now i : ℕ) (es : Dict String ℕ)
    → Distinct es
    → ((k : String) (s : ℕ) (x : Session)
        → lookup k es ≡ some s
        → get_elem? heap s ≡ some x
        → x.client_index ≡ i
        → now - x.last_seen ≤ ttl)
    → drops_index heap ttl now i es ≡ false
unfolding drops_index
drops_index_fresh heap ttl now i [] d h = refl
drops_index_fresh heap ttl now i ((j, r) ∷ rest) d h = ground (
  arith,
  head (get_elem? heap r) refl,
  drops_index_fresh heap ttl now i rest d.1
      (λ k s x e. h k s x (lookup-cons_tail k j r s rest d.0 e)),
)
  where
    head :
        (o : Option Session)
        → get_elem? heap r ≡ o
        → (has_index o i && old_at heap ttl now o) ≡ false
    head none at = refl
    head (some x) at = ground (arith, h j r x (lookup-cons_head j r rest) at)

-- In a valid table, of an address with a session `gc` keeps the entry if the session was seen within the last `ttl`,
-- and removes it otherwise.
pub gc-by_addr :
    (t : Table) (now : ℕ) (k : String) (s : ℕ) (x : Session)
    → IsValid t
    → lookup k t.by_addr ≡ some s
    → get_elem? t.heap s ≡ some x
    → lookup k (gc t now).by_addr ≡ (if leb (now - x.last_seen) t.ttl then some s else none)
unfolding gc
gc-by_addr t now k s x v e at = ground (
  arith,
  gc_loop_addr t.by_addr t now k,
  drops_addr_known t.heap t.ttl now k t.by_addr s v.distinct e,
)

-- In a valid table an index stays as it is, routed or not, if each session of the table that has this index was
-- seen within the last `ttl`.
pub gc-by_index_kept :
    (t : Table) (now i : ℕ)
    → IsValid t
    → ((k : String) (s : ℕ) (x : Session)
        → lookup k t.by_addr ≡ some s
        → get_elem? t.heap s ≡ some x
        → x.client_index ≡ i
        → now - x.last_seen ≤ t.ttl)
    → lookup i (gc t now).by_index ≡ lookup i t.by_index
unfolding gc
gc-by_index_kept t now i v h = ground (
  arith,
  gc_loop_index t.by_addr t now i,
  drops_index_fresh t.heap t.ttl now i t.by_addr v.distinct h,
)

gc-by_index_lost :
    (t : Table) (now i : ℕ) (k : String) (s : ℕ) (x : Session)
    → lookup k t.by_addr ≡ some s
    → get_elem? t.heap s ≡ some x
    → x.client_index ≡ i
    → t.ttl < now - x.last_seen
    → lookup i (gc t now).by_index ≡ none
unfolding gc
gc-by_index_lost t now i k s x e at own old = ground (
  arith,
  gc_loop_index t.by_addr t now i,
  drops_index_known t.heap t.ttl now i t.by_addr k s x e at own old,
)

-- In a valid table two clients have chosen the same sender index, the session of the one, `k`, is too old, and the
-- other, `j`, was seen within the last `ttl`. Then `gc` takes the route of the index away although
-- the session of `j` stays in the table: replies to `j` are dropped until its next initiation.
pub gc_unroutes_live :
    (t : Table) (now i : ℕ) (k j : String) (s r : ℕ) (x y : Session)
    → IsValid t
    → lookup k t.by_addr ≡ some s
    → get_elem? t.heap s ≡ some x
    → x.client_index ≡ i
    → t.ttl < now - x.last_seen
    → lookup j t.by_addr ≡ some r
    → get_elem? t.heap r ≡ some y
    → lookup i t.by_index ≡ some r
    → now - y.last_seen ≤ t.ttl
    → (lookup j (gc t now).by_addr ≡ some r) × (lookup i (gc t now).by_index ≡ none)
gc_unroutes_live t now i k j s r x y v ek ax own old ej ay routed live =
    (ground (arith, gc-by_addr t now j r y v ej ay), gc-by_index_lost t now i k s x ek ax own old)

gc_loop_heap : (es : Dict String ℕ) (t : Table) (now : ℕ) → (gc_loop es t now).heap ≡ t.heap
unfolding gc_loop
gc_loop_heap [] t now = refl
gc_loop_heap ((j, s) ∷ rest) t now =
    gc_loop_heap rest _ now ∙ (gc_entry_same t now j (get_elem? t.heap s)).0

-- In a valid table an index that no session has any more, such as the one of a client's last but one
-- initiation, keeps its route through every `gc`, however late: its entry is never freed.
pub gc_keeps_orphan :
    (t : Table) (now i : ℕ)
    → IsValid t
    → ((k : String) (s : ℕ) (x : Session)
        → lookup k t.by_addr ≡ some s
        → get_elem? t.heap s ≡ some x
        → x.client_index ≢ i)
    → (lookup i (gc t now).by_index ≡ lookup i t.by_index) × (route (gc t now) i ≡ route t i)
gc_keeps_orphan t now i v orphan =
    let kept = gc-by_index_kept t now i v (λ k s x e at own. absurd (orphan k s x e at own)) in
    (kept, rw kept (unfold gc in rw (gc_loop_heap t.by_addr t now) refl))
