-- ===== src/Proxy/Sessions.antt =====
-- internal/proxy/sessions.go. The two maps share their sessions, so a session lives on a heap and
-- the maps hold its place there. Every method runs under the table's mutex, so one method is one
-- step. Time is in nanoseconds from Go's zero time, and each method is given its `time.Now()`.
pub mod Invariant
pub mod Steps
pub mod Routing
pub mod Replies
pub mod Collection
use mathlib.Core.Option
use awg_proxy_go.Prelude.{
  ℕ, ◌+◌, ◌-◌, String, Bool, true, false, List, [], ◌∷◌, ◌++◌, Option, none, some, ltb,
  if◌then◌else◌, length, get_elem?, modify, replicate,
}
use awg_proxy_go.Prelude.Eq.{nat_eq, string_eq}
use awg_proxy_go.Prelude.Dict.{Dict, lookup, insert, delete}

pub record Session : Type 0 where
  pub addr : String
  pub client_index : ℕ
  pub pub_key : List ℕ
  pub pub_known : Bool
  pub last_seen : ℕ

pub record Table : Type 0 where
  pub heap : List Session
  pub by_addr : Dict String ℕ
  pub by_index : Dict ℕ ℕ
  pub ttl : ℕ

abbrev pub zero_key : List ℕ
zero_key = replicate 32 0

unfoldable pub new_table : ℕ → Table
new_table ttl = record { heap = []; by_addr = []; by_index = []; ttl = ttl }

abbrev pub fresh_session : String → Session
fresh_session addr = record {
  addr = addr;
  client_index = 0;
  pub_key = zero_key;
  pub_known = false;
  last_seen = 0;
}

-- The session of an address, made if it is new.
unfoldable pub get_locked : Table → String → Table × ℕ
unfolding lookup insert
get_locked t addr = elim (lookup addr t.by_addr) [
  | some s ↦ (t, s)
  | none ↦ (
    record t {
      heap = t.heap ++ fresh_session addr ∷ [];
      by_addr = insert addr (length t.heap) t.by_addr;
    },
    length t.heap,
  )
]

abbrev pub registered : ℕ → ℕ → Session → Session
registered index now x = record x { client_index = index; last_seen = now }

abbrev pub identified : List ℕ → Session → Session
identified key x = record x { pub_key = key; pub_known = true }

unfoldable pub client_init : Table → String → ℕ → ℕ → Table
unfolding get_locked
client_init t addr index now =
    let (t', s) = get_locked t addr in
    record t' {
      heap = modify s (registered index now) t'.heap;
      by_index = insert index s t'.by_index;
    }

unfoldable pub client_traffic : Table → String → ℕ → Table
unfolding get_locked
client_traffic t addr now =
    let (t', s) = get_locked t addr in
    record t' { heap = modify s (λ x. record x { last_seen = now }) t'.heap }

unfoldable pub set_pub : Table → String → List ℕ → Table
unfolding get_locked
set_pub t addr key =
    let (t', s) = get_locked t addr in record t' { heap = modify s (identified key) t'.heap }

-- The keys for the MAC1 of a reply.
unfoldable pub reply_keys : Session → List (List ℕ) → Bool → List (List ℕ)
reply_keys s cands false = zero_key ∷ []
reply_keys s cands true =
    if s.pub_known then s.pub_key ∷ [] else elim cands [ [] ↦ zero_key ∷ [] | c ∷ cs ↦ c ∷ cs ]

-- A place that is not on the heap does not occur: Sessions/Invariant.
unfoldable pub response_targets :
    Table → ℕ → List (List ℕ) → Bool → ℕ → Table × Option (String × List (List ℕ))
unfolding lookup reply_keys
response_targets t index cands need_pub now = elim (lookup index t.by_index) [
  | none ↦ (t, none)
  | some s ↦ (
    record t { heap = modify s (λ x. record x { last_seen = now }) t.heap },
    Option.map (λ x. (x.addr, reply_keys x cands need_pub)) (get_elem? t.heap s),
  )
]

abbrev pub is_expired : Table → Session → ℕ → Bool
is_expired t s now = ltb t.ttl (now - s.last_seen)

gc_entry : Table → ℕ → String → Option Session → Table
unfolding delete
gc_entry t now k none = t
gc_entry t now k (some s) =
    if is_expired t s now
    then record t { by_addr = delete k t.by_addr; by_index = delete s.client_index t.by_index }
    else t

-- `for k, s := range t.byAddr`, over the entries that the map has at the start: the body deletes
-- only the entry that it is at.
gc_loop : Dict String ℕ → Table → ℕ → Table
unfolding gc_entry
gc_loop [] t now = t
gc_loop ((k, s) ∷ rest) t now = gc_loop rest (gc_entry t now k (get_elem? t.heap s)) now

unfoldable pub gc : Table → ℕ → Table
unfolding gc_loop
gc t now = gc_loop t.by_addr t now
