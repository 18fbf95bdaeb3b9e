-- ===== src/Tests/Tables.antt =====
-- Routers for the tests, which obey the laws of Router.Table.
use awg_proxy_go.Prelude.{
  ◌≡◌, refl, Bool, true, false, not, String, List, [], ◌∷◌, ◌++◌, none, some, arith,
}
use awg_proxy_go.Prelude.Eq.{◌==◌, string_eq}
use awg_proxy_go.Prelude.Dict.{lookup, Distinct}
use awg_proxy_go.Router.Api.{Row, Api, value}
use awg_proxy_go.Router.Table.{without, updated, Agrees, TableLaws}
use awg_proxy_go.Router.Nat.Reconcile.Untouched.{Keeps}
use awg_proxy_go.Service.Hooks.Tables.{path_of}

-- A router with one table, whatever the path.
abbrev pub table : Api (List Row)
table = record {
  print = λ rs _. (rs, some rs);
  add = λ rs _ kv. (rs ++ ((".id", "*9") ∷ kv) ∷ [], some "*9");
  set = λ rs _ id kv. (updated id kv rs, true);
  remove = λ rs _ id. (without id rs, true);
}

value-some : (k v : String) (x : Row) → lookup k x ≡ some v → value k x ≡ v
unfolding value
value-some k v x e = rw (value, e) refl

lookup-behind :
    (j w k v : String) (es : Row)
    → lookup j es ≡ none
    → lookup k es ≡ some v
    → lookup k ((j, w) ∷ es) ≡ some v
unfolding lookup
lookup-behind j w k v es absent e = ground (arith, string_eq.equals_iff j k, absent, e)

lookup-front : (k v : String) (es : Row) → lookup k ((k, v) ∷ es) ≡ some v
unfolding lookup
lookup-front k v es = ground (arith, string_eq.equals_iff k k)

Agrees-lookups :
    (x es : Row)
    → Distinct es
    → ((k v : String) → lookup k es ≡ some v → lookup k x ≡ some v)
    → Agrees x es
Agrees-lookups x [] d h = tt
Agrees-lookups x ((j, w) ∷ es) d h = (
  value-some j w x (h j w (lookup-front j w es)),
  Agrees-lookups x es d.1 (λ k v e. h k v (lookup-behind j w k v es d.0 e)),
)

Agrees-new :
    (id : String) (kv : Row) → Distinct kv → lookup ".id" kv ≡ none → Agrees ((".id", id) ∷ kv) kv
Agrees-new id kv d h =
    Agrees-lookups ((".id", id) ∷ kv) kv d (λ k v e. lookup-behind ".id" id k v kv h e)

value-id : (id : String) (kv : Row) → value ".id" ((".id", id) ∷ kv) ≡ id
value-id id kv = value-some ".id" id ((".id", id) ∷ kv) (lookup-front ".id" id kv)

pub table_laws : (path : String) → TableLaws table path (λ rs. rs)
table_laws path = record {
  prints = λ r. refl;
  removes = λ r id h. refl;
  removes_one = λ r id. refl;
  sets = λ r id kv h f. refl;
  sets_one = λ r id kv f. refl;
  adds = λ r kv d h f.
      ("*9", (".id", "*9") ∷ kv, refl, refl, value-id "*9" kv, Agrees-new "*9" kv d h);
}

-- A router with two NAT tables.
pub record Tables : Type 0 where
  pub ip4 : List Row
  pub ip6 : List Row

abbrev pub rows_of : Bool → Tables → List Row
rows_of true t = t.ip6
rows_of false t = t.ip4

abbrev change : Bool → (List Row → List Row) → Tables → Tables
change true f t = record t { ip6 = f t.ip6 }
change false f t = record t { ip4 = f t.ip4 }

abbrev is_v6 : String → Bool
is_v6 path = path == "/ipv6/firewall/nat"

abbrev pub tables : Api Tables
tables = record {
  print = λ t path. (t, some (rows_of (is_v6 path) t));
  add = λ t path kv. (change (is_v6 path) (λ rs. rs ++ ((".id", "*9") ∷ kv) ∷ []) t, some "*9");
  set = λ t path id kv. (change (is_v6 path) (updated id kv) t, true);
  remove = λ t path id. (change (is_v6 path) (without id) t, true);
}

pub tables_laws : (v6 : Bool) → TableLaws tables (path_of v6) (rows_of v6)
tables_laws true = record {
  prints = λ r. refl;
  removes = λ r id h. refl;
  removes_one = λ r id. refl;
  sets = λ r id kv h f. refl;
  sets_one = λ r id kv f. refl;
  adds = λ r kv d h f.
      ("*9", (".id", "*9") ∷ kv, refl, refl, value-id "*9" kv, Agrees-new "*9" kv d h);
}
tables_laws false = record {
  prints = λ r. refl;
  removes = λ r id h. refl;
  removes_one = λ r id. refl;
  sets = λ r id kv h f. refl;
  sets_one = λ r id kv f. refl;
  adds = λ r kv d h f.
      ("*9", (".id", "*9") ∷ kv, refl, refl, value-id "*9" kv, Agrees-new "*9" kv d h);
}

pub tables_apart : (v6 : Bool) → Keeps tables (path_of v6) (rows_of (not v6))
tables_apart true = record {
  print_keeps = λ r. refl;
  add_keeps = λ r kv. refl;
  set_keeps = λ r id kv. refl;
  remove_keeps = λ r id. refl;
}
tables_apart false = record {
  print_keeps = λ r. refl;
  add_keeps = λ r kv. refl;
  set_keeps = λ r id kv. refl;
  remove_keeps = λ r id. refl;
}
