-- ===== src/Router/Table.antt =====
-- What RouterOS does with the records of a path, as far as the program relies on it: the laws of the
-- operations of Router.Api. A record has an id of its own.
use awg_proxy_go.Prelude.{
  ◌≡◌, ◌≢◌, refl, Bool, true, false, ◌||◌, String, List, [], ◌∷◌, ◌++◌, none, some, All,
  if◌then◌else◌, arith,
}
use awg_proxy_go.Prelude.Eq.{◌==◌, string_eq}
use awg_proxy_go.Prelude.Dict.{lookup, insert, Distinct}
use awg_proxy_go.Router.Api.{Row, Api, value}

-- The table without the record of an id.
abbrev pub without : String → List Row → List Row
without id [] = []
without id (x ∷ rows) = let rest = without id rows in if value ".id" x == id then rest else x ∷ rest

-- The record with the new values of some fields.
abbrev pub merged : Row → Row → Row
merged [] x = x
merged ((k, v) ∷ kv) x = insert k v (merged kv x)

-- The table after such a change of the record of an id.
abbrev pub updated : String → Row → List Row → List Row
updated id kv [] = []
updated id kv (x ∷ rows) =
    let rest = updated id kv rows in if value ".id" x == id then merged kv x ∷ rest else x ∷ rest

abbrev pub has_id : String → List Row → Bool
has_id id [] = false
has_id id (x ∷ rows) = value ".id" x == id || has_id id rows

abbrev pub IsFresh : String → List Row → Type 0
IsFresh id = All (λ x. value ".id" x ≢ id)

abbrev pub IsUnique : List Row → Type 0
IsUnique [] = Unit
IsUnique (x ∷ rows) = IsFresh (value ".id" x) rows × IsUnique rows

-- Every wanted field has its wanted value.
abbrev pub Agrees : Row → Row → Type 0
Agrees cur [] = Unit
Agrees cur ((k, v) ∷ want) = (value k cur ≡ v) × Agrees cur want

-- The fields that RouterOS takes as integers: it refuses an empty one.
abbrev pub is_number : String → Bool
is_number k = k == "endpoint-port" || k == "persistent-keepalive"

abbrev pub IsFilled : Row → Type 0
IsFilled = All (λ kv. is_number kv.0 ≡ true → kv.1 ≢ "")

pub Agrees-lookup :
    (x want : Row) (k v : String) → Agrees x want → lookup k want ≡ some v → value k x ≡ v
unfolding lookup
Agrees-lookup x [] k v a h = cc
Agrees-lookup x ((j, w) ∷ want) k v a h =
    ground (arith, string_eq.equals_iff j k, a.0, h, Agrees-lookup x want k v a.1)

pub without-IsFresh : (id : String) (rows : List Row) → IsFresh id rows → without id rows ≡ rows
without-IsFresh id [] h = refl
without-IsFresh id (x ∷ rows) h =
    ground (arith, string_eq.equals_iff (value ".id" x) id, without-IsFresh id rows h.1)

pub updated-IsFresh :
    (id : String) (kv : Row) (rows : List Row) → IsFresh id rows → updated id kv rows ≡ rows
updated-IsFresh id kv [] h = refl
updated-IsFresh id kv (x ∷ rows) h =
    ground (arith, string_eq.equals_iff (value ".id" x) id, updated-IsFresh id kv rows h.1)

-- `print` gives the records; `remove` takes the record of an id out, `set` changes it, and both
-- succeed where there is one; `add` puts a record with the given fields behind the others. Of `set`
-- and `add` nothing is known where an integer field is empty.
pub record TableLaws {R : Type 0} (api : Api R) (path : String) (rows : R → List Row) : Type 0 where
  pub prints : (r : R) → api.print r path ≡ (r, some (rows r))
  pub removes : (r : R) (id : String) → has_id id (rows r) ≡ true → (api.remove r path id).1 ≡ true
  pub removes_one : (r : R) (id : String) → rows (api.remove r path id).0 ≡ without id (rows r)
  pub sets :
      (r : R) (id : String) (kv : Row)
      → has_id id (rows r) ≡ true
      → IsFilled kv
      → (api.set r path id kv).1 ≡ true
  pub sets_one :
      (r : R) (id : String) (kv : Row)
      → IsFilled kv
      → rows (api.set r path id kv).0 ≡ updated id kv (rows r)
  pub adds :
      (r : R) (kv : Row)
      → Distinct kv
      → lookup ".id" kv ≡ none
      → IsFilled kv
      → (id : String) × (x : Row) × ((api.add r path kv).1 ≡ some id)
        × (rows (api.add r path kv).0 ≡ rows r ++ x ∷ [])
        × (value ".id" x ≡ id)
        × Agrees x kv
