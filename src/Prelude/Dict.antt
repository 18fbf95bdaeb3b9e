-- ===== src/Prelude/Dict.antt =====
-- Go's maps as association lists: a key has the value of its first entry.
use mathlib.Core.Path.{◌≡◌, refl}
use mathlib.Core.Logic.{◌≢◌, ◌⊎◌}
use mathlib.Core.List.{List, [], ◌∷◌}
use mathlib.Core.Option.{Option, none, some}
use native.Mathlib.Omega.{arith}
use awg_proxy_go.Prelude.Tests.{if◌then◌else◌}
use awg_proxy_go.Prelude.Eq.{Comparable, ◌==◌}

abbrev pub Dict {ℓ} : Type ℓ → Type ℓ → Type ℓ
Dict K V = List (K × V)

-- The first value that there is.
abbrev pub first_of {ℓ} : {A : Type ℓ} → Option A → Option A → Option A
first_of (some v) o = some v
first_of none o = o

module _ {ℓ} {K V : Type ℓ} ⦃e : Comparable K⦄ where
  unfoldable pub lookup : K → Dict K V → Option V
  lookup k [] = none
  lookup k ((j, v) ∷ es) = if j == k then some v else lookup k es

  -- m[k] = v
  unfoldable pub insert : K → V → Dict K V → Dict K V
  insert k v [] = (k, v) ∷ []
  insert k v ((j, w) ∷ es) = if j == k then (k, v) ∷ es else (j, w) ∷ insert k v es

  -- delete(m, k)
  unfoldable pub delete : K → Dict K V → Dict K V
  delete k [] = []
  delete k ((j, w) ∷ es) = if j == k then delete k es else (j, w) ∷ delete k es

  pub lookup-insert :
      (k j : K) (v : V) (es : Dict K V)
      → lookup j (insert k v es) ≡ (if k == j then some v else lookup j es)
  unfolding lookup insert
  lookup-insert k j v [] = refl
  lookup-insert k j v ((i, w) ∷ es) =
      ground (arith, e.equals_iff k j, e.equals_iff i k, e.equals_iff i j, lookup-insert k j v es)

  pub lookup-delete :
      (k j : K) (es : Dict K V) → lookup j (delete k es) ≡ (if k == j then none else lookup j es)
  unfolding lookup delete
  lookup-delete k j [] = ground arith
  lookup-delete k j ((i, w) ∷ es) =
      ground (arith, e.equals_iff k j, e.equals_iff i k, e.equals_iff i j, lookup-delete k j es)

  pub lookup-insert_self : (k : K) (v : V) (es : Dict K V) → lookup k (insert k v es) ≡ some v
  lookup-insert_self k v es = ground (arith, lookup-insert k k v es, e.equals_iff k k)

  pub lookup-insert_ne :
      (k j : K) (v : V) (es : Dict K V) → k ≢ j → lookup j (insert k v es) ≡ lookup j es
  lookup-insert_ne k j v es h = ground (arith, lookup-insert k j v es, e.equals_iff k j)

  -- Where an entry of a map with one more assignment comes from.
  pub insert_cases :
      (k j : K) (v w : V) (es : Dict K V)
      → lookup j (insert k v es) ≡ some w
      → ((k ≡ j) × (v ≡ w)) ⊎ (lookup j es ≡ some w)
  insert_cases k j v w es h = ground (arith, lookup-insert k j v es, e.equals_iff k j)

  pub lookup-delete_self : (k : K) (es : Dict K V) → lookup k (delete k es) ≡ none
  lookup-delete_self k es = ground (arith, lookup-delete k k es, e.equals_iff k k)

  pub delete_cases :
      (k j : K) (w : V) (es : Dict K V)
      → lookup j (delete k es) ≡ some w
      → (k ≢ j) × (lookup j es ≡ some w)
  delete_cases k j w es h = (
    (λ same. ground (arith, lookup-delete k j es, e.equals_iff k j)),
    ground (arith, lookup-delete k j es, e.equals_iff k j),
  )

  pub lookup-delete_ne : (k j : K) (es : Dict K V) → k ≢ j → lookup j (delete k es) ≡ lookup j es
  lookup-delete_ne k j es h = ground (arith, lookup-delete k j es, e.equals_iff k j)

  -- Each key stands once, as in a map.
  abbrev pub Distinct : Dict K V → Type ℓ
  Distinct [] = Unit
  Distinct ((k, v) ∷ es) = (lookup k es ≡ none) × Distinct es

  pub Distinct-insert : (k : K) (v : V) (es : Dict K V) → Distinct es → Distinct (insert k v es)
  unfolding lookup insert
  Distinct-insert k v [] d = (refl, tt)
  Distinct-insert k v ((j, w) ∷ es) d = ground (
    arith,
    e.equals_iff j k,
    Distinct-insert k v es d.1,
    lookup-insert k j v es,
    e.equals_iff k j,
  )

  pub Distinct-delete : (k : K) (es : Dict K V) → Distinct es → Distinct (delete k es)
  unfolding lookup delete
  Distinct-delete k [] d = tt
  Distinct-delete k ((j, w) ∷ es) d =
      ground
        (arith, e.equals_iff j k, Distinct-delete k es d.1, lookup-delete k j es, e.equals_iff k j)

  pub lookup-cons_head : (k : K) (v : V) (es : Dict K V) → lookup k ((k, v) ∷ es) ≡ some v
  unfolding lookup
  lookup-cons_head k v es = ground (arith, e.equals_iff k k)

  pub lookup-cons_tail :
      (k j : K) (v w : V) (es : Dict K V)
      → lookup j es ≡ none
      → lookup k es ≡ some w
      → lookup k ((j, v) ∷ es) ≡ some w
  unfolding lookup
  lookup-cons_tail k j v w es absent h = ground (arith, e.equals_iff j k)

  pub first_of-insert :
      (k j : K) (v : V) (es later : Dict K V)
      → lookup k es ≡ none
      → first_of (lookup j es) (lookup j (insert k v later))
        ≡ first_of (lookup j ((k, v) ∷ es)) (lookup j later)
  unfolding lookup
  first_of-insert k j v es later h = ground (arith, lookup-insert k j v later, e.equals_iff k j)
