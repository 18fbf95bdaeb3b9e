-- ===== src/Prelude/Eq.antt =====
-- Types whose values Go compares by `==`.
use Prim.Native.Nat.{ℕ}
use Prim.Native.String.{String}
use mathlib.Core.Path.{◌≡◌, refl}
use mathlib.Core.Logic.{◌↔◌, ◌≢◌, ◌⊎◌, inl, inr}
use mathlib.Core.Bool.{Bool, true, false, ◌&&◌}
use mathlib.Core.List.{List, [], ◌∷◌}
use native.Mathlib.Omega.{arith}
use text.Mathlib.Text.{◌==◌ as str_beq}
use text.Mathlib.TextEquality.{eq_iff}
use awg_proxy_go.Prelude.Tests.{◌==◌ as nat_beq, ==_iff, Bool-cases}

pub record Comparable {ℓ} (A : Type ℓ) : Type ℓ where
  pub equals : A → A → Bool
  pub equals_iff : (a b : A) → (equals a b ≡ true) ↔ (a ≡ b)

infix 50 ◌==◌
abbrev pub ◌==◌ {ℓ} : {A : Type ℓ} ⦃e : Comparable A⦄ → A → A → Bool
◌==◌ ⦃e⦄ = e.equals

-- Values that `==` tells apart are different.
pub equals-ne {ℓ} : {A : Type ℓ} ⦃e : Comparable A⦄ (a b : A) → (a == b) ≡ false → a ≢ b
equals-ne ⦃e⦄ a b apart same = cc ((e.equals_iff a b).1 same, apart)

pub ne-equals {ℓ} : {A : Type ℓ} ⦃e : Comparable A⦄ (a b : A) → a ≢ b → (a == b) ≡ false
ne-equals ⦃e⦄ a b apart = elim (Bool-cases (e.equals a b)) [
  | inl same ↦ absurd (apart ((e.equals_iff a b).0 same))
  | inr other ↦ other
]

pub equals-cases {ℓ} : {A : Type ℓ} ⦃e : Comparable A⦄ (a b : A) → (a ≡ b) ⊎ (a ≢ b)
equals-cases ⦃e⦄ a b = elim (Bool-cases (e.equals a b)) [
  | inl same ↦ inl ((e.equals_iff a b).0 same)
  | inr other ↦ inr (equals-ne a b other)
]

abbrev pub list_beq {ℓ} : {A : Type ℓ} ⦃e : Comparable A⦄ → List A → List A → Bool
list_beq [] [] = true
list_beq [] (y ∷ ys) = false
list_beq (x ∷ xs) [] = false
list_beq (x ∷ xs) (y ∷ ys) = x == y && list_beq xs ys

pub list_equals_iff {ℓ} :
    {A : Type ℓ} ⦃e : Comparable A⦄ (xs ys : List A) → (list_beq xs ys ≡ true) ↔ (xs ≡ ys)
list_equals_iff [] [] = ((λ h. refl), (λ h. refl))
list_equals_iff [] (y ∷ ys) = ((λ h. cc), (λ h. cc))
list_equals_iff (x ∷ xs) [] = ((λ h. cc), (λ h. cc))
list_equals_iff ⦃e⦄ (x ∷ xs) (y ∷ ys) = ground (arith, e.equals_iff x y, list_equals_iff xs ys)

instance abbrev pub nat_eq : Comparable ℕ
nat_eq = record { equals = nat_beq; equals_iff = ==_iff }

instance abbrev pub string_eq : Comparable String
string_eq = record { equals = str_beq; equals_iff = eq_iff }

instance abbrev pub list_eq {ℓ} : {A : Type ℓ} ⦃e : Comparable A⦄ → Comparable (List A)
list_eq = record { equals = list_beq; equals_iff = list_equals_iff }
