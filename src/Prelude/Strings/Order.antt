-- ===== src/Prelude/Strings/Order.antt =====
-- The order of Go's strings.
use Prim.Native.Char.{Char, code}
use Prim.Native.Nat.{Ordering, compare as compare_ℕ}
use Prim.Native.String
use Prim.Native.String.{String, then}
use Prim.Native.String.compare
use mathlib.Core.Path.{◌≡◌}
use mathlib.Core.Bool.{true, false}
use native.Mathlib.Omega.{arith}
use awg_proxy_go.Prelude.Strings.{precedes}

cons_lt :
    (c d : Char) (s t : String)
    → String.compare (String.◌∷◌ c s) (String.◌∷◌ d t)
      ≡ then (compare_ℕ (code c) (code d)) (String.compare s t)
cons_lt c d s t = compare.cons-cons c d s t

nil_cons : (d : Char) (t : String) → String.compare "" (String.◌∷◌ d t) ≡ Ordering.lt
nil_cons d t = compare.nil-cons d t

cons_nil : (d : Char) (t : String) → String.compare (String.◌∷◌ d t) "" ≡ Ordering.gt
cons_nil d t = compare.cons-nil d t

nil_nil : String.compare "" "" ≡ Ordering.eq
nil_nil = compare.nil-nil

compare_trans :
    (a b c : String)
    → String.compare a b ≡ Ordering.lt
    → String.compare b c ≡ Ordering.lt
    → String.compare a c ≡ Ordering.lt
compare_trans String.[] String.[] c h k = cc
compare_trans String.[] (String.◌∷◌ d t) String.[] h k = cc (k, cons_nil d t)
compare_trans String.[] (String.◌∷◌ d t) (String.◌∷◌ e u) h k = nil_cons e u
compare_trans (String.◌∷◌ d t) String.[] c h k = cc (h, cons_nil d t)
compare_trans (String.◌∷◌ d t) (String.◌∷◌ e u) String.[] h k = cc (k, cons_nil e u)
compare_trans (String.◌∷◌ d t) (String.◌∷◌ e u) (String.◌∷◌ f v) h k =
    ground (arith, cons_lt d e t u, cons_lt e f u v, cons_lt d f t v, compare_trans t u v)

compare_irrefl : (a : String) → String.compare a a ≡ Ordering.eq
compare_irrefl String.[] = nil_nil
compare_irrefl (String.◌∷◌ c s) = ground (arith, cons_lt c c s s, compare_irrefl s)

pub precedes_trans :
    (a b c : String) → precedes a b ≡ true → precedes b c ≡ true → precedes a c ≡ true
precedes_trans a b c h k = ground (arith, h, k, compare_trans a b c)

pub precedes_irrefl : (a : String) → precedes a a ≡ false
precedes_irrefl a = ground (arith, compare_irrefl a)
