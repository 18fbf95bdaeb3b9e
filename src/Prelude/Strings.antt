-- ===== src/Prelude/Strings.antt =====
-- Go's strings, strconv.Atoi and net.SplitHostPort, as far as the program uses them.
pub mod Order
use Prim.Native.Char.{Char, code}
use Prim.Native.Nat.{ℕ, zero, suc, ◌+◌, ◌-◌, ◌*◌, ◌^◌, Ordering}
use Prim.Native.String
use Prim.Native.String.{String}
use mathlib.Core.Path.{◌≡◌, refl, ap, ◌∙◌}
use mathlib.Core.Bool.{Bool, true, false, not, ◌&&◌, ◌||◌}
use mathlib.Core.List.{List, [], ◌∷◌}
use mathlib.Core.Option.{Option, none, some}
use native.Mathlib.Omega.{arith}
use awg_proxy_go.Prelude.Tests.{ltb, leb, if◌then◌else◌}
use awg_proxy_go.Prelude.Lists.{All}
use awg_proxy_go.Prelude.Eq.{◌==◌, nat_eq, string_eq, ne-equals}
use awg_proxy_go.Prelude.Int.{ℤ, pos, negsuc}
use awg_proxy_go.Prelude.Text.{codes}

-- unicode.IsSpace
abbrev pub is_space : ℕ → Bool
is_space c =
    (leb 9 c && leb c 13)
    || c == 32
    || c == 0x85
    || c == 0xa0
    || c == 0x1680
    || (leb 0x2000 c && leb c 0x200a)
    || c == 0x2028
    || c == 0x2029
    || c == 0x202f
    || c == 0x205f
    || c == 0x3000

unfoldable pub trim_left : String → String
trim_left String.[] = ""
trim_left (String.◌∷◌ c s) =
    let rest = trim_left s in if is_space (code c) then rest else String.◌∷◌ c s

unfoldable pub trim_right : String → String
trim_right String.[] = ""
trim_right (String.◌∷◌ c s) =
    let rest = trim_right s in if is_space (code c) && rest == "" then "" else String.◌∷◌ c rest

unfoldable pub trim_space : String → String
unfolding trim_left trim_right
trim_space s = trim_right (trim_left s)

-- strings.CutPrefix: what stands behind the prefix.
unfoldable pub cut_prefix : String → String → Option String
cut_prefix s String.[] = some s
cut_prefix String.[] (String.◌∷◌ d p) = none
cut_prefix (String.◌∷◌ c s) (String.◌∷◌ d p) =
    let rest = cut_prefix s p in if code c == code d then rest else none

unfoldable pub has_prefix : String → String → Bool
unfolding cut_prefix
has_prefix s p = elim (cut_prefix s p) [ some _ ↦ true | none ↦ false ]

-- What stands in front of the first character `d` and behind it.
unfoldable pub cut_at : ℕ → String → Option (String × String)
cut_at d String.[] = none
cut_at d (String.◌∷◌ c s) =
    let rest = cut_at d s in
    if code c == d
    then some ("", s)
    else elim rest [ none ↦ none | some (front, behind) ↦ some (String.◌∷◌ c front, behind) ]

-- What stands in front of the last character `d` and behind it.
unfoldable pub cut_last : ℕ → String → Option (String × String)
cut_last d String.[] = none
cut_last d (String.◌∷◌ c s) = elim (cut_last d s) [
  | some (front, behind) ↦ some (String.◌∷◌ c front, behind)
  | none ↦ if code c == d then some ("", s) else none
]

abbrev pub contains : ℕ → String → Bool
contains d String.[] = false
contains d (String.◌∷◌ c s) = code c == d || contains d s

-- ParseUint of base ten: `none` for a syntax error. The number stops at 2^64 - 1, whatever follows.
unfoldable pub digits : ℕ → List ℕ → Option ℕ
digits acc [] = some acc
digits acc (c ∷ s) =
    let n = acc * 10 + (c - 48) in
    let rest = digits n s in
    if leb 48 c && leb c 57 then (if ltb n (2 ^ 64) then rest else some (2 ^ 64 - 1)) else none

unfoldable pub unsigned : List ℕ → Option ℕ
unfolding digits
unsigned [] = none
unsigned (c ∷ s) = digits 0 (c ∷ s)

abbrev above : Option ℕ → ℤ × Bool
above none = (pos 0, false)
above (some n) = if ltb n (2 ^ 63) then (pos n, true) else (pos (2 ^ 63 - 1), false)

abbrev below : Option ℕ → ℤ × Bool
below none = (pos 0, false)
below (some zero) = (pos 0, true)
below (some (suc n)) = if ltb n (2 ^ 63) then (negsuc n, true) else (negsuc (2 ^ 63 - 1), false)

signed : List ℕ → ℤ × Bool
unfolding unsigned
signed [] = (pos 0, false)
signed (c ∷ s) =
    if c == b'-'
    then below (unsigned s)
    else if c == b'+'
    then above (unsigned s)
    else above (unsigned (c ∷ s))

-- strconv.Atoi: the number, which is the nearest one for a number out of range, and whether there is
-- no error.
unfoldable pub atoi : String → ℤ × Bool
unfolding signed
atoi s = signed (codes s)

-- `[host]:port`, behind the first bracket; `port` stands behind the last colon.
abbrev bracketed : Option (String × String) → String → Option (String × String)
bracketed none port = none
bracketed (some (host, behind)) port =
    if behind == String.◌++◌ ":" port
      && not (contains b'[' (String.◌++◌ host behind))
      && not (contains b']' behind)
    then some (host, port)
    else none

host_port : String → Option (String × String) → Option (String × String)
unfolding cut_at
host_port whole none = none
host_port String.[] (some (front, port)) = none
host_port (String.◌∷◌ c s) (some (front, port)) =
    if code c == b'['
    then bracketed (cut_at b']' s) port
    else if contains b':' front || contains b'[' (String.◌∷◌ c s) || contains b']' (String.◌∷◌ c s)
    then none
    else some (front, port)

-- net.SplitHostPort: the host and the port, `none` for an error.
unfoldable pub split_host_port : String → Option (String × String)
unfolding cut_last host_port
split_host_port s = host_port s (cut_last b':' s)

-- A text without white space.
abbrev pub IsWord : String → Type 0
IsWord s = All (λ c. is_space c ≡ false) (codes s)

trim_left-IsWord : (s : String) → IsWord s → trim_left s ≡ s
unfolding trim_left
trim_left-IsWord String.[] h = refl
trim_left-IsWord (String.◌∷◌ c s) h = rw (h.0) refl

trim_right-IsWord : (s : String) → IsWord s → trim_right s ≡ s
unfolding trim_right
trim_right-IsWord String.[] h = refl
trim_right-IsWord (String.◌∷◌ c s) h = rw (h.0, trim_right-IsWord s h.1) refl

pub trim_space-IsWord : (s : String) → IsWord s → trim_space s ≡ s
unfolding trim_space
trim_space-IsWord s h = ap trim_right (trim_left-IsWord s h) ∙ trim_right-IsWord s h

pub cons-ne_empty : (c : Char) (s : String) → (String.◌∷◌ c s == "") ≡ false
cons-ne_empty c s = ne-equals (String.◌∷◌ c s) "" (λ e. cc e)

abbrev pub precedes : String → String → Bool
precedes a b = elim (String.compare a b) [ Ordering.lt ↦ true | _ ↦ false ]
