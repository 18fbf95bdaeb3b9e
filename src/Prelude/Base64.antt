-- ===== src/Prelude/Base64.antt =====
-- encoding/base64 of Go's standard library: StdEncoding.
pub mod RoundTrip
use Prim.Native.Char.{Char, code}
use Prim.Native.Nat.{ℕ, zero, suc, ◌+◌, ◌-◌, ◌*◌, ◌/◌, ◌%◌, ◌<◌}
use Prim.Native.String
use Prim.Native.String.{String}
use mathlib.Core.Path.{◌≡◌, refl, ap, ◌∙◌}
use mathlib.Core.Logic.{◌⊎◌, inl, inr}
use mathlib.Core.Bool.{Bool, true, false, ◌&&◌, ◌||◌}
use mathlib.Core.List.{List, [], ◌∷◌}
use mathlib.Core.Option.{Option, none, some}
use native.Mathlib.Omega.{arith}
use native.Mathlib.Decide.{ℕ_discrete}
use awg_proxy_go.Prelude.Tests.{leb, if◌then◌else◌}
use awg_proxy_go.Prelude.Eq.{◌==◌, nat_eq}
use awg_proxy_go.Prelude.Text.{codes}
use awg_proxy_go.Prelude.Strings.{is_space}
use awg_proxy_go.Prelude.Lists.{All}
use awg_proxy_go.Prelude.Bytes.{IsByte}

abbrev pub alphabet : String
alphabet = "ABCDEFGHIJKLMNOPQRSTUVWXYZabcdefghijklmnopqrstuvwxyz0123456789+/"

-- The value of a digit, 64 for another character.
unfoldable pub value : ℕ → ℕ
value c =
    if leb 65 c && leb c 90
    then c - 65
    else if leb 97 c && leb c 122
    then c - 71
    else if leb 48 c && leb c 57
    then c + 4
    else if c == b'+'
    then 62
    else if c == b'/'
    then 63
    else 64

abbrev nth : ℕ → String → Char
nth n String.[] = "="
nth zero (String.◌∷◌ c s) = c
nth (suc n) (String.◌∷◌ c s) = nth n s

unfoldable pub digit : ℕ → Char
digit v = nth v alphabet

-- EncodeToString
unfoldable pub encode : List ℕ → String
unfolding digit
encode [] = ""
encode (a ∷ []) = String.◌∷◌ (digit (a / 4)) (String.◌∷◌ (digit (a % 4 * 16)) "==")
encode (a ∷ b ∷ []) =
    String.◌∷◌ (digit (a / 4))
      (String.◌∷◌ (digit (a % 4 * 16 + b / 16)) (String.◌∷◌ (digit (b % 16 * 4)) "="))
encode (a ∷ b ∷ c ∷ xs) = String.◌∷◌ (digit (a / 4)) (
    String.◌∷◌ (digit (a % 4 * 16 + b / 16))
      (String.◌∷◌ (digit (b % 16 * 4 + c / 64)) (String.◌∷◌ (digit (c % 64)) (encode xs))))

unfoldable pub digits : List ℕ → List ℕ
digits [] = []
digits (c ∷ s) = let rest = digits s in if c == 10 || c == 13 then rest else c ∷ rest

-- The last four characters, where the fourth one is padding.
unfoldable pub padded : ℕ → ℕ → ℕ → List ℕ → Option (List ℕ)
unfolding value
padded a b c (d ∷ rest) = none
padded a b c [] =
    if value a == 64 || value b == 64
    then none
    else if c == b'='
    then some ((value a * 4 + value b / 16) ∷ [])
    else if value c == 64
    then none
    else some ((value a * 4 + value b / 16) ∷ (value b % 16 * 16 + value c / 4) ∷ [])

unfoldable pub quads : List ℕ → Option (List ℕ)
unfolding value padded
quads [] = some []
quads (a ∷ b ∷ c ∷ d ∷ rest) =
    let more = quads rest in
    if d == b'='
    then padded a b c rest
    else if value a == 64 || value b == 64 || value c == 64 || value d == 64
    then none
    else elim more [
      | none ↦ none
      | some xs ↦ some (
          (value a * 4 + value b / 16)
          ∷ (value b % 16 * 16 + value c / 4)
          ∷ (value c % 4 * 64 + value d)
          ∷ xs)
    ]
quads _ = none

-- DecodeString: line breaks do not count.
unfoldable pub decode : String → Option (List ℕ)
unfolding digits quads
decode s = quads (digits (codes s))
