-- ===== src/Web/Escape.antt =====
-- url.QueryEscape of Go's standard library.
use Prim.Native.Char.{code}
use Prim.Native.Nat.{ℕ, ◌+◌, ◌-◌, ◌/◌, ◌%◌}
use awg_proxy_go.Prelude.{Bool, ◌&&◌, ◌||◌, String, List, [], ◌∷◌, leb, ltb, if◌then◌else◌}
use awg_proxy_go.Prelude.Eq.{◌==◌, nat_eq}
use awg_proxy_go.Config.Convert.{◌+s◌}

-- The bytes of a character in UTF-8.
utf8 : ℕ → List ℕ
utf8 c =
    if ltb c 0x80
    then c ∷ []
    else if ltb c 0x800
    then (192 + c / 64) ∷ (128 + c % 64) ∷ []
    else if ltb c 0x10000
    then (224 + c / 4096) ∷ (128 + c / 64 % 64) ∷ (128 + c % 64) ∷ []
    else (240 + c / 262144) ∷ (128 + c / 4096 % 64) ∷ (128 + c / 64 % 64) ∷ (128 + c % 64) ∷ []

nth : ℕ → String → String
nth n String.[] = ""
nth n (String.◌∷◌ c s) = let rest = nth (n - 1) s in if n == 0 then String.◌∷◌ c "" else rest

hex_digit : ℕ → String
unfolding nth
hex_digit d = nth d "0123456789ABCDEF"

percent : List ℕ → String
unfolding hex_digit
percent [] = ""
percent (b ∷ bs) = "%" +s hex_digit (b / 16) +s hex_digit (b % 16) +s percent bs

abbrev is_unreserved : ℕ → Bool
is_unreserved c =
    (leb b'a' c && leb c b'z')
    || (leb b'A' c && leb c b'Z')
    || (leb b'0' c && leb c b'9')
    || c == b'-'
    || c == b'_'
    || c == b'.'
    || c == b'~'

unfoldable pub query_escape : String → String
unfolding utf8 percent
query_escape String.[] = ""
query_escape (String.◌∷◌ c s) =
    (if is_unreserved (code c)
      then String.◌∷◌ c ""
      else if code c == 32
      then "+"
      else percent (utf8 (code c)))
    +s query_escape s
