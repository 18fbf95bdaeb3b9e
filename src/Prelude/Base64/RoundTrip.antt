-- ===== src/Prelude/Base64/RoundTrip.antt =====
-- encoding/base64: what EncodeToString wrote is read back.
use Prim.Native.Char.{code}
use Prim.Native.Nat.{ℕ, zero, suc, ◌+◌, ◌*◌, ◌/◌, ◌%◌, ◌<◌}
use mathlib.Core.Path.{◌≡◌, refl, ap, ◌∙◌}
use mathlib.Core.Bool.{Bool, true, false, ◌&&◌, ◌||◌}
use mathlib.Core.List.{List, [], ◌∷◌}
use mathlib.Core.Option.{some}
use native.Mathlib.Omega.{arith}
use native.Mathlib.Decide.{ℕ_discrete}
use awg_proxy_go.Prelude.Eq.{◌==◌, nat_eq, string_eq}
use awg_proxy_go.Prelude.Text.{codes}
use awg_proxy_go.Prelude.Strings.{is_space}
use awg_proxy_go.Prelude.Lists.{All, length}
use awg_proxy_go.Prelude.Bytes.{IsByte}
use awg_proxy_go.Prelude.Strings.{trim_space, trim_space-IsWord, cons-ne_empty}
use awg_proxy_go.Prelude.Base64.{value, digit, encode, digits, padded, quads, decode}

abbrev all_below : (ℕ → Bool) → ℕ → Bool
all_below test zero = true
all_below test (suc n) = test n && all_below test n

all_below_lem : (test : ℕ → Bool) (n v : ℕ) → all_below test n ≡ true → v < n → test v ≡ true
all_below_lem test zero v h lt = absurd (omega arith)
all_below_lem test (suc n) v h lt = elim (ℕ_discrete v n) [
  | yes same ↦ ap test same ∙ ground (arith, h)
  | no apart ↦ all_below_lem test n v (ground (arith, h)) (omega (arith, apart))
]

digits_sound : all_below (λ v. value (code (digit v)) == v) 64 ≡ true
unfolding value digit
digits_sound = refl

value-digit : (v : ℕ) → v < 64 → value (code (digit v)) ≡ v
value-digit v h =
    (nat_eq.equals_iff (value (code (digit v))) v).0
      (all_below_lem (λ k. value (code (digit k)) == k) 64 v digits_sound h)

-- A digit is no padding.
value_plain : (c v : ℕ) → value c ≡ v → v < 64 → (c == b'=') ≡ false
unfolding value
value_plain c v e h = ground arith

plain_value :
    (c v : ℕ) → value c ≡ v → v < 64 → ((c == 10 || c == 13) ≡ false) × (is_space c ≡ false)
unfolding value
plain_value c v e h = ground arith

-- A group of four digits.
quads_group :
    (a b c d : ℕ) (s xs : List ℕ)
    → (d == b'=') ≡ false
    → (value a == 64 || value b == 64 || value c == 64 || value d == 64) ≡ false
    → quads s ≡ some xs
    → quads (a ∷ b ∷ c ∷ d ∷ s)
      ≡ some (
          (value a * 4 + value b / 16)
          ∷ (value b % 16 * 16 + value c / 4)
          ∷ (value c % 4 * 64 + value d)
          ∷ xs)
unfolding quads
quads_group a b c d s xs plain good e = rw (plain, good, e) refl

no_bad :
    (a b c d : ℕ)
    → a < 64
    → b < 64
    → c < 64
    → d < 64
    → (a == 64 || b == 64 || c == 64 || d == 64) ≡ false
no_bad a b c d ha hb hc hd = ground arith

quads_digits :
    (a b c d : ℕ) (s xs : List ℕ)
    → a < 64
    → b < 64
    → c < 64
    → d < 64
    → quads s ≡ some xs
    → quads (code (digit a) ∷ code (digit b) ∷ code (digit c) ∷ code (digit d) ∷ s)
      ≡ some ((a * 4 + b / 16) ∷ (b % 16 * 16 + c / 4) ∷ (c % 4 * 64 + d) ∷ xs)
quads_digits a b c d s xs ha hb hc hd e =
    quads_group (code (digit a)) (code (digit b)) (code (digit c)) (code (digit d)) s xs
      (value_plain (code (digit d)) d (value-digit d hd) hd)
      (rw (value-digit a ha, value-digit b hb, value-digit c hc, value-digit d hd)
        (no_bad a b c d ha hb hc hd))
      e
    ∙ rw (value-digit a ha, value-digit b hb, value-digit c hc, value-digit d hd) refl

-- The four digits of three bytes.
three :
    (a b c : ℕ)
    → IsByte a
    → IsByte b
    → IsByte c
    → (a / 4 < 64)
      × (a % 4 * 16 + b / 16 < 64)
      × (b % 16 * 4 + c / 64 < 64)
      × (c % 64 < 64)
      × (a / 4 * 4 + (a % 4 * 16 + b / 16) / 16 ≡ a)
      × ((a % 4 * 16 + b / 16) % 16 * 16 + (b % 16 * 4 + c / 64) / 4 ≡ b)
      × ((b % 16 * 4 + c / 64) % 4 * 64 + c % 64 ≡ c)
three a b c ha hb hc =
    (omega arith, omega arith, omega arith, omega arith, omega arith, omega arith, omega arith)

-- The last group of two bytes.
last_two :
    (a b c : ℕ)
    → a < 64
    → b < 64
    → c < 64
    → quads (code (digit a) ∷ code (digit b) ∷ code (digit c) ∷ b'=' ∷ [])
      ≡ some ((a * 4 + b / 16) ∷ (b % 16 * 16 + c / 4) ∷ [])
unfolding quads padded
last_two a b c ha hb hc =
    rw
      (
        value-digit a ha,
        value-digit b hb,
        value-digit c hc,
        (value_plain (code (digit c)) c (value-digit c hc) hc),
      )
      (ground arith)

last_one :
    (a b : ℕ)
    → a < 64
    → b < 64
    → quads (code (digit a) ∷ code (digit b) ∷ b'=' ∷ b'=' ∷ []) ≡ some ((a * 4 + b / 16) ∷ [])
unfolding quads padded
last_one a b ha hb = rw (value-digit a ha, value-digit b hb) (ground arith)

three_bytes :
    (a b c : ℕ) (s xs : List ℕ)
    → IsByte a
    → IsByte b
    → IsByte c
    → quads s ≡ some xs
    → quads (
        code (digit (a / 4))
        ∷ code (digit (a % 4 * 16 + b / 16))
        ∷ code (digit (b % 16 * 4 + c / 64))
        ∷ code (digit (c % 64))
        ∷ s)
      ≡ some (a ∷ b ∷ c ∷ xs)
three_bytes a b c s xs ha hb hc e =
    let (h0, h1, h2, h3, e0, e1, e2) = three a b c ha hb hc in
    quads_digits (a / 4) (a % 4 * 16 + b / 16) (b % 16 * 4 + c / 64) (c % 64) s xs h0 h1 h2 h3 e
    ∙ rw (e0, e1, e2) refl

-- The characters of an encoding are digits and padding.
abbrev IsPlain : ℕ → Type 0
IsPlain c = ((c == 10 || c == 13) ≡ false) × (is_space c ≡ false)

digit-IsPlain : (v : ℕ) → v < 64 → IsPlain (code (digit v))
digit-IsPlain v h = plain_value (code (digit v)) v (value-digit v h) h

digits-IsPlain : (s : List ℕ) → All IsPlain s → digits s ≡ s
unfolding digits
digits-IsPlain [] h = refl
digits-IsPlain (c ∷ s) h = ground (arith, h.0, digits-IsPlain s h.1)

encode-IsPlain : (xs : List ℕ) → All IsByte xs → All IsPlain (codes (encode xs))
unfolding encode
encode-IsPlain [] h = tt
encode-IsPlain (a ∷ []) h =
    let (ha, _) = h in
    (
      digit-IsPlain (a / 4) (omega arith),
      (digit-IsPlain (a % 4 * 16) (omega arith), ((refl, refl), ((refl, refl), tt))),
    )
encode-IsPlain (a ∷ b ∷ []) h =
    let (ha, t) = h in
    let (hb, _) = t in
    (
      digit-IsPlain (a / 4) (omega arith),
      (
        digit-IsPlain (a % 4 * 16 + b / 16) (omega arith),
        (digit-IsPlain (b % 16 * 4) (omega arith), ((refl, refl), tt)),
      ),
    )
encode-IsPlain (a ∷ b ∷ c ∷ xs) h =
    let (ha, t) = h in
    let (hb, u) = t in
    let (hc, rest) = u in
    let (h0, h1, h2, h3, _, _, _) = three a b c ha hb hc in
    (
      digit-IsPlain (a / 4) h0,
      (
        digit-IsPlain (a % 4 * 16 + b / 16) h1,
        (
          digit-IsPlain (b % 16 * 4 + c / 64) h2,
          (digit-IsPlain (c % 64) h3, encode-IsPlain xs rest),
        ),
      ),
    )

two_bytes :
    (a b : ℕ)
    → IsByte a
    → IsByte b
    → some (
        (a / 4 * 4 + (a % 4 * 16 + b / 16) / 16)
        ∷ ((a % 4 * 16 + b / 16) % 16 * 16 + b % 16 * 4 / 4)
        ∷ [])
      ≡ some (a ∷ b ∷ [])
two_bytes a b ha hb =
    let e0 : a / 4 * 4 + (a % 4 * 16 + b / 16) / 16 ≡ a = omega arith in
    let e1 : (a % 4 * 16 + b / 16) % 16 * 16 + b % 16 * 4 / 4 ≡ b = omega arith in rw (e0, e1) refl

quads-encode : (xs : List ℕ) → All IsByte xs → quads (codes (encode xs)) ≡ some xs
unfolding encode quads
quads-encode [] h = refl
quads-encode (a ∷ []) h =
    let (ha, _) = h in
    last_one (a / 4) (a % 4 * 16) (omega arith) (omega arith)
    ∙ ap (λ k. some (k ∷ [])) (omega arith)
quads-encode (a ∷ b ∷ []) h =
    let (ha, t) = h in
    let (hb, _) = t in
    last_two (a / 4) (a % 4 * 16 + b / 16) (b % 16 * 4) (omega arith) (omega arith) (omega arith)
    ∙ two_bytes a b ha hb
quads-encode (a ∷ b ∷ c ∷ xs) h =
    let (ha, t) = h in
    let (hb, u) = t in
    let (hc, rest) = u in three_bytes a b c (codes (encode xs)) xs ha hb hc (quads-encode xs rest)

pub decode-encode : (xs : List ℕ) → All IsByte xs → decode (encode xs) ≡ some xs
unfolding decode
decode-encode xs h =
    ap quads (digits-IsPlain (codes (encode xs)) (encode-IsPlain xs h)) ∙ quads-encode xs h

spaceless : (s : List ℕ) → All IsPlain s → All (λ c. is_space c ≡ false) s
spaceless [] h = tt
spaceless (c ∷ s) h = ((h.0).1, spaceless s h.1)

pub trim_space-encode : (xs : List ℕ) → All IsByte xs → trim_space (encode xs) ≡ encode xs
trim_space-encode xs h =
    trim_space-IsWord (encode xs) (spaceless (codes (encode xs)) (encode-IsPlain xs h))

pub encode_nonempty : (xs : List ℕ) {n : ℕ} → length xs ≡ suc n → (encode xs == "") ≡ false
unfolding encode
encode_nonempty [] h = absurd (omega arith)
encode_nonempty (a ∷ []) h = cons-ne_empty _ _
encode_nonempty (a ∷ b ∷ []) h = cons-ne_empty _ _
encode_nonempty (a ∷ b ∷ c ∷ xs) h = cons-ne_empty _ _
