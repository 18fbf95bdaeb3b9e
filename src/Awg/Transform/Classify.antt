-- ===== src/Awg/Transform/Classify.antt =====
-- transform.go: what `classify` answers where both junk prefixes have a size.
use awg_proxy_go.Prelude.{
  ℕ, ◌+◌, ◌≤◌, ◌≡◌, refl, Bool, List, [], ◌∷◌, Option, none, some, ◌&&◌, ◌==◌, ltb, leb,
  if◌then◌else◌, length, drop, length-drop, done, arith,
}
use awg_proxy_go.Prelude.Int.{ℤ, pos}
use awg_proxy_go.Prelude.Machine.{wrap_sum, max_datagram}
use awg_proxy_go.Prelude.Bytes.{le32}
use awg_proxy_go.Wg.{type}
use awg_proxy_go.Awg.Transform.{Params, has_header, classify_handshake, classify}

pub le32-type : (xs : List ℕ) → 4 ≤ length xs → le32 xs ≡ done (type xs)
unfolding le32 type
le32-type (a ∷ b ∷ c ∷ d ∷ r) h = refl
le32-type [] h = absurd (omega arith)
le32-type (a ∷ []) h = absurd (omega arith)
le32-type (a ∷ b ∷ []) h = absurd (omega arith)
le32-type (a ∷ b ∷ c ∷ []) h = absurd (omega arith)

-- The header test for a prefix that has a size.
abbrev pub header_is : List ℕ → ℕ → ℕ → Bool
header_is pkt n h = leb (n + 4) (length pkt) && type (drop n pkt) == h

pub has_header_pos :
    (pkt : List ℕ) (n h : ℕ)
    → n ≤ max_datagram
    → has_header pkt (pos n) h ≡ done (header_is pkt n h)
unfolding has_header
has_header_pos pkt n h small =
    rw (wrap_sum n 4 (omega arith)) (ground (arith, le32-type (drop n pkt), length-drop n pkt))

-- What `classify` says where both prefixes have a size.
abbrev pub classes : Params → ℕ → ℕ → List ℕ → Option (ℕ × ℤ)
classes p n m pkt =
    if ltb (length pkt) 4
    then none
    else if type pkt == p.h4
    then some (4, pos 0)
    else if type pkt == p.h3
    then some (3, pos 0)
    else if header_is pkt n p.h1
    then some (1, pos n)
    else if header_is pkt m p.h2
    then some (2, pos m)
    else none

pub classify_sized :
    (p : Params) (pkt : List ℕ) (n m : ℕ)
    → p.s1 ≡ pos n
    → p.s2 ≡ pos m
    → n ≤ max_datagram
    → m ≤ max_datagram
    → classify p pkt ≡ done (classes p n m pkt)
unfolding classify classify_handshake
classify_sized p pkt n m e1 e2 small1 small2 =
    ground
      (arith, le32-type pkt, has_header_pos pkt n p.h1 small1, has_header_pos pkt m p.h2 small2)
