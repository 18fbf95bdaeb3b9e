-- ===== src/Awg/Transform/Safety.antt =====
-- transform.go: which inputs stop the process, and which do not.
use awg_proxy_go.Prelude.{
  ℕ, ◌^◌, ◌+◌, ◌-◌, true, [], ◌∷◌, length-drop, ◌≤◌, ◌<◌, ◌≡◌, refl, ◌≢◌, List, Option, none, some,
  length, drop, done, panic, >>=-panic, arith,
}
use awg_proxy_go.Prelude.Int.{ℤ, pos, negsuc, pos_part, neg_part, ◌+ℤ◌, leb_ℤ}
use awg_proxy_go.Prelude.Machine.{wrap, make_slice, max_datagram}
use awg_proxy_go.Prelude.Bytes.{le32, put_bytes, put_le32_long, put_le32_short}
use awg_proxy_go.Wg.{type, set_type}
use awg_proxy_go.Awg.Crypto.{Blake2s}
use awg_proxy_go.Awg.Transform.{
  Params, prefix_for, slice_from, has_header, classify_handshake, classify, write_mac1, restore,
  deobfuscate, obfuscate_behind, obfuscate,
}
use awg_proxy_go.Awg.Transform.Classify.{classes, le32-type, classify_sized}

-- The configured junk prefixes are sizes that a datagram can have.
pub record IsSized (p : Params) : Type 0 where
  pub s1_size : neg_part p.s1 ≡ 0
  pub s2_size : neg_part p.s2 ≡ 0
  pub s1_fits : pos_part p.s1 ≤ max_datagram
  pub s2_fits : pos_part p.s2 ≤ max_datagram

pub pos_of_size : (s : ℤ) → neg_part s ≡ 0 → s ≡ pos (pos_part s)
pos_of_size (pos n) h = refl
pos_of_size (negsuc n) h = absurd (omega arith)

pub classify-IsSized :
    (p : Params) (pkt : List ℕ)
    → IsSized p
    → classify p pkt ≡ done (classes p (pos_part p.s1) (pos_part p.s2) pkt)
classify-IsSized p pkt z =
    classify_sized p pkt _ _ (pos_of_size p.s1 z.s1_size) (pos_of_size p.s2 z.s2_size) z.s1_fits
      z.s2_fits

pub restore_long :
    (b : Blake2s) (q : List ℕ) (typ : ℕ) (plain : List ℕ)
    → 4 ≤ length plain
    → restore b q typ plain ≡ done (some (write_mac1 b q typ (put_bytes typ (drop 4 plain)), typ))
unfolding restore set_type
restore_long b q typ plain h = ground (arith, put_le32_long plain typ)

pub restore_short :
    (b : Blake2s) (q : List ℕ) (typ : ℕ) (plain : List ℕ)
    → length plain < 4
    → restore b q typ plain ≡ done none
unfolding restore
restore_short b q typ plain h = ground arith

HasSize : Option (ℕ × ℤ) → Type 0
HasSize none = Unit
HasSize (some (t, off)) = neg_part off ≡ 0

-- A packet of fewer than four bytes stops the process, whatever the parameters are.
pub obfuscate_short :
    (b : Blake2s) (p : Params) (rand : ℕ → List ℕ) (plain recipient : List ℕ)
    → length plain < 4
    → obfuscate b p rand plain recipient ≡ panic
unfolding obfuscate
obfuscate_short b p rand plain recipient h = short_behind (prefix_for p (type plain))
  where
    short_behind : (s : ℤ) → obfuscate_behind b p rand plain recipient (type plain) s ≡ panic
    short_behind (pos k) =
        rw (put_le32_short plain _ h)
          (>>=-panic (make_slice 1 (wrap (pos k +ℤ pos (length plain)))))
    short_behind (negsuc k) = refl

-- With a negative S1 of 64 bits Deobfuscate stops the process at a packet of four bytes or more that has
-- neither H3 nor H4 at its front, and Obfuscate at any handshake initiation.
pub negative_s1 :
    (b : Blake2s) (p : Params) (rand : ℕ → List ℕ) (k : ℕ) (pkt plain recipient : List ℕ)
    → p.s1 ≡ negsuc k
    → k < 2 ^ 63
    → 4 ≤ length pkt
    → type pkt ≢ p.h3
    → type pkt ≢ p.h4
    → type plain ≡ 1
    → (deobfuscate b p pkt recipient ≡ panic) × (obfuscate b p rand plain recipient ≡ panic)
unfolding deobfuscate classify classify_handshake has_header obfuscate prefix_for obfuscate_behind
    slice_from wrap ◌+ℤ◌
negative_s1 b p rand k pkt plain recipient e size h n3 n4 init =
    (ground (arith, le32-type pkt), ground arith)

le32_none : (xs : List ℕ) → length xs ≡ 0 → le32 xs ≡ panic
unfolding le32
le32_none [] h = refl
le32_none (x ∷ xs) h = absurd (omega arith)

wrapped :
    (s : ℕ) → 2 ^ 63 ≤ s + 4 → s < 2 ^ 63 → neg_part (wrap (pos s +ℤ pos 4)) ≡ 2 ^ 64 - (s + 4)
unfolding wrap ◌+ℤ◌
wrapped s huge size = ground arith

test_holds : (z : ℤ) (n : ℕ) → 0 < neg_part z → leb_ℤ z (pos n) ≡ true
test_holds (pos k) n h = absurd (omega arith)
test_holds (negsuc k) n h = ground arith

has_header_huge :
    (pkt : List ℕ) (s h : ℕ)
    → 2 ^ 63 ≤ s + 4
    → s < 2 ^ 63
    → length pkt ≤ s
    → has_header pkt (pos s) h ≡ panic
unfolding has_header slice_from
has_header_huge pkt s h huge size short =
    rw
      (
        test_holds (wrap (pos s +ℤ pos 4)) (length pkt) (omega (arith, wrapped s huge size)),
        le32_none (drop s pkt) (omega (arith, length-drop s pkt)),
      )
      refl

-- With an S1 from 2^63 - 4 on, S1 + 4 wraps and the test of the length holds: Deobfuscate stops the
-- process at a packet of four bytes or more that has neither H3 nor H4 at its front, where the packet
-- is not longer than S1.
pub huge_s1 :
    (b : Blake2s) (p : Params) (s : ℕ) (pkt recipient : List ℕ)
    → p.s1 ≡ pos s
    → 2 ^ 63 ≤ s + 4
    → s < 2 ^ 63
    → 4 ≤ length pkt
    → length pkt ≤ s
    → type pkt ≢ p.h3
    → type pkt ≢ p.h4
    → deobfuscate b p pkt recipient ≡ panic
unfolding deobfuscate classify classify_handshake
huge_s1 b p s pkt recipient e huge size long short n3 n4 =
    ground (arith, le32-type pkt, has_header_huge pkt s p.h1 huge size short)
