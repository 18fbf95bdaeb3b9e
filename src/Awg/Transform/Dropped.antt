-- ===== src/Awg/Transform/Dropped.antt =====
-- transform.go: which packets Deobfuscate drops.
use awg_proxy_go.Prelude.{
  ℕ, ◌+◌, ◌≤◌, ◌≡◌, refl, ap, inl, inr, ◌≢◌, ◌↔◌, true, List, none, some, Option-cases, length,
  length-drop, drop, done, ◌>>=◌, arith,
}
use awg_proxy_go.Prelude.Int.{ℤ, pos, negsuc, pos_part, neg_part}
use awg_proxy_go.Wg.{type}
use awg_proxy_go.Awg.Crypto.{Blake2s}
use awg_proxy_go.Awg.Transform.{Params, slice_from, restore, deobfuscate_at, deobfuscate}
use awg_proxy_go.Awg.Transform.Classify.{classes, header_is}
use awg_proxy_go.Awg.Transform.Safety.{IsSized, classify-IsSized, restore_long}

-- The magic header `h` stands behind `n` bytes.
abbrev pub HeaderAt : List ℕ → ℕ → ℕ → Type 0
HeaderAt pkt n h = (n + 4 ≤ length pkt) × (type (drop n pkt) ≡ h)

-- No magic header stands where one is looked for.
pub record IsJunk (p : Params) (pkt : List ℕ) : Type 0 where
  pub no_h4 : ¬ HeaderAt pkt 0 p.h4
  pub no_h3 : ¬ HeaderAt pkt 0 p.h3
  pub no_h1 : ¬ HeaderAt pkt (pos_part p.s1) p.h1
  pub no_h2 : ¬ HeaderAt pkt (pos_part p.s2) p.h2

header_is_iff : (pkt : List ℕ) (n h : ℕ) → (header_is pkt n h ≡ true) ↔ HeaderAt pkt n h
header_is_iff pkt n h = ground arith

classes-none_iff :
    (p : Params) (pkt : List ℕ)
    → (classes p (pos_part p.s1) (pos_part p.s2) pkt ≡ none) ↔ IsJunk p pkt
classes-none_iff p pkt = (
  (λ e. record {
    no_h4 = λ h. ground arith;
    no_h3 = λ h. ground arith;
    no_h1 = λ h. ground (arith, header_is_iff pkt (pos_part p.s1) p.h1);
    no_h2 = λ h. ground (arith, header_is_iff pkt (pos_part p.s2) p.h2);
  }),
  (λ j.
      ground
        (arith, header_is_iff pkt (pos_part p.s1) p.h1, header_is_iff pkt (pos_part p.s2) p.h2)),
)

classes-some :
    (p : Params) (n m : ℕ) (pkt : List ℕ) (t : ℕ) (off : ℤ)
    → classes p n m pkt ≡ some (t, off)
    → (neg_part off ≡ 0) × (pos_part off + 4 ≤ length pkt)
classes-some p n m pkt t off e = ground arith

slice_from_sized :
    (pkt : List ℕ) (s : ℤ) → neg_part s ≡ 0 → slice_from pkt s ≡ done (drop (pos_part s) pkt)
unfolding slice_from
slice_from_sized pkt (pos n) h = refl
slice_from_sized pkt (negsuc n) h = absurd (omega arith)

deobfuscate_at-some :
    (b : Blake2s) (key pkt : List ℕ) (t : ℕ) (off : ℤ)
    → neg_part off ≡ 0
    → pos_part off + 4 ≤ length pkt
    → deobfuscate_at b key pkt (some (t, off)) ≢ done none
unfolding deobfuscate_at
deobfuscate_at-some b key pkt t off z room e = cc (
  e,
  ap (λ r. r >>= restore b key t) (slice_from_sized pkt off z),
  restore_long b key t (drop (pos_part off) pkt) (omega (arith, length-drop (pos_part off) pkt)),
)

-- Where each prefix has a size of 0 to 65535 bytes, Deobfuscate drops a packet exactly when no magic header stands in
-- its place: H4 or H3 at the front, H1 behind S1 bytes, H2 behind S2 bytes.
pub deobfuscate-none_iff :
    (b : Blake2s) (p : Params) (pkt key : List ℕ)
    → IsSized p
    → (deobfuscate b p pkt key ≡ done none) ↔ IsJunk p pkt
unfolding deobfuscate
deobfuscate-none_iff b p pkt key z =
    rw (classify-IsSized p pkt z)
      (elim (Option-cases (classes p (pos_part p.s1) (pos_part p.s2) pkt)) [
        | inl e ↦ rw e ((λ _. (classes-none_iff p pkt).0 e), (λ _. refl))
        | inr ((t, off), e) ↦
            let (zero_part, room) = classes-some p _ _ pkt t off e in
            (
              (λ h. absurd (deobfuscate_at-some b key pkt t off zero_part room (rw e at h))),
              (λ j. cc (e, (classes-none_iff p pkt).1 j)),
            )
      ])
