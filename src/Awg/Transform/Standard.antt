-- ===== src/Awg/Transform/Standard.antt =====
-- transform.go: what Deobfuscate lets through.
use awg_proxy_go.Prelude.{
  ℕ, ◌≤◌, ◌≡◌, sym, subst, ◌∙◌, inl, inr, List, Option, none, some, length, length-drop, drop, Run,
  done, >>=-eq-done, arith,
}
use awg_proxy_go.Prelude.Int.{ℤ, pos, negsuc}
use awg_proxy_go.Prelude.Bytes.{put_bytes}
use awg_proxy_go.Wg.{type, type-put_bytes}
use awg_proxy_go.Awg.Crypto.{Blake2s}
use awg_proxy_go.Awg.Transform.{
  Params, slice_from, classify, write_mac1, restore, deobfuscate_at, deobfuscate,
}
use awg_proxy_go.Awg.Transform.Mac.{
  HasMac1, le_or_lt, write_mac1-HasMac1, length-write_mac1, type-write_mac1,
}
use awg_proxy_go.Awg.Transform.Safety.{restore_long, restore_short}

-- A standard WireGuard message of type `typ`, with the MAC1 for `key`.
pub record IsStandard (b : Blake2s) (key : List ℕ) (typ : ℕ) (plain : List ℕ) : Type 0 where
  pub low : 1 ≤ typ
  pub high : typ ≤ 4
  pub type_is : type plain ≡ typ
  pub mac : HasMac1 b key typ plain

restore-IsStandard :
    (b : Blake2s) (key : List ℕ) (typ : ℕ) (tail plain : List ℕ) (t : ℕ)
    → 1 ≤ typ
    → typ ≤ 4
    → restore b key typ tail ≡ done (some (plain, t))
    → IsStandard b key t plain × (length plain ≡ length tail)
restore-IsStandard b key typ tail plain t lo hi e = elim (le_or_lt 4 (length tail)) [
  | inr short ↦ cc (e, restore_short b key typ tail short)
  | inl long ↦
      let msg = put_bytes typ (drop 4 tail) in
      let got = write_mac1 b key typ msg in
      let eq : ◌≡◌ {A = Run (Option (List ℕ × ℕ))} (done (some (got, typ)))
          (done (some (plain, t))) =
        sym (restore_long b key typ tail long) ∙ e in
      let same : got ≡ plain = cc eq in
      let kind : typ ≡ t = cc eq in
      subst (λ k. IsStandard b key k plain × (length plain ≡ length tail)) kind
        (subst (λ m. IsStandard b key typ m × (length m ≡ length tail)) same
          (
            record {
              low = lo;
              high = hi;
              type_is =
                  type-write_mac1 b key typ typ (drop 4 tail) ∙ type-put_bytes typ _ (omega arith);
              mac = write_mac1-HasMac1 b key typ msg;
            },
            omega (arith, length-write_mac1 b key typ msg, length-drop 4 tail),
          ))
]

classify_known :
    (p : Params) (pkt : List ℕ) (t : ℕ) (off : ℤ)
    → classify p pkt ≡ done (some (t, off))
    → (1 ≤ t) × (t ≤ 4)
unfolding classify
classify_known p pkt t off e = ground arith

length-slice_from :
    (pkt tail : List ℕ) (off : ℤ) → slice_from pkt off ≡ done tail → length tail ≤ length pkt
unfolding slice_from
length-slice_from pkt tail (pos n) e = ground (arith, length-drop n pkt)
length-slice_from pkt tail (negsuc n) e = cc

deobfuscate_at-IsStandard :
    (b : Blake2s) (p : Params) (pkt key plain : List ℕ) (t : ℕ) (found : Option (ℕ × ℤ))
    → classify p pkt ≡ done found
    → deobfuscate_at b key pkt found ≡ done (some (plain, t))
    → IsStandard b key t plain × (length plain ≤ length pkt)
unfolding deobfuscate_at
deobfuscate_at-IsStandard b p pkt key plain t none c e = cc
deobfuscate_at-IsStandard b p pkt key plain t (some (typ, off)) c e =
    let (tail, s, r) = >>=-eq-done (slice_from pkt off) _ e in
    let (lo, hi) = classify_known p pkt typ off c in
    let (std, len) = restore-IsStandard b key typ tail plain t lo hi r in
    (std, omega (arith, length-slice_from pkt tail off s))

-- What Deobfuscate lets through is a standard message: its first four bytes hold the type that is
-- returned, one of 1 to 4, and its MAC1 is the one for `key` if the type has a MAC1 and the message
-- has room for it. It is no longer than the packet.
pub deobfuscate-IsStandard :
    (b : Blake2s) (p : Params) (pkt key plain : List ℕ) (typ : ℕ)
    → deobfuscate b p pkt key ≡ done (some (plain, typ))
    → IsStandard b key typ plain × (length plain ≤ length pkt)
unfolding deobfuscate
deobfuscate-IsStandard b p pkt key plain typ e =
    let (found, c, r) = >>=-eq-done (classify p pkt) _ e in
    deobfuscate_at-IsStandard b p pkt key plain typ found c r
