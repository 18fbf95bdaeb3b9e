-- ===== src/Awg/Transform/RoundTrip.antt =====
-- transform.go: Deobfuscate takes back what Obfuscate did.
use awg_proxy_go.Prelude.{
  ℕ, ◌+◌, ◌≤◌, ◌≡◌, ap, ◌∙◌, subst, ◌≢◌, false, List, [], ◌∷◌, some, length, take, drop, All, done,
  arith,
}
use awg_proxy_go.Prelude.Int.{pos, pos_part}
use awg_proxy_go.Prelude.Bytes.{put_bytes, IsByte}
use awg_proxy_go.Wg.{type, put_bytes-type}
use awg_proxy_go.Awg.Crypto.{Blake2s}
use awg_proxy_go.Awg.Transform.{
  Params, h_for, prefix_for, slice_from, write_mac1, restore, deobfuscate_at, deobfuscate,
  obfuscate,
}
use awg_proxy_go.Awg.Transform.Classify.{classes, header_is}
use awg_proxy_go.Awg.Transform.Mac.{HasMac1, write_mac1_again, write_mac1_self, length-write_mac1}
use awg_proxy_go.Awg.Transform.Safety.{IsSized, classify-IsSized, restore_long}
use awg_proxy_go.Awg.Transform.Shape.{
  HasU32, obfuscate-done, prefix_for-pos, packet, wire, prefix_length, length-packet, type-packet,
  drop-junk_prefix,
}

-- A WireGuard message of one of the four types, with the MAC1 for `key` where it has a MAC1.
pub record IsMessage (b : Blake2s) (key plain : List ℕ) : Type 0 where
  pub long : 4 ≤ length plain
  pub low : 1 ≤ type plain
  pub high : type plain ≤ 4
  pub header : All IsByte (take 4 plain)
  pub mac : HasMac1 b key (type plain) plain

-- No magic header that `classify` tries first stands in the packet `out` by accident, such as in
-- its random prefix.
pub record IsClear (p : Params) (typ : ℕ) (out : List ℕ) : Type 0 where
  pub not_h4 : typ ≢ 4 → type out ≢ p.h4
  pub not_h3 : typ ≤ 2 → type out ≢ p.h3
  pub not_h1 : typ ≡ 2 → header_is out (pos_part p.s1) p.h1 ≡ false

classes_out :
    (p : Params) (typ n : ℕ) (out : List ℕ)
    → 1 ≤ typ
    → typ ≤ 4
    → length out ≡ pos_part (prefix_for p typ) + n
    → 4 ≤ n
    → type (drop (pos_part (prefix_for p typ)) out) ≡ h_for p typ
    → IsClear p typ out
    → prefix_for p typ ≡ pos (pos_part (prefix_for p typ))
    → classes p (pos_part p.s1) (pos_part p.s2) out ≡ some (typ, prefix_for p typ)
unfolding prefix_for h_for
classes_out p typ n out lo hi len long head clear sized = ground arith

put_type :
    (plain : List ℕ)
    → 4 ≤ length plain
    → All IsByte (take 4 plain)
    → put_bytes (type plain) (drop 4 plain) ≡ plain
put_type (a ∷ b ∷ c ∷ d ∷ r) long bytes = put_bytes-type a b c d r bytes
put_type [] long bytes = absurd (omega arith)
put_type (a ∷ []) long bytes = absurd (omega arith)
put_type (a ∷ b ∷ []) long bytes = absurd (omega arith)
put_type (a ∷ b ∷ c ∷ []) long bytes = absurd (omega arith)

module _ (b : Blake2s) (p : Params) (rand : ℕ → List ℕ) (plain q key : List ℕ) where
  restore_wire :
      (h : ℕ)
      → IsMessage b key plain
      → restore b key (type plain) (write_mac1 b q (type plain) (put_bytes h (drop 4 plain)))
        ≡ done (some (plain, type plain))
  restore_wire h m =
      restore_long b key (type plain) _
        (omega (arith, length-write_mac1 b q (type plain) (put_bytes h (drop 4 plain))))
      ∙ ap (λ (x : List ℕ). done (some (x, type plain)))
          (write_mac1_again b q key (type plain) _ _ _ _ _ _ _ _ (drop 4 plain)
            ∙ ap (write_mac1 b key (type plain)) (put_type plain m.long m.header)
            ∙ write_mac1_self b key (type plain) plain m.mac)

  deobfuscate-packet :
      IsSized p
      → HasU32 p
      → ((n : ℕ) → length (rand n) ≡ n)
      → IsMessage b key plain
      → IsClear p (type plain) (packet b p rand plain q)
      → deobfuscate b p (packet b p rand plain q) key ≡ done (some (plain, type plain))
  unfolding deobfuscate deobfuscate_at
  deobfuscate-packet z u full m clear =
      rw
        (
          classify-IsSized p (packet b p rand plain q) z,
          classes_out p (type plain) (length plain) (packet b p rand plain q) m.low m.high
              (length-packet b p rand plain q full m.long) m.long
              (type-packet b p rand plain q full u) clear sized,
          sized,
        )
        (unfold slice_from in
          rw (drop-junk_prefix rand _ (wire b p rand plain q) full)
            (restore_wire (h_for p (type plain)) m))
    where
      sized : prefix_for p (type plain) ≡ pos (prefix_length b p rand plain q)
      sized = prefix_for-pos p (type plain) z

  -- What Obfuscate makes of a message, for whichever recipient `q`, Deobfuscate turns into the same
  -- message and its type, if each prefix has a size of 0 to 65535 bytes, the headers are 32
  -- bits wide, the random source fills what it is given, Obfuscate succeeds, and the packet is clear. The MAC1 is then the one for `key`.
  pub deobfuscate-obfuscate :
      (out : List ℕ)
      → IsSized p
      → HasU32 p
      → ((n : ℕ) → length (rand n) ≡ n)
      → IsMessage b key plain
      → obfuscate b p rand plain q ≡ done out
      → IsClear p (type plain) out
      → deobfuscate b p out key ≡ done (some (plain, type plain))
  deobfuscate-obfuscate out z u full m e clear =
      subst (λ o. deobfuscate b p o key ≡ done (some (plain, type plain))) same
        (deobfuscate-packet z u full m (rw same clear))
    where
      same : packet b p rand plain q ≡ out
      same = obfuscate-done b p rand plain q out _ m.long (prefix_for-pos p (type plain) z) e
