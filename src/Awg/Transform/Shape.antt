-- ===== src/Awg/Transform/Shape.antt =====
-- transform.go: the size and the header of what Obfuscate makes.
use awg_proxy_go.Prelude.{
  ℕ, ◌+◌, ◌≤◌, ◌≡◌, refl, ◌∙◌, ap, subst, List, [], ◌++◌, ltb, if◌then◌else◌, length, length-append,
  drop, length-drop, drop-append, done, >>=-eq-done, arith,
}
use awg_proxy_go.Prelude.Int.{pos, pos_part, ◌+ℤ◌}
use awg_proxy_go.Prelude.Machine.{
  wrap, wrap_sum, max_alloc, make_slice, make_slice_fits, max_datagram,
}
use awg_proxy_go.Prelude.Bytes.{put_bytes, put_le32_long, IsU32}
use awg_proxy_go.Wg.{type, type-put_bytes}
use awg_proxy_go.Awg.Crypto.{Blake2s}
use awg_proxy_go.Awg.Transform.{Params, h_for, prefix_for, write_mac1, obfuscate_behind, obfuscate}
use awg_proxy_go.Awg.Transform.Mac.{length-write_mac1, type-write_mac1}
use awg_proxy_go.Awg.Transform.Safety.{IsSized, pos_of_size}

abbrev pub junk_prefix : (ℕ → List ℕ) → ℕ → List ℕ
junk_prefix rand k = if ltb 0 k then rand k else []

-- What Obfuscate makes of a packet that has a header.
pub obfuscate_sized :
    (b : Blake2s) (p : Params) (rand : ℕ → List ℕ) (plain recipient : List ℕ) (k : ℕ)
    → 4 ≤ length plain
    → prefix_for p (type plain) ≡ pos k
    → k + length plain ≤ max_alloc
    → obfuscate b p rand plain recipient
      ≡ done (
          junk_prefix rand k
          ++ write_mac1 b recipient (type plain) (put_bytes (h_for p (type plain)) (drop 4 plain)))
unfolding obfuscate
obfuscate_sized b p rand plain recipient k h e small = rw e (
    unfold obfuscate_behind in
    rw
      (
        wrap_sum k (length plain) (omega arith),
        make_slice_fits 1 (k + length plain) (omega arith),
        put_le32_long plain _ h,
      )
      refl)

-- Where Obfuscate succeeds, it has made that.
pub obfuscate-done :
    (b : Blake2s) (p : Params) (rand : ℕ → List ℕ) (plain recipient out : List ℕ) (k : ℕ)
    → 4 ≤ length plain
    → prefix_for p (type plain) ≡ pos k
    → obfuscate b p rand plain recipient ≡ done out
    → junk_prefix rand k
        ++ write_mac1 b recipient (type plain) (put_bytes (h_for p (type plain)) (drop 4 plain))
      ≡ out
unfolding obfuscate obfuscate_behind
obfuscate-done b p rand plain recipient out k h e made =
    let made' : obfuscate_behind b p rand plain recipient (type plain) (pos k) ≡ done out =
      subst (λ s. obfuscate_behind b p rand plain recipient (type plain) s ≡ done out) e made in
    let (n, _, r) = >>=-eq-done (make_slice 1 (wrap (pos k +ℤ pos (length plain)))) _ made' in
    cc (r, put_le32_long plain (h_for p (type plain)) h)

pub prefix_for-pos :
    (p : Params) (t : ℕ) → IsSized p → prefix_for p t ≡ pos (pos_part (prefix_for p t))
unfolding prefix_for
prefix_for-pos p t z = ground (arith, pos_of_size p.s1 z.s1_size, pos_of_size p.s2 z.s2_size)

prefix_for-fits : (p : Params) (t : ℕ) → IsSized p → pos_part (prefix_for p t) ≤ max_datagram
unfolding prefix_for
prefix_for-fits p t z = ground (arith, z.s1_fits, z.s2_fits)

length-junk_prefix :
    (rand : ℕ → List ℕ) (k : ℕ) → ((n : ℕ) → length (rand n) ≡ n) → length (junk_prefix rand k) ≡ k
length-junk_prefix rand k full = ground (arith, full k)

pub drop-junk_prefix :
    (rand : ℕ → List ℕ) (k : ℕ) (msg : List ℕ)
    → ((n : ℕ) → length (rand n) ≡ n)
    → drop k (junk_prefix rand k ++ msg) ≡ msg
drop-junk_prefix rand k msg full =
    subst (λ n. drop n (junk_prefix rand k ++ msg) ≡ msg) (length-junk_prefix rand k full)
      (drop-append (junk_prefix rand k) msg)

-- The magic headers are Go's uint32.
pub record HasU32 (p : Params) : Type 0 where
  pub h1_u32 : IsU32 p.h1
  pub h2_u32 : IsU32 p.h2
  pub h3_u32 : IsU32 p.h3
  pub h4_u32 : IsU32 p.h4

pub h_for-IsU32 : (p : Params) (t : ℕ) → HasU32 p → IsU32 (h_for p t)
unfolding h_for
h_for-IsU32 p t u = ground arith

module _ (b : Blake2s) (p : Params) (rand : ℕ → List ℕ) (plain recipient : List ℕ) where
  abbrev pub prefix_length : ℕ
  prefix_length = pos_part (prefix_for p (type plain))

  -- What Obfuscate puts behind the prefix.
  abbrev pub wire : List ℕ
  wire = write_mac1 b recipient (type plain) (put_bytes (h_for p (type plain)) (drop 4 plain))

  abbrev pub packet : List ℕ
  packet = junk_prefix rand prefix_length ++ wire

  pub length-packet :
      ((n : ℕ) → length (rand n) ≡ n)
      → 4 ≤ length plain
      → length packet ≡ prefix_length + length plain
  length-packet full h = omega (
    arith,
    length-append (junk_prefix rand prefix_length) wire,
    length-junk_prefix rand prefix_length full,
    length-write_mac1 b recipient (type plain) (put_bytes (h_for p (type plain)) (drop 4 plain)),
    length-drop 4 plain,
  )

  pub type-packet :
      ((n : ℕ) → length (rand n) ≡ n)
      → HasU32 p
      → type (drop prefix_length packet) ≡ h_for p (type plain)
  type-packet full u =
      ap type (drop-junk_prefix rand prefix_length wire full)
      ∙ type-write_mac1 b recipient (type plain) _ (drop 4 plain)
      ∙ type-put_bytes _ (drop 4 plain) (h_for-IsU32 p (type plain) u)

-- Where each prefix has a size of 0 to 65535 bytes, the headers are 32 bits wide and the random source
-- fills what it is given, Obfuscate succeeds on a packet of 4 to 65535 bytes. The result is as long as the prefix of the
-- packet's type and the packet together, and behind the prefix stands the magic header of that type.
pub obfuscate_shape :
    (b : Blake2s) (p : Params) (rand : ℕ → List ℕ) (plain recipient : List ℕ)
    → IsSized p
    → ((n : ℕ) → length (rand n) ≡ n)
    → HasU32 p
    → 4 ≤ length plain
    → length plain ≤ max_datagram
    → (out : List ℕ) × (obfuscate b p rand plain recipient ≡ done out)
      × (length out ≡ pos_part (prefix_for p (type plain)) + length plain)
      × (type (drop (pos_part (prefix_for p (type plain))) out) ≡ h_for p (type plain))
obfuscate_shape b p rand plain recipient z full u h small = (
  packet b p rand plain recipient,
  obfuscate_sized b p rand plain recipient _ h (prefix_for-pos p (type plain) z)
      (omega (arith, prefix_for-fits p (type plain) z)),
  length-packet b p rand plain recipient full h,
  type-packet b p rand plain recipient full u,
)
