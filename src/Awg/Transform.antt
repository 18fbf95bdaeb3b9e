-- ===== src/Awg/Transform.antt =====
-- internal/awg/transform.go: Params, classify, Deobfuscate and Obfuscate.
pub mod Mac
pub mod Classify
pub mod Safety
pub mod Shape
pub mod Standard
pub mod Dropped
pub mod RoundTrip
use awg_proxy_go.Prelude.{
  ℕ, ◌+◌, ◌≤◌, Bool, true, false, List, ◌++◌, [], Option, none, some, ◌==◌, ltb, leb, if◌then◌else◌,
  length, take, drop, Run, done, panic, ◌>>=◌,
}
use awg_proxy_go.Prelude.Int.{ℤ, pos, negsuc, ◌+ℤ◌, leb_ℤ}
use awg_proxy_go.Prelude.Machine.{wrap, make_slice}
use awg_proxy_go.Prelude.Bytes.{le32, put_le32, copy_at}
use awg_proxy_go.Wg.{
  type, set_type, mac1_offset, type_init, type_response, type_cookie, type_transport, mac1_size,
}
use awg_proxy_go.Awg.Crypto.{Blake2s, compute_mac1}

-- The sizes are Go's `int`, and nothing in the program keeps them from being negative.
pub record Params : Type 0 where
  pub h1 : ℕ
  pub h2 : ℕ
  pub h3 : ℕ
  pub h4 : ℕ
  pub s1 : ℤ
  pub s2 : ℤ
  pub jc : ℤ
  pub jmin : ℤ
  pub jmax : ℤ

unfoldable pub h_for : Params → ℕ → ℕ
h_for p t =
    if t == type_init
    then p.h1
    else if t == type_response
    then p.h2
    else if t == type_cookie
    then p.h3
    else p.h4

unfoldable pub prefix_for : Params → ℕ → ℤ
prefix_for p t = if t == type_init then p.s1 else if t == type_response then p.s2 else pos 0

-- pkt[s:], which fails for a negative `s`.
unfoldable pub slice_from : List ℕ → ℤ → Run (List ℕ)
slice_from pkt (pos s) = done (drop s pkt)
slice_from pkt (negsuc s) = panic

-- len(pkt) >= s+4 && binary.LittleEndian.Uint32(pkt[s:s+4]) == h. Where s+4 wraps, the test holds and
-- the slice, which begins behind its end, fails.
unfoldable pub has_header : List ℕ → ℤ → ℕ → Run Bool
unfolding slice_from le32 ◌+ℤ◌ wrap
has_header pkt s h =
    if leb_ℤ (wrap (s +ℤ pos 4)) (pos (length pkt))
    then (do tail ← slice_from pkt s; v ← le32 tail; done (v == h))
    else done false

classify_handshake : Params → List ℕ → Run (Option (ℕ × ℤ))
unfolding has_header
classify_handshake p pkt = do
  init ← has_header pkt p.s1 p.h1
  if init then done (some (type_init, p.s1)) else do
    response ← has_header pkt p.s2 p.h2
    if response then done (some (type_response, p.s2)) else done none

-- The type of an obfuscated packet and where its message begins; `none` is junk.
unfoldable pub classify : Params → List ℕ → Run (Option (ℕ × ℤ))
unfolding le32 classify_handshake
classify p pkt = if ltb (length pkt) 4 then done none else do
  head ← le32 pkt
  if head == p.h4
      then done (some (type_transport, pos 0))
      else if head == p.h3
      then done (some (type_cookie, pos 0))
      else classify_handshake p pkt

write_field : Blake2s → List ℕ → ℕ → List ℕ → List ℕ
unfolding compute_mac1
write_field b pub_key mo msg =
    if leb (mo + mac1_size) (length msg)
    then copy_at mo mac1_size (compute_mac1 b pub_key (take mo msg)) msg
    else msg

-- `if mo, has := MAC1Offset(typ); has && len(msg) >= mo+MAC1Size { … copy(…) }`
unfoldable pub write_mac1 : Blake2s → List ℕ → ℕ → List ℕ → List ℕ
unfolding mac1_offset write_field
write_mac1 b pub_key typ msg = elim (mac1_offset typ) [
  | none ↦ msg
  | some mo ↦ write_field b pub_key mo msg
]

pub restore : Blake2s → List ℕ → ℕ → List ℕ → Run (Option (List ℕ × ℕ))
unfolding set_type write_mac1
restore b recipient typ plain =
    if ltb (length plain) 4
    then done none
    else do msg ← set_type plain typ; done (some (write_mac1 b recipient typ msg, typ))

deobfuscate_at : Blake2s → List ℕ → List ℕ → Option (ℕ × ℤ) → Run (Option (List ℕ × ℕ))
unfolding slice_from restore
deobfuscate_at b recipient pkt none = done none
deobfuscate_at b recipient pkt (some (typ, off)) = do
  plain ← slice_from pkt off
  restore b recipient typ plain

-- The content of the slice that comes back and its type; `none` is junk. The slice ends where
-- `pkt` ends, so it has the spare bytes of `pkt`.
unfoldable pub deobfuscate : Blake2s → Params → List ℕ → List ℕ → Run (Option (List ℕ × ℕ))
unfolding classify deobfuscate_at
deobfuscate b p pkt recipient = do found ← classify p pkt; deobfuscate_at b recipient pkt found

obfuscate_behind : Blake2s → Params → (ℕ → List ℕ) → List ℕ → List ℕ → ℕ → ℤ → Run (List ℕ)
unfolding h_for put_le32 write_mac1 make_slice wrap ◌+ℤ◌
obfuscate_behind b p rand plain recipient typ (pos prefix) = do
  n ← make_slice 1 (wrap (pos prefix +ℤ pos (length plain)))
  msg ← put_le32 plain (h_for p typ)
  done ((if ltb 0 prefix then rand prefix else []) ++ write_mac1 b recipient typ msg)
obfuscate_behind b p rand plain recipient typ (negsuc prefix) = panic

-- `rand n` is what crypto/rand puts into n bytes. A negative prefix fails in `make` or in the slice
-- expression behind it, a huge one in `make`, a packet of fewer than four bytes in `msg[:4]`.
unfoldable pub obfuscate : Blake2s → Params → (ℕ → List ℕ) → List ℕ → List ℕ → Run (List ℕ)
unfolding prefix_for obfuscate_behind type
obfuscate b p rand plain recipient =
    let typ = type plain in obfuscate_behind b p rand plain recipient typ (prefix_for p typ)
