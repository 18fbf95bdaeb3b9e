-- ===== src/Wg.antt =====
-- internal/wg/message.go: message types, indices and the place of the MAC1 field.
use awg_proxy_go.Prelude.{ℕ, ◌||◌, List, [], ◌∷◌, ◌++◌, Option, none, some}
use awg_proxy_go.Prelude.{◌==◌, if◌then◌else◌, drop, All, Run, done, ◌≡◌, arith}
use awg_proxy_go.Prelude.Bytes.{le32, le32_value, put_le32, put_bytes, IsByte, IsU32}

abbrev pub type_init : ℕ
type_init = 1

abbrev pub type_response : ℕ
type_response = 2

abbrev pub type_cookie : ℕ
type_cookie = 3

abbrev pub type_transport : ℕ
type_transport = 4

abbrev pub mac1_offset_init : ℕ
mac1_offset_init = 116

abbrev pub mac1_offset_response : ℕ
mac1_offset_response = 60

abbrev pub mac1_size : ℕ
mac1_size = 16

-- A slice of a read buffer: its content, and what stands behind it up to the buffer's end. A slice
-- expression `pkt[a:b]` is checked against the capacity, so it may reach into `spare`.
pub record Slice : Type 0 where
  pub bytes : List ℕ
  pub spare : List ℕ

abbrev pub whole : Slice → List ℕ
whole s = s.bytes ++ s.spare

-- 0 for fewer than four bytes.
unfoldable pub type : List ℕ → ℕ
type (a ∷ b ∷ c ∷ d ∷ rest) = le32_value a b c d
type _ = 0

unfoldable pub set_type : List ℕ → ℕ → Run (List ℕ)
unfolding put_le32
set_type pkt t = put_le32 pkt t

unfoldable pub sender_index : Slice → Run ℕ
unfolding le32
sender_index s = le32 (drop 4 (whole s))

unfoldable pub receiver_index : Slice → Run ℕ
unfolding le32 type
receiver_index s =
    let t = type s.bytes in
    if t == type_response
    then le32 (drop 8 (whole s))
    else if t == type_cookie || t == type_transport
    then le32 (drop 4 (whole s))
    else done 0

-- Where MAC1 stands; `none` for the types that have no such field.
unfoldable pub mac1_offset : ℕ → Option ℕ
mac1_offset t =
    if t == type_init
    then some mac1_offset_init
    else if t == type_response
    then some mac1_offset_response
    else none

pub type-put_bytes : (v : ℕ) (rest : List ℕ) → IsU32 v → type (put_bytes v rest) ≡ v
unfolding type
type-put_bytes v rest h = omega arith

-- The header of four bytes, written again.
pub put_bytes-type :
    (a b c d : ℕ) (rest : List ℕ)
    → All IsByte (a ∷ b ∷ c ∷ d ∷ [])
    → put_bytes (type (a ∷ b ∷ c ∷ d ∷ rest)) rest ≡ a ∷ b ∷ c ∷ d ∷ rest
unfolding type
put_bytes-type a b c d rest h = ground arith
