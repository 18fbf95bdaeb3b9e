-- ===== src/Awg/Transform/Mac.antt =====
-- The MAC1 step of transform.go on its own.
use awg_proxy_go.Prelude.{
  ℕ, suc, ◌+◌, ◌≤◌, ◌<◌, ◌≡◌, refl, sym, ap, ◌∙◌, ◌⊎◌, inl, inr, List, ◌∷◌, none, some, leb,
  Bool-cases, Option-cases, length, take, drop, arith,
}
use awg_proxy_go.Prelude.Bytes.{
  put_bytes, copy_at, length-copy_at, take-copy_at, field-copy_at, copy_at_again, copy_at_self,
}
use awg_proxy_go.Wg.{type, mac1_offset, mac1_size}
use awg_proxy_go.Awg.Crypto.{Blake2s, compute_mac1}
use awg_proxy_go.Awg.Transform.{write_field, write_mac1}

pub le_or_lt : (m n : ℕ) → (m ≤ n) ⊎ (n < m)
le_or_lt m n = elim (Bool-cases (leb m n)) [
  | inl e ↦ inl (ground arith)
  | inr e ↦ inr (ground arith)
]

mac1_offset_cases :
    (t : ℕ) → (mac1_offset t ≡ none) ⊎ ((mac1_offset t ≡ some 116) ⊎ (mac1_offset t ≡ some 60))
unfolding mac1_offset
mac1_offset_cases t = ground arith

module _ (b : Blake2s) where
  -- The field at `mo`, if the message reaches behind it, is the MAC of what stands before it.
  abbrev pub HasField : List ℕ → ℕ → List ℕ → Type 0
  HasField pub_key mo msg =
      mo + mac1_size ≤ length msg
      → take mac1_size (drop mo msg) ≡ compute_mac1 b pub_key (take mo msg)

  -- A message of type `typ` carries the MAC1 for `pub_key`, if it has room for one.
  abbrev pub HasMac1 : List ℕ → ℕ → List ℕ → Type 0
  HasMac1 pub_key typ msg = (mo : ℕ) → mac1_offset typ ≡ some mo → HasField pub_key mo msg

  length-mac : (pub_key msg : List ℕ) → length (compute_mac1 b pub_key msg) ≡ 16
  unfolding compute_mac1
  length-mac pub_key msg = b.length-keyed128 _ msg

  length-write_field :
      (pub_key : List ℕ) (mo : ℕ) (msg : List ℕ)
      → length (write_field b pub_key mo msg) ≡ length msg
  unfolding write_field
  length-write_field pub_key mo msg =
      ground (arith, length-copy_at 16 _ (length-mac pub_key (take mo msg)) mo msg)

  write_field_room :
      (pub_key : List ℕ) (mo : ℕ) (msg : List ℕ)
      → mo + mac1_size ≤ length msg
      → write_field b pub_key mo msg
        ≡ copy_at mo mac1_size (compute_mac1 b pub_key (take mo msg)) msg
  unfolding write_field
  write_field_room pub_key mo msg h = ground arith

  write_field_short :
      (pub_key : List ℕ) (mo : ℕ) (msg : List ℕ)
      → length msg < mo + mac1_size
      → write_field b pub_key mo msg ≡ msg
  unfolding write_field
  write_field_short pub_key mo msg h = ground arith

  write_field-HasField :
      (pub_key : List ℕ) (mo : ℕ) (msg : List ℕ)
      → HasField pub_key mo (write_field b pub_key mo msg)
  write_field-HasField pub_key mo msg h = rw (write_field_room pub_key mo msg room) written
    where
      room : mo + mac1_size ≤ length msg
      room = omega (arith, length-write_field pub_key mo msg)

      mac : List ℕ
      mac = compute_mac1 b pub_key (take mo msg)

      written :
          take mac1_size (drop mo (copy_at mo mac1_size mac msg))
          ≡ compute_mac1 b pub_key (take mo (copy_at mo mac1_size mac msg))
      written =
          field-copy_at 16 mac (length-mac _ _) mo msg (omega (arith, room))
          ∙ ap (compute_mac1 b pub_key)
              (sym (take-copy_at 16 mac (length-mac _ _) mo msg (omega (arith, room))))

  -- A message that has the field already stays as it is.
  write_field_self :
      (pub_key : List ℕ) (mo : ℕ) (msg : List ℕ)
      → HasField pub_key mo msg
      → write_field b pub_key mo msg ≡ msg
  unfolding write_field
  write_field_self pub_key mo msg h = elim (Bool-cases (leb (mo + mac1_size) (length msg))) [
    | inl room ↦ rw room (copy_at_self mo 16 _ msg (h (ground arith)))
    | inr short ↦ rw short
  ]

  -- What stands in the field is not read.
  write_field_over :
      (q : List ℕ) (mo : ℕ) (a c d e : ℕ) (field r : List ℕ)
      → length field ≡ 16
      → mo + 16 ≤ length r
      → write_field b q (suc (suc (suc (suc mo)))) (a ∷ c ∷ d ∷ e ∷ copy_at mo 16 field r)
        ≡ write_field b q (suc (suc (suc (suc mo)))) (a ∷ c ∷ d ∷ e ∷ r)
  write_field_over q mo a c d e field r fits room =
      write_field_room q (suc (suc (suc (suc mo)))) (a ∷ c ∷ d ∷ e ∷ copy_at mo 16 field r)
        (omega (arith, length-copy_at 16 field fits mo r room))
      ∙ ap
          (λ (m : List ℕ).
            a
            ∷ c
            ∷ d
            ∷ e
            ∷ copy_at mo 16 (compute_mac1 b q (a ∷ c ∷ d ∷ e ∷ m)) (copy_at mo 16 field r))
          (take-copy_at 16 field fits mo r (omega arith))
      ∙ ap (λ (m : List ℕ). a ∷ c ∷ d ∷ e ∷ m) (copy_at_again 16 field fits mo _ r (omega arith))
      ∙ sym (write_field_room q (suc (suc (suc (suc mo)))) (a ∷ c ∷ d ∷ e ∷ r) (omega arith))

  -- A field written for another key does not show behind a new header and a new field.
  write_field_again :
      (p q : List ℕ) (mo : ℕ) (a c d e a' c' d' e' : ℕ) (r : List ℕ)
      → write_field b q (suc (suc (suc (suc mo)))) (
          a'
          ∷ c'
          ∷ d'
          ∷ e'
          ∷ drop 4 (write_field b p (suc (suc (suc (suc mo)))) (a ∷ c ∷ d ∷ e ∷ r)))
        ≡ write_field b q (suc (suc (suc (suc mo)))) (a' ∷ c' ∷ d' ∷ e' ∷ r)
  write_field_again p q mo a c d e a' c' d' e' r = elim (le_or_lt (mo + 16) (length r)) [
    | inl room ↦
        rw (write_field_room p (suc (suc (suc (suc mo)))) (a ∷ c ∷ d ∷ e ∷ r) (omega arith))
          (write_field_over q mo a' c' d' e' _ r (length-mac p _) room)
    | inr short ↦
        rw (write_field_short p (suc (suc (suc (suc mo)))) (a ∷ c ∷ d ∷ e ∷ r) (omega arith)) refl
  ]

  write_mac1-some :
      (p : List ℕ) (typ : ℕ) {mo : ℕ} (msg : List ℕ)
      → mac1_offset typ ≡ some mo
      → write_mac1 b p typ msg ≡ write_field b p mo msg
  unfolding write_mac1
  write_mac1-some p typ msg e = rw (e, write_mac1)

  write_mac1-none :
      (p : List ℕ) (typ : ℕ) (msg : List ℕ) → mac1_offset typ ≡ none → write_mac1 b p typ msg ≡ msg
  unfolding write_mac1
  write_mac1-none p typ msg e = rw (e, write_mac1)

  -- The same for the MAC1 of a type: the header in front of it is free, and a MAC1 written before
  -- leaves no trace.
  pub write_mac1_again :
      (p q : List ℕ) (typ : ℕ) (a c d e a' c' d' e' : ℕ) (r : List ℕ)
      → write_mac1 b q typ (a' ∷ c' ∷ d' ∷ e' ∷ drop 4 (write_mac1 b p typ (a ∷ c ∷ d ∷ e ∷ r)))
        ≡ write_mac1 b q typ (a' ∷ c' ∷ d' ∷ e' ∷ r)
  write_mac1_again p q typ a c d e a' c' d' e' r = elim (mac1_offset_cases typ) [
    | inl absent ↦ rw (write_mac1-none p typ (a ∷ c ∷ d ∷ e ∷ r) absent) refl
    | inr (inl at) ↦
        rw
          (
            write_mac1-some p typ (a ∷ c ∷ d ∷ e ∷ r) at,
            write_mac1-some q typ _ at,
            write_mac1-some q typ _ at,
          )
          (write_field_again p q 112 a c d e a' c' d' e' r)
    | inr (inr at) ↦
        rw
          (
            write_mac1-some p typ (a ∷ c ∷ d ∷ e ∷ r) at,
            write_mac1-some q typ _ at,
            write_mac1-some q typ _ at,
          )
          (write_field_again p q 56 a c d e a' c' d' e' r)
  ]

  pub length-write_mac1 :
      (p : List ℕ) (typ : ℕ) (msg : List ℕ) → length (write_mac1 b p typ msg) ≡ length msg
  unfolding write_mac1
  length-write_mac1 p typ msg =
      ground (arith, length-write_field p 116 msg, length-write_field p 60 msg)

  pub write_mac1-HasMac1 :
      (p : List ℕ) (typ : ℕ) (msg : List ℕ) → HasMac1 p typ (write_mac1 b p typ msg)
  write_mac1-HasMac1 p typ msg mo e =
      rw (write_mac1-some p typ msg e) (write_field-HasField p mo msg)

  pub write_mac1_self :
      (p : List ℕ) (typ : ℕ) (msg : List ℕ) → HasMac1 p typ msg → write_mac1 b p typ msg ≡ msg
  write_mac1_self p typ msg h = elim (Option-cases (mac1_offset typ)) [
    | inl e ↦ write_mac1-none p typ msg e
    | inr (mo, e) ↦ write_mac1-some p typ msg e ∙ (write_field_self p mo msg (h mo e))
  ]

  -- The header stays.
  pub take-write_mac1 :
      (p : List ℕ) (typ : ℕ) (a c d e : ℕ) (r : List ℕ)
      → write_mac1 b p typ (a ∷ c ∷ d ∷ e ∷ r)
        ≡ a ∷ c ∷ d ∷ e ∷ drop 4 (write_mac1 b p typ (a ∷ c ∷ d ∷ e ∷ r))
  unfolding write_mac1 write_field
  take-write_mac1 p typ a c d e r = ground arith

  pub type-write_mac1 :
      (p : List ℕ) (typ v : ℕ) (r : List ℕ)
      → type (write_mac1 b p typ (put_bytes v r)) ≡ type (put_bytes v r)
  unfolding type
  type-write_mac1 p typ v r = ap type (take-write_mac1 p typ _ _ _ _ r)
