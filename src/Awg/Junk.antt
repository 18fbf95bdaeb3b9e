-- ===== src/Awg/Junk.antt =====
-- transform.go: JunkPackets.
use awg_proxy_go.Prelude.{
  ℕ, zero, suc, ◌+◌, ◌-◌, ◌*◌, ◌≤◌, ◌<◌, ◌≡◌, refl, ap, ◌∙◌, false, List, [], ◌∷◌, if◌then◌else◌,
  length, All, Run, done, panic, ◌>>=◌, ltb, Bool-cases, inl, inr, arith,
}
use awg_proxy_go.Prelude.Int.{ℤ, pos, pos_part, neg_part, ◌+ℤ◌, ◌-ℤ◌, ◌≤ℤ◌, ltb_ℤ, leb_ℤ}
use awg_proxy_go.Prelude.Machine.{wrap, max_alloc, make_slice, make_slice_fits, max_datagram}
use awg_proxy_go.Awg.Transform.{Params}
use awg_proxy_go.Awg.Transform.Safety.{pos_of_size}

-- `draw i k` is what the i-th call of rand.IntN(k) returns, `rand i n` what crypto/rand puts into
-- the n bytes of packet i.
module _ (draw : ℕ → ℕ → ℕ) (rand : ℕ → ℕ → List ℕ) where
  -- rand.IntN fails for a bound that is not positive.
  int_n : ℕ → ℤ → Run ℤ
  int_n i (pos (suc k)) = done (pos (draw i (suc k)))
  int_n i _ = panic

  unfoldable pub junk_size : Params → ℕ → Run ℤ
  unfolding ◌+ℤ◌ ◌-ℤ◌ wrap int_n
  junk_size p i =
      if ltb_ℤ p.jmin p.jmax
      then (do d ← int_n i (wrap (wrap (p.jmax -ℤ p.jmin) +ℤ pos 1)); done (wrap (p.jmin +ℤ d)))
      else done p.jmin

  junk_packet : ℕ → ℤ → Run (List ℕ)
  unfolding make_slice
  junk_packet i n = do k ← make_slice 1 n; done (rand i k)

  junk_loop : Params → ℕ → ℕ → Run (List (List ℕ))
  unfolding junk_size junk_packet
  junk_loop p zero i = done []
  junk_loop p (suc left) i = do
    n ← junk_size p i
    b ← junk_packet i n
    out ← junk_loop p left (suc i)
    done (b ∷ out)

  -- A slice of bytes takes 24 bytes in the slice of the packets.
  unfoldable pub junk_packets : Params → Run (List (List ℕ))
  unfolding make_slice junk_loop
  junk_packets p =
      if leb_ℤ p.jc (pos 0) then done [] else (do count ← make_slice 24 p.jc; junk_loop p count 0)

module _ (draw : ℕ → ℕ → ℕ) (rand : ℕ → ℕ → List ℕ) (p : Params)
    (drawn : (i k : ℕ) → 0 < k → draw i k < k) (full : (i n : ℕ) → length (rand i n) ≡ n) where
  junk_size_pos :
      (i a c : ℕ)
      → p.jmin ≡ pos a
      → p.jmax ≡ pos c
      → a ≤ c
      → c ≤ max_datagram
      → (n : ℕ) × (junk_size draw rand p i ≡ done (pos n)) × (a ≤ n) × (n ≤ c)
  unfolding junk_size int_n wrap ◌+ℤ◌ ◌-ℤ◌
  junk_size_pos i a c e1 e2 h small = elim (Bool-cases (ltb a c)) [
    | inl less ↦ (
      a + draw i (suc (c - a)),
      ground (arith, drawn i (suc (c - a))),
      omega arith,
      ground (arith, drawn i (suc (c - a))),
    )
    | inr same ↦ (a, ground arith, omega arith, ground arith)
  ]

  junk_packet-made :
      (i n : ℕ) → n ≤ max_datagram → junk_packet draw rand i (pos n) ≡ done (rand i n)
  unfolding junk_packet
  junk_packet-made i n small = rw (make_slice_fits 1 n (omega arith)) refl

  junk_loop_range :
      (left i a c : ℕ)
      → p.jmin ≡ pos a
      → p.jmax ≡ pos c
      → a ≤ c
      → c ≤ max_datagram
      → (out : List (List ℕ)) × (junk_loop draw rand p left i ≡ done out)
        × (length out ≡ left)
        × All (λ b. (a ≤ length b) × (length b ≤ c)) out
  unfolding junk_loop
  junk_loop_range zero i a c e1 e2 h small = ([], refl, refl, tt)
  junk_loop_range (suc left) i a c e1 e2 h small =
      let (n, size, lo, hi) = junk_size_pos i a c e1 e2 h small in
      let (out, run, len, ok) = junk_loop_range left (suc i) a c e1 e2 h small in
      (
        rand i n ∷ out,
        rw (size, junk_packet-made i n (omega arith), run) refl,
        ap suc len,
        ((omega (arith, full i n), omega (arith, full i n)), ok),
      )

  junk_packets-loop :
      (n : ℕ)
      → leb_ℤ p.jc (pos 0) ≡ false
      → p.jc ≡ pos n
      → n * 24 ≤ max_alloc
      → junk_packets draw rand p ≡ junk_loop draw rand p n 0
  unfolding junk_packets
  junk_packets-loop n some_jc e small =
      let from : ℤ → Run (List (List ℕ)) =
        λ c. make_slice 24 c >>= (λ count. junk_loop draw rand p count 0) in
      let first : junk_packets draw rand p ≡ from p.jc = rw some_jc refl in
      let last : from (pos n) ≡ junk_loop draw rand p n 0 = rw (make_slice_fits 24 n small) refl in
      first ∙ ap from e ∙ last

  -- Where the random numbers are below their bounds, the random source fills what it is given,
  -- 0 <= Jmin <= Jmax, and neither Jmax nor Jc is above 65535, JunkPackets succeeds: it makes Jc
  -- packets, none for a negative Jc, and each has a length from Jmin to Jmax.
  pub junk_packets_range :
      neg_part p.jmin ≡ 0
      → p.jmin ≤ℤ p.jmax
      → pos_part p.jmax ≤ max_datagram
      → pos_part p.jc ≤ max_datagram
      → (out : List (List ℕ)) × (junk_packets draw rand p ≡ done out)
        × (length out ≡ pos_part p.jc)
        × All (λ b. (pos_part p.jmin ≤ length b) × (length b ≤ pos_part p.jmax)) out
  unfolding junk_packets
  junk_packets_range z h small few = elim (Bool-cases (leb_ℤ p.jc (pos 0))) [
    | inl empty ↦ ([], rw empty refl, ground arith, tt)
    | inr some_jc ↦
        let low : p.jmin ≡ pos (pos_part p.jmin) = pos_of_size p.jmin z in
        let high : p.jmax ≡ pos (pos_part p.jmax) = ground arith in
        let count : p.jc ≡ pos (pos_part p.jc) = ground arith in
        let (out, run, len, ok) =
          junk_loop_range (pos_part p.jc) 0 _ _ low high (omega arith) small in
        (out, junk_packets-loop _ some_jc count (omega arith) ∙ run, len, ok)
  ]
