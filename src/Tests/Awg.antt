-- ===== src/Tests/Awg.antt =====
-- internal/awg on concrete packets, over a toy MAC.
use awg_proxy_go.Prelude.{
  ℕ, ◌+◌, ◌-◌, ◌%◌, ◌^◌, ◌≤◌, ◌≡◌, refl, List, [], ◌∷◌, ◌++◌, some, length, length-replicate,
  replicate, drop, done, panic, arith,
}
use awg_proxy_go.Prelude.Int.{pos, negsuc, pos_part}
use awg_proxy_go.Prelude.Bytes.{put_bytes}
use awg_proxy_go.Wg.{type}
use awg_proxy_go.Awg.Crypto.{Blake2s}
use awg_proxy_go.Awg.Transform.{Params, prefix_for, h_for, write_mac1, deobfuscate, obfuscate}
use awg_proxy_go.Awg.Transform.Mac.{write_mac1-HasMac1}
use awg_proxy_go.Awg.Transform.Safety.{IsSized, obfuscate_short, negative_s1, huge_s1}
use awg_proxy_go.Awg.Transform.Shape.{HasU32, obfuscate_shape}
use awg_proxy_go.Awg.Transform.Standard.{IsStandard, deobfuscate-IsStandard}
use awg_proxy_go.Awg.Transform.Dropped.{IsJunk, deobfuscate-none_iff}
use awg_proxy_go.Awg.Transform.RoundTrip.{IsMessage, IsClear, deobfuscate-obfuscate}

abbrev pub toy_mac : Blake2s
toy_mac = record {
  sum256 = λ xs. (length xs % 256) ∷ replicate 31 0;
  keyed128 = λ key msg. ((length key + length msg) % 256) ∷ replicate 15 7;
  length-keyed128 = λ key msg. refl;
}

abbrev pub params : Params
params = record {
  h1 = 0xCAFEBABE;
  h2 = 0xDEADBEEF;
  h3 = 0x11112222;
  h4 = 0x33334444;
  s1 = pos 16;
  s2 = pos 24;
  jc = pos 3;
  jmin = pos 40;
  jmax = pos 70;
}

abbrev pub zeros : ℕ → List ℕ
zeros n = replicate n 0

abbrev pub key : List ℕ
key = replicate 32 5

abbrev pub other_key : List ℕ
other_key = replicate 32 6

-- A handshake response of 92 bytes.
abbrev pub response : List ℕ
response = write_mac1 toy_mac key 2 (2 ∷ 0 ∷ 0 ∷ 0 ∷ replicate 88 9)

abbrev transport : List ℕ
transport = 4 ∷ 0 ∷ 0 ∷ 0 ∷ replicate 28 9

abbrev pub response_wire : List ℕ
response_wire =
    replicate 24 0 ++ write_mac1 toy_mac other_key 2 (put_bytes 0xDEADBEEF (drop 4 response))

pub params-IsSized : IsSized params
params-IsSized = record {
  s1_size = refl;
  s2_size = refl;
  s1_fits = omega arith;
  s2_fits = omega arith;
}

params-HasU32 : HasU32 params
params-HasU32 = omega arith

pub response_made : obfuscate toy_mac params zeros response other_key ≡ done response_wire
unfolding obfuscate write_mac1
response_made = refl

response-IsMessage : IsMessage toy_mac key response
unfolding write_mac1 type
response-IsMessage = record {
  long = omega arith;
  low = omega arith;
  high = omega arith;
  header = omega arith;
  mac = write_mac1-HasMac1 toy_mac key 2 (2 ∷ 0 ∷ 0 ∷ 0 ∷ replicate 88 9);
}

response-IsClear : IsClear params (type response) response_wire
unfolding write_mac1 type
response-IsClear = record {
  not_h4 = λ h. omega arith;
  not_h3 = λ h. omega arith;
  not_h1 = λ h. refl;
}

deobfuscate-obfuscate_example :
    deobfuscate toy_mac params response_wire key ≡ done (some (response, type response))
deobfuscate-obfuscate_example =
    deobfuscate-obfuscate toy_mac params zeros response other_key key response_wire params-IsSized
      params-HasU32 (λ n. length-replicate n 0) response-IsMessage response_made response-IsClear

short_panics : obfuscate toy_mac params zeros (4 ∷ 0 ∷ 0 ∷ []) key ≡ panic
short_panics = obfuscate_short toy_mac params zeros (4 ∷ 0 ∷ 0 ∷ []) key (omega arith)

transport-type : type transport ≡ 4
unfolding type
transport-type = refl

obfuscate_shape_example :
    (out : List ℕ) × (obfuscate toy_mac params zeros transport key ≡ done out)
    × (length out ≡ pos_part (prefix_for params (type transport)) + 32)
    × (type (drop (pos_part (prefix_for params (type transport))) out)
        ≡ h_for params (type transport))
obfuscate_shape_example =
    obfuscate_shape toy_mac params zeros transport key params-IsSized (λ n. length-replicate n 0)
      params-HasU32 (omega arith) (omega arith)

abbrev negative : Params
negative = record params { s1 = negsuc 0 }

negative_s1_example :
    (deobfuscate toy_mac negative response_wire key ≡ panic)
    × (obfuscate toy_mac negative zeros (1 ∷ 0 ∷ 0 ∷ 0 ∷ []) key ≡ panic)
unfolding type write_mac1
negative_s1_example =
    negative_s1 toy_mac negative zeros 0 response_wire (1 ∷ 0 ∷ 0 ∷ 0 ∷ []) key refl (omega arith)
      (omega arith) (omega arith) (omega arith) refl

abbrev huge : Params
huge = record params { s1 = pos (2 ^ 63 - 1) }

huge_s1_example : deobfuscate toy_mac huge (replicate 64 255) key ≡ panic
unfolding type
huge_s1_example =
    huge_s1 toy_mac huge (2 ^ 63 - 1) (replicate 64 255) key refl (omega arith) (omega arith)
      (omega arith) (omega arith) (omega arith) (omega arith)

pub wire_read : deobfuscate toy_mac params response_wire key ≡ done (some (response, 2))
unfolding deobfuscate write_mac1
wire_read = refl

deobfuscate-IsStandard_example :
    IsStandard toy_mac key 2 response × (length response ≤ length response_wire)
deobfuscate-IsStandard_example =
    deobfuscate-IsStandard toy_mac params response_wire key response 2 wire_read

deobfuscate-none_iff_example : IsJunk params (replicate 64 255)
unfolding deobfuscate
deobfuscate-none_iff_example =
    (deobfuscate-none_iff toy_mac params (replicate 64 255) key params-IsSized).0 refl
