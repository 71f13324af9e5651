-- ===== src/DiamondTypes/Encoding/Unrolled/Wide.antt =====
-- That the hand-unrolled decoder for `u64` of tools/diamond-types/src/encoding/varint.rs is the one
-- with the loop, on every sequence of bytes.
use egwalker_paper.Base.{
  ℕ, ◌^◌, ◌<◌, ◌≡◌, refl, List, [], ◌∷◌, leb, ◌==◌, arith, false, inl, inr, Bool-cases, All, sym,
  subst,
}
use egwalker_paper.DiamondTypes.Encoding.Varint.{decode_prefix_varint_u64}
use egwalker_paper.DiamondTypes.Encoding.Unrolled.{unroll_9, decode_prefix_varint_u64_unroll}
use egwalker_paper.DiamondTypes.Encoding.Unrolled.Heads.{case_3, case_4, case_5, case_6}
use egwalker_paper.DiamondTypes.Encoding.Unrolled.Tails.{case_7, case_8, case_9}

long :
    (b0 : ℕ) (bs : List ℕ)
    → leb b0 0xbf ≡ false
    → b0 < 256
    → All (λ b. b < 256) bs
    → decode_prefix_varint_u64 (b0 ∷ bs) ≡ decode_prefix_varint_u64_unroll (b0 ∷ bs)
unfolding decode_prefix_varint_u64_unroll
long b0 bs e byte rest =
    let a : leb b0 0x7f ≡ false = ground (arith, e) in
    elim (Bool-cases (leb b0 0xdf)) [
      | inl b3 ↦ rw (a, e, b3) (case_3 b0 (ground (arith, e)) (ground (arith, b3)) bs rest)
      | inr b3 ↦ elim (Bool-cases (leb b0 0xef)) [
        | inl b4 ↦ rw (a, e, b3, b4) (case_4 b0 (ground (arith, b3)) (ground (arith, b4)) bs rest)
        | inr b4 ↦ elim (Bool-cases (leb b0 0xf7)) [
          | inl b5 ↦
              rw (a, e, b3, b4, b5) (case_5 b0 (ground (arith, b4)) (ground (arith, b5)) bs rest)
          | inr b5 ↦ elim (Bool-cases (leb b0 0xfb)) [
            | inl b6 ↦
                rw (a, e, b3, b4, b5, b6)
                  (case_6 b0 (ground (arith, b5)) (ground (arith, b6)) bs rest)
            | inr b6 ↦ elim (Bool-cases (leb b0 0xfd)) [
              | inl b7 ↦
                  rw (a, e, b3, b4, b5, b6, b7)
                    (case_7 b0 (ground (arith, b6)) (ground (arith, b7)) bs rest)
              | inr b7 ↦ elim (Bool-cases (b0 == 0xfe)) [
                | inl b8 ↦
                    rw (a, e, b3, b4, b5, b6, b7, b8)
                      (case_8 b0 (ground (arith, b7)) (ground (arith, b8)) bs rest)
                | inr b8 ↦
                    let last : b0 ≡ 0xff = ground (arith, byte, b7, b8) in
                    rw (a, e, b3, b4, b5, b6, b7, b8)
                      (subst (λ h. decode_prefix_varint_u64 (h ∷ bs) ≡ unroll_9 bs) (sym last)
                        (case_9 bs rest))
              ]
            ]
          ]
        ]
      ]
    ]

-- On every sequence of bytes the hand-unrolled decoder gives what the decoder with the loop gives: the
-- same number and length, the same error, or the same overflow.
pub decode_unroll_lem :
    (buf : List ℕ)
    → All (λ b. b < 2 ^ 8) buf
    → decode_prefix_varint_u64_unroll buf ≡ decode_prefix_varint_u64 buf
unfolding decode_prefix_varint_u64_unroll decode_prefix_varint_u64
decode_unroll_lem [] h = refl
decode_unroll_lem (b0 ∷ bs) (byte, rest) = elim (Bool-cases (leb b0 0xbf)) [
  | inl e ↦ elim (Bool-cases (leb b0 0x7f)) [ inl a ↦ rw a refl | inr a ↦ rw (a, e) refl ]
  | inr e ↦ sym (long b0 bs e byte rest)
]
