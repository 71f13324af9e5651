-- ===== src/DiamondTypes/Encoding/Unrolled/Flat.antt =====
-- That the decoder of nine bytes of tools/diamond-types/src/encoding/varint.rs is the one of a slice.
use egwalker_paper.Base.{ℕ, ◌<◌, ◌≡◌, arith, ◌∙◌, List, ◌∷◌, ◌^◌, All}
use egwalker_paper.Base.Panic.{Outcome, done, ◌>>=◌}
use egwalker_paper.DiamondTypes.Encoding.Errors.{Result, ok}
use egwalker_paper.DiamondTypes.Encoding.Varint.{decode_prefix_varint_u64, decode_two}
use egwalker_paper.DiamondTypes.Encoding.Unrolled.{
  unroll_3, unroll_4, unroll_5, unroll_6, unroll_7, unroll_8, unroll_9,
  decode_prefix_varint_u64_unroll, decode_prefix_varint_u64_unroll_flat,
}
use egwalker_paper.DiamondTypes.Encoding.Unrolled.Wide.{decode_unroll_lem}

abbrev pub accept : Outcome (ℕ × ℕ) → Outcome (Result (ℕ × ℕ))
accept o = do r ← o; done (ok r)

flat-unroll :
    (b0 b1 b2 b3 b4 b5 b6 b7 b8 : ℕ) (rest : List ℕ)
    → accept (decode_prefix_varint_u64_unroll_flat b0 b1 b2 b3 b4 b5 b6 b7 b8)
      ≡ decode_prefix_varint_u64_unroll (b0 ∷ b1 ∷ b2 ∷ b3 ∷ b4 ∷ b5 ∷ b6 ∷ b7 ∷ b8 ∷ rest)
unfolding decode_prefix_varint_u64_unroll_flat decode_prefix_varint_u64_unroll decode_two unroll_3
    unroll_4 unroll_5 unroll_6 unroll_7 unroll_8 unroll_9
flat-unroll b0 b1 b2 b3 b4 b5 b6 b7 b8 rest = ground arith

-- On nine bytes the decoder of an array reads what the decoder of a slice with the loop reads, whatever
-- follows them in the slice, or overflows where it does.
pub flat_lem :
    (b0 b1 b2 b3 b4 b5 b6 b7 b8 : ℕ) (rest : List ℕ)
    → All (λ b. b < 2 ^ 8) (b0 ∷ b1 ∷ b2 ∷ b3 ∷ b4 ∷ b5 ∷ b6 ∷ b7 ∷ b8 ∷ rest)
    → accept (decode_prefix_varint_u64_unroll_flat b0 b1 b2 b3 b4 b5 b6 b7 b8)
      ≡ decode_prefix_varint_u64 (b0 ∷ b1 ∷ b2 ∷ b3 ∷ b4 ∷ b5 ∷ b6 ∷ b7 ∷ b8 ∷ rest)
flat_lem b0 b1 b2 b3 b4 b5 b6 b7 b8 rest h =
    flat-unroll b0 b1 b2 b3 b4 b5 b6 b7 b8 rest
    ∙ decode_unroll_lem (b0 ∷ b1 ∷ b2 ∷ b3 ∷ b4 ∷ b5 ∷ b6 ∷ b7 ∷ b8 ∷ rest) h
