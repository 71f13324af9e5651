-- ===== src/DiamondTypes/Encoding/Unrolled/Tails.antt =====
-- The branches of seven to nine bytes of the hand-unrolled decoders of
-- tools/diamond-types/src/encoding/varint.rs.
use egwalker_paper.Base.{ℕ, ◌+◌, ◌-◌, ◌*◌, ◌^◌, ◌≤◌, ◌<◌, ◌≡◌, refl, List, [], ◌∷◌, arith, All}
use egwalker_paper.Base.Bits.{agree_below}
use egwalker_paper.Base.Panic.{checked_sub_lem, ◌>>=◌}
use egwalker_paper.DiamondTypes.Encoding.Varint.{shift_in, decode_prefix_varint_u64}
use egwalker_paper.DiamondTypes.Encoding.Varint.Bytes.{
  IsHead, IsHead-9, decode_form, decode_long, decode_short,
}
use egwalker_paper.DiamondTypes.Encoding.Unrolled.{unroll_7, unroll_8, unroll_9, from_be_u64}
use egwalker_paper.DiamondTypes.Encoding.Unrolled.Heads.{masked, IsHead-range}

module _ (h : ℕ) (low : 0xfc ≤ h) (high : h < 0xfe) where
  IsHead-7 : IsHead 5 h (h - 0xfc)
  unfolding agree_below
  IsHead-7 = IsHead-range 5 0xfc 0x2 h (omega arith) refl refl refl low high

  pub case_7 :
      (bs : List ℕ) → All (λ b. b < 256) bs → decode_prefix_varint_u64 (h ∷ bs) ≡ unroll_7 h bs
  unfolding unroll_7 shift_in agree_below
  case_7 (b1 ∷ b2 ∷ b3 ∷ b4 ∷ b5 ∷ b6 ∷ bs) (x1, (x2, (x3, (x4, (x5, (x6, xs)))))) =
      let w =
        (h - 0xfc) * 2 ^ 48
        + b1 * 2 ^ 40
        + b2 * 2 ^ 32
        + b3 * 2 ^ 24
        + b4 * 2 ^ 16
        + b5 * 2 ^ 8
        + b6 in
      let d =
        decode_long 5 h (h - 0xfc) w (b1 ∷ b2 ∷ b3 ∷ b4 ∷ b5 ∷ b6 ∷ []) bs IsHead-7 refl
          (omega arith) (omega arith) in
      rw (masked 0xfc 0x2 0x1 h refl low high) d
  case_7 (b1 ∷ b2 ∷ b3 ∷ b4 ∷ b5 ∷ []) xs =
      decode_short 5 h (h - 0xfc) (b1 ∷ b2 ∷ b3 ∷ b4 ∷ b5 ∷ []) IsHead-7 (omega arith)
  case_7 (b1 ∷ b2 ∷ b3 ∷ b4 ∷ []) xs =
      decode_short 5 h (h - 0xfc) (b1 ∷ b2 ∷ b3 ∷ b4 ∷ []) IsHead-7 (omega arith)
  case_7 (b1 ∷ b2 ∷ b3 ∷ []) xs =
      decode_short 5 h (h - 0xfc) (b1 ∷ b2 ∷ b3 ∷ []) IsHead-7 (omega arith)
  case_7 (b1 ∷ b2 ∷ []) xs = decode_short 5 h (h - 0xfc) (b1 ∷ b2 ∷ []) IsHead-7 (omega arith)
  case_7 (b1 ∷ []) xs = decode_short 5 h (h - 0xfc) (b1 ∷ []) IsHead-7 (omega arith)
  case_7 [] xs = decode_short 5 h (h - 0xfc) [] IsHead-7 (omega arith)

module _ (h : ℕ) (low : 0xfe ≤ h) (high : h < 0xff) where
  IsHead-8 : IsHead 6 h (h - 0xfe)
  unfolding agree_below
  IsHead-8 = IsHead-range 6 0xfe 0x1 h (omega arith) refl refl refl low high

  pub case_8 :
      (bs : List ℕ) → All (λ b. b < 256) bs → decode_prefix_varint_u64 (h ∷ bs) ≡ unroll_8 h bs
  unfolding unroll_8 shift_in
  case_8 (b1 ∷ b2 ∷ b3 ∷ b4 ∷ b5 ∷ b6 ∷ b7 ∷ bs) (x1, (x2, (x3, (x4, (x5, (x6, (x7, xs))))))) =
      let w =
        (h - 0xfe) * 2 ^ 56
        + b1 * 2 ^ 48
        + b2 * 2 ^ 40
        + b3 * 2 ^ 32
        + b4 * 2 ^ 24
        + b5 * 2 ^ 16
        + b6 * 2 ^ 8
        + b7 in
      let d =
        decode_long 6 h (h - 0xfe) w (b1 ∷ b2 ∷ b3 ∷ b4 ∷ b5 ∷ b6 ∷ b7 ∷ []) bs IsHead-8 refl
          (omega arith) (omega arith) in
      rw
        (
          checked_sub_lem (from_be_u64 h b1 b2 b3 b4 b5 b6 b7) (0xfe * 2 ^ 56) w (omega arith),
          ◌>>=◌,
        )
        d
  case_8 (b1 ∷ b2 ∷ b3 ∷ b4 ∷ b5 ∷ b6 ∷ []) xs =
      decode_short 6 h (h - 0xfe) (b1 ∷ b2 ∷ b3 ∷ b4 ∷ b5 ∷ b6 ∷ []) IsHead-8 (omega arith)
  case_8 (b1 ∷ b2 ∷ b3 ∷ b4 ∷ b5 ∷ []) xs =
      decode_short 6 h (h - 0xfe) (b1 ∷ b2 ∷ b3 ∷ b4 ∷ b5 ∷ []) IsHead-8 (omega arith)
  case_8 (b1 ∷ b2 ∷ b3 ∷ b4 ∷ []) xs =
      decode_short 6 h (h - 0xfe) (b1 ∷ b2 ∷ b3 ∷ b4 ∷ []) IsHead-8 (omega arith)
  case_8 (b1 ∷ b2 ∷ b3 ∷ []) xs =
      decode_short 6 h (h - 0xfe) (b1 ∷ b2 ∷ b3 ∷ []) IsHead-8 (omega arith)
  case_8 (b1 ∷ b2 ∷ []) xs = decode_short 6 h (h - 0xfe) (b1 ∷ b2 ∷ []) IsHead-8 (omega arith)
  case_8 (b1 ∷ []) xs = decode_short 6 h (h - 0xfe) (b1 ∷ []) IsHead-8 (omega arith)
  case_8 [] xs = decode_short 6 h (h - 0xfe) [] IsHead-8 (omega arith)

pub case_9 :
    (bs : List ℕ) → All (λ b. b < 256) bs → decode_prefix_varint_u64 (0xff ∷ bs) ≡ unroll_9 bs
unfolding unroll_9 shift_in
case_9 (b1 ∷ b2 ∷ b3 ∷ b4 ∷ b5 ∷ b6 ∷ b7 ∷ b8 ∷ bs)
      (x1, (x2, (x3, (x4, (x5, (x6, (x7, (x8, xs)))))))) =
    decode_form 7 0xff 0 (from_be_u64 b1 b2 b3 b4 b5 b6 b7 b8)
      (b1 ∷ b2 ∷ b3 ∷ b4 ∷ b5 ∷ b6 ∷ b7 ∷ b8 ∷ []) bs IsHead-9 refl (omega arith)
case_9 (b1 ∷ b2 ∷ b3 ∷ b4 ∷ b5 ∷ b6 ∷ b7 ∷ []) xs =
    decode_short 7 0xff 0 (b1 ∷ b2 ∷ b3 ∷ b4 ∷ b5 ∷ b6 ∷ b7 ∷ []) IsHead-9 (omega arith)
case_9 (b1 ∷ b2 ∷ b3 ∷ b4 ∷ b5 ∷ b6 ∷ []) xs =
    decode_short 7 0xff 0 (b1 ∷ b2 ∷ b3 ∷ b4 ∷ b5 ∷ b6 ∷ []) IsHead-9 (omega arith)
case_9 (b1 ∷ b2 ∷ b3 ∷ b4 ∷ b5 ∷ []) xs =
    decode_short 7 0xff 0 (b1 ∷ b2 ∷ b3 ∷ b4 ∷ b5 ∷ []) IsHead-9 (omega arith)
case_9 (b1 ∷ b2 ∷ b3 ∷ b4 ∷ []) xs =
    decode_short 7 0xff 0 (b1 ∷ b2 ∷ b3 ∷ b4 ∷ []) IsHead-9 (omega arith)
case_9 (b1 ∷ b2 ∷ b3 ∷ []) xs = decode_short 7 0xff 0 (b1 ∷ b2 ∷ b3 ∷ []) IsHead-9 (omega arith)
case_9 (b1 ∷ b2 ∷ []) xs = decode_short 7 0xff 0 (b1 ∷ b2 ∷ []) IsHead-9 (omega arith)
case_9 (b1 ∷ []) xs = decode_short 7 0xff 0 (b1 ∷ []) IsHead-9 (omega arith)
case_9 [] xs = decode_short 7 0xff 0 [] IsHead-9 (omega arith)
