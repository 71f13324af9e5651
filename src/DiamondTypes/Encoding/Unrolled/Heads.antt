-- ===== src/DiamondTypes/Encoding/Unrolled/Heads.antt =====
-- First bytes of the hand-unrolled decoders of tools/diamond-types/src/encoding/varint.rs, and the
-- branches of three to six bytes.
use egwalker_paper.Base.{
  ℕ, suc, ◌+◌, ◌-◌, ◌*◌, ◌^◌, ◌≤◌, ◌<◌, ◌≡◌, refl, bit_and, List, [], ◌∷◌, arith, true, All,
}
use egwalker_paper.Base.Bits.{agree_below, agree_below→eq}
use egwalker_paper.Base.Panic.{checked_sub_lem, ◌>>=◌}
use egwalker_paper.DiamondTypes.Encoding.Varint.{leading_ones, shift_in, decode_prefix_varint_u64}
use egwalker_paper.DiamondTypes.Encoding.Varint.Bytes.{IsHead, decode_long, decode_short}
use egwalker_paper.DiamondTypes.Encoding.Unrolled.{
  unroll_3, unroll_4, unroll_5, unroll_6, from_be_u32,
}

-- A mask that keeps what a byte is above `base`.
pub masked :
    (base width mask h : ℕ)
    → agree_below (λ i. bit_and (base + i) mask) (λ i. i) width ≡ true
    → base ≤ h
    → h < base + width
    → bit_and h mask ≡ h - base
masked base width mask h table low high =
    let e : base + (h - base) ≡ h = omega arith in
    rw e at
      (agree_below→eq (λ i. bit_and (base + i) mask) (λ i. i) width table (h - base) (omega arith))

-- The first bytes `base` to `base + width - 1` tell the same length, and carry what they are above it.
pub IsHead-range :
    (idx base width h : ℕ)
    → 0xbf < base
    → bit_and idx 7 ≡ idx
    → agree_below (λ i. leading_ones (base + i)) (λ i. suc idx) width ≡ true
    → agree_below (λ i. bit_and (base + i) (2 ^ (7 - idx) - 1)) (λ i. i) width ≡ true
    → base ≤ h
    → h < base + width
    → IsHead idx h (h - base)
IsHead-range idx base width h large index ones payload low high =
    let e : base + (h - base) ≡ h = omega arith in
    let o =
      agree_below→eq (λ i. leading_ones (base + i)) (λ i. suc idx) width ones (h - base)
        (omega arith) in
    record {
      large = omega arith;
      ones = rw e at o;
      index = index;
      payload = masked base width (2 ^ (7 - idx) - 1) h payload low high;
    }

module _ (h : ℕ) (low : 0xc0 ≤ h) (high : h < 0xe0) where
  IsHead-3 : IsHead 1 h (h - 0xc0)
  unfolding agree_below
  IsHead-3 = IsHead-range 1 0xc0 0x20 h (omega arith) refl refl refl low high

  pub case_3 :
      (bs : List ℕ) → All (λ b. b < 256) bs → decode_prefix_varint_u64 (h ∷ bs) ≡ unroll_3 h bs
  unfolding unroll_3 shift_in agree_below
  case_3 (b1 ∷ b2 ∷ bs) (x1, (x2, xs)) =
      let w = (h - 0xc0) * 2 ^ 16 + b1 * 2 ^ 8 + b2 in
      let d =
        decode_long 1 h (h - 0xc0) w (b1 ∷ b2 ∷ []) bs IsHead-3 refl (omega arith) (omega arith) in
      rw (masked 0xc0 0x20 0x1f h refl low high) d
  case_3 (b1 ∷ []) xs = decode_short 1 h (h - 0xc0) (b1 ∷ []) IsHead-3 (omega arith)
  case_3 [] xs = decode_short 1 h (h - 0xc0) [] IsHead-3 (omega arith)

module _ (h : ℕ) (low : 0xe0 ≤ h) (high : h < 0xf0) where
  IsHead-4 : IsHead 2 h (h - 0xe0)
  unfolding agree_below
  IsHead-4 = IsHead-range 2 0xe0 0x10 h (omega arith) refl refl refl low high

  pub case_4 :
      (bs : List ℕ) → All (λ b. b < 256) bs → decode_prefix_varint_u64 (h ∷ bs) ≡ unroll_4 h bs
  unfolding unroll_4 shift_in
  case_4 (b1 ∷ b2 ∷ b3 ∷ bs) (x1, (x2, (x3, xs))) =
      let w = (h - 0xe0) * 2 ^ 24 + b1 * 2 ^ 16 + b2 * 2 ^ 8 + b3 in
      let d =
        decode_long 2 h (h - 0xe0) w (b1 ∷ b2 ∷ b3 ∷ []) bs IsHead-4 refl (omega arith)
          (omega arith) in
      rw (checked_sub_lem (from_be_u32 h b1 b2 b3) (0xe0 * 2 ^ 24) w (omega arith), ◌>>=◌) d
  case_4 (b1 ∷ b2 ∷ []) xs = decode_short 2 h (h - 0xe0) (b1 ∷ b2 ∷ []) IsHead-4 (omega arith)
  case_4 (b1 ∷ []) xs = decode_short 2 h (h - 0xe0) (b1 ∷ []) IsHead-4 (omega arith)
  case_4 [] xs = decode_short 2 h (h - 0xe0) [] IsHead-4 (omega arith)

module _ (h : ℕ) (low : 0xf0 ≤ h) (high : h < 0xf8) where
  IsHead-5 : IsHead 3 h (h - 0xf0)
  unfolding agree_below
  IsHead-5 = IsHead-range 3 0xf0 0x8 h (omega arith) refl refl refl low high

  pub case_5 :
      (bs : List ℕ) → All (λ b. b < 256) bs → decode_prefix_varint_u64 (h ∷ bs) ≡ unroll_5 h bs
  unfolding unroll_5 shift_in agree_below
  case_5 (b1 ∷ b2 ∷ b3 ∷ b4 ∷ bs) (x1, (x2, (x3, (x4, xs)))) =
      let w = (h - 0xf0) * 2 ^ 32 + b1 * 2 ^ 24 + b2 * 2 ^ 16 + b3 * 2 ^ 8 + b4 in
      let d =
        decode_long 3 h (h - 0xf0) w (b1 ∷ b2 ∷ b3 ∷ b4 ∷ []) bs IsHead-5 refl (omega arith)
          (omega arith) in
      rw (masked 0xf0 0x8 0x7 h refl low high) d
  case_5 (b1 ∷ b2 ∷ b3 ∷ []) xs =
      decode_short 3 h (h - 0xf0) (b1 ∷ b2 ∷ b3 ∷ []) IsHead-5 (omega arith)
  case_5 (b1 ∷ b2 ∷ []) xs = decode_short 3 h (h - 0xf0) (b1 ∷ b2 ∷ []) IsHead-5 (omega arith)
  case_5 (b1 ∷ []) xs = decode_short 3 h (h - 0xf0) (b1 ∷ []) IsHead-5 (omega arith)
  case_5 [] xs = decode_short 3 h (h - 0xf0) [] IsHead-5 (omega arith)

module _ (h : ℕ) (low : 0xf8 ≤ h) (high : h < 0xfc) where
  IsHead-6 : IsHead 4 h (h - 0xf8)
  unfolding agree_below
  IsHead-6 = IsHead-range 4 0xf8 0x4 h (omega arith) refl refl refl low high

  pub case_6 :
      (bs : List ℕ) → All (λ b. b < 256) bs → decode_prefix_varint_u64 (h ∷ bs) ≡ unroll_6 h bs
  unfolding unroll_6 shift_in agree_below
  case_6 (b1 ∷ b2 ∷ b3 ∷ b4 ∷ b5 ∷ bs) (x1, (x2, (x3, (x4, (x5, xs))))) =
      let w = (h - 0xf8) * 2 ^ 40 + b1 * 2 ^ 32 + b2 * 2 ^ 24 + b3 * 2 ^ 16 + b4 * 2 ^ 8 + b5 in
      let d =
        decode_long 4 h (h - 0xf8) w (b1 ∷ b2 ∷ b3 ∷ b4 ∷ b5 ∷ []) bs IsHead-6 refl (omega arith)
          (omega arith) in
      rw (masked 0xf8 0x4 0x3 h refl low high) d
  case_6 (b1 ∷ b2 ∷ b3 ∷ b4 ∷ []) xs =
      decode_short 4 h (h - 0xf8) (b1 ∷ b2 ∷ b3 ∷ b4 ∷ []) IsHead-6 (omega arith)
  case_6 (b1 ∷ b2 ∷ b3 ∷ []) xs =
      decode_short 4 h (h - 0xf8) (b1 ∷ b2 ∷ b3 ∷ []) IsHead-6 (omega arith)
  case_6 (b1 ∷ b2 ∷ []) xs = decode_short 4 h (h - 0xf8) (b1 ∷ b2 ∷ []) IsHead-6 (omega arith)
  case_6 (b1 ∷ []) xs = decode_short 4 h (h - 0xf8) (b1 ∷ []) IsHead-6 (omega arith)
  case_6 [] xs = decode_short 4 h (h - 0xf8) [] IsHead-6 (omega arith)
