-- ===== src/DiamondTypes/Encoding/Zigzag/Laws.antt =====
-- What the zigzag codes and the extra bits of tools/diamond-types/src/encoding/varint.rs stand for.
use egwalker_paper.Base.{
  ℕ, ◌+◌, ◌-◌, ◌*◌, ◌/◌, ◌%◌, ◌^◌, ◌<◌, ◌≤◌, ◌≡◌, refl, Bool, true, false, bit_and, ltb, ◌==◌,
  if◌then◌else◌, arith, Bool-cases, ◌⊎◌, inl, inr, ◌∙◌,
}
use egwalker_paper.Base.Bits.{bit_xor-ones, bit_xor-zero, bit_and-one}
use egwalker_paper.Base.Panic.{done, panic}
use egwalker_paper.DiamondTypes.Encoding.Zigzag.{
  ℤ, pos, negsuc, signed, num_encode_zigzag_i64, num_encode_zigzag_i32, num_decode_zigzag_i64,
  num_decode_zigzag_i32, mix_bit_u64, strip_bit, bit,
}

-- The code of an integer: 0, -1, 1, -2, ... are 0, 1, 2, 3, ...
abbrev pub zigzag : ℤ → ℕ
zigzag (pos n) = 2 * n
zigzag (negsuc n) = 2 * n + 1

encode_i64 : (v : ℕ) → v < 2 ^ 64 → num_encode_zigzag_i64 v ≡ zigzag (signed (2 ^ 63) v)
unfolding num_encode_zigzag_i64
encode_i64 v h = elim (Bool-cases (ltb v (2 ^ 63))) [
  | inl e ↦ rw e (bit_xor-zero (v * 2 % 2 ^ 64) ∙ ground (arith, e))
  | inr e ↦ rw e (bit_xor-ones 64 (v * 2 % 2 ^ 64) (omega arith) ∙ ground (arith, e))
]

encode_i32 : (v : ℕ) → v < 2 ^ 32 → num_encode_zigzag_i32 v ≡ zigzag (signed (2 ^ 31) v)
unfolding num_encode_zigzag_i32
encode_i32 v h = elim (Bool-cases (ltb v (2 ^ 31))) [
  | inl e ↦ rw e (bit_xor-zero (v * 2 % 2 ^ 32) ∙ ground (arith, e))
  | inr e ↦ rw e (bit_xor-ones 32 (v * 2 % 2 ^ 32) (omega arith) ∙ ground (arith, e))
]

decode_i64 :
    (v : ℕ)
    → num_decode_zigzag_i64 v
      ≡ (if v % 2 == 1 then ((2 ^ 64 - v / 2) % 2 ^ 64 + (2 ^ 64 - 1)) % 2 ^ 64 else v / 2)
unfolding num_decode_zigzag_i64
decode_i64 v = rw (bit_and-one v) refl

-- `num_encode_zigzag_i64` gives every `i64` its zigzag code, which is a `u64`;
-- `num_decode_zigzag_i64` inverts it, and it inverts `num_decode_zigzag_i64`.
pub zigzag_i64_lem :
    (v : ℕ)
    → v < 2 ^ 64
    → (num_encode_zigzag_i64 v ≡ zigzag (signed (2 ^ 63) v))
      × (num_encode_zigzag_i64 v < 2 ^ 64)
      × (num_decode_zigzag_i64 (num_encode_zigzag_i64 v) ≡ v)
      × (num_decode_zigzag_i64 v < 2 ^ 64)
      × (num_encode_zigzag_i64 (num_decode_zigzag_i64 v) ≡ v)
zigzag_i64_lem v h =
    let e = encode_i64 v h in
    let small : num_encode_zigzag_i64 v < 2 ^ 64 = ground (arith, e) in
    let d = decode_i64 (num_encode_zigzag_i64 v) in
    let back = decode_i64 v in
    let low : num_decode_zigzag_i64 v < 2 ^ 64 = ground (arith, back) in
    (
      e,
      small,
      ground (arith, e, d),
      low,
      ground (arith, back, encode_i64 (num_decode_zigzag_i64 v) low),
    )

decode_i32 :
    (v : ℕ)
    → num_decode_zigzag_i32 v
      ≡ (if v % 2 == 1 then ((2 ^ 32 - v / 2) % 2 ^ 32 + (2 ^ 32 - 1)) % 2 ^ 32 else v / 2)
unfolding num_decode_zigzag_i32
decode_i32 v = rw (bit_and-one v) refl

-- `num_encode_zigzag_i32` gives every `i32` its zigzag code, which is a `u32`;
-- `num_decode_zigzag_i32` inverts it, and it inverts `num_decode_zigzag_i32`.
pub zigzag_i32_lem :
    (v : ℕ)
    → v < 2 ^ 32
    → (num_encode_zigzag_i32 v ≡ zigzag (signed (2 ^ 31) v))
      × (num_encode_zigzag_i32 v < 2 ^ 32)
      × (num_decode_zigzag_i32 (num_encode_zigzag_i32 v) ≡ v)
      × (num_decode_zigzag_i32 v < 2 ^ 32)
      × (num_encode_zigzag_i32 (num_decode_zigzag_i32 v) ≡ v)
zigzag_i32_lem v h =
    let e = encode_i32 v h in
    let small : num_encode_zigzag_i32 v < 2 ^ 32 = ground (arith, e) in
    let d = decode_i32 (num_encode_zigzag_i32 v) in
    let back = decode_i32 v in
    let low : num_decode_zigzag_i32 v < 2 ^ 32 = ground (arith, back) in
    (
      e,
      small,
      ground (arith, e, d),
      low,
      ground (arith, back, encode_i32 (num_decode_zigzag_i32 v) low),
    )

bit-lt : (b : Bool) → bit b < 2
bit-lt true = omega arith
bit-lt false = omega arith

strip_lem : (value : ℕ) (extra : Bool) → strip_bit (value * 2 + bit extra) ≡ (value, extra)
unfolding strip_bit
strip_lem value true =
    let half : (value * 2 + 1) / 2 ≡ value = omega arith in
    let odd : bit_and (value * 2 + 1) 1 ≡ 1 = bit_and-one (value * 2 + 1) ∙ omega arith in
    rw (half, odd) refl
strip_lem value false =
    let half : (value * 2 + 0) / 2 ≡ value = omega arith in
    let even : bit_and (value * 2 + 0) 1 ≡ 0 = bit_and-one (value * 2 + 0) ∙ omega arith in
    rw (half, even) refl

-- What `mix_bit` puts together fits the type, and `strip_bit` takes it apart; the greatest half of the
-- range is refused.
pub strip-mix_bit :
    (value : ℕ) (extra : Bool)
    → ((value < 2 ^ 63 - 1)
        × (m : ℕ) × (mix_bit_u64 value extra ≡ done m)
        × (m < 2 ^ 64)
        × (strip_bit m ≡ (value, extra)))
      ⊎ ((2 ^ 63 - 1 ≤ value) × (mix_bit_u64 value extra ≡ panic))
unfolding mix_bit_u64 strip_bit
strip-mix_bit value extra = elim (Bool-cases (ltb value (2 ^ 63 - 1))) [
  | inl e ↦ inl (
    ground (arith, e),
    value * 2 + bit extra,
    rw e refl,
    ground (arith, e, bit-lt extra),
    strip_lem value extra,
  )
  | inr e ↦ inr (ground (arith, e), rw e refl)
]
