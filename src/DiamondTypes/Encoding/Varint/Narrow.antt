-- ===== src/DiamondTypes/Encoding/Varint/Narrow.antt =====
-- The two encoders of tools/diamond-types/src/encoding/varint.rs agree on `u32`.
use egwalker_paper.Base.{
  ℕ, ◌-◌, ◌/◌, ◌%◌, ◌^◌, ◌<◌, ◌≡◌, refl, List, ltb, take, arith, true, inl, inr, Bool-cases,
}
use egwalker_paper.DiamondTypes.Encoding.Varint.{
  enc_1, enc_2, enc_3, enc_4, enc_5, buf_2, buf_3, buf_4, buf_5, encode_prefix_varint_u32,
  encode_prefix_varint_u64, push_u32, push_u64,
}

-- The five bytes of the wide encoder that can be used, and their number.
abbrev pub narrow : List ℕ × ℕ → List ℕ × ℕ
narrow (buf, n) = (take 5 buf, n)

-- On a `u32`, `encode_prefix_varint_u32` gives the first five bytes of the array, and the length,
-- that `encode_prefix_varint_u64` gives, and `push_u32` pushes what `push_u64` does.
pub encode_u32_lem :
    (into : List ℕ) (v : ℕ)
    → v < 2 ^ 32
    → (encode_prefix_varint_u32 v ≡ narrow (encode_prefix_varint_u64 v))
      × (push_u32 into v ≡ push_u64 into v)
unfolding encode_prefix_varint_u32 encode_prefix_varint_u64 push_u32 push_u64 buf_2 buf_3 buf_4
    buf_5
encode_u32_lem into v h = elim (Bool-cases (ltb v enc_1)) [
  | inl a ↦ rw a (refl, refl)
  | inr a ↦ elim (Bool-cases (ltb v enc_2)) [
    | inl b ↦ rw (a, b) (refl, refl)
    | inr b ↦ elim (Bool-cases (ltb v enc_3)) [
      | inl c ↦ rw (a, b, c) (refl, refl)
      | inr c ↦ elim (Bool-cases (ltb v enc_4)) [
        | inl d ↦ rw (a, b, c, d) (refl, refl)
        | inr d ↦
            let e : ltb v enc_5 ≡ true = ground (arith, h) in
            let top : (v - enc_4) / 2 ^ 32 % 256 ≡ 0 = omega arith in
            let low : (v - enc_4) % 2 ^ 32 ≡ v - enc_4 = omega arith in
            rw (a, b, c, d, e, top, low) (refl, refl)
      ]
    ]
  ]
]
