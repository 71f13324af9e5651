-- ===== src/DiamondTypes/Encoding/Varint/Bounds.antt =====
-- How long the codes of tools/diamond-types/src/encoding/varint.rs are, and that they are bytes.
use egwalker_paper.Base.{
  ℕ, ◌+◌, ◌-◌, ◌/◌, ◌%◌, ◌^◌, ◌≤◌, ◌<◌, ◌≡◌, refl, bit_or, List, [], ◌∷◌, ◌++◌, length, arith, ltb,
  Bool-cases, inl, inr, All, true, leb, if◌then◌else◌,
}
use egwalker_paper.Base.Bits.{agree_below, agree_below→eq}
use egwalker_paper.DiamondTypes.Encoding.Varint.{
  enc_1, enc_2, enc_3, enc_4, enc_5, enc_6, enc_7, enc_8, enc_u64_vals, buf_2, buf_3, buf_4, buf_5,
  buf_6, buf_7, buf_8, buf_9, encode_prefix_varint_u64, push_u64,
}

-- A byte under a mask is a byte.
or_byte :
    (c x : ℕ) → agree_below (λ i. bit_or c i / 256) (λ i. 0) 256 ≡ true → bit_or c (x % 256) < 256
or_byte c x table =
    omega (arith, agree_below→eq (λ i. bit_or c i / 256) (λ i. 0) 256 table (x % 256) (omega arith))

abbrev pub IsBytes : List ℕ → Type 0
IsBytes bs = All (λ b. b < 2 ^ 8) bs

buf_2-IsBytes : (v : ℕ) → IsBytes (buf_2 v)
unfolding buf_2 agree_below
buf_2-IsBytes v = (or_byte 0x80 (v / 2 ^ 8) refl, (omega arith, tt))

buf_3-IsBytes : (v : ℕ) → IsBytes (buf_3 v)
unfolding buf_3 agree_below
buf_3-IsBytes v = (or_byte 0xc0 (v / 2 ^ 16) refl, (omega arith, (omega arith, tt)))

buf_4-IsBytes : (v : ℕ) → IsBytes (buf_4 v)
unfolding buf_4 agree_below
buf_4-IsBytes v = (or_byte 0xe0 (v / 2 ^ 24) refl, (omega arith, (omega arith, (omega arith, tt))))

buf_5-IsBytes : (v : ℕ) → IsBytes (buf_5 v)
unfolding buf_5 agree_below
buf_5-IsBytes v =
    (or_byte 0xf0 (v / 2 ^ 32) refl, (omega arith, (omega arith, (omega arith, (omega arith, tt)))))

buf_6-IsBytes : (v : ℕ) → IsBytes (buf_6 v)
unfolding buf_6 agree_below
buf_6-IsBytes v = (
  or_byte 0xf8 (v / 2 ^ 40) refl,
  (omega arith, (omega arith, (omega arith, (omega arith, (omega arith, tt))))),
)

buf_7-IsBytes : (v : ℕ) → IsBytes (buf_7 v)
unfolding buf_7 agree_below
buf_7-IsBytes v = (
  or_byte 0xfc (v / 2 ^ 48) refl,
  (omega arith, (omega arith, (omega arith, (omega arith, (omega arith, (omega arith, tt)))))),
)

buf_8-IsBytes : (v : ℕ) → IsBytes (buf_8 v)
unfolding buf_8 agree_below
buf_8-IsBytes v = (
  or_byte 0xfe (v / 2 ^ 56) refl,
  (
    omega arith,
    (omega arith, (omega arith, (omega arith, (omega arith, (omega arith, (omega arith, tt)))))),
  ),
)

buf_9-IsBytes : (v : ℕ) → IsBytes (buf_9 v)
unfolding buf_9
buf_9-IsBytes v = (
  omega arith,
  (
    omega arith,
    (
      omega arith,
      (omega arith, (omega arith, (omega arith, (omega arith, (omega arith, (omega arith, tt)))))),
    ),
  ),
)

-- How many of some bounds a number reaches.
abbrev pub reached : ℕ → List ℕ → ℕ
reached v [] = 0
reached v (e ∷ es) = (if leb e v then 1 else 0) + reached v es

-- `push_u64` adds bytes, one more than the number reaches of the eight bounds; so at most nine.
pub push_u64_bounds :
    (into : List ℕ) (v : ℕ)
    → (b : List ℕ) × (push_u64 into v ≡ into ++ b)
      × IsBytes b
      × (length b ≡ 1 + reached v enc_u64_vals)
      × (length b ≤ 9)
unfolding push_u64 encode_prefix_varint_u64
push_u64_bounds into v = elim (Bool-cases (ltb v enc_1)) [
  | inl h1 ↦ (v % 256 ∷ [], rw h1 refl, (omega arith, tt), ground (arith, h1), omega arith)
  | inr h1 ↦ elim (Bool-cases (ltb v enc_2)) [
    | inl h2 ↦ (
      buf_2 (v - enc_1),
      unfold buf_2 in rw (h1, h2) refl,
      buf_2-IsBytes (v - enc_1),
      unfold buf_2 in ground (arith, h1, h2),
      unfold buf_2 in omega arith,
    )
    | inr h2 ↦ elim (Bool-cases (ltb v enc_3)) [
      | inl h3 ↦ (
        buf_3 (v - enc_2),
        unfold buf_3 in rw (h1, h2, h3) refl,
        buf_3-IsBytes (v - enc_2),
        unfold buf_3 in ground (arith, h1, h2, h3),
        unfold buf_3 in omega arith,
      )
      | inr h3 ↦ elim (Bool-cases (ltb v enc_4)) [
        | inl h4 ↦ (
          buf_4 (v - enc_3),
          unfold buf_4 in rw (h1, h2, h3, h4) refl,
          buf_4-IsBytes (v - enc_3),
          unfold buf_4 in ground (arith, h1, h2, h3, h4),
          unfold buf_4 in omega arith,
        )
        | inr h4 ↦ elim (Bool-cases (ltb v enc_5)) [
          | inl h5 ↦ (
            buf_5 (v - enc_4),
            unfold buf_5 in rw (h1, h2, h3, h4, h5) refl,
            buf_5-IsBytes (v - enc_4),
            unfold buf_5 in ground (arith, h1, h2, h3, h4, h5),
            unfold buf_5 in omega arith,
          )
          | inr h5 ↦ elim (Bool-cases (ltb v enc_6)) [
            | inl h6 ↦ (
              buf_6 (v - enc_5),
              unfold buf_6 in rw (h1, h2, h3, h4, h5, h6) refl,
              buf_6-IsBytes (v - enc_5),
              unfold buf_6 in ground (arith, h1, h2, h3, h4, h5, h6),
              unfold buf_6 in omega arith,
            )
            | inr h6 ↦ elim (Bool-cases (ltb v enc_7)) [
              | inl h7 ↦ (
                buf_7 (v - enc_6),
                unfold buf_7 in rw (h1, h2, h3, h4, h5, h6, h7) refl,
                buf_7-IsBytes (v - enc_6),
                unfold buf_7 in ground (arith, h1, h2, h3, h4, h5, h6, h7),
                unfold buf_7 in omega arith,
              )
              | inr h7 ↦ elim (Bool-cases (ltb v enc_8)) [
                | inl h8 ↦ (
                  buf_8 (v - enc_7),
                  unfold buf_8 in rw (h1, h2, h3, h4, h5, h6, h7, h8) refl,
                  buf_8-IsBytes (v - enc_7),
                  unfold buf_8 in ground (arith, h1, h2, h3, h4, h5, h6, h7, h8),
                  unfold buf_8 in omega arith,
                )
                | inr h8 ↦ (
                  buf_9 (v - enc_8),
                  unfold buf_9 in rw (h1, h2, h3, h4, h5, h6, h7, h8) refl,
                  buf_9-IsBytes (v - enc_8),
                  unfold buf_9 in ground (arith, h1, h2, h3, h4, h5, h6, h7, h8),
                  unfold buf_9 in omega arith,
                )
              ]
            ]
          ]
        ]
      ]
    ]
  ]
]
