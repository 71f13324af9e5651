-- ===== src/DiamondTypes/Encoding/Varint/RoundTrip.antt =====
-- The round trip of tools/diamond-types/src/encoding/varint.rs: what `push_u64` writes is what
-- `decode_prefix_varint_u64` reads.
use egwalker_paper.Base.{
  ℕ, ◌+◌, ◌-◌, ◌^◌, ◌%◌, ◌≤◌, ◌<◌, ◌≡◌, refl, List, [], ◌∷◌, ◌++◌, ltb, length, arith, true, false,
  inl, inr, Bool-cases, replicate, if◌then◌else◌,
}
use egwalker_paper.Base.Panic.{Outcome, done}
use egwalker_paper.DiamondTypes.Encoding.Errors.{Result, ok, err, invalid_var_int, unexpected_eof}
use egwalker_paper.DiamondTypes.Encoding.Varint.{
  enc_1, enc_2, enc_3, enc_4, enc_5, enc_6, enc_7, enc_8, buf_2, buf_3, buf_4, buf_5, buf_6, buf_7,
  buf_8, buf_9, encode_prefix_varint_u64, push_u64, decode_prefix_varint_u64, fit_u32,
  decode_prefix_varint_u32_loop,
}
use egwalker_paper.DiamondTypes.Encoding.Varint.Bytes.{take-append}
use egwalker_paper.DiamondTypes.Encoding.Varint.Widths.{
  one_byte, two_bytes, three_bytes, four_bytes, five_bytes, six_bytes, seven_bytes, eight_bytes,
  nine_bytes,
}

-- `b` is the code of `v`: the part of the encoder's array that counts, which the decoder reads.
pub record IsCode (v : ℕ) (b : List ℕ) : Type 0 where
  pub pad : List ℕ
  pub encoded : encode_prefix_varint_u64 v ≡ (b ++ pad, length b)
  pub decoded : (rest : List ℕ) → decode_prefix_varint_u64 (b ++ rest) ≡ done (ok (v, length b))

same_value :
    (w e v n : ℕ) (o : Outcome (Result (ℕ × ℕ)))
    → w + e ≡ v
    → o ≡ done (ok (w + e, n))
    → o ≡ done (ok (v, n))
same_value w e v n o h d = rw h at d

IsCode-1 : (v : ℕ) → ltb v enc_1 ≡ true → IsCode v (v % 256 ∷ [])
IsCode-1 v h = record {
  pad = replicate 8 0;
  encoded = unfold encode_prefix_varint_u64 in rw h refl;
  decoded = λ rest. one_byte v rest (ground (arith, h));
}

IsCode-2 : (v : ℕ) → ltb v enc_1 ≡ false → ltb v enc_2 ≡ true → IsCode v (buf_2 (v - enc_1))
unfolding buf_2
IsCode-2 v h1 h2 =
    let large : enc_1 ≤ v = ground (arith, h1) in
    record {
      pad = replicate 7 0;
      encoded = unfold encode_prefix_varint_u64 in rw (h1, h2) refl;
      decoded = λ rest.
          same_value (v - enc_1) enc_1 v 2 (decode_prefix_varint_u64 (buf_2 (v - enc_1) ++ rest))
            (omega arith) (two_bytes (v - enc_1) rest (ground (arith, h1, h2)));
    }

IsCode-3 :
    (v : ℕ)
    → ltb v enc_1 ≡ false
    → ltb v enc_2 ≡ false
    → ltb v enc_3 ≡ true
    → IsCode v (buf_3 (v - enc_2))
unfolding buf_3
IsCode-3 v h1 h2 h3 =
    let large : enc_2 ≤ v = ground (arith, h2) in
    record {
      pad = replicate 6 0;
      encoded = unfold encode_prefix_varint_u64 in rw (h1, h2, h3) refl;
      decoded = λ rest.
          same_value (v - enc_2) enc_2 v 3 (decode_prefix_varint_u64 (buf_3 (v - enc_2) ++ rest))
            (omega arith) (three_bytes (v - enc_2) rest (ground (arith, h2, h3)));
    }

IsCode-4 :
    (v : ℕ)
    → ltb v enc_1 ≡ false
    → ltb v enc_2 ≡ false
    → ltb v enc_3 ≡ false
    → ltb v enc_4 ≡ true
    → IsCode v (buf_4 (v - enc_3))
unfolding buf_4
IsCode-4 v h1 h2 h3 h4 =
    let large : enc_3 ≤ v = ground (arith, h3) in
    record {
      pad = replicate 5 0;
      encoded = unfold encode_prefix_varint_u64 in rw (h1, h2, h3, h4) refl;
      decoded = λ rest.
          same_value (v - enc_3) enc_3 v 4 (decode_prefix_varint_u64 (buf_4 (v - enc_3) ++ rest))
            (omega arith) (four_bytes (v - enc_3) rest (ground (arith, h3, h4)));
    }

IsCode-5 :
    (v : ℕ)
    → ltb v enc_1 ≡ false
    → ltb v enc_2 ≡ false
    → ltb v enc_3 ≡ false
    → ltb v enc_4 ≡ false
    → ltb v enc_5 ≡ true
    → IsCode v (buf_5 (v - enc_4))
unfolding buf_5
IsCode-5 v h1 h2 h3 h4 h5 =
    let large : enc_4 ≤ v = ground (arith, h4) in
    record {
      pad = replicate 4 0;
      encoded = unfold encode_prefix_varint_u64 in rw (h1, h2, h3, h4, h5) refl;
      decoded = λ rest.
          same_value (v - enc_4) enc_4 v 5 (decode_prefix_varint_u64 (buf_5 (v - enc_4) ++ rest))
            (omega arith) (five_bytes (v - enc_4) rest (ground (arith, h4, h5)));
    }

IsCode-6 :
    (v : ℕ)
    → ltb v enc_1 ≡ false
    → ltb v enc_2 ≡ false
    → ltb v enc_3 ≡ false
    → ltb v enc_4 ≡ false
    → ltb v enc_5 ≡ false
    → ltb v enc_6 ≡ true
    → IsCode v (buf_6 (v - enc_5))
unfolding buf_6
IsCode-6 v h1 h2 h3 h4 h5 h6 =
    let large : enc_5 ≤ v = ground (arith, h5) in
    record {
      pad = replicate 3 0;
      encoded = unfold encode_prefix_varint_u64 in rw (h1, h2, h3, h4, h5, h6) refl;
      decoded = λ rest.
          same_value (v - enc_5) enc_5 v 6 (decode_prefix_varint_u64 (buf_6 (v - enc_5) ++ rest))
            (omega arith) (six_bytes (v - enc_5) rest (ground (arith, h5, h6)));
    }

IsCode-7 :
    (v : ℕ)
    → ltb v enc_1 ≡ false
    → ltb v enc_2 ≡ false
    → ltb v enc_3 ≡ false
    → ltb v enc_4 ≡ false
    → ltb v enc_5 ≡ false
    → ltb v enc_6 ≡ false
    → ltb v enc_7 ≡ true
    → IsCode v (buf_7 (v - enc_6))
unfolding buf_7
IsCode-7 v h1 h2 h3 h4 h5 h6 h7 =
    let large : enc_6 ≤ v = ground (arith, h6) in
    record {
      pad = replicate 2 0;
      encoded = unfold encode_prefix_varint_u64 in rw (h1, h2, h3, h4, h5, h6, h7) refl;
      decoded = λ rest.
          same_value (v - enc_6) enc_6 v 7 (decode_prefix_varint_u64 (buf_7 (v - enc_6) ++ rest))
            (omega arith) (seven_bytes (v - enc_6) rest (ground (arith, h6, h7)));
    }

IsCode-8 :
    (v : ℕ)
    → ltb v enc_1 ≡ false
    → ltb v enc_2 ≡ false
    → ltb v enc_3 ≡ false
    → ltb v enc_4 ≡ false
    → ltb v enc_5 ≡ false
    → ltb v enc_6 ≡ false
    → ltb v enc_7 ≡ false
    → ltb v enc_8 ≡ true
    → IsCode v (buf_8 (v - enc_7))
unfolding buf_8
IsCode-8 v h1 h2 h3 h4 h5 h6 h7 h8 =
    let large : enc_7 ≤ v = ground (arith, h7) in
    record {
      pad = replicate 1 0;
      encoded = unfold encode_prefix_varint_u64 in rw (h1, h2, h3, h4, h5, h6, h7, h8) refl;
      decoded = λ rest.
          same_value (v - enc_7) enc_7 v 8 (decode_prefix_varint_u64 (buf_8 (v - enc_7) ++ rest))
            (omega arith) (eight_bytes (v - enc_7) rest (ground (arith, h7, h8)));
    }

IsCode-9 :
    (v : ℕ)
    → v < 2 ^ 64
    → ltb v enc_1 ≡ false
    → ltb v enc_2 ≡ false
    → ltb v enc_3 ≡ false
    → ltb v enc_4 ≡ false
    → ltb v enc_5 ≡ false
    → ltb v enc_6 ≡ false
    → ltb v enc_7 ≡ false
    → ltb v enc_8 ≡ false
    → IsCode v (buf_9 (v - enc_8))
unfolding buf_9
IsCode-9 v m h1 h2 h3 h4 h5 h6 h7 h8 =
    let large : enc_8 ≤ v = ground (arith, h8) in
    record {
      pad = replicate 0 0;
      encoded = unfold encode_prefix_varint_u64 in rw (h1, h2, h3, h4, h5, h6, h7, h8) refl;
      decoded = λ rest.
          same_value (v - enc_8) enc_8 v 9 (decode_prefix_varint_u64 (buf_9 (v - enc_8) ++ rest))
            (omega arith) (nine_bytes (v - enc_8) rest (ground (arith, h8, m)));
    }

code : (v : ℕ) → v < 2 ^ 64 → (b : List ℕ) × IsCode v b
code v m = elim (Bool-cases (ltb v enc_1)) [
  | inl h1 ↦ (v % 256 ∷ [], IsCode-1 v h1)
  | inr h1 ↦ elim (Bool-cases (ltb v enc_2)) [
    | inl h2 ↦ (buf_2 (v - enc_1), IsCode-2 v h1 h2)
    | inr h2 ↦ elim (Bool-cases (ltb v enc_3)) [
      | inl h3 ↦ (buf_3 (v - enc_2), IsCode-3 v h1 h2 h3)
      | inr h3 ↦ elim (Bool-cases (ltb v enc_4)) [
        | inl h4 ↦ (buf_4 (v - enc_3), IsCode-4 v h1 h2 h3 h4)
        | inr h4 ↦ elim (Bool-cases (ltb v enc_5)) [
          | inl h5 ↦ (buf_5 (v - enc_4), IsCode-5 v h1 h2 h3 h4 h5)
          | inr h5 ↦ elim (Bool-cases (ltb v enc_6)) [
            | inl h6 ↦ (buf_6 (v - enc_5), IsCode-6 v h1 h2 h3 h4 h5 h6)
            | inr h6 ↦ elim (Bool-cases (ltb v enc_7)) [
              | inl h7 ↦ (buf_7 (v - enc_6), IsCode-7 v h1 h2 h3 h4 h5 h6 h7)
              | inr h7 ↦ elim (Bool-cases (ltb v enc_8)) [
                | inl h8 ↦ (buf_8 (v - enc_7), IsCode-8 v h1 h2 h3 h4 h5 h6 h7 h8)
                | inr h8 ↦ (buf_9 (v - enc_8), IsCode-9 v m h1 h2 h3 h4 h5 h6 h7 h8)
              ]
            ]
          ]
        ]
      ]
    ]
  ]
]

pub decode-nil : decode_prefix_varint_u64 [] ≡ done (err unexpected_eof)
unfolding decode_prefix_varint_u64
decode-nil = refl

-- `push_u64` of a `u64` adds to the bytes a code, behind which anything may stand:
-- `decode_prefix_varint_u64` reads the number back, and the code's length.
pub decode-push_u64 :
    (into rest : List ℕ) (v : ℕ)
    → v < 2 ^ 64
    → (b : List ℕ) × (push_u64 into v ≡ into ++ b)
      × (decode_prefix_varint_u64 (b ++ rest) ≡ done (ok (v, length b)))
unfolding push_u64
decode-push_u64 into rest v m =
    let (b, c) = code v m in
    (b, rw (c.encoded, take-append (length b) b c.pad refl) refl, c.decoded rest)

-- A code is also what the `u32` decoder checks.
pub decode_u32_lem :
    (buf : List ℕ) (v n : ℕ)
    → decode_prefix_varint_u64 buf ≡ done (ok (v, n))
    → decode_prefix_varint_u32_loop buf
      ≡ done (if ltb v (2 ^ 32) then ok (v, n) else err invalid_var_int)
unfolding decode_prefix_varint_u32_loop fit_u32
decode_u32_lem buf v n d = rw d (ground arith)

-- `push_u64` of a `u64` adds a code that `decode_prefix_varint_u32_loop` reads back if the number
-- fits a `u32`; if it does not, the answer is `InvalidVarInt`.
pub decode_u32-push_u64 :
    (into rest : List ℕ) (v : ℕ)
    → v < 2 ^ 64
    → (b : List ℕ) × (push_u64 into v ≡ into ++ b)
      × (decode_prefix_varint_u32_loop (b ++ rest)
          ≡ done (if ltb v (2 ^ 32) then ok (v, length b) else err invalid_var_int))
decode_u32-push_u64 into rest v m =
    let (b, e, d) = decode-push_u64 into rest v m in
    (b, e, decode_u32_lem (b ++ rest) v (length b) d)
