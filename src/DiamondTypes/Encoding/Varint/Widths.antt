-- ===== src/DiamondTypes/Encoding/Varint/Widths.antt =====
-- That the decoder of tools/diamond-types/src/encoding/varint.rs reads what the encoder wrote.
use egwalker_paper.Base.{
  ℕ, ◌+◌, ◌*◌, ◌/◌, ◌%◌, ◌^◌, ◌<◌, ◌≡◌, refl, bit_and, bit_or, List, [], ◌∷◌, ◌++◌, leb, arith, ◌∙◌,
  true, false,
}
use egwalker_paper.Base.Bits.{agree_below, agree_below→eq}
use egwalker_paper.Base.Panic.{done}
use egwalker_paper.DiamondTypes.Encoding.Errors.{ok}
use egwalker_paper.DiamondTypes.Encoding.Varint.{
  enc_1, enc_2, enc_3, enc_4, enc_5, enc_6, enc_7, enc_8, be_bytes_u32, be_bytes_u64, buf_2, buf_3,
  buf_4, buf_5, buf_6, buf_7, buf_8, buf_9, decode_two, decode_prefix_varint_u64,
}
use egwalker_paper.DiamondTypes.Encoding.Varint.Bytes.{
  IsHead-3, IsHead-4, IsHead-5, IsHead-6, IsHead-7, IsHead-8, IsHead-9, shift_step, shift_nil,
  shift_u32, decode_long,
}

pub one_byte :
    (v : ℕ) (rest : List ℕ)
    → v < enc_1
    → decode_prefix_varint_u64 (v % 256 ∷ rest) ≡ done (ok (v, 1))
unfolding decode_prefix_varint_u64
one_byte v rest h =
    let e : v % 256 ≡ v = omega arith in
    let s : leb v 0x7f ≡ true = ground (arith, h) in rw (e, s) refl

pub two_bytes :
    (w : ℕ) (rest : List ℕ)
    → w < 2 ^ 14
    → decode_prefix_varint_u64 (buf_2 w ++ rest) ≡ done (ok (w + enc_1, 2))
unfolding decode_prefix_varint_u64 decode_two buf_2 agree_below
two_bytes w rest h =
    let x = w / 2 ^ 8 in
    let e : x % 256 ≡ x = omega arith in
    let b = agree_below→eq (λ i. bit_or 0x80 i) (λ i. 0x80 + i) 64 refl x (omega arith) in
    let m = agree_below→eq (λ i. bit_and (bit_or 0x80 i) 0x3f) (λ i. i) 64 refl x (omega arith) in
    let large : leb (bit_or 0x80 x) 0x7f ≡ false = ground (arith, b) in
    let small : leb (bit_or 0x80 x) 0xbf ≡ true = ground (arith, b) in
    let v : x * 2 ^ 8 + w % 256 ≡ w = omega arith in rw (e, large, small, m, v) refl

pub three_bytes :
    (w : ℕ) (rest : List ℕ)
    → w < 2 ^ 21
    → decode_prefix_varint_u64 (buf_3 w ++ rest) ≡ done (ok (w + enc_2, 3))
unfolding buf_3
three_bytes w rest h =
    decode_long 1 (bit_or 0xc0 (w / 2 ^ 16 % 256)) (w / 2 ^ 16 % 256) w
      (w / 2 ^ 8 % 256 ∷ w % 256 ∷ []) rest (IsHead-3 (w / 2 ^ 16 % 256) (omega arith)) refl
      (shift_step (w / 2 ^ 16 % 256) (w / 2 ^ 8 % 256) (w / 2 ^ 8) (w % 256 ∷ []) (omega arith)
          (omega arith)
        ∙ (shift_step (w / 2 ^ 8) (w % 256) (w) ([]) (omega arith) (omega arith) ∙ shift_nil w))
      (omega arith)

pub four_bytes :
    (w : ℕ) (rest : List ℕ)
    → w < 2 ^ 28
    → decode_prefix_varint_u64 (buf_4 w ++ rest) ≡ done (ok (w + enc_3, 4))
unfolding buf_4
four_bytes w rest h =
    decode_long 2 (bit_or 0xe0 (w / 2 ^ 24 % 256)) (w / 2 ^ 24 % 256) w
      (w / 2 ^ 16 % 256 ∷ w / 2 ^ 8 % 256 ∷ w % 256 ∷ []) rest
      (IsHead-4 (w / 2 ^ 24 % 256) (omega arith)) refl
      (shift_step (w / 2 ^ 24 % 256) (w / 2 ^ 16 % 256) (w / 2 ^ 16)
          (w / 2 ^ 8 % 256 ∷ w % 256 ∷ []) (omega arith) (omega arith)
        ∙ (shift_step (w / 2 ^ 16) (w / 2 ^ 8 % 256) (w / 2 ^ 8) (w % 256 ∷ []) (omega arith)
              (omega arith)
            ∙ (shift_step (w / 2 ^ 8) (w % 256) (w) ([]) (omega arith) (omega arith)
                ∙ shift_nil w)))
      (omega arith)

pub five_bytes :
    (w : ℕ) (rest : List ℕ)
    → w < 2 ^ 35
    → decode_prefix_varint_u64 (buf_5 w ++ rest) ≡ done (ok (w + enc_4, 5))
unfolding buf_5
five_bytes w rest h =
    decode_long 3 (bit_or 0xf0 (w / 2 ^ 32 % 256)) (w / 2 ^ 32 % 256) w (be_bytes_u32 (w % 2 ^ 32))
      rest (IsHead-5 (w / 2 ^ 32 % 256) (omega arith)) refl
      (shift_u32 (w / 2 ^ 32 % 256) w (omega arith) (omega arith)) (omega arith)

pub six_bytes :
    (w : ℕ) (rest : List ℕ)
    → w < 2 ^ 42
    → decode_prefix_varint_u64 (buf_6 w ++ rest) ≡ done (ok (w + enc_5, 6))
unfolding buf_6
six_bytes w rest h =
    decode_long 4 (bit_or 0xf8 (w / 2 ^ 40 % 256)) (w / 2 ^ 40 % 256) w
      (w / 2 ^ 32 % 256 ∷ be_bytes_u32 (w % 2 ^ 32)) rest
      (IsHead-6 (w / 2 ^ 40 % 256) (omega arith)) refl
      (shift_step (w / 2 ^ 40 % 256) (w / 2 ^ 32 % 256) (w / 2 ^ 32) (be_bytes_u32 (w % 2 ^ 32))
          (omega arith) (omega arith)
        ∙ shift_u32 (w / 2 ^ 32) w (omega arith) (omega arith))
      (omega arith)

pub seven_bytes :
    (w : ℕ) (rest : List ℕ)
    → w < 2 ^ 49
    → decode_prefix_varint_u64 (buf_7 w ++ rest) ≡ done (ok (w + enc_6, 7))
unfolding buf_7
seven_bytes w rest h =
    decode_long 5 (bit_or 0xfc (w / 2 ^ 48 % 256)) (w / 2 ^ 48 % 256) w
      (w / 2 ^ 40 % 256 ∷ w / 2 ^ 32 % 256 ∷ be_bytes_u32 (w % 2 ^ 32)) rest
      (IsHead-7 (w / 2 ^ 48 % 256) (omega arith)) refl
      (shift_step (w / 2 ^ 48 % 256) (w / 2 ^ 40 % 256) (w / 2 ^ 40)
          (w / 2 ^ 32 % 256 ∷ be_bytes_u32 (w % 2 ^ 32)) (omega arith) (omega arith)
        ∙ (shift_step (w / 2 ^ 40) (w / 2 ^ 32 % 256) (w / 2 ^ 32) (be_bytes_u32 (w % 2 ^ 32))
              (omega arith) (omega arith)
            ∙ shift_u32 (w / 2 ^ 32) w (omega arith) (omega arith)))
      (omega arith)

pub eight_bytes :
    (w : ℕ) (rest : List ℕ)
    → w < 2 ^ 54
    → decode_prefix_varint_u64 (buf_8 w ++ rest) ≡ done (ok (w + enc_7, 8))
unfolding buf_8
eight_bytes w rest h =
    decode_long 6 (bit_or 0xfe (w / 2 ^ 56 % 256)) (w / 2 ^ 56 % 256) w
      (w / 2 ^ 48 % 256 ∷ w / 2 ^ 40 % 256 ∷ w / 2 ^ 32 % 256 ∷ be_bytes_u32 (w % 2 ^ 32)) rest
      (IsHead-8 (w / 2 ^ 56 % 256) (omega arith)) refl
      (shift_step (w / 2 ^ 56 % 256) (w / 2 ^ 48 % 256) (w / 2 ^ 48)
          (w / 2 ^ 40 % 256 ∷ w / 2 ^ 32 % 256 ∷ be_bytes_u32 (w % 2 ^ 32)) (omega arith)
          (omega arith)
        ∙ (shift_step (w / 2 ^ 48) (w / 2 ^ 40 % 256) (w / 2 ^ 40)
              (w / 2 ^ 32 % 256 ∷ be_bytes_u32 (w % 2 ^ 32)) (omega arith) (omega arith)
            ∙ (shift_step (w / 2 ^ 40) (w / 2 ^ 32 % 256) (w / 2 ^ 32) (be_bytes_u32 (w % 2 ^ 32))
                  (omega arith) (omega arith)
                ∙ shift_u32 (w / 2 ^ 32) w (omega arith) (omega arith))))
      (omega arith)

pub nine_bytes :
    (w : ℕ) (rest : List ℕ)
    → w + enc_8 < 2 ^ 64
    → decode_prefix_varint_u64 (buf_9 w ++ rest) ≡ done (ok (w + enc_8, 9))
unfolding buf_9
nine_bytes w rest h =
    decode_long 7 0xff 0 w (be_bytes_u64 w) rest IsHead-9 refl
      (shift_step (0) (w / 2 ^ 56 % 256) (w / 2 ^ 56)
          (w / 2 ^ 48 % 256 ∷ w / 2 ^ 40 % 256 ∷ w / 2 ^ 32 % 256 ∷ be_bytes_u32 (w % 2 ^ 32))
          (omega arith) (omega arith)
        ∙ (shift_step (w / 2 ^ 56) (w / 2 ^ 48 % 256) (w / 2 ^ 48)
              (w / 2 ^ 40 % 256 ∷ w / 2 ^ 32 % 256 ∷ be_bytes_u32 (w % 2 ^ 32)) (omega arith)
              (omega arith)
            ∙ (shift_step (w / 2 ^ 48) (w / 2 ^ 40 % 256) (w / 2 ^ 40)
                  (w / 2 ^ 32 % 256 ∷ be_bytes_u32 (w % 2 ^ 32)) (omega arith) (omega arith)
                ∙ (shift_step (w / 2 ^ 40) (w / 2 ^ 32 % 256) (w / 2 ^ 32)
                      (be_bytes_u32 (w % 2 ^ 32)) (omega arith) (omega arith)
                    ∙ (shift_u32 (w / 2 ^ 32) w (omega arith) (omega arith))))))
      (omega arith)
