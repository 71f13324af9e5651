-- ===== src/DiamondTypes/Encoding/Unrolled.antt =====
-- The hand-unrolled decoders of tools/diamond-types/src/encoding/varint.rs. A test of `buf.len()` in a
-- branch is the case that its bytes are not there. Sums that bytes below 256 keep inside their
-- type are written plain.
pub mod Heads
pub mod Tails
pub mod Wide
pub mod Narrow
pub mod Flat
use egwalker_paper.Base.{ℕ, ◌+◌, ◌*◌, ◌^◌, bit_and, List, [], ◌∷◌, ltb, leb, ◌==◌, if◌then◌else◌}
use egwalker_paper.Base.Panic.{Outcome, done, panic, checked_sub, ◌>>=◌}
use egwalker_paper.DiamondTypes.Encoding.Errors.{Result, ok, err, unexpected_eof, invalid_var_int}
use egwalker_paper.DiamondTypes.Encoding.Varint.{
  enc_1, enc_2, enc_3, enc_4, enc_5, enc_6, enc_7, enc_8, checked_add_u64, decode_two,
}

-- `u32::from_be` and `u64::from_be` of what `read_unaligned` reads.
abbrev pub from_be_u32 : ℕ → ℕ → ℕ → ℕ → ℕ
from_be_u32 b0 b1 b2 b3 = b0 * 2 ^ 24 + b1 * 2 ^ 16 + b2 * 2 ^ 8 + b3

abbrev pub from_be_u64 : ℕ → ℕ → ℕ → ℕ → ℕ → ℕ → ℕ → ℕ → ℕ
from_be_u64 b0 b1 b2 b3 b4 b5 b6 b7 = from_be_u32 b0 b1 b2 b3 * 2 ^ 32 + from_be_u32 b4 b5 b6 b7

pub unroll_3 : ℕ → List ℕ → Outcome (Result (ℕ × ℕ))
unroll_3 b0 (b1 ∷ b2 ∷ bs) = done (ok (bit_and b0 0x1f * 2 ^ 16 + b1 * 2 ^ 8 + b2 + enc_2, 3))
unroll_3 b0 _ = done (err unexpected_eof)

pub unroll_4 : ℕ → List ℕ → Outcome (Result (ℕ × ℕ))
unroll_4 b0 (b1 ∷ b2 ∷ b3 ∷ bs) = do
  n ← checked_sub (from_be_u32 b0 b1 b2 b3) (0xe0 * 2 ^ 24)
  done (ok (n + enc_3, 4))
unroll_4 b0 _ = done (err unexpected_eof)

pub unroll_5 : ℕ → List ℕ → Outcome (Result (ℕ × ℕ))
unroll_5 b0 (b1 ∷ b2 ∷ b3 ∷ b4 ∷ bs) =
    done (ok (bit_and b0 0x07 * 2 ^ 32 + b1 * 2 ^ 24 + b2 * 2 ^ 16 + b3 * 2 ^ 8 + b4 + enc_4, 5))
unroll_5 b0 _ = done (err unexpected_eof)

pub unroll_6 : ℕ → List ℕ → Outcome (Result (ℕ × ℕ))
unroll_6 b0 (b1 ∷ b2 ∷ b3 ∷ b4 ∷ b5 ∷ bs) = done (
    ok (
      bit_and b0 0x03 * 2 ^ 40 + b1 * 2 ^ 32 + b2 * 2 ^ 24 + b3 * 2 ^ 16 + b4 * 2 ^ 8 + b5 + enc_5,
      6,
    ))
unroll_6 b0 _ = done (err unexpected_eof)

pub unroll_7 : ℕ → List ℕ → Outcome (Result (ℕ × ℕ))
unroll_7 b0 (b1 ∷ b2 ∷ b3 ∷ b4 ∷ b5 ∷ b6 ∷ bs) = done (
    ok (
      bit_and b0 0x01 * 2 ^ 48
          + b1 * 2 ^ 40
          + b2 * 2 ^ 32
          + b3 * 2 ^ 24
          + b4 * 2 ^ 16
          + b5 * 2 ^ 8
          + b6
          + enc_6,
      7,
    ))
unroll_7 b0 _ = done (err unexpected_eof)

pub unroll_8 : ℕ → List ℕ → Outcome (Result (ℕ × ℕ))
unroll_8 b0 (b1 ∷ b2 ∷ b3 ∷ b4 ∷ b5 ∷ b6 ∷ b7 ∷ bs) = do
  n ← checked_sub (from_be_u64 b0 b1 b2 b3 b4 b5 b6 b7) (0xfe * 2 ^ 56)
  done (ok (n + enc_7, 8))
unroll_8 b0 _ = done (err unexpected_eof)

pub unroll_9 : List ℕ → Outcome (Result (ℕ × ℕ))
unroll_9 (b1 ∷ b2 ∷ b3 ∷ b4 ∷ b5 ∷ b6 ∷ b7 ∷ b8 ∷ bs) = do
  val ← checked_add_u64 (from_be_u64 b1 b2 b3 b4 b5 b6 b7 b8) enc_8
  done (ok (val, 9))
unroll_9 _ = done (err unexpected_eof)

pub decode_prefix_varint_u64_unroll : List ℕ → Outcome (Result (ℕ × ℕ))
decode_prefix_varint_u64_unroll [] = done (err unexpected_eof)
decode_prefix_varint_u64_unroll (b0 ∷ bs) =
    if leb b0 0x7f
    then done (ok (b0, 1))
    else (if leb b0 0xbf
        then decode_two b0 bs
        else (if leb b0 0xdf
            then unroll_3 b0 bs
            else (if leb b0 0xef
                then unroll_4 b0 bs
                else (if leb b0 0xf7
                    then unroll_5 b0 bs
                    else (if leb b0 0xfb
                        then unroll_6 b0 bs
                        else (if leb b0 0xfd
                            then unroll_7 b0 bs
                            else (if b0 == 0xfe then unroll_8 b0 bs else unroll_9 bs)))))))

-- The decoder for `u32`, whose branches up to four bytes are those for `u64`. The sum of its last
-- branch can leave the type.
pub unroll_5_u32 : ℕ → List ℕ → Outcome (Result (ℕ × ℕ))
unroll_5_u32 b0 (b1 ∷ b2 ∷ b3 ∷ b4 ∷ bs) =
    if b0 == 0xf0
    then (let val = from_be_u32 b1 b2 b3 b4 + enc_4 in
        if ltb val (2 ^ 32) then done (ok (val, 5)) else panic)
    else done (err invalid_var_int)
unroll_5_u32 b0 _ = done (err unexpected_eof)

pub decode_prefix_varint_u32_unroll : List ℕ → Outcome (Result (ℕ × ℕ))
decode_prefix_varint_u32_unroll [] = done (err unexpected_eof)
decode_prefix_varint_u32_unroll (b0 ∷ bs) =
    if leb b0 0x7f
    then done (ok (b0, 1))
    else (if leb b0 0xbf
        then decode_two b0 bs
        else (if leb b0 0xdf
            then unroll_3 b0 bs
            else (if leb b0 0xef then unroll_4 b0 bs else unroll_5_u32 b0 bs)))

-- The decoder of an array of nine bytes, which has no errors.
pub decode_prefix_varint_u64_unroll_flat : ℕ → ℕ → ℕ → ℕ → ℕ → ℕ → ℕ → ℕ → ℕ → Outcome (ℕ × ℕ)
decode_prefix_varint_u64_unroll_flat b0 b1 b2 b3 b4 b5 b6 b7 b8 =
    if leb b0 0x7f
    then done (b0, 1)
    else (if leb b0 0xbf
        then done (bit_and b0 0x3f * 2 ^ 8 + b1 + enc_1, 2)
        else (if leb b0 0xdf
            then done (bit_and b0 0x1f * 2 ^ 16 + b1 * 2 ^ 8 + b2 + enc_2, 3)
            else (if leb b0 0xef
                then (do
                  n ← checked_sub (from_be_u32 b0 b1 b2 b3) (0xe0 * 2 ^ 24)
                  done (n + enc_3, 4))
                else (if leb b0 0xf7
                    then done (bit_and b0 0x07 * 2 ^ 32 + from_be_u32 b1 b2 b3 b4 + enc_4, 5)
                    else (if leb b0 0xfb
                        then done (
                          bit_and b0 0x03 * 2 ^ 40
                              + b1 * 2 ^ 32
                              + b2 * 2 ^ 24
                              + b3 * 2 ^ 16
                              + b4 * 2 ^ 8
                              + b5
                              + enc_5,
                          6,
                        )
                        else (if leb b0 0xfd
                            then done (
                              bit_and b0 0x01 * 2 ^ 48
                                  + b1 * 2 ^ 40
                                  + b2 * 2 ^ 32
                                  + b3 * 2 ^ 24
                                  + b4 * 2 ^ 16
                                  + b5 * 2 ^ 8
                                  + b6
                                  + enc_6,
                              7,
                            )
                            else (if b0 == 0xfe
                                then (do
                                  n ←
                                      checked_sub (from_be_u64 b0 b1 b2 b3 b4 b5 b6 b7)
                                        (0xfe * 2 ^ 56)
                                  done (n + enc_7, 8))
                                else (do
                                  val ← checked_add_u64 (from_be_u64 b1 b2 b3 b4 b5 b6 b7 b8) enc_8
                                  done (val, 9)))))))))
