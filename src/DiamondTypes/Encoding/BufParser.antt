-- ===== src/DiamondTypes/Encoding/BufParser.antt =====
-- `BufParser` of tools/diamond-types/src/encoding/bufparser.rs: the bytes that are left. A method
-- that takes `&mut self` returns the new state with its value; an error leaves it as it was. A
-- `usize` has 64 bits.
pub mod Reads
use egwalker_paper.Base.{
  ℕ, zero, suc, ◌*◌, ◌+◌, ◌^◌, Bool, true, false, List, [], ◌∷◌, Option, none, some, length, take,
  drop, ltb, if◌then◌else◌,
}
use egwalker_paper.Base.Panic.{Outcome, done, panic}
use egwalker_paper.DiamondTypes.Encoding.Errors.{
  Result, ok, err, ParseError, unexpected_eof, invalid_length,
}
use egwalker_paper.DiamondTypes.Encoding.Zigzag.{num_decode_zigzag_i64}
use egwalker_paper.DiamondTypes.Encoding.Varint.{
  decode_prefix_varint_u64, decode_prefix_varint_u32_loop,
}

abbrev pub BufParser : Type 0
BufParser = List ℕ

-- `?` on a call that can panic.
abbrev pub bind_result {ℓ κ} :
    {A : Type ℓ} {B : Type κ} → Outcome (Result A) → (A → Outcome (Result B)) → Outcome (Result B)
bind_result (done (ok a)) f = f a
bind_result (done (err e)) f = done (err e)
bind_result panic f = panic
bind_result Outcome.stuck f = Outcome.stuck

pub check_has_bytes : ℕ → BufParser → Outcome (Result (Unit {0}))
check_has_bytes num buf = if ltb (length buf) num then done (err unexpected_eof) else done (ok tt)

pub check_not_empty : BufParser → Outcome (Result (Unit {0}))
check_not_empty buf = check_has_bytes 1 buf

pub parser_is_empty : BufParser → Bool
parser_is_empty [] = true
parser_is_empty (b ∷ bs) = false

pub expect_empty : BufParser → Result (Unit {0})
expect_empty buf = if parser_is_empty buf then ok tt else err invalid_length

-- `get_unchecked(num..)`, for what a decoder says it used.
pub consume : ℕ → BufParser → BufParser
consume num buf = drop num buf

pub peek_u32 : BufParser → Outcome (Result (Option ℕ))
peek_u32 buf =
    if parser_is_empty buf
    then done (ok none)
    else bind_result (decode_prefix_varint_u32_loop buf) (λ (val, count). done (ok (some val)))

pub next_u32 : BufParser → Outcome (Result (ℕ × BufParser))
next_u32 buf = bind_result (check_not_empty buf) (λ u.
    bind_result (decode_prefix_varint_u32_loop buf)
      (λ (val, count). done (ok (val, consume count buf))))

pub next_u64 : BufParser → Outcome (Result (ℕ × BufParser))
next_u64 buf = bind_result (check_not_empty buf) (λ u.
    bind_result (decode_prefix_varint_u64 buf) (λ (val, count). done (ok (val, consume count buf))))

-- `decode_prefix_varint_usize`, for a `usize` of 64 bits.
pub decode_prefix_varint_usize : List ℕ → Outcome (Result (ℕ × ℕ))
decode_prefix_varint_usize buf =
    bind_result (decode_prefix_varint_u64 buf) (λ (val, count). done (ok (val, count)))

pub next_usize : BufParser → Outcome (Result (ℕ × BufParser))
next_usize buf = bind_result (check_not_empty buf) (λ u.
    bind_result (decode_prefix_varint_usize buf)
      (λ (val, count). done (ok (val, consume count buf))))

-- `num_decode_zigzag_isize` is the decoder for `i64`, on a pattern of 64 bits.
pub next_zigzag_isize : BufParser → Outcome (Result (ℕ × BufParser))
next_zigzag_isize buf =
    bind_result (next_usize buf) (λ (n, rest). done (ok (num_decode_zigzag_i64 n, rest)))

-- `self.0[0..4]` panics if there are fewer bytes.
pub next_u32_le : BufParser → Outcome (Result (ℕ × BufParser))
next_u32_le (b0 ∷ b1 ∷ b2 ∷ b3 ∷ bs) =
    done (ok (b0 + b1 * 2 ^ 8 + b2 * 2 ^ 16 + b3 * 2 ^ 24, consume 4 (b0 ∷ b1 ∷ b2 ∷ b3 ∷ bs)))
next_u32_le _ = panic

pub next_n_bytes : ℕ → BufParser → Result (List ℕ × BufParser)
next_n_bytes num_bytes buf =
    if ltb (length buf) num_bytes
    then err unexpected_eof
    else ok (take num_bytes buf, drop num_bytes buf)
