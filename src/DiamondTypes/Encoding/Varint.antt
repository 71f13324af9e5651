-- ===== src/DiamondTypes/Encoding/Varint.antt =====
-- tools/diamond-types/src/encoding/varint.rs: integers as 1 to 9 bytes, the first of which tells how
-- many. A byte is a number below 256. A sum that leaves its type is a panic, as in a build with
-- overflow checks.
pub mod Bytes
pub mod Widths
pub mod RoundTrip
pub mod Narrow
pub mod Bounds
use egwalker_paper.Base.{
  ℕ, zero, suc, ◌+◌, ◌-◌, ◌*◌, ◌/◌, ◌%◌, ◌^◌, bit_and, bit_or, Bool, true, false, List, [], ◌∷◌,
  ◌++◌, ltb, leb, ◌==◌, if◌then◌else◌, length, take, replicate, get_or,
}
use egwalker_paper.Base.Panic.{Outcome, done, panic, checked_sub, ◌>>=◌}
use egwalker_paper.DiamondTypes.Encoding.Errors.{Result, ok, err, unexpected_eof, invalid_var_int}

abbrev pub enc_1 : ℕ
enc_1 = 2 ^ 7

abbrev pub enc_2 : ℕ
enc_2 = 2 ^ 14 + enc_1

abbrev pub enc_3 : ℕ
enc_3 = 2 ^ 21 + enc_2

abbrev pub enc_4 : ℕ
enc_4 = 2 ^ 28 + enc_3

abbrev pub enc_5 : ℕ
enc_5 = 2 ^ 35 + enc_4

abbrev pub enc_6 : ℕ
enc_6 = 2 ^ 42 + enc_5

abbrev pub enc_7 : ℕ
enc_7 = 2 ^ 49 + enc_6

abbrev pub enc_8 : ℕ
enc_8 = 2 ^ 54 + enc_7

abbrev pub enc_u64_vals : List ℕ
enc_u64_vals = enc_1 ∷ enc_2 ∷ enc_3 ∷ enc_4 ∷ enc_5 ∷ enc_6 ∷ enc_7 ∷ enc_8 ∷ []

-- `value as u8`, and `to_be_bytes` of a `u32` and of a `u64`.
abbrev pub as_u8 : ℕ → ℕ
as_u8 value = value % 256

abbrev pub be_bytes_u32 : ℕ → List ℕ
be_bytes_u32 v = v / 2 ^ 24 % 256 ∷ v / 2 ^ 16 % 256 ∷ v / 2 ^ 8 % 256 ∷ v % 256 ∷ []

abbrev pub be_bytes_u64 : ℕ → List ℕ
be_bytes_u64 v =
    v / 2 ^ 56 % 256
    ∷ v / 2 ^ 48 % 256
    ∷ v / 2 ^ 40 % 256
    ∷ v / 2 ^ 32 % 256
    ∷ be_bytes_u32 (v % 2 ^ 32)

-- The buffers of the branches of the encoders, for the value that is left of `value`.
pub buf_2 : ℕ → List ℕ
buf_2 v = bit_or 0x80 (as_u8 (v / 2 ^ 8)) ∷ as_u8 v ∷ []

pub buf_3 : ℕ → List ℕ
buf_3 v = bit_or 0xc0 (as_u8 (v / 2 ^ 16)) ∷ as_u8 (v / 2 ^ 8) ∷ as_u8 v ∷ []

pub buf_4 : ℕ → List ℕ
buf_4 v = bit_or 0xe0 (as_u8 (v / 2 ^ 24)) ∷ as_u8 (v / 2 ^ 16) ∷ as_u8 (v / 2 ^ 8) ∷ as_u8 v ∷ []

pub buf_5 : ℕ → List ℕ
buf_5 v = bit_or 0xf0 (as_u8 (v / 2 ^ 32)) ∷ be_bytes_u32 (v % 2 ^ 32)

pub buf_6 : ℕ → List ℕ
buf_6 v = bit_or 0xf8 (as_u8 (v / 2 ^ 40)) ∷ as_u8 (v / 2 ^ 32) ∷ be_bytes_u32 (v % 2 ^ 32)

pub buf_7 : ℕ → List ℕ
buf_7 v =
    bit_or 0xfc (as_u8 (v / 2 ^ 48))
    ∷ as_u8 (v / 2 ^ 40)
    ∷ as_u8 (v / 2 ^ 32)
    ∷ be_bytes_u32 (v % 2 ^ 32)

pub buf_8 : ℕ → List ℕ
buf_8 v =
    bit_or 0xfe (as_u8 (v / 2 ^ 56))
    ∷ as_u8 (v / 2 ^ 48)
    ∷ as_u8 (v / 2 ^ 40)
    ∷ as_u8 (v / 2 ^ 32)
    ∷ be_bytes_u32 (v % 2 ^ 32)

pub buf_9 : ℕ → List ℕ
buf_9 v = 0xff ∷ be_bytes_u64 v

-- The array, zero behind the bytes written, and how many those are.
pub encode_prefix_varint_u64 : ℕ → List ℕ × ℕ
encode_prefix_varint_u64 value =
    if ltb value enc_1
    then (as_u8 value ∷ replicate 8 0, 1)
    else (if ltb value enc_2
        then (buf_2 (value - enc_1) ++ replicate 7 0, 2)
        else (if ltb value enc_3
            then (buf_3 (value - enc_2) ++ replicate 6 0, 3)
            else (if ltb value enc_4
                then (buf_4 (value - enc_3) ++ replicate 5 0, 4)
                else (if ltb value enc_5
                    then (buf_5 (value - enc_4) ++ replicate 4 0, 5)
                    else (if ltb value enc_6
                        then (buf_6 (value - enc_5) ++ replicate 3 0, 6)
                        else (if ltb value enc_7
                            then (buf_7 (value - enc_6) ++ replicate 2 0, 7)
                            else (if ltb value enc_8
                                then (buf_8 (value - enc_7) ++ replicate 1 0, 8)
                                else (buf_9 (value - enc_8), 9))))))))

-- The encoder for `u32`, whose bounds and first four branches are those of the other. Its last
-- branch writes `0b1111_0000` and four bytes.
pub encode_prefix_varint_u32 : ℕ → List ℕ × ℕ
encode_prefix_varint_u32 value =
    if ltb value enc_1
    then (as_u8 value ∷ replicate 4 0, 1)
    else (if ltb value enc_2
        then (buf_2 (value - enc_1) ++ replicate 3 0, 2)
        else (if ltb value enc_3
            then (buf_3 (value - enc_2) ++ replicate 2 0, 3)
            else (if ltb value enc_4
                then (buf_4 (value - enc_3) ++ replicate 1 0, 4)
                else (0xf0 ∷ be_bytes_u32 (value - enc_4), 5))))

pub push_u32 : List ℕ → ℕ → List ℕ
push_u32 into val = let (buf, pos) = encode_prefix_varint_u32 val in into ++ take pos buf

pub push_u64 : List ℕ → ℕ → List ℕ
push_u64 into val = let (buf, pos) = encode_prefix_varint_u64 val in into ++ take pos buf

-- `b.leading_ones()` of a byte.
abbrev pub leading_ones_from : ℕ → ℕ → ℕ
leading_ones_from zero b = 0
leading_ones_from (suc k) b =
    let rest = leading_ones_from k (b - 2 ^ k) in if leb (2 ^ k) b then suc rest else 0

abbrev pub leading_ones : ℕ → ℕ
leading_ones b = leading_ones_from 8 b

unfoldable pub checked_add_u64 : ℕ → ℕ → Outcome ℕ
checked_add_u64 a b = if ltb (a + b) (2 ^ 64) then done (a + b) else panic

-- `for b in &buf[1..byte_len] { val = (val << 8) + *b as u64; }`, whose shift drops high bits.
unfoldable pub shift_in : ℕ → List ℕ → ℕ
shift_in val [] = val
shift_in val (b ∷ bs) = shift_in (val * 2 ^ 8 % 2 ^ 64 + b) bs

unfoldable pub decode_two : ℕ → List ℕ → Outcome (Result (ℕ × ℕ))
decode_two b0 [] = done (err unexpected_eof)
decode_two b0 (b1 ∷ bs) = done (ok (bit_and b0 0x3f * 2 ^ 8 + b1 + enc_1, 2))

pub decode_more : ℕ → ℕ → List ℕ → Outcome (Result (ℕ × ℕ))
decode_more idx b0 bs = if ltb (suc (length bs)) (idx + 2) then done (err unexpected_eof) else (do
  val ←
      checked_add_u64 (shift_in (bit_and b0 (2 ^ (7 - idx) - 1)) (take (idx + 1) bs))
        (get_or enc_u64_vals idx 0)
  done (ok (val, idx + 2)))

unfoldable pub decode_prefix_varint_u64 : List ℕ → Outcome (Result (ℕ × ℕ))
decode_prefix_varint_u64 [] = done (err unexpected_eof)
decode_prefix_varint_u64 (b0 ∷ bs) =
    if leb b0 0x7f
    then done (ok (b0, 1))
    else (if leb b0 0xbf
        then decode_two b0 bs
        else (do ones ← checked_sub (leading_ones b0) 1; decode_more (bit_and ones 7) b0 bs))

-- `decode_prefix_varint_u32_loop`
unfoldable pub fit_u32 : Result (ℕ × ℕ) → Result (ℕ × ℕ)
fit_u32 (err e) = err e
fit_u32 (ok (val, bytes)) = if ltb (2 ^ 32 - 1) val then err invalid_var_int else ok (val, bytes)

unfoldable pub decode_prefix_varint_u32_loop : List ℕ → Outcome (Result (ℕ × ℕ))
decode_prefix_varint_u32_loop buf = do r ← decode_prefix_varint_u64 buf; done (fit_u32 r)
