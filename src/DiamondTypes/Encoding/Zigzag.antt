-- ===== src/DiamondTypes/Encoding/Zigzag.antt =====
-- Signed integers and extra bits of tools/diamond-types/src/encoding/varint.rs as unsigned integers. An
-- `i64` or `i32` is its bit pattern, below 2 ^ 64 or 2 ^ 32; `signed` is the integer it stands for.
pub mod Laws
use egwalker_paper.Base.{
  ℕ, ◌+◌, ◌-◌, ◌*◌, ◌/◌, ◌%◌, ◌^◌, Bool, true, false, bit_and, bit_xor, ltb, ◌==◌, if◌then◌else◌,
}
use egwalker_paper.Base.Panic.{Outcome, done, panic}

-- `negsuc n` is -(n + 1).
pub data ℤ : Type 0 where
  pos : ℕ → ℤ
  negsuc : ℕ → ℤ

-- The integer of a pattern, for the first pattern of a negative one.
abbrev pub signed : ℕ → ℕ → ℤ
signed half val = if ltb val half then pos val else negsuc (2 * half - val - 1)

-- `val << 1`, and `val >> 63` and `val >> 31`, which fill with the sign.
abbrev pub shl_64 : ℕ → ℕ
shl_64 val = val * 2 % 2 ^ 64

abbrev pub sign_64 : ℕ → ℕ
sign_64 val = if ltb val (2 ^ 63) then 0 else 2 ^ 64 - 1

abbrev pub shl_32 : ℕ → ℕ
shl_32 val = val * 2 % 2 ^ 32

abbrev pub sign_32 : ℕ → ℕ
sign_32 val = if ltb val (2 ^ 31) then 0 else 2 ^ 32 - 1

pub num_encode_zigzag_i64 : ℕ → ℕ
num_encode_zigzag_i64 val = bit_xor (shl_64 val) (sign_64 val)

pub num_encode_zigzag_i32 : ℕ → ℕ
num_encode_zigzag_i32 val = bit_xor (shl_32 val) (sign_32 val)

-- `-n - 1` and `n`.
pub num_decode_zigzag_i64 : ℕ → ℕ
num_decode_zigzag_i64 val =
    let n = val / 2 in
    if bit_and val 1 == 1 then ((2 ^ 64 - n) % 2 ^ 64 + (2 ^ 64 - 1)) % 2 ^ 64 else n

pub num_decode_zigzag_i32 : ℕ → ℕ
num_decode_zigzag_i32 val =
    let n = val / 2 in
    if bit_and val 1 == 1 then ((2 ^ 32 - n) % 2 ^ 32 + (2 ^ 32 - 1)) % 2 ^ 32 else n

-- `extra as u64`
abbrev pub bit : Bool → ℕ
bit true = 1
bit false = 0

-- The debug assertion on the value's range is tested.
pub mix_bit_u64 : ℕ → Bool → Outcome ℕ
mix_bit_u64 value extra =
    if ltb value ((2 ^ 64 - 1) / 2) then done (value * 2 + bit extra) else panic

pub mix_bit_u32 : ℕ → Bool → Outcome ℕ
mix_bit_u32 value extra =
    if ltb value ((2 ^ 32 - 1) / 2) then done (value * 2 + bit extra) else panic

-- `strip_bit_u64`, `strip_bit_u32` and their kin, which differ in their types only.
pub strip_bit : ℕ → ℕ × Bool
strip_bit value = (value / 2, if bit_and value 1 == 0 then false else true)
