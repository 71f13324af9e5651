-- ===== src/DiamondTypes/Encoding/Examples.antt =====
-- The theorems on the encodings of tools/diamond-types/src/encoding at concrete inputs.
use egwalker_paper.Base.{
  ℕ, ◌≡◌, ◌≤◌, List, [], ◌∷◌, ◌++◌, length, ◌+◌, ◌-◌, ◌^◌, ltb, if◌then◌else◌, arith,
}
use egwalker_paper.Base.Panic.{done}
use egwalker_paper.DiamondTypes.Encoding.Errors.{ok, err, invalid_var_int}
use egwalker_paper.DiamondTypes.Encoding.Varint.{
  push_u64, push_u32, encode_prefix_varint_u32, encode_prefix_varint_u64, decode_prefix_varint_u64,
  decode_prefix_varint_u32_loop, enc_u64_vals,
}
use egwalker_paper.DiamondTypes.Encoding.Unrolled.{
  decode_prefix_varint_u64_unroll, decode_prefix_varint_u32_unroll,
}
use egwalker_paper.DiamondTypes.Encoding.Unrolled.Wide.{decode_unroll_lem}
use egwalker_paper.DiamondTypes.Encoding.Unrolled.Narrow.{Agree, decode_u32_unroll_lem}
use egwalker_paper.DiamondTypes.Encoding.Zigzag.{num_encode_zigzag_i64}
use egwalker_paper.DiamondTypes.Encoding.Varint.Bounds.{IsBytes, reached, push_u64_bounds}
use egwalker_paper.DiamondTypes.Encoding.Varint.Narrow.{narrow, encode_u32_lem}
use egwalker_paper.DiamondTypes.Encoding.BufParser.{next_zigzag_isize}
use egwalker_paper.DiamondTypes.Encoding.BufParser.Reads.{next_zigzag_isize_lem}
use egwalker_paper.DiamondTypes.Encoding.Varint.RoundTrip.{decode-push_u64, decode_u32-push_u64}

decode-push_u64_example :
    (b : List ℕ) × (push_u64 (7 ∷ []) 1000000 ≡ (7 ∷ []) ++ b)
    × (decode_prefix_varint_u64 (b ++ (3 ∷ 4 ∷ [])) ≡ done (ok (1000000, length b)))
decode-push_u64_example = decode-push_u64 (7 ∷ []) (3 ∷ 4 ∷ []) 1000000 (omega arith)

decode_u32-push_u64_example :
    (b : List ℕ) × (push_u64 [] 5000000000 ≡ [] ++ b)
    × (decode_prefix_varint_u32_loop (b ++ (9 ∷ []))
        ≡ done (if ltb 5000000000 (2 ^ 32) then ok (5000000000, length b) else err invalid_var_int))
decode_u32-push_u64_example = decode_u32-push_u64 [] (9 ∷ []) 5000000000 (omega arith)

encode_u32_lem_example :
    (encode_prefix_varint_u32 3000000000 ≡ narrow (encode_prefix_varint_u64 3000000000))
    × (push_u32 (1 ∷ []) 3000000000 ≡ push_u64 (1 ∷ []) 3000000000)
encode_u32_lem_example = encode_u32_lem (1 ∷ []) 3000000000 (omega arith)

abbrev three : List ℕ
three = 0xc0 ∷ 0x30 ∷ 0x39 ∷ []

decode_unroll_lem_example : decode_prefix_varint_u64_unroll three ≡ decode_prefix_varint_u64 three
decode_unroll_lem_example = decode_unroll_lem three (omega arith, (omega arith, (omega arith, tt)))

decode_u32_unroll_lem_example :
    Agree (decode_prefix_varint_u32_unroll three) (decode_prefix_varint_u32_loop three)
decode_u32_unroll_lem_example =
    decode_u32_unroll_lem three (omega arith, (omega arith, (omega arith, tt)))

-- The integer -3.
next_zigzag_isize_lem_example :
    (b : List ℕ) × (push_u64 [] (num_encode_zigzag_i64 (2 ^ 64 - 3)) ≡ [] ++ b)
    × (next_zigzag_isize (b ++ (8 ∷ [])) ≡ done (ok (2 ^ 64 - 3, 8 ∷ [])))
next_zigzag_isize_lem_example = next_zigzag_isize_lem [] (8 ∷ []) (2 ^ 64 - 3) (omega arith)

push_u64_bounds_example :
    (b : List ℕ) × (push_u64 (9 ∷ []) 20000 ≡ (9 ∷ []) ++ b)
    × IsBytes b
    × (length b ≡ 1 + reached 20000 enc_u64_vals)
    × (length b ≤ 9)
push_u64_bounds_example = push_u64_bounds (9 ∷ []) 20000
