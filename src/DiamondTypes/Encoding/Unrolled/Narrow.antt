-- ===== src/DiamondTypes/Encoding/Unrolled/Narrow.antt =====
-- That the hand-unrolled decoder for `u32` of tools/diamond-types/src/encoding/varint.rs reads the numbers
-- that the one with the loop reads.
use egwalker_paper.Base.{
  ℕ, ◌-◌, ◌+◌, ◌*◌, ◌^◌, ◌≤◌, ◌<◌, ◌≡◌, refl, arith, ap, sym, Bool-cases, ◌⊎◌, inl, inr, bit_and,
  ==_iff, ltb, List, [], ◌∷◌, ◌==◌, leb, All, Option, some, none, true, false, if◌then◌else◌,
}
use egwalker_paper.Base.Bits.{agree_below}
use egwalker_paper.Base.Panic.{Outcome, done, panic, ◌>>=◌, checked_sub_lem}
use egwalker_paper.DiamondTypes.Encoding.Errors.{
  Result, ok, err, ParseError, invalid_var_int, unexpected_eof,
}
use egwalker_paper.DiamondTypes.Encoding.Varint.{
  enc_4, enc_7, enc_8, decode_two, fit_u32, decode_prefix_varint_u32_loop, checked_add_u64,
}
use egwalker_paper.DiamondTypes.Encoding.Unrolled.{
  unroll_3, unroll_4, unroll_5, unroll_6, unroll_7, unroll_8, unroll_9, unroll_5_u32, from_be_u32,
  from_be_u64, decode_prefix_varint_u64_unroll, decode_prefix_varint_u32_unroll,
}
use egwalker_paper.DiamondTypes.Encoding.Unrolled.Heads.{masked}
use egwalker_paper.DiamondTypes.Encoding.Unrolled.Wide.{decode_unroll_lem}

-- What a decoder read, if it read something.
abbrev pub reading : Result (ℕ × ℕ) → Option (ℕ × ℕ)
reading (ok a) = some a
reading (err e) = none

-- Two decoders return both, with the same reading, or a sum of one leaves its type and the other
-- reports `InvalidVarInt`.
abbrev pub Agree : Outcome (Result (ℕ × ℕ)) → Outcome (Result (ℕ × ℕ)) → Type 0
Agree o o' =
    ((o ≡ panic) × (o' ≡ done (err invalid_var_int)))
    ⊎ (((o' ≡ panic) × (o ≡ done (err invalid_var_int)))
        ⊎ ((r : Result (ℕ × ℕ)) × (r' : Result (ℕ × ℕ)) × (o ≡ done r)
            × (o' ≡ done r')
            × (reading r ≡ reading r')))

both : (r r' : Result (ℕ × ℕ)) → reading r ≡ reading r' → Agree (done r) (done r')
both r r' e = inr (inr (r, r', refl, refl, e))

-- The check of the range behind a decoder for `u64`.
abbrev fit : Outcome (Result (ℕ × ℕ)) → Outcome (Result (ℕ × ℕ))
fit o = do r ← o; done (fit_u32 r)

small : (b0 : ℕ) → leb b0 0x7f ≡ true → fit_u32 (ok (b0, 1)) ≡ ok (b0, 1)
unfolding fit_u32
small b0 h = let e : ltb (2 ^ 32 - 1) b0 ≡ false = ground (arith, h) in rw e refl

same_2 :
    (h : ℕ) (bs : List ℕ)
    → 0x80 ≤ h
    → h < 0xc0
    → All (λ b. b < 256) bs
    → Agree (decode_two h bs) (fit (decode_two h bs))
unfolding fit_u32 decode_two agree_below
same_2 h (b1 ∷ bs) low high (x1, xs) =
    let m = masked 0x80 0x40 0x3f h refl low high in rw m (both _ _ (ground arith))
same_2 h [] low high xs = both _ _ refl

same_3 :
    (h : ℕ) (bs : List ℕ)
    → 0xc0 ≤ h
    → h < 0xe0
    → All (λ b. b < 256) bs
    → Agree (unroll_3 h bs) (fit (unroll_3 h bs))
unfolding fit_u32 unroll_3 agree_below
same_3 h (b1 ∷ b2 ∷ bs) low high (x1, (x2, xs)) =
    let m = masked 0xc0 0x20 0x1f h refl low high in rw m (both _ _ (ground arith))
same_3 h (b1 ∷ []) low high xs = both _ _ refl
same_3 h [] low high xs = both _ _ refl

same_4 :
    (h : ℕ) (bs : List ℕ)
    → 0xe0 ≤ h
    → h < 0xf0
    → All (λ b. b < 256) bs
    → Agree (unroll_4 h bs) (fit (unroll_4 h bs))
unfolding fit_u32 unroll_4
same_4 h (b1 ∷ b2 ∷ b3 ∷ bs) low high (x1, (x2, (x3, xs))) =
    let w = (h - 0xe0) * 2 ^ 24 + b1 * 2 ^ 16 + b2 * 2 ^ 8 + b3 in
    rw (checked_sub_lem (from_be_u32 h b1 b2 b3) (0xe0 * 2 ^ 24) w (omega arith), ◌>>=◌)
      (both _ _ (ground arith))
same_4 h (b1 ∷ b2 ∷ []) low high xs = both _ _ refl
same_4 h (b1 ∷ []) low high xs = both _ _ refl
same_4 h [] low high xs = both _ _ refl

same_5 :
    (h : ℕ) (bs : List ℕ) → 0xf0 ≤ h → h < 0xf8 → Agree (unroll_5_u32 h bs) (fit (unroll_5 h bs))
unfolding fit_u32 unroll_5 unroll_5_u32 agree_below
same_5 h (b1 ∷ b2 ∷ b3 ∷ b4 ∷ bs) low high =
    let m = masked 0xf0 8 7 h refl low high in
    let val = from_be_u32 b1 b2 b3 b4 + enc_4 in
    let wide = bit_and h 7 * 2 ^ 32 + b1 * 2 ^ 24 + b2 * 2 ^ 16 + b3 * 2 ^ 8 + b4 + enc_4 in
    elim (Bool-cases (h == 0xf0)) [
      | inr other ↦
          let e : ltb (2 ^ 32 - 1) wide ≡ true = ground (arith, m, other) in
          rw (other, e) (both _ _ refl)
      | inl one ↦ elim (Bool-cases (ltb val (2 ^ 32))) [
        | inl fits ↦
            let e : ltb (2 ^ 32 - 1) wide ≡ false = ground (arith, m, one, fits) in
            let same : wide ≡ val = ground (arith, m, one) in
            rw (one, fits, e) (both _ _ (ap (λ n. some (n, 5)) (sym same)))
        | inr over ↦
            let e : ltb (2 ^ 32 - 1) wide ≡ true = ground (arith, m, one, over) in
            rw (one, over, e) (inl (refl, refl))
      ]
    ]
same_5 h (b1 ∷ b2 ∷ b3 ∷ []) low high = both _ _ refl
same_5 h (b1 ∷ b2 ∷ []) low high = both _ _ refl
same_5 h (b1 ∷ []) low high = both _ _ refl
same_5 h [] low high = both _ _ refl

-- A longer code is of a number that is too large.
abbrev IsError : Outcome (Result (ℕ × ℕ)) → Type 0
IsError o = (e : ParseError) × (o ≡ done (err e))

errors : (o o' : Outcome (Result (ℕ × ℕ))) → IsError o → IsError o' → Agree o o'
errors o o' (e, h) (e', h') = rw (h, h') (both (err e) (err e') refl)

over : (n k : ℕ) → 2 ^ 32 ≤ n → IsError (done (fit_u32 (ok (n, k))))
unfolding fit_u32
over n k h = let e : ltb (2 ^ 32 - 1) n ≡ true = ground (arith, h) in (invalid_var_int, rw e refl)

none_5 : (h : ℕ) (bs : List ℕ) → 0xf8 ≤ h → IsError (unroll_5_u32 h bs)
unfolding unroll_5_u32
none_5 h (b1 ∷ b2 ∷ b3 ∷ b4 ∷ bs) low =
    let e : (h == 0xf0) ≡ false = ground (arith, low) in (invalid_var_int, rw e refl)
none_5 h (b1 ∷ b2 ∷ b3 ∷ []) low = (unexpected_eof, refl)
none_5 h (b1 ∷ b2 ∷ []) low = (unexpected_eof, refl)
none_5 h (b1 ∷ []) low = (unexpected_eof, refl)
none_5 h [] low = (unexpected_eof, refl)

none_6 : (h : ℕ) (bs : List ℕ) → IsError (fit (unroll_6 h bs))
unfolding fit_u32 unroll_6
none_6 h (b1 ∷ b2 ∷ b3 ∷ b4 ∷ b5 ∷ bs) = over _ 6 (omega arith)
none_6 h (b1 ∷ b2 ∷ b3 ∷ b4 ∷ []) = (unexpected_eof, refl)
none_6 h (b1 ∷ b2 ∷ b3 ∷ []) = (unexpected_eof, refl)
none_6 h (b1 ∷ b2 ∷ []) = (unexpected_eof, refl)
none_6 h (b1 ∷ []) = (unexpected_eof, refl)
none_6 h [] = (unexpected_eof, refl)

none_7 : (h : ℕ) (bs : List ℕ) → IsError (fit (unroll_7 h bs))
unfolding fit_u32 unroll_7
none_7 h (b1 ∷ b2 ∷ b3 ∷ b4 ∷ b5 ∷ b6 ∷ bs) = over _ 7 (omega arith)
none_7 h (b1 ∷ b2 ∷ b3 ∷ b4 ∷ b5 ∷ []) = (unexpected_eof, refl)
none_7 h (b1 ∷ b2 ∷ b3 ∷ b4 ∷ []) = (unexpected_eof, refl)
none_7 h (b1 ∷ b2 ∷ b3 ∷ []) = (unexpected_eof, refl)
none_7 h (b1 ∷ b2 ∷ []) = (unexpected_eof, refl)
none_7 h (b1 ∷ []) = (unexpected_eof, refl)
none_7 h [] = (unexpected_eof, refl)

none_8 : (h : ℕ) (bs : List ℕ) → h ≡ 0xfe → IsError (fit (unroll_8 h bs))
unfolding fit_u32 unroll_8
none_8 h (b1 ∷ b2 ∷ b3 ∷ b4 ∷ b5 ∷ b6 ∷ b7 ∷ bs) e =
    let w = from_be_u64 0 b1 b2 b3 b4 b5 b6 b7 in
    rw
      (
        checked_sub_lem (from_be_u64 h b1 b2 b3 b4 b5 b6 b7) (0xfe * 2 ^ 56) w (omega (arith, e)),
        ◌>>=◌,
      )
      (over (w + enc_7) 8 (omega arith))
none_8 h (b1 ∷ b2 ∷ b3 ∷ b4 ∷ b5 ∷ b6 ∷ []) e = (unexpected_eof, refl)
none_8 h (b1 ∷ b2 ∷ b3 ∷ b4 ∷ b5 ∷ []) e = (unexpected_eof, refl)
none_8 h (b1 ∷ b2 ∷ b3 ∷ b4 ∷ []) e = (unexpected_eof, refl)
none_8 h (b1 ∷ b2 ∷ b3 ∷ []) e = (unexpected_eof, refl)
none_8 h (b1 ∷ b2 ∷ []) e = (unexpected_eof, refl)
none_8 h (b1 ∷ []) e = (unexpected_eof, refl)
none_8 h [] e = (unexpected_eof, refl)

same_9 : (h : ℕ) (bs : List ℕ) → 0xf8 ≤ h → Agree (unroll_5_u32 h bs) (fit (unroll_9 bs))
unfolding fit_u32 unroll_9 checked_add_u64 unroll_5_u32
same_9 h (b1 ∷ b2 ∷ b3 ∷ b4 ∷ b5 ∷ b6 ∷ b7 ∷ b8 ∷ bs) low =
    let e : (h == 0xf0) ≡ false = ground (arith, low) in
    let val = from_be_u64 b1 b2 b3 b4 b5 b6 b7 b8 + enc_8 in
    elim (Bool-cases (ltb val (2 ^ 64))) [
      | inl fits ↦
          let wide : ltb (2 ^ 32 - 1) val ≡ true = ground arith in
          rw (e, fits, wide) (both _ _ refl)
      | inr overflows ↦ rw (e, overflows) (inr (inl (refl, refl)))
    ]
same_9 h (b1 ∷ b2 ∷ b3 ∷ b4 ∷ b5 ∷ b6 ∷ b7 ∷ []) low =
    let e : (h == 0xf0) ≡ false = ground (arith, low) in rw e (both _ _ refl)
same_9 h (b1 ∷ b2 ∷ b3 ∷ b4 ∷ b5 ∷ b6 ∷ []) low =
    let e : (h == 0xf0) ≡ false = ground (arith, low) in rw e (both _ _ refl)
same_9 h (b1 ∷ b2 ∷ b3 ∷ b4 ∷ b5 ∷ []) low =
    let e : (h == 0xf0) ≡ false = ground (arith, low) in rw e (both _ _ refl)
same_9 h (b1 ∷ b2 ∷ b3 ∷ b4 ∷ []) low =
    let e : (h == 0xf0) ≡ false = ground (arith, low) in rw e (both _ _ refl)
same_9 h (b1 ∷ b2 ∷ b3 ∷ []) low = both _ _ refl
same_9 h (b1 ∷ b2 ∷ []) low = both _ _ refl
same_9 h (b1 ∷ []) low = both _ _ refl
same_9 h [] low = both _ _ refl

large :
    (h : ℕ) (bs : List ℕ)
    → leb h 0xf7 ≡ false
    → Agree (unroll_5_u32 h bs) (
        fit (
          if leb h 0xfb
          then unroll_6 h bs
          else (if leb h 0xfd
              then unroll_7 h bs
              else (if h == 0xfe then unroll_8 h bs else unroll_9 bs))))
large h bs e =
    let short = none_5 h bs (ground (arith, e)) in
    elim (Bool-cases (leb h 0xfb)) [
      | inl a ↦ rw a (errors _ _ short (none_6 h bs))
      | inr a ↦ elim (Bool-cases (leb h 0xfd)) [
        | inl b ↦ rw (a, b) (errors _ _ short (none_7 h bs))
        | inr b ↦ elim (Bool-cases (h == 0xfe)) [
          | inl c ↦ rw (a, b, c) (errors _ _ short (none_8 h bs ((==_iff h 0xfe).0 c)))
          | inr c ↦ rw (a, b, c) (same_9 h bs (ground (arith, e)))
        ]
      ]
    ]

narrow_unrolled :
    (buf : List ℕ)
    → All (λ b. b < 256) buf
    → Agree (decode_prefix_varint_u32_unroll buf) (fit (decode_prefix_varint_u64_unroll buf))
unfolding decode_prefix_varint_u32_unroll decode_prefix_varint_u64_unroll
narrow_unrolled [] xs = unfold fit_u32 in both _ _ refl
narrow_unrolled (h ∷ bs) (byte, xs) = elim (Bool-cases (leb h 0x7f)) [
  | inl a ↦ rw (a, ◌>>=◌, small h a) (both _ _ refl)
  | inr a ↦ elim (Bool-cases (leb h 0xbf)) [
    | inl b ↦ rw (a, b) (same_2 h bs (ground (arith, a)) (ground (arith, b)) xs)
    | inr b ↦ elim (Bool-cases (leb h 0xdf)) [
      | inl c ↦ rw (a, b, c) (same_3 h bs (ground (arith, b)) (ground (arith, c)) xs)
      | inr c ↦ elim (Bool-cases (leb h 0xef)) [
        | inl d ↦ rw (a, b, c, d) (same_4 h bs (ground (arith, c)) (ground (arith, d)) xs)
        | inr d ↦ elim (Bool-cases (leb h 0xf7)) [
          | inl e ↦ rw (a, b, c, d, e) (same_5 h bs (ground (arith, d)) (ground (arith, e)))
          | inr e ↦ rw (a, b, c, d, e) (large h bs e)
        ]
      ]
    ]
  ]
]

-- On every sequence of bytes the hand-unrolled decoder for `u32` and the one with the loop both return,
-- and read the same number and length or report an error each; or a sum of one leaves its type (a panic,
-- or a wrong number in builds that do not check) where the other reports `InvalidVarInt`.
pub decode_u32_unroll_lem :
    (buf : List ℕ)
    → All (λ b. b < 2 ^ 8) buf
    → Agree (decode_prefix_varint_u32_unroll buf) (decode_prefix_varint_u32_loop buf)
unfolding decode_prefix_varint_u32_loop
decode_u32_unroll_lem buf h = rw (sym (decode_unroll_lem buf h)) (narrow_unrolled buf h)
