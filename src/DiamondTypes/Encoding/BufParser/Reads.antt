-- ===== src/DiamondTypes/Encoding/BufParser/Reads.antt =====
-- What the parser of tools/diamond-types/src/encoding/bufparser.rs reads.
use egwalker_paper.Base.{
  ℕ, ◌+◌, ◌*◌, ◌/◌, ◌%◌, ◌==◌, Bool, ◌^◌, ◌≤◌, ◌<◌, ◌≡◌, refl, ◌∙◌, ◌⊎◌, inl, inr, List, [], ◌∷◌,
  ◌++◌, some, length, take, drop, ltb, arith, length-take, if◌then◌else◌, true, false, Bool-cases,
  ltb→lt, take-append-drop, sym,
}
use egwalker_paper.Base.Panic.{Outcome, done}
use egwalker_paper.DiamondTypes.Encoding.Errors.{
  Result, ok, err, unexpected_eof, invalid_var_int, invalid_length,
}
use egwalker_paper.DiamondTypes.Encoding.Varint.{
  push_u64, decode_prefix_varint_u64, decode_prefix_varint_u32_loop,
}
use egwalker_paper.DiamondTypes.Encoding.Zigzag.{num_encode_zigzag_i64}
use egwalker_paper.DiamondTypes.Encoding.Zigzag.Laws.{zigzag_i64_lem}
use egwalker_paper.DiamondTypes.Encoding.Varint.RoundTrip.{
  decode-push_u64, decode-nil, decode_u32_lem,
}
use egwalker_paper.DiamondTypes.Encoding.BufParser.{
  BufParser, check_has_bytes, check_not_empty, consume, next_u32, next_u64, peek_u32,
  parser_is_empty, expect_empty, next_u32_le, decode_prefix_varint_usize, next_usize, next_n_bytes,
  next_zigzag_isize,
}

drop-append : (xs ys : List ℕ) → drop (length xs) (xs ++ ys) ≡ ys
drop-append [] ys = refl
drop-append (x ∷ xs) ys = drop-append xs ys

-- The decoder refuses an empty buffer, so a code is not empty.
has_bytes :
    (b rest : List ℕ) (v n : ℕ)
    → decode_prefix_varint_u64 (b ++ rest) ≡ done (ok (v, n))
    → check_not_empty (b ++ rest) ≡ done (ok tt)
unfolding check_not_empty check_has_bytes
has_bytes [] [] v n e =
    let x : ◌≡◌ {A = Outcome (Result (ℕ × ℕ))} (done (err unexpected_eof)) (done (ok (v, n))) =
      sym decode-nil ∙ e in
    absurd cc
has_bytes [] (r ∷ rest) v n e = ground arith
has_bytes (x ∷ b) rest v n e = ground arith

not_empty : (buf : BufParser) → check_not_empty buf ≡ done (ok tt) → parser_is_empty buf ≡ false
unfolding check_not_empty check_has_bytes parser_is_empty
not_empty [] e = absurd cc
not_empty (b ∷ bs) e = refl

u32_reads :
    (b rest : List ℕ) (v : ℕ) (fits : Bool)
    → check_not_empty (b ++ rest) ≡ done (ok tt)
    → decode_prefix_varint_u32_loop (b ++ rest)
      ≡ done (if fits then ok (v, length b) else err invalid_var_int)
    → (next_u32 (b ++ rest) ≡ done (if fits then ok (v, rest) else err invalid_var_int))
      × (peek_u32 (b ++ rest) ≡ done (if fits then ok (some v) else err invalid_var_int))
unfolding next_u32 peek_u32 consume
u32_reads b rest v true c d =
    (rw (c, d, drop-append b rest) refl, rw (not_empty (b ++ rest) c, d) refl)
u32_reads b rest v false c d = (rw (c, d) refl, rw (not_empty (b ++ rest) c, d) refl)

-- `push_u64` of a `u64` adds a code, behind which anything may stand: `peek_u32` gives the number
-- and `next_u32` the number and what stands behind it if it fits a `u32`, else `InvalidVarInt`.
pub next_u32-push_u64 :
    (into rest : List ℕ) (v : ℕ)
    → v < 2 ^ 64
    → (b : List ℕ) × (push_u64 into v ≡ into ++ b)
      × (next_u32 (b ++ rest) ≡ done (if ltb v (2 ^ 32) then ok (v, rest) else err invalid_var_int))
      × (peek_u32 (b ++ rest) ≡ done (if ltb v (2 ^ 32) then ok (some v) else err invalid_var_int))
next_u32-push_u64 into rest v h =
    let (b, e, d) = decode-push_u64 into rest v h in
    let (n, p) =
      u32_reads b rest v (ltb v (2 ^ 32)) (has_bytes b rest v (length b) d)
        (decode_u32_lem (b ++ rest) v (length b) d) in
    (b, e, n, p)

-- `next_u32_le` reads a `u32` from its four bytes, the lowest first.
next_u32_le_lem :
    (v : ℕ) (rest : List ℕ)
    → v < 2 ^ 32
    → next_u32_le (v % 256 ∷ v / 2 ^ 8 % 256 ∷ v / 2 ^ 16 % 256 ∷ v / 2 ^ 24 ∷ rest)
      ≡ done (ok (v, rest))
unfolding next_u32_le consume
next_u32_le_lem v rest h =
    let e : v % 256 + v / 2 ^ 8 % 256 * 2 ^ 8 + v / 2 ^ 16 % 256 * 2 ^ 16 + v / 2 ^ 24 * 2 ^ 24
        ≡ v =
      omega arith in
    rw e refl

-- `expect_empty` is `Ok` on no bytes, and else `InvalidLength`.
expect_empty_lem :
    (buf : BufParser) → expect_empty buf ≡ (if length buf == 0 then ok tt else err invalid_length)
unfolding expect_empty parser_is_empty
expect_empty_lem [] = refl
expect_empty_lem (b ∷ bs) = ground arith

-- `push_u64` of a `u64` adds a code, behind which anything may stand: `next_u64` and `next_usize`
-- read the number back and leave what stands behind it.
pub next_u64-push_u64 :
    (into rest : List ℕ) (v : ℕ)
    → v < 2 ^ 64
    → (b : List ℕ) × (push_u64 into v ≡ into ++ b)
      × (next_u64 (b ++ rest) ≡ done (ok (v, rest)))
      × (next_usize (b ++ rest) ≡ done (ok (v, rest)))
unfolding next_u64 next_usize consume decode_prefix_varint_usize
next_u64-push_u64 into rest v h =
    let (b, e, d) = decode-push_u64 into rest v h in
    let c = has_bytes b rest v (length b) d in
    (b, e, rw (c, d, drop-append b rest) refl, rw (c, d, drop-append b rest) refl)

-- `next_n_bytes` answers `UnexpectedEOF` exactly when there are fewer bytes; else the bytes it
-- returns, as many as asked for, and those it leaves are the bytes of before.
pub next_n_bytes_lem :
    (n : ℕ) (buf : BufParser)
    → ((length buf < n) × (next_n_bytes n buf ≡ err unexpected_eof))
      ⊎ ((n ≤ length buf)
          × (bytes : List ℕ) × (rest : List ℕ) × (next_n_bytes n buf ≡ ok (bytes, rest))
          × (length bytes ≡ n)
          × (buf ≡ bytes ++ rest))
unfolding next_n_bytes
next_n_bytes_lem n buf = elim (Bool-cases (ltb (length buf) n)) [
  | inl h ↦ inl (ltb→lt (length buf) n h, rw h refl)
  | inr h ↦
      let enough : n ≤ length buf = ground (arith, h) in
      inr (
        enough,
        take n buf,
        drop n buf,
        rw h refl,
        omega (arith, length-take n buf, enough),
        sym (take-append-drop n buf),
      )
]

-- The code that `push_u64` writes for the zigzag code of an `i64` is read back by `next_zigzag_isize`:
-- the integer, and what stands behind its code.
pub next_zigzag_isize_lem :
    (into rest : List ℕ) (v : ℕ)
    → v < 2 ^ 64
    → (b : List ℕ) × (push_u64 into (num_encode_zigzag_i64 v) ≡ into ++ b)
      × (next_zigzag_isize (b ++ rest) ≡ done (ok (v, rest)))
unfolding next_zigzag_isize
next_zigzag_isize_lem into rest v h =
    let (e, small, back, low, again) = zigzag_i64_lem v h in
    let (b, pushed, wide, read) = next_u64-push_u64 into rest (num_encode_zigzag_i64 v) small in
    (b, pushed, rw (read, back) refl)
