-- ===== src/OtBench/TextOp/Strings.antt =====
-- What tools/ot-bench/src/ot_text.rs uses of strings: slices of `str` by byte offsets, which panic
-- inside a character or past the end, and the two functions of `str_indices::chars`.
use egwalker_paper.Base.{
  ℕ, zero, suc, ◌+◌, ◌-◌, ◌≤◌, ◌≡◌, refl, List, [], ◌∷◌, arith, ltb, ◌==◌, if◌then◌else◌, length,
  take, drop,
}
use egwalker_paper.Base.Panic.{Outcome, done, panic, ◌>>=◌}

-- The bytes of a character in UTF-8.
pub len_utf8 : ℕ → ℕ
len_utf8 c =
    if ltb c 0x80 then 1 else (if ltb c 0x800 then 2 else (if ltb c 0x1_0000 then 3 else 4))

unfoldable pub byte_len : List ℕ → ℕ
byte_len [] = 0
byte_len (c ∷ cs) = len_utf8 c + byte_len cs

-- `&s[at..]`
unfoldable pub slice_from : ℕ → List ℕ → Outcome (List ℕ)
slice_from at [] = if at == 0 then done [] else panic
slice_from at (c ∷ cs) =
    let rest = slice_from (at - len_utf8 c) cs in
    if at == 0 then done (c ∷ cs) else (if ltb at (len_utf8 c) then panic else rest)

-- `&s[..at]`
unfoldable pub slice_to : ℕ → List ℕ → Outcome (List ℕ)
slice_to at [] = if at == 0 then done [] else panic
slice_to at (c ∷ cs) =
    let rest = slice_to (at - len_utf8 c) cs >>= (λ r. done (c ∷ r)) in
    if at == 0 then done [] else (if ltb at (len_utf8 c) then panic else rest)

-- The crate `str_indices`: `count` counts characters, and `to_byte_idx` gives the byte offset of
-- a character of the text.
pub record StrIndices : Type 0 where
  pub count : List ℕ → ℕ
  pub to_byte_idx : List ℕ → ℕ → ℕ
  pub count_lem : (s : List ℕ) → count s ≡ length s
  pub to_byte_idx_lem : (s : List ℕ) (n : ℕ) → n ≤ length s → to_byte_idx s n ≡ byte_len (take n s)

len_utf8_pos : (c : ℕ) → 1 ≤ len_utf8 c
unfolding len_utf8
len_utf8_pos c = ground arith

add_sub : (a b : ℕ) → a + b - a ≡ b
add_sub a b = omega arith

pub slice_from-byte_len :
    (s : List ℕ) (n : ℕ) → n ≤ length s → slice_from (byte_len (take n s)) s ≡ done (drop n s)
unfolding slice_from byte_len
slice_from-byte_len [] zero h = refl
slice_from-byte_len [] (suc n) h = absurd (omega arith)
slice_from-byte_len (c ∷ cs) zero h = refl
slice_from-byte_len (c ∷ cs) (suc n) h = ground (
  arith,
  len_utf8_pos c,
  add_sub (len_utf8 c) (byte_len (take n cs)),
  slice_from-byte_len cs n (omega arith),
)

pub slice_to-byte_len :
    (s : List ℕ) (n : ℕ) → n ≤ length s → slice_to (byte_len (take n s)) s ≡ done (take n s)
unfolding slice_to byte_len
slice_to-byte_len [] zero h = refl
slice_to-byte_len [] (suc n) h = absurd (omega arith)
slice_to-byte_len (c ∷ cs) zero h = refl
slice_to-byte_len (c ∷ cs) (suc n) h = ground (
  arith,
  len_utf8_pos c,
  add_sub (len_utf8 c) (byte_len (take n cs)),
  slice_to-byte_len cs n (omega arith),
)
