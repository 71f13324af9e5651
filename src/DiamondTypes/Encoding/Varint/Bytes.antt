-- ===== src/DiamondTypes/Encoding/Varint/Bytes.antt =====
-- Bytes and shifts of tools/diamond-types/src/encoding/varint.rs as arithmetic, and the decoder on
-- numbers of three bytes or more.
use egwalker_paper.Base.{
  ℕ, zero, suc, ◌+◌, ◌-◌, ◌*◌, ◌/◌, ◌%◌, ◌^◌, ◌<◌, ◌≡◌, refl, bit_and, bit_or, List, [], ◌∷◌, ◌++◌,
  length, length-append, take, get_or, ltb, leb, arith, ap, ◌∙◌, true, false,
}
use egwalker_paper.Base.Bits.{agree_below, agree_below→eq}
use egwalker_paper.Base.Panic.{done, checked_sub_lem, ◌>>=◌}
use egwalker_paper.DiamondTypes.Encoding.Errors.{ok, err, unexpected_eof}
use egwalker_paper.DiamondTypes.Encoding.Varint.{
  leading_ones, shift_in, be_bytes_u32, checked_add_u64, enc_u64_vals, decode_more,
  decode_prefix_varint_u64,
}

-- What a first byte with a payload tells the decoder: its length, and the payload.
pub record IsHead (idx h x : ℕ) : Type 0 where
  pub large : 0xbf < h
  pub ones : leading_ones h ≡ suc idx
  pub index : bit_and idx 7 ≡ idx
  pub payload : bit_and h (2 ^ (7 - idx) - 1) ≡ x

pub IsHead-3 : (x : ℕ) → x < 32 → IsHead 1 (bit_or 0xc0 x) x
unfolding agree_below
IsHead-3 x h =
    let e = agree_below→eq (λ x. bit_or 0xc0 x) (λ x. 0xc0 + x) 32 refl x h in
    record {
      large = omega (arith, e);
      ones = agree_below→eq (λ x. leading_ones (bit_or 0xc0 x)) (λ x. 2) 32 refl x h;
      index = refl;
      payload = agree_below→eq (λ x. bit_and (bit_or 0xc0 x) 63) (λ x. x) 32 refl x h;
    }

pub IsHead-4 : (x : ℕ) → x < 16 → IsHead 2 (bit_or 0xe0 x) x
unfolding agree_below
IsHead-4 x h =
    let e = agree_below→eq (λ x. bit_or 0xe0 x) (λ x. 0xe0 + x) 16 refl x h in
    record {
      large = omega (arith, e);
      ones = agree_below→eq (λ x. leading_ones (bit_or 0xe0 x)) (λ x. 3) 16 refl x h;
      index = refl;
      payload = agree_below→eq (λ x. bit_and (bit_or 0xe0 x) 31) (λ x. x) 16 refl x h;
    }

pub IsHead-5 : (x : ℕ) → x < 8 → IsHead 3 (bit_or 0xf0 x) x
unfolding agree_below
IsHead-5 x h =
    let e = agree_below→eq (λ x. bit_or 0xf0 x) (λ x. 0xf0 + x) 8 refl x h in
    record {
      large = omega (arith, e);
      ones = agree_below→eq (λ x. leading_ones (bit_or 0xf0 x)) (λ x. 4) 8 refl x h;
      index = refl;
      payload = agree_below→eq (λ x. bit_and (bit_or 0xf0 x) 15) (λ x. x) 8 refl x h;
    }

pub IsHead-6 : (x : ℕ) → x < 4 → IsHead 4 (bit_or 0xf8 x) x
unfolding agree_below
IsHead-6 x h =
    let e = agree_below→eq (λ x. bit_or 0xf8 x) (λ x. 0xf8 + x) 4 refl x h in
    record {
      large = omega (arith, e);
      ones = agree_below→eq (λ x. leading_ones (bit_or 0xf8 x)) (λ x. 5) 4 refl x h;
      index = refl;
      payload = agree_below→eq (λ x. bit_and (bit_or 0xf8 x) 7) (λ x. x) 4 refl x h;
    }

pub IsHead-7 : (x : ℕ) → x < 2 → IsHead 5 (bit_or 0xfc x) x
unfolding agree_below
IsHead-7 x h =
    let e = agree_below→eq (λ x. bit_or 0xfc x) (λ x. 0xfc + x) 2 refl x h in
    record {
      large = omega (arith, e);
      ones = agree_below→eq (λ x. leading_ones (bit_or 0xfc x)) (λ x. 6) 2 refl x h;
      index = refl;
      payload = agree_below→eq (λ x. bit_and (bit_or 0xfc x) 3) (λ x. x) 2 refl x h;
    }

pub IsHead-8 : (x : ℕ) → x < 1 → IsHead 6 (bit_or 0xfe x) x
unfolding agree_below
IsHead-8 x h =
    let e = agree_below→eq (λ x. bit_or 0xfe x) (λ x. 0xfe + x) 1 refl x h in
    record {
      large = omega (arith, e);
      ones = agree_below→eq (λ x. leading_ones (bit_or 0xfe x)) (λ x. 7) 1 refl x h;
      index = refl;
      payload = agree_below→eq (λ x. bit_and (bit_or 0xfe x) 1) (λ x. x) 1 refl x h;
    }

pub IsHead-9 : IsHead 7 0xff 0
IsHead-9 = record { large = omega arith; ones = refl; index = refl; payload = refl }

pub shift_step :
    (a b c : ℕ) (bs : List ℕ) → a < 2 ^ 56 → a * 256 + b ≡ c → shift_in a (b ∷ bs) ≡ shift_in c bs
unfolding shift_in
shift_step a b c bs h e = let m : a * 2 ^ 8 % 2 ^ 64 + b ≡ c = omega arith in rw m refl

pub shift_nil : (a : ℕ) → shift_in a [] ≡ a
unfolding shift_in
shift_nil a = refl

-- The four low bytes, behind what stands above them.
pub shift_u32 : (a w : ℕ) → w < 2 ^ 64 → a ≡ w / 2 ^ 32 → shift_in a (be_bytes_u32 (w % 2 ^ 32)) ≡ w
shift_u32 a w h e =
    let v = w % 2 ^ 32 in
    shift_step a (v / 2 ^ 24 % 256) (w / 2 ^ 24) (v / 2 ^ 16 % 256 ∷ v / 2 ^ 8 % 256 ∷ v % 256 ∷ [])
      (omega arith) (omega arith)
    ∙ (shift_step (w / 2 ^ 24) (v / 2 ^ 16 % 256) (w / 2 ^ 16) (v / 2 ^ 8 % 256 ∷ v % 256 ∷ [])
          (omega arith) (omega arith)
        ∙ (shift_step (w / 2 ^ 16) (v / 2 ^ 8 % 256) (w / 2 ^ 8) (v % 256 ∷ []) (omega arith)
              (omega arith)
            ∙ (shift_step (w / 2 ^ 8) (v % 256) w [] (omega arith) (omega arith) ∙ shift_nil w)))

pub take-append : (n : ℕ) (xs ys : List ℕ) → length xs ≡ n → take n (xs ++ ys) ≡ xs
take-append zero [] ys h = refl
take-append zero (x ∷ xs) ys h = absurd (omega arith)
take-append (suc n) [] ys h = absurd (omega arith)
take-append (suc n) (x ∷ xs) ys h = ap (λ (l : List ℕ). x ∷ l) (take-append n xs ys (omega arith))

pub checked_add_lem : (a b : ℕ) → a + b < 2 ^ 64 → checked_add_u64 a b ≡ done (a + b)
unfolding checked_add_u64
checked_add_lem a b h = ground (arith, h)

-- The decoder on a first byte and as many bytes behind it as that tells, or fewer.
pub decode_form :
    (idx h x w : ℕ) (bytes rest : List ℕ)
    → IsHead idx h x
    → length bytes ≡ idx + 1
    → shift_in x bytes ≡ w
    → decode_prefix_varint_u64 (h ∷ (bytes ++ rest))
      ≡ (do val ← checked_add_u64 w (get_or enc_u64_vals idx 0); done (ok (val, idx + 2)))
unfolding decode_prefix_varint_u64 decode_more
decode_form idx h x w bytes rest p n s =
    let small : leb h 0x7f ≡ false = ground (arith, p.large) in
    let two : leb h 0xbf ≡ false = ground (arith, p.large) in
    let enough : ltb (suc (length (bytes ++ rest))) (idx + 2) ≡ false =
      ground (arith, length-append bytes rest, n) in
    rw
      (
        small,
        two,
        checked_sub_lem (leading_ones h) 1 idx (omega (arith, p.ones)),
        p.index,
        enough,
        p.payload,
        take-append (idx + 1) bytes rest n,
        s,
      )
      refl

pub decode_short :
    (idx h x : ℕ) (bs : List ℕ)
    → IsHead idx h x
    → length bs < idx + 1
    → decode_prefix_varint_u64 (h ∷ bs) ≡ done (err unexpected_eof)
unfolding decode_prefix_varint_u64 decode_more
decode_short idx h x bs p n =
    let small : leb h 0x7f ≡ false = ground (arith, p.large) in
    let two : leb h 0xbf ≡ false = ground (arith, p.large) in
    let few : ltb (suc (length bs)) (idx + 2) ≡ true = ground (arith, n) in
    rw (small, two, checked_sub_lem (leading_ones h) 1 idx (omega (arith, p.ones)), p.index, few)
      refl

pub decode_long :
    (idx h x w : ℕ) (bytes rest : List ℕ)
    → IsHead idx h x
    → length bytes ≡ idx + 1
    → shift_in x bytes ≡ w
    → w + get_or enc_u64_vals idx 0 < 2 ^ 64
    → decode_prefix_varint_u64 (h ∷ (bytes ++ rest))
      ≡ done (ok (w + get_or enc_u64_vals idx 0, idx + 2))
decode_long idx h x w bytes rest p n s fits =
    rw
      (
        decode_form idx h x w bytes rest p n s,
        checked_add_lem w (get_or enc_u64_vals idx 0) fits,
        ◌>>=◌,
      )
      refl
