-- ===== src/Base/Bits.antt =====
-- Masks on one byte as arithmetic; each is a table of at most 256 entries, checked by evaluation.
use Prim.Native.Nat.{
  ℕ, zero, suc, ◌+◌, ◌*◌, ◌-◌, ◌/◌, ◌%◌, ◌≤◌, ◌<◌, digits, differ, min, bit_and, bit_and-bitwise,
  bit_xor, bit_xor-bitwise,
}
use mathlib.Core.Path.{◌≡◌, ◌∙◌, refl}
use mathlib.Core.Bool.{Bool, true, false}
use mathlib.Core.Logic.{ite}
use native.Mathlib.Decide.{ℕ_discrete}
use native.Mathlib.Omega.{arith}

module _ (f g : ℕ → ℕ) where
  unfoldable pub agree_below : ℕ → Bool
  unfolding ℕ_discrete
  agree_below zero = true
  agree_below (suc n) = ite (ℕ_discrete (f n) (g n)) (agree_below n) false

  pub agree_below→eq : (n : ℕ) → agree_below n ≡ true → (i : ℕ) → i < n → f i ≡ g i
  unfolding agree_below
  agree_below→eq zero e i h = absurd (omega arith)
  agree_below→eq (suc n) e i h = ground (arith, agree_below→eq n (ground arith) i)

-- `k` ones, and the exclusive or with them.
abbrev pub ones : ℕ → ℕ
ones zero = 0
ones (suc k) = 2 * ones k + 1

differ-one : (x : ℕ) → x < 2 → differ x 1 ≡ 1 - x
differ-one zero h = refl
differ-one (suc zero) h = refl
differ-one (suc (suc x)) h = absurd (omega arith)

differ-zero : (x : ℕ) → differ x 0 ≡ x
differ-zero zero = refl
differ-zero (suc x) = refl

flip_fuel : (n k a : ℕ) → a ≤ n → a ≤ ones k → digits (λ b. b) differ n a (ones k) ≡ ones k - a
flip_fuel zero k zero p h = omega arith
flip_fuel zero k (suc a) p h = absurd (omega arith)
flip_fuel (suc n) k zero p h = omega arith
flip_fuel (suc n) zero (suc a) p h = absurd (omega arith)
flip_fuel (suc n) (suc k) (suc a) p h =
    let half : (2 * ones k + 1) / 2 ≡ ones k = omega arith in
    let odd : (2 * ones k + 1) % 2 ≡ 1 = omega arith in
    rw
      (
        half,
        odd,
        differ-one (suc a % 2) (omega arith),
        flip_fuel n k (suc a / 2) (omega arith) (omega arith),
      )
      (omega arith)

pub bit_xor-ones : (k a : ℕ) → a ≤ ones k → bit_xor a (ones k) ≡ ones k - a
bit_xor-ones k a h = bit_xor-bitwise a (ones k) ∙ flip_fuel a k a (omega arith) h

keep_fuel : (n a : ℕ) → a ≤ n → digits (λ b. b) differ n a 0 ≡ a
keep_fuel zero zero p = refl
keep_fuel zero (suc a) p = absurd (omega arith)
keep_fuel (suc n) zero p = refl
keep_fuel (suc n) (suc a) p =
    rw (keep_fuel n (suc a / 2) (omega arith), differ-zero (suc a % 2)) (omega arith)

pub bit_xor-zero : (a : ℕ) → bit_xor a 0 ≡ a
bit_xor-zero a = bit_xor-bitwise a 0 ∙ keep_fuel a a (omega arith)

and-zero_fuel : (n a : ℕ) → digits (λ b. zero) min n a 0 ≡ 0
and-zero_fuel zero zero = refl
and-zero_fuel zero (suc a) = refl
and-zero_fuel (suc n) zero = refl
and-zero_fuel (suc n) (suc a) = rw (and-zero_fuel n (suc a / 2)) (omega arith)

and-one_fuel : (n a : ℕ) → a ≤ n → digits (λ b. zero) min n a 1 ≡ a % 2
and-one_fuel zero zero p = refl
and-one_fuel zero (suc a) p = absurd (omega arith)
and-one_fuel (suc n) zero p = refl
and-one_fuel (suc n) (suc a) p = rw (and-zero_fuel n (suc a / 2)) (omega arith)

pub bit_and-one : (a : ℕ) → bit_and a 1 ≡ a % 2
bit_and-one a = bit_and-bitwise a 1 ∙ and-one_fuel a a (omega arith)
