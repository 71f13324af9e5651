-- ===== src/OtBench/Replay/Count.antt =====
-- Counting the versions of a history, for the fuel of the replay in tools/ot-bench/src/main.rs.
use egwalker_paper.Base.{
  ℕ, zero, suc, ◌+◌, ◌≤◌, ◌<◌, ◌≡◌, true, false, Bool, arith, Bool-cases, inl, inr, if◌then◌else◌,
  ltb,
}

-- How many numbers below `n` a test accepts.
abbrev pub count_below : ℕ → (ℕ → Bool) → ℕ
count_below zero p = 0
count_below (suc n) p = (if p n then 1 else 0) + count_below n p

pub count-le : (n : ℕ) (p : ℕ → Bool) → count_below n p ≤ n
count-le zero p = omega arith
count-le (suc n) p = ground (arith, count-le n p)

count_mono :
    (n : ℕ) (p q : ℕ → Bool)
    → ((x : ℕ) → p x ≡ true → q x ≡ true)
    → count_below n p ≤ count_below n q
count_mono zero p q h = omega arith
count_mono (suc n) p q h = ground (arith, h n, count_mono n p q h)

pub count_less :
    (n : ℕ) (p q : ℕ → Bool) (j : ℕ)
    → ((x : ℕ) → p x ≡ true → q x ≡ true)
    → j < n
    → p j ≡ false
    → q j ≡ true
    → count_below n p < count_below n q
count_less zero p q j h l a b = absurd (omega arith)
count_less (suc n) p q j h l a b = elim (Bool-cases (ltb j n)) [
  | inl e ↦ ground (arith, e, h n, count_less n p q j h (ground (arith, e)) a b)
  | inr e ↦
      let last : j ≡ n = ground (arith, e, l) in
      let a' : p n ≡ false = rw last at a in
      let b' : q n ≡ true = rw last at b in ground (arith, a', b', count_mono n p q h)
]
