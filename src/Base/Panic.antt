-- ===== src/Base/Panic.antt =====
-- Rust code that can panic, as a value. `stuck` is no outcome of the code: it is the model's
-- loop that ran out of fuel, and every loop is proved never to reach it.

use Prim.Native.Nat.{ℕ, ◌+◌, ◌-◌}
use mathlib.Core.Path.{◌≡◌}
use native.Mathlib.Omega.{arith}
use egwalker_paper.Base.Tests.{ltb, if◌then◌else◌}

pub data Outcome {ℓ} (A : Type ℓ) : Type ℓ where
  done : A → Outcome A
  panic : Outcome A
  stuck : Outcome A

infixl 5 ◌>>=◌ ◌>>◌
abbrev pub ◌>>=◌ {ℓ κ} : {A : Type ℓ} {B : Type κ} → Outcome A → (A → Outcome B) → Outcome B
done a >>= f = f a
panic >>= f = panic
stuck >>= f = stuck

abbrev pub ◌>>◌ {ℓ} : {B : Type ℓ} → Outcome (Unit {0}) → Outcome B → Outcome B
m >> k = m >>= λ _. k

-- A subtraction of `usize` that would go below 0 is a panic.
unfoldable pub checked_sub : ℕ → ℕ → Outcome ℕ
checked_sub a b = if ltb a b then panic else done (a - b)

pub checked_sub_lem : (a b c : ℕ) → a ≡ b + c → checked_sub a b ≡ done c
unfolding checked_sub
checked_sub_lem a b c h = ground arith
