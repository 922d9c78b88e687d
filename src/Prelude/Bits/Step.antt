-- ===== src/Prelude/Bits/Step.antt =====
-- The lowest digit of `bit_and` and `bit_or`, from the recursion on digits that they stand for.
use Prim.Native.Nat.{
  ℕ, zero, suc, ◌+◌, ◌*◌, ◌/◌, ◌%◌, ◌≤◌, min, max, digits, bitwise, bit_and, bit_or,
  bit_and-bitwise, bit_or-bitwise,
}
use mathlib.Core.Path.{◌≡◌, refl}
use native.Mathlib.Omega.{arith}

-- Digits to go beyond those of `a` make no difference; `top` bounds the count.
module _ (end : ℕ → ℕ) (op : ℕ → ℕ → ℕ) where
  digits-bitwise :
      (top count a b : ℕ) → count ≤ top → a ≤ count → digits end op count a b ≡ bitwise end op a b
  digits-bitwise top zero zero b le few = refl
  digits-bitwise top (suc count) zero b le few = refl
  digits-bitwise top zero (suc a) b le few = absurd (omega arith)
  digits-bitwise zero (suc count) (suc a) b le few = absurd (omega arith)
  digits-bitwise (suc top) (suc count) (suc a) b le few =
      let far = digits-bitwise top count (suc a / 2) (b / 2) (omega arith) (omega arith) in
      let near = digits-bitwise top a (suc a / 2) (b / 2) (omega arith) (omega arith) in
      rw (far, near)

  lowest :
      (a b : ℕ)
      → bitwise end op (suc a) b ≡ bitwise end op (suc a / 2) (b / 2) * 2 + op (suc a % 2) (b % 2)
  lowest a b = rw (digits-bitwise a a (suc a / 2) (b / 2) (omega arith) (omega arith))

pub bit_and_step : (m n : ℕ) → bit_and m n ≡ bit_and (m / 2) (n / 2) * 2 + min (m % 2) (n % 2)
bit_and_step (suc m) n = simp bit_and-bitwise (lowest (λ rest. 0) min m n)
bit_and_step zero n = simp bit_and-bitwise (omega arith)

pub bit_or_step : (m n : ℕ) → bit_or m n ≡ bit_or (m / 2) (n / 2) * 2 + max (m % 2) (n % 2)
bit_or_step (suc m) n = simp bit_or-bitwise (lowest (λ rest. rest) max m n)
bit_or_step zero n = simp bit_or-bitwise (omega arith)
