-- ===== src/Prelude/Bits.antt =====
-- Single bits of a number, and what the bit operations do to them.
mod Step
pub use Step.{bit_or_step, bit_and_step}
use Prim.Native.Nat.{
  ℕ, zero, suc, ◌+◌, ◌*◌, ◌-◌, ◌/◌, ◌%◌, ◌^◌, ◌≤◌, ◌<◌, min, max, bit_and, bit_or,
}
use mathlib.Core.Path.{◌≡◌, refl, ap, ◌∙◌}
use mathlib.Core.Logic.{◌≢◌}
use mathlib.Core.Bool.{Bool, true, false, ◌&&◌}
use native.Mathlib.Nat.{
  pow-suc, one-le-pow, div-div-eq-div-mul, div-add-mod, mul_comm, mod-eq_of_lt,
}
use native.Mathlib.Omega.{arith}
use foos.Prelude.Tests.{◌==◌, if◌then◌else◌, ==_iff}

pow_lt : (n j : ℕ) → j < n → 2 ^ j < 2 ^ n
pow_lt zero j h = absurd (omega arith)
pow_lt (suc n) zero h = omega (arith, pow-suc 2 n, one-le-pow n 2)
pow_lt (suc n) (suc j) h = omega (arith, pow-suc 2 n, pow-suc 2 j, pow_lt n j (omega arith))

mod_halves : (k w : ℕ) → w % 2 ^ suc k ≡ (w / 2) % 2 ^ k * 2 + w % 2
mod_halves k w = rw (pow-suc 2 k) (
    omega (
      arith,
      div-div-eq-div-mul w 2 (2 ^ k),
      ap (λ (t : ℕ). w / t) (mul_comm 2 (2 ^ k)),
      div-add-mod w (2 ^ k * 2),
      div-add-mod (w / 2) (2 ^ k),
      ap (λ (t : ℕ). 2 ^ k * 2 * t) (div-div-eq-div-mul w 2 (2 ^ k)),
      ap (λ (t : ℕ). 2 ^ k * 2 * (w / t)) (mul_comm 2 (2 ^ k)),
    ))

-- The bit `k` of `w`, as 0 or 1.
pub bit_at : ℕ → ℕ → ℕ
bit_at w zero = w % 2
bit_at w (suc k) = bit_at (w / 2) k

pub bit_at-bit_or : (k a b : ℕ) → bit_at (bit_or a b) k ≡ max (bit_at a k) (bit_at b k)
unfolding bit_at
bit_at-bit_or zero a b = omega (arith, bit_or_step a b)
bit_at-bit_or (suc k) a b =
    let e : bit_or a b / 2 ≡ bit_or (a / 2) (b / 2) = omega (arith, bit_or_step a b) in
    rw e (bit_at-bit_or k (a / 2) (b / 2))

pub bit_at-bit_and : (k a b : ℕ) → bit_at (bit_and a b) k ≡ min (bit_at a k) (bit_at b k)
unfolding bit_at
bit_at-bit_and zero a b = omega (arith, bit_and_step a b)
bit_at-bit_and (suc k) a b =
    let e : bit_and a b / 2 ≡ bit_and (a / 2) (b / 2) = omega (arith, bit_and_step a b) in
    rw e (bit_at-bit_and k (a / 2) (b / 2))

pub bit_at-zero : (k : ℕ) → bit_at 0 k ≡ 0
unfolding bit_at
bit_at-zero zero = refl
bit_at-zero (suc k) = bit_at-zero k

pub bit_at-le-one : (k w : ℕ) → bit_at w k ≤ 1
unfolding bit_at
bit_at-le-one zero w = omega arith
bit_at-le-one (suc k) w = bit_at-le-one k (w / 2)

pub bit_at-pow_self : (k : ℕ) → bit_at (2 ^ k) k ≡ 1
unfolding bit_at
bit_at-pow_self zero = refl
bit_at-pow_self (suc k) =
    let e : 2 ^ suc k / 2 ≡ 2 ^ k = omega (arith, pow-suc 2 k) in rw e (bit_at-pow_self k)

pub bit_at-pow_ne : (j k : ℕ) → j ≢ k → bit_at (2 ^ j) k ≡ 0
unfolding bit_at
bit_at-pow_ne zero zero h = absurd (h refl)
bit_at-pow_ne zero (suc k) h = bit_at-zero k
bit_at-pow_ne (suc j) zero h = omega (arith, pow-suc 2 j)
bit_at-pow_ne (suc j) (suc k) h =
    let e : 2 ^ suc j / 2 ≡ 2 ^ j = omega (arith, pow-suc 2 j) in
    rw e (bit_at-pow_ne j k (λ q. h (ap suc q)))

-- All ones below `2 ^ n`.
pub bit_at-ones : (n k : ℕ) → k < n → bit_at (2 ^ n - 1) k ≡ 1
unfolding bit_at
bit_at-ones zero k h = absurd (omega arith)
bit_at-ones (suc n) zero h = omega (arith, pow-suc 2 n, one-le-pow n 2)
bit_at-ones (suc n) (suc k) h =
    let e : (2 ^ suc n - 1) / 2 ≡ 2 ^ n - 1 = omega (arith, pow-suc 2 n, one-le-pow n 2) in
    rw e (bit_at-ones n k (omega arith))

-- The complement of one bit in `n` bits: that bit is clear and the others are set.
pub bit_at-hole_self : (n k : ℕ) → k < n → bit_at (2 ^ n - 1 - 2 ^ k) k ≡ 0
unfolding bit_at
bit_at-hole_self zero k h = absurd (omega arith)
bit_at-hole_self (suc n) zero h = omega (arith, pow-suc 2 n, one-le-pow n 2)
bit_at-hole_self (suc n) (suc k) h =
    let e : (2 ^ suc n - 1 - 2 ^ suc k) / 2 ≡ 2 ^ n - 1 - 2 ^ k =
      omega (arith, pow-suc 2 n, pow-suc 2 k, one-le-pow n 2) in
    rw e (bit_at-hole_self n k (omega arith))

pub bit_at-hole_ne : (n j k : ℕ) → j < n → k < n → j ≢ k → bit_at (2 ^ n - 1 - 2 ^ j) k ≡ 1
unfolding bit_at
bit_at-hole_ne zero j k hj hk ne = absurd (omega arith)
bit_at-hole_ne (suc n) zero zero hj hk ne = absurd (ne refl)
bit_at-hole_ne (suc n) zero (suc k) hj hk ne =
    let e : (2 ^ suc n - 1 - 1) / 2 ≡ 2 ^ n - 1 = omega (arith, pow-suc 2 n, one-le-pow n 2) in
    rw e (bit_at-ones n k (omega arith))
bit_at-hole_ne (suc n) (suc j) zero hj hk ne =
    omega (arith, pow-suc 2 n, pow-suc 2 j, pow_lt n j (omega arith))
bit_at-hole_ne (suc n) (suc j) (suc k) hj hk ne =
    let e : (2 ^ suc n - 1 - 2 ^ suc j) / 2 ≡ 2 ^ n - 1 - 2 ^ j =
      omega (arith, pow-suc 2 n, pow-suc 2 j, one-le-pow n 2) in
    rw e (bit_at-hole_ne n j k (omega arith) (omega arith) (λ q. ne (ap suc q)))

bit_and-zero_below : (top m : ℕ) → m < top → bit_and m 0 ≡ 0
bit_and-zero_below zero m lt = absurd (omega arith)
bit_and-zero_below (suc top) zero lt = refl
bit_and-zero_below (suc top) (suc m) lt =
    let half = bit_and-zero_below top (suc m / 2) (omega arith) in
    bit_and_step (suc m) 0 ∙ omega (arith, half)

pub bit_and-zero : (m : ℕ) → bit_and m 0 ≡ 0
bit_and-zero m = bit_and-zero_below (suc m) m (omega arith)

-- A test of one bit is nonzero exactly when the bit is set.
pub bit_and-pow : (k w : ℕ) → bit_and w (2 ^ k) ≡ bit_at w k * 2 ^ k
unfolding bit_at
bit_and-pow zero w = omega (arith, bit_and_step w 1, bit_and-zero (w / 2))
bit_and-pow (suc k) w =
    let e : 2 ^ suc k / 2 ≡ 2 ^ k = omega (arith, pow-suc 2 k) in
    omega (
      arith,
      bit_and_step w (2 ^ suc k),
      ap (λ (t : ℕ). bit_at (w / 2) k * t) (pow-suc 2 k),
      pow-suc 2 k,
      ap (λ (t : ℕ). bit_and (w / 2) t) e,
      bit_and-pow k (w / 2),
    )

-- A mask of low ones is a remainder.
pub bit_and-ones : (k w : ℕ) → bit_and w (2 ^ k - 1) ≡ w % 2 ^ k
bit_and-ones zero w = omega (arith, bit_and-zero w)
bit_and-ones (suc k) w =
    let e : (2 ^ suc k - 1) / 2 ≡ 2 ^ k - 1 = omega (arith, pow-suc 2 k, one-le-pow k 2) in
    omega (
      arith,
      bit_and_step w (2 ^ suc k - 1),
      pow-suc 2 k,
      one-le-pow k 2,
      ap (λ (t : ℕ). bit_and (w / 2) t) e,
      bit_and-ones k (w / 2),
      mod_halves k w,
    )

-- A mask of high ones rounds down.
pub bit_and-high : (n k w : ℕ) → k ≤ n → w < 2 ^ n → bit_and w (2 ^ n - 2 ^ k) + w % 2 ^ k ≡ w
bit_and-high n zero w hk hw = omega (arith, bit_and-ones n w, mod-eq_of_lt hw)
bit_and-high zero (suc k) w hk hw = absurd (omega arith)
bit_and-high (suc n) (suc k) w hk hw =
    let e : (2 ^ suc n - 2 ^ suc k) / 2 ≡ 2 ^ n - 2 ^ k = omega (arith, pow-suc 2 k, pow-suc 2 n) in
    omega (
      arith,
      bit_and_step w (2 ^ suc n - 2 ^ suc k),
      pow-suc 2 n,
      pow-suc 2 k,
      ap (λ (t : ℕ). bit_and (w / 2) t) e,
      bit_and-high n k (w / 2) (omega arith) (omega (arith, pow-suc 2 n)),
      mod_halves k w,
    )

bit_or-zero_fuel : (n a : ℕ) → a ≤ n → bit_or a 0 ≡ a
bit_or-zero_fuel n zero h = refl
bit_or-zero_fuel zero (suc a) h = absurd (omega arith)
bit_or-zero_fuel (suc n) (suc a) h =
    omega (arith, bit_or_step (suc a) 0, bit_or-zero_fuel n (suc a / 2) (omega arith))

pub bit_or-zero : (a : ℕ) → bit_or a 0 ≡ a
bit_or-zero a = bit_or-zero_fuel a a (omega arith)

zero-bit_or_fuel : (n b : ℕ) → b ≤ n → bit_or 0 b ≡ b
zero-bit_or_fuel n zero h = refl
zero-bit_or_fuel zero (suc b) h = absurd (omega arith)
zero-bit_or_fuel (suc n) (suc b) h =
    omega (arith, bit_or_step 0 (suc b), zero-bit_or_fuel n (suc b / 2) (omega arith))

pub zero-bit_or : (b : ℕ) → bit_or 0 b ≡ b
zero-bit_or b = zero-bit_or_fuel b b (omega arith)

-- Fields that do not overlap add up.
pub bit_or_fields : (k q r : ℕ) → r < 2 ^ k → bit_or (q * 2 ^ k) r ≡ q * 2 ^ k + r
bit_or_fields zero q r h = omega (
  arith,
  bit_or-zero q,
  r0 r (omega arith),
  ap (λ (t : ℕ). bit_or q t) (r0 r (omega arith)),
  ap (λ (t : ℕ). bit_or t r) (one_mul q),
)
  where
    r0 : (r : ℕ) → r < 1 → r ≡ 0
    r0 r lt = omega arith

    one_mul : (q : ℕ) → q * 1 ≡ q
    one_mul q = omega arith
bit_or_fields (suc k) q r h = omega (
  arith,
  bit_or_step (q * 2 ^ suc k) r,
  pow-suc 2 k,
  ap (λ (t : ℕ). q * t) (pow-suc 2 k),
  bit_or_fields k q (r / 2) (omega (arith, pow-suc 2 k)),
  ap (λ (t : ℕ). bit_or t (r / 2)) (half_mul q k),
)
  where
    half_mul : (q k : ℕ) → q * 2 ^ suc k / 2 ≡ q * 2 ^ k
    half_mul q k = omega (arith, ap (λ (t : ℕ). q * t) (pow-suc 2 k))
