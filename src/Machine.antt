-- ===== src/Machine.antt =====
-- What the C code of every part relies on: the fixed-width integers of include/inttypes.h, the
-- error numbers of include/errno.h, the limits of include/foos/system.h, and the outcome of a run.
use foos.Prelude.{ℕ, ◌+◌, ◌-◌, ◌%◌, ◌^◌, ◌≡◌, refl}

abbrev pub u8 : ℕ → ℕ
u8 n = n % 2 ^ 8

abbrev pub u16 : ℕ → ℕ
u16 n = n % 2 ^ 16

abbrev pub u32 : ℕ → ℕ
u32 n = n % 2 ^ 32

-- `a - b` on `size_t` wraps.
abbrev pub sub32 : ℕ → ℕ → ℕ
sub32 a b = (a + 2 ^ 32 - b) % 2 ^ 32

-- `-e` read as a `size_t` or as the bit pattern of an `int`.
abbrev pub neg32 : ℕ → ℕ
neg32 e = (2 ^ 32 - e) % 2 ^ 32

abbrev pub null : ℕ
null = 0

abbrev pub bufsiz : ℕ
bufsiz = 512

abbrev pub ebusy : ℕ
ebusy = 16

abbrev pub enotdir : ℕ
enotdir = 20

abbrev pub einval : ℕ
einval = 22

abbrev pub enomem : ℕ
enomem = 12

abbrev pub enosys : ℕ
enosys = 88

-- What becomes of a call: it returns, it goes through a null pointer or reads out of an array, an
-- `assert` fails and the kernel hangs, or the fuel of the model is not enough.
pub data Run {ℓ} (A : Type ℓ) : Type ℓ where
  ok : A → Run A
  fault : Run A
  hang : Run A
  out_of_fuel : Run A

infixl 5 ◌>>=◌ ◌>>◌
abbrev pub ◌>>=◌ {ℓ κ} : {A : Type ℓ} {B : Type κ} → Run A → (A → Run B) → Run B
ok a >>= f = f a
fault >>= f = fault
hang >>= f = hang
out_of_fuel >>= f = out_of_fuel

abbrev pub ◌>>◌ {ℓ} : {B : Type ℓ} → Run (Unit {0}) → Run B → Run B
m >> k = m >>= λ _. k

-- A chain of calls that returns has returned at each step.
pub >>=-eq-ok {ℓ κ} :
    {B : Type κ} {A : Type ℓ} {out : B} (f : A → Run B) (call : Run A)
    → (call >>= f) ≡ ok out
    → (mid : A) × (call ≡ ok mid) × (f mid ≡ ok out)
>>=-eq-ok f out_of_fuel e = cc
>>=-eq-ok f hang e = cc
>>=-eq-ok f fault e = cc
>>=-eq-ok f (ok mid) e = (mid, refl, e)
