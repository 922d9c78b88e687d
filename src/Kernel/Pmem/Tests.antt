-- ===== src/Kernel/Pmem/Tests.antt =====
-- Runs of kernel/pmem.c, and its theorems at small sets of frames.
use foos.Prelude.{
  ℕ, zero, suc, ◌*◌, ◌/◌, ◌%◌, ◌≡◌, ◌⊎◌, refl, [], ◌∷◌, arith, replicate, length-replicate, get_or,
}
use foos.Prelude.Bits.{bit_at-zero}
use foos.Machine.{ok, fault, null, ◌>>=◌}
use foos.Kernel.Pmem.{Frames, page_size, pmem_set, pmem_test, pmem_init, pmem_get_free}
use foos.Kernel.Pmem.Free.{First, Exhausted, pmem_get_free_lem}
use foos.Kernel.Pmem.Map.{Prefix}

abbrev two_words : Frames
two_words = 0xffff_ffff ∷ 5 ∷ []

set_and_test : (pmem_set two_words 0x21000 >>= λ fs. pmem_test fs 0x21000) ≡ ok 2
unfolding pmem_set pmem_test
set_and_test = refl

beyond_the_end : pmem_set two_words 0x40000 ≡ fault
unfolding pmem_set
beyond_the_end = refl

first_free : pmem_get_free two_words ≡ ok 0x21000
unfolding pmem_get_free
first_free = refl

zeros : (n i : ℕ) → get_or {A = ℕ} (replicate n 0) i 0 ≡ 0
zeros zero i = refl
zeros (suc n) zero = refl
zeros (suc n) (suc i) = zeros n i

pmem_init-Prefix : Prefix pmem_init 0
unfolding pmem_init
pmem_init-Prefix = record {
  words = length-replicate {A = ℕ} 1024 0;
  used = λ m lo. absurd (omega arith);
  free = λ m hi. rw (zeros 1024 (m / 32)) (bit_at-zero (m % 32));
}

pmem_get_free_lem_example :
    ((j : ℕ) × (pmem_get_free pmem_init ≡ ok (j * page_size)) × First pmem_init 0 j)
    ⊎ ((pmem_get_free pmem_init ≡ ok null) × Exhausted pmem_init 0)
unfolding pmem_init
pmem_get_free_lem_example =
    pmem_get_free_lem pmem_init (omega (arith, length-replicate {A = ℕ} 1024 0))

-- An entry of 0x80, as memory that was used before may hold.
