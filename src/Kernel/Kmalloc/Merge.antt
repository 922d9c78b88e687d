-- ===== src/Kernel/Kmalloc/Merge.antt =====
-- `merge` of kernel/kmalloc.c, case by case.
use foos.Prelude.{ℕ, ◌+◌, ◌^◌, ◌<◌, ◌≡◌, ◌≢◌, fun_ext, arith, ◌==◌, true, false}
use foos.Machine.{ok, fault}
use foos.Kernel.Kmalloc.{Heap, put, absorb, set_prev, merge}
use foos.Kernel.Kmalloc.Cells.{Cell, cell}
use foos.Kernel.Kmalloc.Chain.{header}

-- The block at `p` takes in the one behind it; `m` is what follows that one.
abbrev pub joined : Heap → ℕ → ℕ → ℕ → Cell → ℕ → Heap
joined h p q m c n =
    put (put h p (header (cell c.used (c.size + (16 + n))) q m)) m (record (h m) { prev = p })

pub merge-last : (h : Heap) (p : ℕ) → (h p).next ≡ 0 → merge h p ≡ ok h
unfolding merge
merge-last h p e = rw e

pub merge-busy : (h : Heap) (p : ℕ) → (h (h p).next).used ≢ 0 → merge h p ≡ ok h
unfolding merge
merge-busy h p e = ground arith

module _ (h : Heap) (p q n m : ℕ) {r : ℕ} (c e : Cell) (hp : h p ≡ header c q n) (nz : n ≢ 0)
    (hn : h n ≡ header e r m) (free : e.used ≡ 0) (apart : p < n)
    (bound : c.size + (16 + e.size) < 2 ^ 32) where
  absorb_lem : absorb h p ≡ put h p (header (cell c.used (c.size + (16 + e.size))) q m)
  unfolding absorb
  absorb_lem = fun_ext λ a. ground arith

  pub merge-ok : m ≢ 0 → n < m → merge h p ≡ ok (joined h p q m c e.size)
  unfolding merge set_prev put
  merge-ok mz lt =
      let a : (n == 0) ≡ false = ground arith in
      let b : (m == 0) ≡ false = ground arith in
      let i : (m == p) ≡ false = ground arith in
      let s : (p == p) ≡ true = ground arith in rw (absorb_lem, hp, a, hn, free, s, b, i)

  -- What follows the block that is taken in is written to, also if it is null.
  pub merge-fault : m ≡ 0 → merge h p ≡ fault
  unfolding merge set_prev put
  merge-fault mz =
      let a : (n == 0) ≡ false = ground arith in
      let s : (p == p) ≡ true = ground arith in rw (absorb_lem, hp, a, hn, free, s, mz)
