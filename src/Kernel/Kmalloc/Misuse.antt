-- ===== src/Kernel/Kmalloc/Misuse.antt =====
-- Where kernel/kmalloc.c leaves its own invariant: writes through a null pointer, a `prev` that
-- leads to no block of the list, and a header inside a block that is in use.
use foos.Prelude.{
  ℕ, zero, suc, ◌+◌, ◌-◌, ◌%◌, ◌^◌, ◌≤◌, ◌<◌, ◌≡◌, ◌≢◌, refl, sym, ap, ◌∙◌, List, [], ◌∷◌, ◌++◌,
  arith, true,
}
use foos.Machine.{fault}
use foos.Kernel.Kmalloc.{Heap, Kmem, heap_base, put, kfree, append_block, extend}
use foos.Kernel.Kmalloc.Extend.{extend_lem}
use native.Mathlib.Nat.{mod-add-mod, mod-eq-sub-mod, mod-eq_of_lt}
use foos.Kernel.Kmalloc.Cells.{Cell, cell, behind, stop, is_misaligned, place}
use foos.Kernel.Kmalloc.Chain.{Chain, header, le-stop}
use foos.Kernel.Kmalloc.Rows.{last_of, LastBusy, Chain-suffix, stop-append}
use foos.Kernel.Kmalloc.Merge.{joined, merge-fault}
use foos.Kernel.Kmalloc.Alloc.{IsHeap}
use foos.Kernel.Kmalloc.Free.{
  marked, kfree-merges_fault, merges-next, merges-prev, prev-busy, marked-Chain,
}

module _ (k : Kmem) (pre : List Cell) (c d : Cell) (is : IsHeap k.heap (pre ++ (c ∷ d ∷ [])))
    (bound : stop heap_base (pre ++ (c ∷ d ∷ [])) < 2 ^ 32) where
  abbrev from : ℕ
  from = stop heap_base pre

  pair : Chain k.heap (last_of 0 heap_base pre) from (c ∷ d ∷ [])
  pair = Chain-suffix k.heap 0 heap_base pre (c ∷ d ∷ []) is.chain

  pair-bound : (heap_base ≤ from) × (behind (behind from c) d < 2 ^ 32)
  pair-bound = (le-stop heap_base pre, omega (arith, stop-append heap_base pre (c ∷ d ∷ [])))

  -- To free the last block of the list writes through a null pointer if the block before it is free.
  pub kfree_last-fault : c.used ≡ 0 → kfree k (behind from c + 16) ≡ fault
  unfolding put
  kfree_last-fault free =
      let (low, high) = pair-bound in
      let ch = pair in
      let blk = behind from c in
      let h = marked k.heap blk in
      let prev_is : (h blk).prev ≡ from = ground arith in
      let first =
        merge-fault h from (last_of 0 heap_base pre) blk 0 {r = from} c (cell 0 d.size)
          (ground arith) (omega arith) (ground arith) refl (omega arith) (omega arith) refl in
      kfree-merges_fault k blk (omega arith) (omega arith)
        (merges-prev h blk (ground arith) (ground arith) ∙ rw (prev_is, first))

  -- To free the last but one writes through a null pointer if the last block is free, and the one
  -- before is not.
  pub kfree_before_last-fault :
      c.used ≢ 0 → d.used ≡ 0 → LastBusy 1 pre → kfree k (from + 16) ≡ fault
  unfolding put
  kfree_before_last-fault busy free before =
      let (low, high) = pair-bound in
      let ch = marked-Chain k pre c (d ∷ []) is busy before bound in
      let h = marked k.heap from in
      kfree-merges_fault k from low (omega arith) (
        merges-next h from (prev-busy k pre c (d ∷ []) is busy before bound)
        ∙ merge-fault h from (last_of 0 heap_base pre) (behind from c) 0 (cell 0 c.size) d ch.0
            (omega arith) ch.1.0 free (omega arith) (omega arith) refl)

-- The block is between two free ones.
module _ (k : Kmem) (pre : List Cell) (c d e f : Cell) (post : List Cell)
    (is : IsHeap k.heap (pre ++ (c ∷ d ∷ e ∷ f ∷ post))) (free : c.used ≡ 0) (free' : e.used ≡ 0)
    (bound : stop heap_base (pre ++ (c ∷ d ∷ e ∷ f ∷ post)) < 2 ^ 32) where
  abbrev lo : ℕ
  lo = stop heap_base pre

  abbrev mid : ℕ
  mid = behind lo c

  abbrev hi : ℕ
  hi = behind mid d

  abbrev top : ℕ
  top = behind hi e

  abbrev before_mid : ℕ
  before_mid = last_of 0 heap_base pre

  abbrev h : Heap
  h = marked k.heap mid

  -- After the block before has taken in the freed one.
  abbrev g : Heap
  g = joined h lo before_mid hi c d.size

  -- After the freed one has taken in the block behind.
  abbrev g' : Heap
  g' = joined g mid lo top (cell 0 d.size) e.size

  ch : Chain k.heap before_mid lo (c ∷ d ∷ e ∷ f ∷ post)
  ch = Chain-suffix k.heap 0 heap_base pre (c ∷ d ∷ e ∷ f ∷ post) is.chain

misaligned_of :
    (e align : ℕ) → 16 ≤ 2 ^ align → (e + 16) % 2 ^ align ≡ 8 → is_misaligned e align ≡ true
misaligned_of e zero h r = absurd (omega arith)
misaligned_of e (suc align) h r = ground arith

append_size :
    (h : Heap) (p e size : ℕ)
    → p + 16 ≤ e
    → e < 2 ^ 32
    → (append_block h p e size true p).size ≡ e - (p + 16)
unfolding append_block put
append_size h p e size le lt = ground arith

-- The last block ends eight bytes before a boundary.
module _ (h : Heap) (q p : ℕ) (c : Cell) (size align : ℕ) (hc : h p ≡ header c q 0)
    (tight : behind p c % 2 ^ align + 8 ≡ 2 ^ align) (coarse : 16 ≤ 2 ^ align) (small : align < 32)
    (room : behind p c + 2 ^ align + 64 ≤ 2 ^ 32) (large : 8 ≤ c.size) where
  remainder : (behind p c + 16) % 2 ^ align ≡ 8
  remainder =
      let a : behind p c % 2 ^ align + 16 ≡ 2 ^ align + 8 = omega arith in
      sym (mod-add-mod (behind p c) (2 ^ align) 16)
      ∙ ap (λ (t : ℕ). t % 2 ^ align) a
      ∙ omega (
        arith,
        mod-eq-sub-mod {n = 2 ^ align + 8} {m = 2 ^ align} (omega arith),
        mod-eq_of_lt {n = 2 ^ align + 8 - 2 ^ align} {m = 2 ^ align} (omega arith),
      )

  moves : is_misaligned (behind p c) align ≡ true
  moves = misaligned_of (behind p c) align coarse remainder

  back : place (behind p c) align + 8 ≡ behind p c
  unfolding place
  back = rw moves (omega arith)

  -- `lookup` aligns the block that it creates by rounding its address down and adding. Eight bytes
  -- before a boundary that takes the new header back over the end of the last block, whose size is
  -- cut by eight bytes.
  pub extend-overlaps :
      let (h', e) = extend h p size align in (e + 8 ≡ behind p c) × ((h' p).size + 8 ≡ c.size)
  extend-overlaps =
      rw (extend_lem h q p c size align hc small room, moves)
        (
          back,
          omega (
            arith,
            back,
            append_size h p (place (behind p c) align) size (omega (arith, back))
                (omega (arith, back)),
          ),
        )
