-- ===== src/Kernel/Kmalloc/Tests.antt =====
-- Runs of kernel/kmalloc.c on small heaps, and its theorems at them.
use foos.Prelude.{ℕ, ◌+◌, ◌≡◌, refl, List, [], ◌∷◌, arith}
use foos.Machine.{Run, ok, ◌>>=◌}
use foos.Kernel.Kmalloc.{
  Heap, Kmem, blank, heap_base, put, carve, split, next_place, append_block, extend, lookup,
  round_size, kmalloca, kmalloc, kfree,
}
use foos.Kernel.Kmalloc.Cells.{Cell, cell}
use foos.Kernel.Kmalloc.Chain.{header}
use foos.Kernel.Kmalloc.Alloc.{IsHeap}
use foos.Kernel.Kmalloc.Free.{Freed}
use foos.Kernel.Kmalloc.Join.{kfree_join_next, kfree_join_prev}
use foos.Kernel.Kmalloc.Misuse.{extend-overlaps}

abbrev boot : Kmem
boot = record { heap = λ _. blank; errno = 0 }

-- Three calls from boot, and the addresses that they return.
three : Run (ℕ × ℕ × ℕ)
three = do
  (k, a) ← kmalloc 9 boot 10
  (k, b) ← kmalloca 9 k 100 12
  (k, c) ← kmalloc 9 k 8
  ok (a, b, c)

three_returns : three ≡ ok (0x400010, 0x401000, 0x401078)
unfolding three kmalloc kmalloca lookup extend append_block next_place split carve put round_size
three_returns = refl

-- Blocks one behind the other, with the given uses and sizes.
abbrev h1 : Heap
h1 = put (λ _. blank) heap_base (header (cell 1 16) 0 0)

abbrev k1 : Kmem
k1 = record { heap = h1; errno = 0 }

abbrev row : ℕ → ℕ → ℕ → ℕ → Kmem
row u v w x = record {
  heap =
      put
        (put
          (put (put (λ _. blank) 0x400000 (header (cell u 16) 0 0x400020)) 0x400020
            (header (cell v 16) 0x400000 0x400040))
          0x400040 (header (cell w 16) 0x400020 0x400060))
        0x400060 (header (cell x 16) 0x400040 0);
  errno = 0;
}

abbrev row_cells : ℕ → ℕ → ℕ → ℕ → List Cell
row_cells u v w x = cell u 16 ∷ cell v 16 ∷ cell w 16 ∷ cell x 16 ∷ []

row-IsHeap : (u v w x : ℕ) → IsHeap (row u v w x).heap (row_cells u v w x)
unfolding put
row-IsHeap u v w x = record {
  rooted = refl;
  chain = (ground arith, (ground arith, (ground arith, (ground arith, tt))));
  positive = omega arith;
  fresh = λ a far. ground arith;
}

kfree_join_next_example :
    Freed
      (row 1 1 0 1)
      (row_cells 1 1 0 1)
      (cell 1 16 ∷ cell 0 48 ∷ cell 1 16 ∷ [])
      0x400030
      16
      (kfree (row 1 1 0 1) 0x400030)
kfree_join_next_example =
    kfree_join_next (row 1 1 0 1) (cell 1 16 ∷ []) (cell 1 16) (cell 0 16) (cell 1 16) []
      (row-IsHeap 1 1 0 1) (omega arith) (omega arith) refl (omega arith)

kfree_join_prev_example :
    Freed
      (row 1 0 1 1)
      (row_cells 1 0 1 1)
      (cell 1 16 ∷ cell 0 48 ∷ cell 1 16 ∷ [])
      0x400050
      16
      (kfree (row 1 0 1 1) 0x400050)
kfree_join_prev_example =
    kfree_join_prev (row 1 0 1 1) (cell 1 16 ∷ []) (cell 0 16) (cell 1 16) (cell 1 16) []
      (row-IsHeap 1 0 1 1) refl (omega arith) (omega arith) (omega arith)

-- 4072 bytes at the root end eight bytes before a page.
abbrev h_tight : Heap
h_tight = put (λ _. blank) heap_base (header (cell 1 4072) 0 0)

extend-overlaps_example :
    let (h', e) = extend h_tight heap_base 16 12 in
    (e + 8 ≡ 0x400ff8) × ((h' heap_base).size + 8 ≡ 4072)
unfolding put
extend-overlaps_example =
    extend-overlaps h_tight 0 heap_base (cell 1 4072) 16 12 (ground arith) refl (omega arith)
      (omega arith) (omega arith) (omega arith)
