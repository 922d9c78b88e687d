-- ===== src/Kernel/Vmem/Lookup.antt =====
-- `vmem_get` of kernel/vmem.c finds the entry of an address, and makes a table where there is none.
use foos.Prelude.{ℕ, ◌+◌, ◌%◌, ◌^◌, ◌<◌, ◌≡◌, ◌≢◌, List}
use foos.Machine.{Run, ok}
use foos.Kernel.Kmalloc.Cells.{Cell}
use foos.Kernel.Kmalloc.Alloc.{IsHeap}
use foos.Kernel.Pmem.{page_size}
use foos.Kernel.Vmem.{Vmem, slot, place_in, vmem_get}

-- An entry that is present and leads to the table at `table`.
pub record Leads (entry table : ℕ) : Type 0 where
  pub word : entry < 2 ^ 32
  pub present : entry % 2 ≡ 1
  pub to : entry ≡ table + entry % 2 ^ 12
  pub exists : table ≢ 0

-- A table was made for `addr`: the entry of the directory leads to it, other words are as they were,
-- and from then on each address of the table is found there, with no change.
pub record Made (s : Vmem) (addr dir : ℕ) (r : Run (Vmem × ℕ)) : Type 0 where
  pub after : Vmem
  pub table : ℕ
  pub row : List Cell
  pub returns : r ≡ ok (after, place_in table addr)
  pub aligned : table % page_size ≡ 0
  pub valid : IsHeap after.kmem.heap row
  pub leads : Leads (after.words (slot dir addr)) table
  pub others : (a : ℕ) → a ≢ slot dir addr → after.words a ≡ s.words a
  pub stable :
      (fuel other : ℕ)
      → slot dir other ≡ slot dir addr
      → vmem_get fuel after other dir ≡ ok (after, place_in table other)
