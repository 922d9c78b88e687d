-- ===== src/Kernel/Vmem.antt =====
-- The page tables of kernel/vmem.c, and `pmem_mapaddr` of kernel/pmem.c. Memory is a map of 32-bit
-- words by address; the tables come from the heap.
pub mod Lookup
mod Tests
use foos.Prelude.{
  ℕ, ◌+◌, ◌-◌, ◌*◌, ◌/◌, ◌%◌, ◌^◌, Bool, ◌||◌, not, if◌then◌else◌, ◌==◌, bit_and, bit_or,
}
use foos.Machine.{Run, ok, ◌>>=◌, u32, null}
use foos.Kernel.Kmalloc.{Kmem, kmalloca}
use foos.Kernel.Pmem.{Frames, page_size, p_present, p_writable, pmem_map}

-- `TABLE_SIZE`, and PAGE_ALIGN_SHIFT of include/foos/kmalloc.h.
abbrev pub table_size : ℕ
table_size = 1024 * 4

abbrev pub page_align_shift : ℕ
page_align_shift = 12

pub record Vmem : Type 0 where
  pub kmem : Kmem
  pub frames : Frames
  pub words : ℕ → ℕ
  pub cr3 : ℕ

abbrev pub set_word : Vmem → ℕ → ℕ → Vmem
set_word s a v = record s { words = λ b. if b == a then v else s.words b }

-- `&dir[table_i]` and `table+offset`, for an address.
abbrev pub slot : ℕ → ℕ → ℕ
slot dir addr = u32 (dir + addr / page_size / 1024 * 4)

abbrev pub place_in : ℕ → ℕ → ℕ
place_in table addr = u32 (table + addr / page_size % 1024 * 4)

unfoldable pub vmem_get : ℕ → Vmem → ℕ → ℕ → Run (Vmem × ℕ)
vmem_get fuel s addr dirptr =
    let dir = if dirptr == null then s.cr3 else dirptr in
    let entry = s.words (slot dir addr) in
    let table = bit_and entry (2 ^ 32 - 2 ^ page_align_shift) in
    if bit_and entry p_present == 0 || table == null
    then (do
      (k, t) ← kmalloca fuel s.kmem table_size page_align_shift
      let s1 = record s { kmem = k }
      ok (set_word s1 (slot dir addr) (bit_or (bit_or t p_present) p_writable), place_in t addr))
    else ok (s, place_in table addr)

unfoldable pub pmem_mapaddr : ℕ → Vmem → ℕ → ℕ → ℕ → ℕ → Run Vmem
pmem_mapaddr fuel s virtaddr physaddr flags dir = do
  (s1, pg) ← vmem_get fuel s virtaddr dir
  (frames, entry) ← pmem_map s1.frames (s1.words pg) physaddr flags
  ok (record (set_word s1 pg entry) { frames = frames })
