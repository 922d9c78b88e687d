-- ===== src/Kernel/Kmalloc/Info.antt =====
-- `kmalloc_info` of kernel/kmalloc.c, which prints the blocks of the heap.
use foos.Prelude.{ℕ, zero, suc, [], ◌∷◌, if◌then◌else◌, ◌==◌, codes}
use foos.Machine.{Run, ok, out_of_fuel, ◌>>=◌, null}
use foos.Libc.Printf.{word, printf}
use foos.Kernel.Kmalloc.{Heap, heap_base}
use foos.Kernel.Device.{Drivers, Devices}

-- `heap` is where the heap stands in the state.
module _ {S : Type 0} (d : Drivers S) (heap : S → Heap) where
  -- A unit of fuel for each block.
  unfoldable pub do_block : ℕ → Devices S → ℕ → Run (Devices S)
  do_block zero v blk = out_of_fuel
  do_block (suc fuel) v blk = do
    let b = heap v.world blk
    (v1, _) ←
        printf d v (codes "block at 0x%x: used=%d, size=%d\n")
          (word blk ∷ word b.used ∷ word b.size ∷ [])
    let next = (heap v1.world blk).next
    let rest = do_block fuel v1 next
    if next == null then ok v1 else rest

  unfoldable pub kmalloc_info : ℕ → Devices S → Run (Devices S)
  kmalloc_info fuel v = do_block fuel v heap_base
