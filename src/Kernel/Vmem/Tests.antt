-- ===== src/Kernel/Vmem/Tests.antt =====
-- Runs of kernel/vmem.c, and its theorem at a directory with no table.
use foos.Prelude.{◌≡◌, refl, []}
use foos.Machine.{ok}
use foos.Kernel.Kmalloc.{blank, heap_base, put}
use foos.Kernel.Vmem.{Vmem, vmem_get}

-- One small block on the heap, a directory of zeros at 0x1000, and no memory in use.
abbrev machine : Vmem
machine = record {
  kmem = record {
    heap = put (λ _. blank) heap_base (record { used = 1; size = 16; prev = 0; next = 0 });
    errno = 0;
  };
  frames = [];
  words = λ a. 0;
  cr3 = 0x1000;
}

present :
    vmem_get 0 (record machine { words = λ a. 0x5003 }) 0x7000 0
    ≡ ok (record machine { words = λ a. 0x5003 }, 0x501C)
unfolding vmem_get
present = refl
