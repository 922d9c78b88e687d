-- ===== src/Kernel/Interrupt/Tests.antt =====
-- The theorems on kernel/interrupt.c at two controllers and an empty heap.
use foos.Prelude.{ℕ, ◌+◌, ◌<◌, ◌≤◌, ◌≡◌, refl, arith, List, [], ◌∷◌, none, some, get_or, replicate}
use foos.Machine.{Run, ok}
use foos.Kernel.Kmalloc.{Heap, blank, heap_base, put}
use foos.Kernel.Kmalloc.Cells.{cell}
use foos.Kernel.Kmalloc.Chain.{header}
use foos.Kernel.Kmalloc.Alloc.{IsHeap}
use foos.Kernel.Device.{Drivers, Devices}
use foos.Kernel.Pic.{pic1, pic2}
use foos.Kernel.Pic.Pair.{Pair, io, chip_of, io-Is8259, start}
use foos.Kernel.Interrupt.{Gate, no_gate, Idt, Handler, Registers, idt_init}
use foos.Kernel.Interrupt.Gates.{Leads, idt_init-Leads}

abbrev heap : Heap
heap = put (λ _. blank) heap_base (header (cell 1 32) 0 0)

heap-IsHeap : IsHeap heap (cell 1 32 ∷ [])
unfolding put
heap-IsHeap = record {
  rooted = refl;
  chain = (ground arith, tt);
  positive = (omega arith, tt);
  fresh = λ a far. ground arith;
}

-- A handler is a number, which it adds to the state of the devices.
abbrev boot : Idt Pair (Handler ℕ)
boot = record {
  kmem = record { heap = heap; errno = 0 };
  hardware = start;
  entries = none;
  handlers = none;
  limit = 0;
}

abbrev int_stub : ℕ → ℕ
int_stub k = 0x10_0000

abbrev irq_stub : ℕ → ℕ
irq_stub k = 0x10_1000

idt_init-Leads_example :
    (out : Idt Pair (Handler ℕ)) × (es : List Gate) × (idt_init io int_stub irq_stub 9 boot
      ≡ ok out)
    × (out.entries ≡ some es)
    × (out.handlers ≡ some (replicate 256 none))
    × ((n : ℕ) → n < 32 → Leads (get_or es n no_gate) (int_stub n))
    × ((k : ℕ)
        → k < 8
        → Leads (get_or es ((chip_of out.hardware pic1).vector + k) no_gate) (irq_stub k))
    × ((k : ℕ)
        → k < 8
        → Leads (get_or es ((chip_of out.hardware pic2).vector + k) no_gate) (irq_stub (8 + k)))
    × ((n : ℕ) → 48 ≤ n → n < 256 → get_or es n no_gate ≡ no_gate)
    × ((chip_of out.hardware pic1).mask ≡ (chip_of start pic1).mask)
    × ((chip_of out.hardware pic2).mask ≡ (chip_of start pic2).mask)
idt_init-Leads_example =
    idt_init-Leads io chip_of io-Is8259 int_stub irq_stub (λ k. omega arith) (λ k. omega arith) 9
      boot (cell 1 32 ∷ []) refl refl heap-IsHeap (omega arith) (omega arith) refl refl

abbrev silent : Drivers ℕ
silent = record { set_errno = λ s e. e; table = [] }

abbrev add : ℕ → Registers → Devices ℕ → Run (Devices ℕ)
add n regs v = ok (record v { world = v.world + n })

abbrev ready_idt : Idt Pair (Handler ℕ)
ready_idt = record boot { handlers = some (replicate 4 none) }

abbrev registers : Registers
registers = record { ds = 0x10; int_no = 2; err_code = 0; eip = 0; esp = 0 }

abbrev devices : Devices ℕ
devices = record { world = 7; offsets = [] }
