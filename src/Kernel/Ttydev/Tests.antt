-- ===== src/Kernel/Ttydev/Tests.antt =====
-- The theorems on the terminal of kernel/dev/tty.c as a device, at a small machine.
use foos.Prelude.{ℕ, ◌≡◌, refl, arith, true, false, [], ◌∷◌, none, some, replicate, All, inl}
use foos.Machine.{ok, null}
use foos.Kernel.Kmalloc.{
  Heap, Kmem, blank, heap_base, put, lookup, round_size, split, carve, merge, merges, kmalloca,
  kmalloc, kfree,
}
use foos.Kernel.Kmalloc.Cells.{cell}
use foos.Kernel.Kmalloc.Chain.{header}
use foos.Kernel.Device.{Drivers, Devices, dev_open, dev_read}
use foos.Kernel.Pic.{pic1}
use foos.Kernel.Pic.Pair.{Pair, io, chip_of, io-Is8259, start}
use foos.Kernel.Keyboard.Editor.{IsKey, respond, edit}
use foos.Kernel.Ttydev.{Teletype, ttydev, with_errno, cleared, ttysiz, ttydev_open, ttydev_close}
use foos.Kernel.Ttydev.Opening.{IsApart, IsFresh, ttydev_open-ttydev_close}
use foos.Kernel.Ttydev.Lines.{dev_open-dev_read}
use foos.Prelude.Bits.{bit_at}

abbrev heap : Heap
heap = put (λ _. blank) heap_base (header (cell 0 2000) 0 0)

abbrev kmem : Kmem
kmem = record { heap = heap; errno = 0 }

-- The keys `h` and `i`, and ENTER.
abbrev machine : Teletype Pair ℕ
machine = record {
  idt = record {
    kmem = kmem;
    hardware = start;
    entries = none;
    handlers = some (replicate 256 none);
    limit = 0;
  };
  dev_data = null;
  structs = λ _. cleared;
  current_tty = null;
  init = false;
  vga = record { high = 0; low = 0; memory = λ _. 0 };
  port = 0;
  codes = 0x23 ∷ 0x17 ∷ 0x1C ∷ 0x9C ∷ [];
}

abbrev drivers : Drivers (Teletype Pair ℕ)
drivers = record { set_errno = with_errno; table = ttydev io 5 9 ∷ [] }

io-IsApart : IsApart io chip_of
io-IsApart = record { reads = λ h pic. refl; selects = λ h pic v. refl; writes = λ h pic v. refl }

given : (k : Kmem) × (kmalloc 9 kmem ttysiz ≡ ok (k, 0x40_0010))
unfolding kmalloc kmalloca lookup round_size split carve put
given = (_, refl)

used_kmem : Kmem
used_kmem = record { heap = put (λ _. blank) heap_base (header (cell 1 2000) 0 0); errno = 0 }

abbrev used_machine : Teletype Pair ℕ
used_machine = record machine {
  idt = record machine.idt { kmem = used_kmem };
  dev_data = 0x40_0010;
  init = true;
}

regiven :
    (k : Kmem) × (k' : Kmem) × (kfree used_kmem 0x40_0010 ≡ ok k)
    × (kmalloc 9 k ttysiz ≡ ok (k', 0x40_0010))
unfolding used_kmem kmalloc kmalloca kfree lookup round_size put merges merge split carve
regiven = (_, _, refl, refl)

keys : All IsKey (0x23 ∷ 0x17 ∷ [])
keys = (
  inl (omega arith, λ e. absurd (omega arith)),
  (inl (omega arith, λ e. absurd (omega arith)), tt),
)

abbrev devices : Devices (Teletype Pair ℕ)
devices = record { world = machine; offsets = 0 ∷ [] }

dev_open-dev_read_example :
    (s1 : Devices (Teletype Pair ℕ)) × (s2 : Devices (Teletype Pair ℕ)) × (dev_open drivers devices
        0 0
      ≡ ok (s1, 0))
    × (dev_read drivers s1 0 100 ≡ ok (s2, b'h' ∷ b'i' ∷ [], 2))
    × (s2.world.codes ≡ 0x9C ∷ [])
unfolding respond edit
dev_open-dev_read_example =
    dev_open-dev_read drivers io 5 9 chip_of [] devices 0 0x40_0010 100 given.0 (replicate 256 none)
      (0x23 ∷ 0x17 ∷ []) (0x9C ∷ []) io-Is8259 io-IsApart refl refl refl refl refl given.1
      (λ e. absurd (omega arith)) refl (omega arith) keys

ttydev_open-ttydev_close_example :
    (w1 : Teletype Pair ℕ) × (w2 : Teletype Pair ℕ) × (ttydev_close io 5 used_machine ≡ ok (w1, 0))
    × (ttydev_open io 5 9 w1 0 ≡ ok (w2, 0))
    × IsFresh w2
    × (bit_at (chip_of w2.idt.hardware pic1).mask 1 ≡ 1)
ttydev_open-ttydev_close_example =
    ttydev_open-ttydev_close io 5 chip_of io-Is8259 io-IsApart 9 used_machine 0 0x40_0010 regiven.0
      regiven.1 refl refl regiven.2 regiven.3 (λ e. absurd (omega arith))
