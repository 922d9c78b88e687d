-- ===== src/Kernel/Ttydev/Opening.antt =====
-- Opening and closing the terminal of kernel/dev/tty.c, and reading a line from it.
use foos.Prelude.{
  ℕ, ◌≡◌, ◌≢◌, refl, ap, ◌∙◌, arith, true, false, List, length, ◌==◌, some, Option, set,
}
use foos.Prelude.Bits.{bit_at}
use foos.Machine.{u8, ok, null, neg32}
use foos.Kernel.Kmalloc.{Kmem, kmalloc, kfree}
use foos.Kernel.Ports.{Ports, inb, outb}
use foos.Kernel.Pic.{pic1, pic2, irq_enable, irq_disable}
use foos.Kernel.Pic.Controller.{Chip, ready, Is8259}
use foos.Kernel.Pic.Masks.{irq_disable-irq_enable}
use foos.Kernel.Interrupt.{Handler, hooked, int_hook_handler}
use foos.Kernel.Tty.{tty_get_cursor}
use foos.Kernel.Ttydev.{
  vga_cmd, vga_data, tty_enable_cursor, Teletype, cleared, ttysiz, set_struct, with_kmem,
  with_hardware, tty_init, tty_create, ttydev_open, ttydev_close,
}

-- The ports of the display controller are not those of the interrupt controllers.
pub record IsApart {H : Type 0} (io : Ports H) (chip : H → ℕ → Chip) : Type 0 where
  pub reads : (h : H) (pic : ℕ) → chip (inb io h vga_data).0 pic ≡ chip h pic
  pub selects : (h : H) (pic v : ℕ) → chip (outb io h vga_cmd v) pic ≡ chip h pic
  pub writes : (h : H) (pic v : ℕ) → chip (outb io h vga_data v) pic ≡ chip h pic

-- What an open terminal is like: a clear `struct tty` at `dev->data`, gray on black, that was used last.
pub record IsFresh {H F : Type 0} (w : Teletype H F) : Type 0 where
  pub there : w.dev_data ≢ null
  pub last_used : w.current_tty ≡ w.dev_data
  pub size : length (w.structs w.dev_data).buf ≡ 512
  pub no_line : (w.structs w.dev_data).kbd.flush ≡ 0
  pub shift : (w.structs w.dev_data).kbd.shift ≡ 0
  pub caps : (w.structs w.dev_data).kbd.caps ≡ 0
  pub color : (w.structs w.dev_data).tty.color ≡ 7

module _ {H F : Type 0} (io : Ports H) (irq : F) where
  -- What `tty_create` leaves.
  abbrev created : Teletype H F → ℕ → Teletype H F
  created w ptr =
      let color = record cleared.tty { color = 0x7; cursor = u8 (tty_get_cursor w.vga) } in
      record (set_struct (with_hardware w (tty_enable_cursor io w.idt.hardware 0xE 0xF)) ptr
        (record cleared { tty = color })) { current_tty = ptr }

  tty_create_eq :
      (w : Teletype H F) (ptr : ℕ) → ptr ≢ null → tty_create io irq w ptr ≡ ok (created w ptr, 0)
  unfolding tty_create
  tty_create_eq w ptr nz = let t : (ptr == 0) ≡ false = ground arith in rw t refl

  open_eq :
      (fuel : ℕ) (w w1 : Teletype H F) (flags ret p : ℕ) (k : Kmem)
      → w.dev_data ≡ null
      → tty_init io irq w ≡ ok (w1, ret)
      → kmalloc fuel w1.idt.kmem ttysiz ≡ ok (k, p)
      → p ≢ null
      → ttydev_open io irq fuel w flags
        ≡ ok (record (created (with_kmem w1 k) p) { dev_data = p }, 0)
  unfolding ttydev_open
  open_eq fuel w w1 flags ret p k free starts given nz =
      let t : (w.dev_data == 0) ≡ true = ground arith in
      rw (t, starts, given, tty_create_eq (with_kmem w1 k) p nz) refl

  created-IsFresh :
      (w : Teletype H F) (p : ℕ) → p ≢ null → IsFresh (record (created w p) { dev_data = p })
  created-IsFresh w p nz =
      let t : (p == p) ≡ true = ground arith in
      record {
        there = nz;
        last_used = refl;
        size = rw t refl;
        no_line = rw t refl;
        shift = rw t refl;
        caps = rw t refl;
        color = rw t refl;
      }

  enable_cursor-IsApart :
      (chip : H → ℕ → Chip)
      → IsApart io chip
      → (h : H) (start end pic : ℕ) → chip (tty_enable_cursor io h start end) pic ≡ chip h pic
  unfolding tty_enable_cursor
  enable_cursor-IsApart chip apart h start end pic =
      apart.writes _ pic _
      ∙ apart.reads _ pic
      ∙ apart.selects _ pic 11
      ∙ apart.writes _ pic _
      ∙ apart.reads _ pic
      ∙ apart.selects _ pic 10

  module _ (chip : H → ℕ → Chip) (law : Is8259 io chip) (apart : IsApart io chip) where
    -- The first `ttydev_open` of a closed terminal, with the heap block that it asks for: it returns 0 with
    -- a fresh terminal, its interrupt handler is hooked to the vector 0x21, the keyboard interrupt is
    -- not masked, and the cursor is where it was.
    pub ttydev_open_first :
        (fuel : ℕ) (w : Teletype H F) (flags p : ℕ) (k : Kmem)
        (handlers : List (Option (Handler F)))
        → w.dev_data ≡ null
        → w.init ≡ false
        → w.idt.handlers ≡ some handlers
        → (chip w.idt.hardware pic1).stage ≡ ready
        → kmalloc fuel w.idt.kmem ttysiz ≡ ok (k, p)
        → p ≢ null
        → (w' : Teletype H F) × (ttydev_open io irq fuel w flags ≡ ok (w', 0))
          × IsFresh w'
          × (w'.idt.handlers ≡ some (set handlers 0x21 (some (hooked irq))))
          × (bit_at (chip w'.idt.hardware pic1).mask 1 ≡ 0)
          × (tty_get_cursor w'.vga ≡ tty_get_cursor w.vga)
          × (w'.codes ≡ w.codes)
    unfolding tty_init int_hook_handler
    ttydev_open_first fuel w flags p k handlers closed first hook idle given nz =
        let t = record w.idt { handlers = some (set handlers 0x21 (some (hooked irq))) } in
        let w1 = with_hardware (record w { idt = t; init = true }) (irq_enable io t.hardware 1) in
        let starts : tty_init io irq w ≡ ok (w1, 0) = rw (first, hook) refl in
        let bit =
          (irq_disable-irq_enable io chip law w.idt.hardware 1 pic2 idle (λ e. omega arith)).1 in
        (
          record (created (with_kmem w1 k) p) { dev_data = p },
          open_eq fuel w w1 flags 0 p k closed starts given nz,
          created-IsFresh (with_kmem w1 k) p nz,
          refl,
          ap (λ (c : Chip). bit_at c.mask 1)
                (enable_cursor-IsApart chip apart w1.idt.hardware 0xE 0xF pic1)
              ∙ bit.bit,
          refl,
          refl,
        )

    -- A terminal that was open before, closed and opened again, with the heap block that it asks for: both
    -- calls return 0 and the terminal is fresh, but the keyboard interrupt stays masked.
    pub ttydev_open-ttydev_close :
        (fuel : ℕ) (w : Teletype H F) (flags p : ℕ) (k k' : Kmem)
        → w.init ≡ true
        → (chip w.idt.hardware pic1).stage ≡ ready
        → kfree w.idt.kmem w.dev_data ≡ ok k
        → kmalloc fuel k ttysiz ≡ ok (k', p)
        → p ≢ null
        → (w1 : Teletype H F) × (w2 : Teletype H F) × (ttydev_close io irq w ≡ ok (w1, 0))
          × (ttydev_open io irq fuel w1 flags ≡ ok (w2, 0))
          × IsFresh w2
          × (bit_at (chip w2.idt.hardware pic1).mask 1 ≡ 1)
    unfolding tty_init ttydev_close
    ttydev_open-ttydev_close fuel w flags p k k' before idle freed given nz =
        let h1 = irq_disable io w.idt.hardware 1 in
        let w1 = with_hardware (record (with_kmem w k) { dev_data = null }) h1 in
        let starts : tty_init io irq w1 ≡ ok (w1, neg32 1) = rw before refl in
        let bit =
          (irq_disable-irq_enable io chip law w.idt.hardware 1 pic2 idle (λ e. omega arith)).0 in
        (
          w1,
          record (created (with_kmem w1 k') p) { dev_data = p },
          rw freed refl,
          open_eq fuel w1 w1 flags (neg32 1) p k' refl starts given nz,
          created-IsFresh (with_kmem w1 k') p nz,
          ap (λ (c : Chip). bit_at c.mask 1) (enable_cursor-IsApart chip apart h1 0xE 0xF pic1)
              ∙ bit.bit,
        )
