-- ===== src/Kernel/Pic.antt =====
-- The interrupt controllers: kernel/dev/pic.c, and irq_disable and irq_enable of kernel/interrupt.c. What
-- they write to the serial port is left out.
pub mod Controller
pub mod Masks
pub mod Remap
pub mod Pair
mod Tests
use foos.Prelude.{ℕ, ◌+◌, ◌-◌, ◌%◌, ◌^◌, ltb, if◌then◌else◌, bit_and, bit_or}
use foos.Kernel.Ports.{Ports, inb, outb}

-- `PIC1`, `PIC2` and `PIC_EOI`
abbrev pub pic1 : ℕ
pic1 = 0x20

abbrev pub pic2 : ℕ
pic2 = 0xA0

abbrev pub pic_eoi : ℕ
pic_eoi = 0x20

module _ {H : Type 0} (io : Ports H) where
  unfoldable pub pic_remap : H → ℕ → ℕ → H
  pic_remap h offset1 offset2 =
      let (h, mask) = inb io h (pic1 + 1) in
      let (h, mask2) = inb io h (pic2 + 1) in
      let h = outb io h pic1 0x11 in
      let h = outb io h pic2 0x11 in
      let h = outb io h (pic1 + 1) offset1 in
      let h = outb io h (pic2 + 1) offset2 in
      let h = outb io h (pic1 + 1) 4 in
      let h = outb io h (pic2 + 1) 2 in
      let h = outb io h (pic1 + 1) 1 in
      let h = outb io h (pic2 + 1) 1 in
      let h = outb io h (pic1 + 1) mask in outb io h (pic2 + 1) mask2

  unfoldable pub pic_send_eoi : H → ℕ → H
  pic_send_eoi h irq =
      let h1 = if ltb irq 8 then h else outb io h pic2 pic_eoi in outb io h1 pic1 pic_eoi

  unfoldable pub pic_mask : H → ℕ → ℕ → H
  pic_mask h pic offset =
      let (h, mask) = inb io h (pic + 1) in outb io h (pic + 1) (bit_or mask (2 ^ offset))

  -- `~(1<<offset)` on an `int`
  unfoldable pub pic_unmask : H → ℕ → ℕ → H
  pic_unmask h pic offset =
      let (h, mask) = inb io h (pic + 1) in
      outb io h (pic + 1) (bit_and mask (2 ^ 32 - 1 - 2 ^ offset))

  unfoldable pub pic_disable : H → H
  pic_disable h = outb io (outb io h (pic1 + 1) 0xFF) (pic2 + 1) 0xFF

  unfoldable pub irq_disable : H → ℕ → H
  irq_disable h irq = pic_mask h (if ltb irq 8 then pic1 else pic2) (irq % 8)

  unfoldable pub irq_enable : H → ℕ → H
  irq_enable h irq = pic_unmask h (if ltb irq 8 then pic1 else pic2) (irq % 8)
