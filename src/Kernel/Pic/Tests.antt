-- ===== src/Kernel/Pic/Tests.antt =====
-- The theorems on kernel/dev/pic.c at two controllers.
use foos.Prelude.{◌≡◌, refl, arith}
use foos.Kernel.Pic.{pic1, pic2, pic_remap, irq_disable, irq_enable}
use foos.Kernel.Pic.Masks.{Sets, irq_disable-irq_enable}
use foos.Kernel.Pic.Remap.{pic_remap_lem}
use foos.Kernel.Pic.Pair.{io, chip_of, io-Is8259, start}

irq_disable-irq_enable_example :
    Sets (chip_of start pic2) (chip_of (irq_disable io start 12) pic2) 4 1
    × Sets (chip_of start pic2) (chip_of (irq_enable io start 12) pic2) 4 0
    × (chip_of (irq_disable io start 12) pic1 ≡ chip_of start pic1)
    × (chip_of (irq_enable io start 12) pic1 ≡ chip_of start pic1)
irq_disable-irq_enable_example =
    irq_disable-irq_enable io chip_of io-Is8259 start 12 pic1 refl (λ e. absurd (omega arith))

pic_remap_lem_example :
    (chip_of (pic_remap io start 0x20 0x28) pic1 ≡ record (chip_of start pic1) { vector = 0x20 })
    × (chip_of (pic_remap io start 0x20 0x28) pic2 ≡ record (chip_of start pic2) { vector = 0x28 })
pic_remap_lem_example =
    pic_remap_lem io chip_of io-Is8259 start 0x20 0x28 refl refl (omega arith) (omega arith) refl
      refl
