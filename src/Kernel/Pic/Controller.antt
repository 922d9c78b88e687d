-- ===== src/Kernel/Pic/Controller.antt =====
-- What kernel/dev/pic.c relies on in the hardware: two 8259A controllers, at the ports `pic1` and `pic2`,
-- as their data sheet describes them.
use foos.Prelude.{ℕ, ◌+◌, ◌-◌, ◌%◌, ◌<◌, ◌≡◌, ◌≢◌, ◌⊎◌}
use foos.Machine.{u8}
use foos.Kernel.Ports.{Ports, inb, outb}
use foos.Kernel.Pic.{pic1, pic2}

-- The interrupt mask, the vector of the first interrupt, and which word the data port takes next: the
-- mask, or one of the initialization words 2 to 4.
pub data Stage : Type 0 where
  ready takes_icw2 takes_icw3 takes_icw4 : Stage

pub record Chip : Type 0 where
  pub mask : ℕ
  pub vector : ℕ
  pub stage : Stage

abbrev pub IsPic : ℕ → Type 0
IsPic pic = (pic ≡ pic1) ⊎ (pic ≡ pic2)

-- `chip h pic` is the controller at the port `pic`.
pub record Is8259 {H : Type 0} (io : Ports H) (chip : H → ℕ → Chip) : Type 0 where
  pub byte : (h : H) (pic : ℕ) → (chip h pic).mask < 256
  pub reads :
      (h : H) (pic : ℕ)
      → IsPic pic
      → (chip h pic).stage ≡ ready
      → (inb io h (pic + 1)).1 ≡ (chip h pic).mask
  pub quiet : (h : H) (pic other : ℕ) → IsPic pic → chip (inb io h (pic + 1)).0 other ≡ chip h other
  pub starts : (h : H) (pic : ℕ) → IsPic pic → (chip (outb io h pic 0x11) pic).stage ≡ takes_icw2
  pub icw2 :
      (h : H) (pic v : ℕ)
      → IsPic pic
      → (chip h pic).stage ≡ takes_icw2
      → ((chip (outb io h (pic + 1) v) pic).stage ≡ takes_icw3)
        × ((chip (outb io h (pic + 1) v) pic).vector ≡ u8 v - u8 v % 8)
  pub icw3 :
      (h : H) (pic v : ℕ)
      → IsPic pic
      → (chip h pic).stage ≡ takes_icw3
      → ((chip (outb io h (pic + 1) v) pic).stage ≡ takes_icw4)
        × ((chip (outb io h (pic + 1) v) pic).vector ≡ (chip h pic).vector)
  pub icw4 :
      (h : H) (pic v : ℕ)
      → IsPic pic
      → (chip h pic).stage ≡ takes_icw4
      → ((chip (outb io h (pic + 1) v) pic).stage ≡ ready)
        × ((chip (outb io h (pic + 1) v) pic).vector ≡ (chip h pic).vector)
  pub masks :
      (h : H) (pic v : ℕ)
      → IsPic pic
      → (chip h pic).stage ≡ ready
      → chip (outb io h (pic + 1) v) pic ≡ record (chip h pic) { mask = u8 v }
  pub apart_command :
      (h : H) (pic other v : ℕ)
      → IsPic pic
      → pic ≢ other
      → chip (outb io h pic v) other ≡ chip h other
  pub apart_data :
      (h : H) (pic other v : ℕ)
      → IsPic pic
      → pic ≢ other
      → chip (outb io h (pic + 1) v) other ≡ chip h other
