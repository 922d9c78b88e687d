-- ===== src/Kernel/Pic/Masks.antt =====
-- `irq_disable` and `irq_enable` of kernel/interrupt.c, on `pic_mask` and `pic_unmask` of
-- kernel/dev/pic.c: one bit of one mask.
use foos.Prelude.{
  ℕ, ◌+◌, ◌-◌, ◌%◌, ◌^◌, ◌<◌, ◌≡◌, ◌≢◌, refl, sym, ap, ◌∙◌, arith, ltb, if◌then◌else◌, Bool-cases,
  inl, inr, bit_and, bit_or,
}
use foos.Prelude.Bits.{
  bit_at, bit_at-bit_or, bit_at-bit_and, bit_at-pow_self, bit_at-pow_ne, bit_at-hole_self,
  bit_at-hole_ne, bit_at-le-one, bit_at-ones, bit_and-ones,
}
use foos.Machine.{u8}
use foos.Kernel.Ports.{Ports, inb, outb}
use foos.Kernel.Pic.{pic1, pic2, pic_mask, pic_unmask, irq_disable, irq_enable}
use foos.Kernel.Pic.Controller.{Chip, ready, Is8259, IsPic}

-- The low byte has the low bits.
bit_at-u8 : (w k : ℕ) → k < 8 → bit_at (u8 w) k ≡ bit_at w k
bit_at-u8 w k lt =
    let e : bit_and w 255 ≡ u8 w = bit_and-ones 8 w in
    omega (
      arith,
      ap (λ (t : ℕ). bit_at t k) e,
      bit_at-bit_and k w 255,
      bit_at-ones 8 k lt,
      bit_at-le-one k w,
    )

-- The bit `k` of the mask becomes `b`; nothing else changes.
pub record Sets (before after : Chip) (k b : ℕ) : Type 0 where
  pub bit : bit_at after.mask k ≡ b
  pub others : (j : ℕ) → j < 8 → j ≢ k → bit_at after.mask j ≡ bit_at before.mask j
  pub vector : after.vector ≡ before.vector
  pub stage : after.stage ≡ before.stage

abbrev pub pic_of : ℕ → ℕ
pic_of irq = if ltb irq 8 then pic1 else pic2

pic_of-IsPic : (irq : ℕ) → IsPic (pic_of irq)
pic_of-IsPic irq = elim (Bool-cases (ltb irq 8)) [
  | inl low ↦ rw low (inl refl)
  | inr high ↦ rw high (inr refl)
]

module _ {H : Type 0} (io : Ports H) (chip : H → ℕ → Chip) (law : Is8259 io chip) where
  -- The mask is read and written back as `w`.
  write-Sets :
      (h : H) (pic k w b : ℕ)
      → IsPic pic
      → k < 8
      → (chip h pic).stage ≡ ready
      → bit_at w k ≡ b
      → ((j : ℕ) → j < 8 → j ≢ k → bit_at w j ≡ bit_at (inb io h (pic + 1)).1 j)
      → Sets (chip h pic) (chip (outb io (inb io h (pic + 1)).0 (pic + 1) w) pic) k b
  write-Sets h pic k w b is lt idle at rest =
      let h1 = (inb io h (pic + 1)).0 in
      let same = law.quiet h pic pic is in
      let e = law.masks h1 pic w is (ap (λ (c : Chip). c.stage) same ∙ idle) in
      let m = ap (λ (c : Chip). c.mask) e in
      record {
        bit = ap (λ (t : ℕ). bit_at t k) m ∙ bit_at-u8 w k lt ∙ at;
        others = λ j below ne.
            ap (λ (t : ℕ). bit_at t j) m
            ∙ bit_at-u8 w j below
            ∙ rest j below ne
            ∙ ap (λ (t : ℕ). bit_at t j) (law.reads h pic is idle);
        vector = ap (λ (c : Chip). c.vector) e ∙ ap (λ (c : Chip). c.vector) same;
        stage = ap (λ (c : Chip). c.stage) e ∙ ap (λ (c : Chip). c.stage) same;
      }

  -- `irq_disable` sets the bit of the interrupt in the mask of its controller, the first for the
  -- interrupts 0 to 7 and the second for the others, and `irq_enable` clears it. They change no other bit,
  -- and nothing in the other controller.
  pub irq_disable-irq_enable :
      (h : H) (irq other : ℕ)
      → (chip h (pic_of irq)).stage ≡ ready
      → pic_of irq ≢ other
      → Sets (chip h (pic_of irq)) (chip (irq_disable io h irq) (pic_of irq)) (irq % 8) 1
        × Sets (chip h (pic_of irq)) (chip (irq_enable io h irq) (pic_of irq)) (irq % 8) 0
        × (chip (irq_disable io h irq) other ≡ chip h other)
        × (chip (irq_enable io h irq) other ≡ chip h other)
  unfolding irq_disable irq_enable pic_mask pic_unmask
  irq_disable-irq_enable h irq other idle ne =
      let pic = pic_of irq in
      let k = irq % 8 in
      let mask = (inb io h (pic + 1)).1 in
      let h1 = (inb io h (pic + 1)).0 in
      let is = pic_of-IsPic irq in
      let set = bit_or mask (2 ^ k) in
      let clear = bit_and mask (2 ^ 32 - 1 - 2 ^ k) in
      (
        write-Sets h pic k set 1 is (omega arith) idle
            (omega (arith, bit_at-bit_or k mask (2 ^ k), bit_at-pow_self k, bit_at-le-one k mask))
            (λ j below q.
              omega (arith, bit_at-bit_or j mask (2 ^ k), bit_at-pow_ne k j (λ e. q (sym e)))),
        write-Sets h pic k clear 0 is (omega arith) idle
            (omega (
              arith,
              bit_at-bit_and k mask (2 ^ 32 - 1 - 2 ^ k),
              bit_at-hole_self 32 k (omega arith),
            ))
            (λ j below q. omega (
              arith,
              bit_at-bit_and j mask (2 ^ 32 - 1 - 2 ^ k),
              bit_at-hole_ne 32 k j (omega arith) (omega arith) (λ e. q (sym e)),
              bit_at-le-one j mask,
            )),
        law.apart_data h1 pic other set is ne ∙ law.quiet h pic other is,
        law.apart_data h1 pic other clear is ne ∙ law.quiet h pic other is,
      )
