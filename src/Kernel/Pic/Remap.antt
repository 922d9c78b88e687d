-- ===== src/Kernel/Pic/Remap.antt =====
-- `pic_remap` of kernel/dev/pic.c initializes both controllers.
use foos.Prelude.{ℕ, ◌+◌, ◌-◌, ◌%◌, ◌<◌, ◌≡◌, ◌≢◌, refl, sym, ap, ◌∙◌, arith, inl, inr}
use foos.Machine.{u8}
use foos.Kernel.Ports.{Ports, inb, outb}
use foos.Kernel.Pic.{pic1, pic2, pic_remap}
use foos.Kernel.Pic.Controller.{Chip, Stage, ready, Is8259, IsPic}

module _ {H : Type 0} (io : Ports H) (chip : H → ℕ → Chip) (law : Is8259 io chip) where
  -- The words that one controller gets, with what happens to the other one in between left out.
  initialized :
      (pic v w x m : ℕ) (s0 s1 s2 s3 s4 s5 : H)
      → IsPic pic
      → chip s1 pic ≡ chip (outb io s0 pic 0x11) pic
      → chip s2 pic ≡ chip (outb io s1 (pic + 1) v) pic
      → chip s3 pic ≡ chip (outb io s2 (pic + 1) w) pic
      → chip s4 pic ≡ chip (outb io s3 (pic + 1) x) pic
      → chip s5 pic ≡ chip (outb io s4 (pic + 1) m) pic
      → chip s5 pic ≡ record { mask = u8 m; vector = u8 v - u8 v % 8; stage = ready }
  initialized pic v w x m s0 s1 s2 s3 s4 s5 is e1 e2 e3 e4 e5 =
      let stage = λ (c : Chip). c.stage in
      let vector = λ (c : Chip). c.vector in
      let a = ap stage e1 ∙ law.starts s0 pic is in
      let b = law.icw2 s1 pic v is a in
      let c = law.icw3 s2 pic w is (ap stage e2 ∙ b.0) in
      let d = law.icw4 s3 pic x is (ap stage e3 ∙ c.0) in
      let e = law.masks s4 pic m is (ap stage e4 ∙ d.0) in
      let known : (chip s4 pic).vector ≡ u8 v - u8 v % 8 =
        ap vector e4 ∙ d.1 ∙ ap vector e3 ∙ c.1 ∙ ap vector e2 ∙ b.1 in
      let idle : (chip s4 pic).stage ≡ ready = ap stage e4 ∙ d.0 in
      e5
      ∙ e
      ∙ ap (λ (n : ℕ). record { mask = u8 m; vector = n; stage = (chip s4 pic).stage }) known
      ∙ ap (λ (t : Stage). record { mask = u8 m; vector = u8 v - u8 v % 8; stage = t }) idle

  same_chip :
      (m v : ℕ) (c : Chip)
      → m ≡ c.mask
      → c.mask < 256
      → v < 256
      → v % 8 ≡ 0
      → c.stage ≡ ready
      → record { mask = u8 m; vector = u8 v - u8 v % 8; stage = ready } ≡ record c { vector = v }
  same_chip m v c read byte small low idle =
      let e : u8 m ≡ c.mask = omega arith in
      let e' : u8 v - u8 v % 8 ≡ v = omega arith in
      ap (λ (n : ℕ). record { mask = n; vector = u8 v - u8 v % 8; stage = ready }) e
      ∙ ap (λ (n : ℕ). record { mask = c.mask; vector = n; stage = ready }) e'
      ∙ ap (λ (t : Stage). record { mask = c.mask; vector = v; stage = t }) (sym idle)

  -- On two controllers that are ready, `pic_remap` gives each its vector, which must be a multiple of 8
  -- and fit into a byte, and leaves both ready and with the masks that they had.
  pub pic_remap_lem :
      (h : H) (offset1 offset2 : ℕ)
      → (chip h pic1).stage ≡ ready
      → (chip h pic2).stage ≡ ready
      → offset1 < 256
      → offset2 < 256
      → offset1 % 8 ≡ 0
      → offset2 % 8 ≡ 0
      → (chip (pic_remap io h offset1 offset2) pic1 ≡ record (chip h pic1) { vector = offset1 })
        × (chip (pic_remap io h offset1 offset2) pic2 ≡ record (chip h pic2) { vector = offset2 })
  unfolding pic_remap
  pic_remap_lem h offset1 offset2 idle1 idle2 small1 small2 low1 low2 =
      let one : IsPic pic1 = inl refl in
      let two : IsPic pic2 = inr refl in
      let ne : pic1 ≢ pic2 = λ e. absurd (omega arith) in
      let ne' : pic2 ≢ pic1 = λ e. absurd (omega arith) in
      let a0 = (inb io h (pic1 + 1)).0 in
      let m1 = (inb io h (pic1 + 1)).1 in
      let a1 = (inb io a0 (pic2 + 1)).0 in
      let m2 = (inb io a0 (pic2 + 1)).1 in
      let a2 = outb io a1 pic1 0x11 in
      let a3 = outb io a2 pic2 0x11 in
      let a4 = outb io a3 (pic1 + 1) offset1 in
      let a5 = outb io a4 (pic2 + 1) offset2 in
      let a6 = outb io a5 (pic1 + 1) 4 in
      let a7 = outb io a6 (pic2 + 1) 2 in
      let a8 = outb io a7 (pic1 + 1) 1 in
      let a9 = outb io a8 (pic2 + 1) 1 in
      let b0 = outb io a9 (pic1 + 1) m1 in
      let b1 = outb io b0 (pic2 + 1) m2 in
      let quiet = law.quiet h pic1 pic2 one in
      let r1 = law.reads h pic1 one idle1 in
      let r2 =
        law.reads a0 pic2 two (ap (λ (c : Chip). c.stage) quiet ∙ idle2)
        ∙ ap (λ (c : Chip). c.mask) quiet in
      let end1 =
        initialized pic1 offset1 4 1 m1 a1 a3 a5 a7 a9 b1 one
          (law.apart_command a2 pic2 pic1 0x11 two ne')
          (law.apart_data a4 pic2 pic1 offset2 two ne') (law.apart_data a6 pic2 pic1 2 two ne')
          (law.apart_data a8 pic2 pic1 1 two ne') (law.apart_data b0 pic2 pic1 m2 two ne') in
      let end2 =
        initialized pic2 offset2 2 1 m2 a2 a4 a6 a8 b0 b1 two
          (law.apart_data a3 pic1 pic2 offset1 one ne) (law.apart_data a5 pic1 pic2 4 one ne)
          (law.apart_data a7 pic1 pic2 1 one ne) (law.apart_data a9 pic1 pic2 m1 one ne) refl in
      let byte1 = law.byte h pic1 in
      let byte2 = law.byte h pic2 in
      (
        end1 ∙ same_chip m1 offset1 (chip h pic1) r1 byte1 small1 low1 idle1,
        end2 ∙ same_chip m2 offset2 (chip h pic2) r2 byte2 small2 low2 idle2,
      )
