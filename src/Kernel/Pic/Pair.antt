-- ===== src/Kernel/Pic/Pair.antt =====
-- Two controllers that satisfy the data sheet.
use foos.Prelude.{
  ℕ, ◌+◌, ◌-◌, ◌%◌, ◌≡◌, ◌≢◌, refl, sym, ap, ◌∙◌, arith, inl, inr, false, if◌then◌else◌, ◌==◌, ltb,
}
use mathlib.Core.Path.{subst}
use foos.Machine.{u8}
use foos.Kernel.Ports.{Ports, inb, outb}
use foos.Kernel.Pic.{pic1, pic2}
use foos.Kernel.Pic.Controller.{
  Chip, Stage, ready, takes_icw2, takes_icw3, takes_icw4, Is8259, IsPic,
}

abbrev pub take_data : Chip → ℕ → Stage → Chip
take_data c v ready = record c { mask = v }
take_data c v takes_icw2 = record c { vector = v - v % 8; stage = takes_icw3 }
take_data c v takes_icw3 = record c { stage = takes_icw4 }
take_data c v takes_icw4 = record c { stage = ready }

-- The first controller and the second; a mask is read back as a byte.
abbrev pub Pair : Type 0
Pair = Chip × Chip

abbrev pub absent : Chip
absent = record { mask = 0; vector = 0; stage = ready }

abbrev pub chip_of : Pair → ℕ → Chip
chip_of h pic =
    let c = if pic == pic1 then h.0 else if pic == pic2 then h.1 else absent in
    record c { mask = u8 c.mask }

abbrev pub to_chip : Pair → ℕ → (Chip → Chip) → Pair
to_chip h port f = if ltb port pic2 then (f h.0, h.1) else (h.0, f h.1)

abbrev pub write_port : Pair → ℕ → ℕ → Pair
write_port h port v =
    if ltb 0x100 port
    then h
    else if port % 2 == 0
    then to_chip h port (λ c. record c { stage = takes_icw2 })
    else to_chip h port (λ c. take_data c v c.stage)

abbrev pub io : Ports Pair
io = record {
  read_byte = λ h port. (h, u8 (if ltb port pic2 then h.0.mask else h.1.mask));
  write_byte = write_port;
  read_word = λ h port. (h, 0);
  write_word = λ h port v. h;
  read_long = λ h port. (h, 0);
  write_long = λ h port v. h;
}

-- What holds at both ports.
both : (P : ℕ → Type 0) (pic : ℕ) → IsPic pic → P pic1 → P pic2 → P pic
both P pic (inl e) first second = subst P (sym e) first
both P pic (inr e) first second = subst P (sym e) second

-- Two ports that are not the same.
apart_both :
    (P : ℕ → ℕ → Type 0) (pic other : ℕ)
    → IsPic pic
    → ((q : ℕ) → q ≢ pic1 → P pic1 q)
    → ((q : ℕ) → q ≢ pic2 → P pic2 q)
    → pic ≢ other
    → P pic other
apart_both P pic other is first second =
    both (λ p. p ≢ other → P p other) pic is (λ ne. first other (λ e. ne (sym e)))
      (λ ne. second other (λ e. ne (sym e)))

twice : (v : ℕ) → u8 (u8 v) ≡ u8 v
twice v = omega arith

pub io-Is8259 : Is8259 io chip_of
io-Is8259 = record {
  byte = λ h pic. omega arith;
  reads = λ h pic is.
      both (λ p. (chip_of h p).stage ≡ ready → (inb io h (p + 1)).1 ≡ (chip_of h p).mask) pic is
        (λ e. refl) (λ e. refl);
  quiet = λ h pic other is. refl;
  starts =
      λ h pic is. both (λ p. (chip_of (outb io h p 0x11) p).stage ≡ takes_icw2) pic is refl refl;
  icw2 = λ h pic v is.
      both
        (λ p.
          (chip_of h p).stage ≡ takes_icw2
          → ((chip_of (outb io h (p + 1) v) p).stage ≡ takes_icw3)
            × ((chip_of (outb io h (p + 1) v) p).vector ≡ u8 v - u8 v % 8))
        pic is
        (λ e. (
          ap (λ (t : Stage). (take_data h.0 (u8 v) t).stage) e,
          ap (λ (t : Stage). (take_data h.0 (u8 v) t).vector) e,
        ))
        (λ e. (
          ap (λ (t : Stage). (take_data h.1 (u8 v) t).stage) e,
          ap (λ (t : Stage). (take_data h.1 (u8 v) t).vector) e,
        ));
  icw3 = λ h pic v is.
      both
        (λ p.
          (chip_of h p).stage ≡ takes_icw3
          → ((chip_of (outb io h (p + 1) v) p).stage ≡ takes_icw4)
            × ((chip_of (outb io h (p + 1) v) p).vector ≡ (chip_of h p).vector))
        pic is
        (λ e. (
          ap (λ (t : Stage). (take_data h.0 (u8 v) t).stage) e,
          ap (λ (t : Stage). (take_data h.0 (u8 v) t).vector) e,
        ))
        (λ e. (
          ap (λ (t : Stage). (take_data h.1 (u8 v) t).stage) e,
          ap (λ (t : Stage). (take_data h.1 (u8 v) t).vector) e,
        ));
  icw4 = λ h pic v is.
      both
        (λ p.
          (chip_of h p).stage ≡ takes_icw4
          → ((chip_of (outb io h (p + 1) v) p).stage ≡ ready)
            × ((chip_of (outb io h (p + 1) v) p).vector ≡ (chip_of h p).vector))
        pic is
        (λ e. (
          ap (λ (t : Stage). (take_data h.0 (u8 v) t).stage) e,
          ap (λ (t : Stage). (take_data h.0 (u8 v) t).vector) e,
        ))
        (λ e. (
          ap (λ (t : Stage). (take_data h.1 (u8 v) t).stage) e,
          ap (λ (t : Stage). (take_data h.1 (u8 v) t).vector) e,
        ));
  masks = λ h pic v is.
      both
        (λ p.
          (chip_of h p).stage ≡ ready
          → chip_of (outb io h (p + 1) v) p ≡ record (chip_of h p) { mask = u8 v })
        pic is
        (λ e.
          ap (λ (t : Stage). (let c = take_data h.0 (u8 v) t in record c { mask = u8 c.mask })) e
          ∙ ap (λ (m : ℕ). record h.0 { mask = m }) (twice v))
        (λ e.
          ap (λ (t : Stage). (let c = take_data h.1 (u8 v) t in record c { mask = u8 c.mask })) e
          ∙ ap (λ (m : ℕ). record h.1 { mask = m }) (twice v));
  apart_command = λ h pic other v is.
      apart_both (λ p q. chip_of (outb io h p v) q ≡ chip_of h q) pic other is
        (λ q ne. let t : (q == pic1) ≡ false = ground arith in rw t refl)
        (λ q ne. let t : (q == pic2) ≡ false = ground arith in rw t refl);
  apart_data = λ h pic other v is.
      apart_both (λ p q. chip_of (outb io h (p + 1) v) q ≡ chip_of h q) pic other is
        (λ q ne. let t : (q == pic1) ≡ false = ground arith in rw t refl)
        (λ q ne. let t : (q == pic2) ≡ false = ground arith in rw t refl);
}

abbrev pub start : Pair
start = (
  record { mask = 0xB8; vector = 8; stage = ready },
  record { mask = 0x8E; vector = 0x70; stage = ready },
)
