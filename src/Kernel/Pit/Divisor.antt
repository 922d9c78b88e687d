-- ===== src/Kernel/Pit/Divisor.antt =====
-- `pit_init` of kernel/dev/pit.c programs the 8254 timer, which is described as its data sheet does.
use foos.Prelude.{
  ℕ, ◌+◌, ◌*◌, ◌/◌, ◌%◌, ◌^◌, ◌≤◌, ◌≡◌, ◌≢◌, refl, ◌∙◌, arith, false, ◌==◌, List, Option, none,
  some, length, get_or, set, get_or-set_self, bit_and,
}
use native.Mathlib.Nat.{mod-eq_of_lt, div-lt_iff_lt-mul}
use foos.Prelude.Bits.{bit_and-ones}
use foos.Machine.{ok, u8}
use foos.Kernel.Ports.{Ports, outb}
use foos.Kernel.Interrupt.{Idt, Handler, hooked, int_hook_handler}
use foos.Kernel.Pit.{pit_init}

-- What the data port of channel 0 takes next.
pub data Expects : Type 0 where
  count_low : Expects
  count_high : ℕ → Expects

pub record Is8254 {H : Type 0} (io : Ports H) (expects : H → Expects) (reload : H → ℕ)
    : Type 0 where
  pub command : (h : H) → expects (outb io h 0x43 0x36) ≡ count_low
  pub low : (h : H) (v : ℕ) → expects h ≡ count_low → expects (outb io h 0x40 v) ≡ count_high (u8 v)
  pub high :
      (h : H) (l v : ℕ) → expects h ≡ count_high l → reload (outb io h 0x40 v) ≡ l + 256 * u8 v

module _ {H F : Type 0} (io : Ports H) (expects : H → Expects) (reload : H → ℕ)
    (law : Is8254 io expects reload) where
  -- `pit_init` divides the clock of the timer by the frequency and gives the timer the low 16 bits of
  -- the quotient, which are the whole quotient from 19 Hz on. It hooks `pit_irq` to interrupt 0x20.
  pub pit_init_lem :
      (irq : F) (s : Idt H (Handler F)) (handlers : List (Option (Handler F))) (freq : ℕ)
      → s.handlers ≡ some handlers
      → length handlers ≡ 256
      → freq ≢ 0
      → (out : Idt H (Handler F)) × (hs : List (Option (Handler F))) × (pit_init io irq s freq
          ≡ ok (out, 0))
        × (out.handlers ≡ some hs)
        × (get_or hs 0x20 none ≡ some (hooked irq))
        × (reload out.hardware ≡ 1193180 / freq % 2 ^ 16)
        × (19 ≤ freq → reload out.hardware ≡ 1193180 / freq)
  unfolding pit_init int_hook_handler
  pit_init_lem irq s handlers freq filled size pos =
      let q = 1193180 / freq in
      let low = bit_and q 0xFF in
      let high = bit_and (q / 2 ^ 8) 0xFF in
      let h1 = outb io s.hardware 0x43 0x36 in
      let h2 = outb io h1 0x40 low in
      let h3 = outb io h2 0x40 high in
      let t : (freq == 0) ≡ false = ground arith in
      let value = law.high h2 (u8 low) high (law.low h1 low (law.command s.hardware)) in
      let split : u8 low + 256 * u8 high ≡ q % 2 ^ 16 =
        omega (arith, bit_and-ones 8 q, bit_and-ones 8 (q / 2 ^ 8)) in
      let hs = set handlers 0x20 (some (hooked irq)) in
      (
        record s { hardware = h3; handlers = some hs },
        hs,
        rw (t, filled) refl,
        refl,
        get_or-set_self handlers 0x20 (some (hooked irq)) none (omega arith),
        value ∙ split,
        λ fast.
            value
            ∙ split
            ∙ mod-eq_of_lt ((div-lt_iff_lt-mul {k = freq} (omega arith)).1 (omega arith)),
      )
