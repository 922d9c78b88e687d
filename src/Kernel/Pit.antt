-- ===== src/Kernel/Pit.antt =====
-- The timer of kernel/dev/pit.c. The empty loop of `pit_delay` waits for interrupts: it is given the
-- number of timer interrupts that come in, and if it waits for another one, it hangs.
pub mod Delay
pub mod Divisor
mod Tests
use foos.Prelude.{
  ℕ, zero, suc, ◌+◌, ◌-◌, ◌/◌, ◌^◌, Bool, ◌&&◌, not, if◌then◌else◌, ◌==◌, ltb, bit_and,
}
use foos.Machine.{Run, ok, fault, hang, ◌>>=◌, neg32, ebusy}
use foos.Kernel.Ports.{Ports, outb}
use foos.Kernel.Interrupt.{Idt, Handler, hooked, int_hook_handler}

-- The static variables, and `errno`.
pub record Pit : Type 0 where
  pub busy : ℕ
  pub ticks : ℕ
  pub errno : ℕ

unfoldable pub pit_irq : Pit → Pit
pit_irq s =
    if not (s.busy == 0) && ltb 0 s.ticks
    then record s { ticks = s.ticks - 1 }
    else record s { busy = 0 }

-- `while(busy);`
unfoldable pub wait : Pit → ℕ → Run Pit
wait s zero = if s.busy == 0 then ok s else hang
wait s (suc irqs) = let rest = wait (pit_irq s) irqs in if s.busy == 0 then ok s else rest

unfoldable pub pit_delay : Pit → ℕ → ℕ → Run (Pit × ℕ)
pit_delay s ticks irqs =
    if s.busy == 0
    then (do s' ← wait (record s { busy = 1; ticks = ticks }) irqs; ok (s', 0))
    else ok (record s { errno = ebusy }, neg32 ebusy)

-- `irq` is the address of `pit_irq`. A frequency of 0 is a division by zero.
unfoldable pub pit_init :
    {H F : Type 0} → Ports H → F → Idt H (Handler F) → ℕ → Run (Idt H (Handler F) × ℕ)
pit_init io irq s freq =
    let divisor = 1193180 / freq in
    let low = bit_and divisor 0xFF in
    let high = bit_and (divisor / 2 ^ 8) 0xFF in
    if freq == 0 then fault else do
      s ← int_hook_handler s 0x20 (hooked irq)
      let h = outb io s.hardware 0x43 0x36
      let h = outb io h 0x40 low
      let h = outb io h 0x40 high
      ok (record s { hardware = h }, 0)
