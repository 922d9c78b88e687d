-- ===== src/Kernel/Interrupt/Dispatch.antt =====
-- Which handler kernel/interrupt.c calls for an interrupt.
use foos.Prelude.{
  ◌<◌, ◌≤◌, ◌≡◌, refl, arith, true, false, List, [], ◌∷◌, Option, none, some, length, get_or, ltb,
}
use foos.Machine.{Run, ok, fault, ◌>>=◌, u8, sub32}
use foos.Libc.Printf.{word, printf}
use foos.Kernel.Device.{Drivers, Devices}
use foos.Kernel.Ports.{Ports}
use foos.Kernel.Pic.{pic_send_eoi}
use foos.Kernel.Interrupt.{
  Idt, Handler, Registers, int_handler, irq_handler, call_or_print, call_or_ignore, unhandled_text,
}

module _ {H F S : Type 0} (d : Drivers S) (run : F → Registers → Devices S → Run (Devices S))
    (io : Ports H) (s : Idt H (Handler F)) (handlers : List (Option (Handler F)))
    (filled : s.handlers ≡ some handlers) where
  -- What `int_handler` and `irq_handler` do with what stands in the table.
  handled :
      (regs : Registers) (h : Option (Handler F))
      → regs.int_no < length handlers
      → get_or handlers regs.int_no none ≡ h
      → (v : Devices S)
      → (int_handler d run s regs v ≡ call_or_print d run regs v h)
        × (irq_handler d run io s regs v ≡ (
            call_or_ignore d run regs v h >>= λ w.
            ok (
              record s { hardware = pic_send_eoi io s.hardware (u8 (sub32 regs.int_no 0x20)) },
              w,
            )))
  unfolding int_handler irq_handler
  handled regs h lt at v =
      let t : ltb regs.int_no (length handlers) ≡ true = ground arith in
      (rw (filled, t, at) refl, rw (filled, t, at) refl)

  -- Without a handler `int_handler` prints and returns, and `irq_handler` acknowledges the interrupt and
  -- returns. An interrupt number beyond the table is read outside of it.
  pub int_handler-none :
      (regs : Registers) (v : Devices S)
      → (regs.int_no < length handlers
          → get_or handlers regs.int_no none ≡ none
          → (int_handler d run s regs v
              ≡ (printf d v unhandled_text (word regs.int_no ∷ []) >>= λ r. ok r.0))
            × (irq_handler d run io s regs v
                ≡ ok (
                  record s { hardware = pic_send_eoi io s.hardware (u8 (sub32 regs.int_no 0x20)) },
                  v,
                )))
        × (length handlers ≤ regs.int_no → int_handler d run s regs v ≡ fault)
  unfolding int_handler
  int_handler-none regs v = (
    λ lt empty. handled regs none lt empty v,
    λ ge. (let t : ltb regs.int_no (length handlers) ≡ false = ground arith in rw (filled, t) refl),
  )
