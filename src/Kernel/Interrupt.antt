-- ===== src/Kernel/Interrupt.antt =====
-- kernel/interrupt.c, less irq_disable and irq_enable. The stubs `int0` to `int31` and `irq0` to `irq15` of
-- kernel/asm.S are addresses; a handler is of any type `F`, with what a call of it does. The hardware is
-- that of the ports.
pub mod Gates
pub mod Dispatch
mod Tests
use foos.Prelude.{
  ℕ, zero, suc, ◌+◌, ◌-◌, ◌*◌, ◌/◌, ◌^◌, List, [], ◌∷◌, Option, none, some, if◌then◌else◌, ◌==◌,
  ltb, length, get_or, set, replicate, bit_and,
}
use foos.Machine.{Run, ok, fault, hang, ◌>>=◌, u8, sub32, null}
use foos.Libc.Str.{Bytes}
use foos.Libc.Output.{puts}
use foos.Libc.Printf.{Arg, word, printf}
use foos.Kernel.Kmalloc.{Kmem, kmalloc}
use foos.Kernel.Device.{Drivers, Devices}
use foos.Kernel.Ports.{Ports}
use foos.Kernel.Pic.{pic_remap, pic_send_eoi}

-- `struct idt_entry`
pub record Gate : Type 0 where
  pub base_lo : ℕ
  pub segment : ℕ
  pub reserved : ℕ
  pub flags : ℕ
  pub base_hi : ℕ

abbrev pub no_gate : Gate
no_gate = record { base_lo = 0; segment = 0; reserved = 0; flags = 0; base_hi = 0 }

abbrev pub codeseg : ℕ
codeseg = 0x08

-- `idt_hook`; `num` is a byte, and there are 256 entries.
unfoldable pub idt_hook : List Gate → ℕ → ℕ → ℕ → ℕ → List Gate
idt_hook entries num base segment flags = set entries num (record {
  base_lo = bit_and base 0xFFFF;
  segment = segment;
  reserved = 0;
  flags = flags;
  base_hi = bit_and (base / 2 ^ 16) 0xFFFF;
})

-- `n` statements in a row: the entries `from` to `from + n - 1` lead to the stubs 0 to `n - 1`.
unfoldable pub hooks : List Gate → (ℕ → ℕ) → ℕ → ℕ → List Gate
hooks entries stub from zero = entries
hooks entries stub from (suc n) =
    idt_hook (hooks entries stub from n) (from + n) (stub n) codeseg 0x8E

-- The static variables, with the arrays that `entries` and `handlers` point to, and what they use.
pub record Idt (H F : Type 0) : Type 0 where
  pub kmem : Kmem
  pub hardware : H
  pub entries : Option (List Gate)
  pub handlers : Option (List (Option F))
  pub limit : ℕ

-- An array of 256 elements from the heap, cleared, where there is none yet.
abbrev pub new_array {ℓ} : {A : Type ℓ} → ℕ → Kmem → ℕ → A → Option (List A) → Run (Kmem × List A)
new_array fuel k size blank (some old) = ok (k, old)
new_array fuel k size blank none = do
  (k', p) ← kmalloc fuel k (size * 256)
  if p == null then fault else ok (k', replicate 256 blank)

module _ {H F : Type 0} (io : Ports H) (int_stub irq_stub : ℕ → ℕ) where
  unfoldable pub irq_init : Idt H F → List Gate → Idt H F
  irq_init s entries = record s {
    hardware = pic_remap io s.hardware 0x20 0x28;
    entries = some (hooks entries irq_stub 32 16);
  }

  unfoldable pub idt_init : ℕ → Idt H F → Run (Idt H F)
  idt_init fuel s = do
    (k1, entries) ← new_array fuel s.kmem 8 no_gate s.entries
    (k2, handlers) ← new_array fuel k1 4 none s.handlers
    let s1 = record s { kmem = k2; handlers = some handlers; limit = 8 * 256 - 1 }
    ok (irq_init s1 (hooks entries int_stub 0 32))

-- The handlers: those of kernel/interrupt.c, and what other files hook in.
pub data Handler (F : Type 0) : Type 0 where
  zero_division general_protection : Handler F
  hooked : F → Handler F

-- What the handlers read of `struct registers`.
pub record Registers : Type 0 where
  pub ds : ℕ
  pub int_no : ℕ
  pub err_code : ℕ
  pub eip : ℕ
  pub esp : ℕ

-- `handlers[regs.int_no]`
abbrev pub handler_at :
    {F : Type 0} → ℕ → Option (List (Option (Handler F))) → Run (Option (Handler F))
handler_at int_no none = fault
handler_at int_no (some handlers) =
    if ltb int_no (length handlers) then ok (get_or handlers int_no none) else fault

module _ {H F : Type 0} where
  -- `handlers[no]=handler;`
  abbrev pub hook_in :
      Idt H (Handler F)
      → ℕ
      → Handler F
      → Option (List (Option (Handler F)))
      → Run (Idt H (Handler F))
  hook_in s num handler none = fault
  hook_in s num handler (some handlers) =
      ok (record s { handlers = some (set handlers num (some handler)) })

  unfoldable pub int_hook_handler : Idt H (Handler F) → ℕ → Handler F → Run (Idt H (Handler F))
  int_hook_handler s num handler = hook_in s num handler s.handlers

  unfoldable pub int_init :
      Ports H → (ℕ → ℕ) → (ℕ → ℕ) → ℕ → Idt H (Handler F) → Run (Idt H (Handler F))
  int_init io int_stub irq_stub fuel s = do
    s1 ← idt_init io int_stub irq_stub fuel s
    s2 ← int_hook_handler s1 0x00 zero_division
    int_hook_handler s2 0x0D general_protection

abbrev pub division_text : Bytes
division_text =
    b'Z' ∷ b'e' ∷ b'r' ∷ b'o' ∷ b' ' ∷ b'd' ∷ b'i' ∷ b'v' ∷ b'i' ∷ b's' ∷ b'i' ∷ b'o' ∷ b'n' ∷ []

abbrev pub fault_text : Bytes
fault_text =
    b'G' ∷ b'e' ∷ b'n' ∷ b'e' ∷ b'r' ∷ b'a' ∷ b'l' ∷ b' ' ∷ b'P' ∷ b'r' ∷ b'o' ∷ b't' ∷ b'e' ∷ b'c'
    ∷ b't' ∷ b'i' ∷ b'o' ∷ b'n' ∷ b' ' ∷ b'F' ∷ b'a' ∷ b'u' ∷ b'l' ∷ b't' ∷ b' ' ∷ b'o' ∷ b'n'
    ∷ b' ' ∷ b'S' ∷ b'e' ∷ b'g' ∷ b'm' ∷ b'e' ∷ b'n' ∷ b't' ∷ b':' ∷ b' ' ∷ b'%' ∷ b'd' ∷ b'\n' ∷ []

abbrev pub stack_text : Bytes
stack_text = b'S' ∷ b't' ∷ b'a' ∷ b'c' ∷ b'k' ∷ b':' ∷ b' ' ∷ b'0' ∷ b'x' ∷ b'%' ∷ b'x' ∷ b'\n' ∷ []

abbrev pub at_text : Bytes
at_text = b'A' ∷ b't' ∷ b':' ∷ b' ' ∷ b'0' ∷ b'x' ∷ b'%' ∷ b'x' ∷ b'\n' ∷ []

abbrev pub ds_text : Bytes
ds_text = b'D' ∷ b'S' ∷ b':' ∷ b' ' ∷ b'0' ∷ b'x' ∷ b'%' ∷ b'x' ∷ b'\n' ∷ []

abbrev pub unhandled_text : Bytes
unhandled_text =
    b'U' ∷ b'n' ∷ b'h' ∷ b'a' ∷ b'n' ∷ b'd' ∷ b'l' ∷ b'e' ∷ b'd' ∷ b' ' ∷ b'i' ∷ b'n' ∷ b't' ∷ b'e'
    ∷ b'r' ∷ b'r' ∷ b'u' ∷ b'p' ∷ b't' ∷ b' ' ∷ b'0' ∷ b'x' ∷ b'%' ∷ b'x' ∷ b'\n' ∷ []

-- `run` is what the other handlers do, and `d` the devices.
module _ {F S : Type 0} (d : Drivers S) (run : F → Registers → Devices S → Run (Devices S)) where
  -- Both handlers of kernel/interrupt.c print and then hang.
  unfoldable pub call : Handler F → Registers → Devices S → Run (Devices S)
  call zero_division regs v = do v ← puts d v division_text; hang
  call general_protection regs v = do
    (v, _) ← printf d v fault_text (word regs.err_code ∷ [])
    (v, _) ← printf d v stack_text (word regs.esp ∷ [])
    (v, _) ← printf d v at_text (word regs.eip ∷ [])
    (v, _) ← printf d v ds_text (word regs.ds ∷ [])
    hang
  call (hooked f) regs v = run f regs v

  abbrev pub call_or_print : Registers → Devices S → Option (Handler F) → Run (Devices S)
  call_or_print regs v none = do (v, _) ← printf d v unhandled_text (word regs.int_no ∷ []); ok v
  call_or_print regs v (some h) = call h regs v

  abbrev pub call_or_ignore : Registers → Devices S → Option (Handler F) → Run (Devices S)
  call_or_ignore regs v none = ok v
  call_or_ignore regs v (some h) = call h regs v

  module _ {H : Type 0} where
    unfoldable pub int_handler : Idt H (Handler F) → Registers → Devices S → Run (Devices S)
    int_handler s regs v = do h ← handler_at regs.int_no s.handlers; call_or_print regs v h

    -- The number that `pic_send_eoi` takes is a byte.
    unfoldable pub irq_handler :
        Ports H → Idt H (Handler F) → Registers → Devices S → Run (Idt H (Handler F) × Devices S)
    irq_handler io s regs v = do
      let s1 = record s { hardware = pic_send_eoi io s.hardware (u8 (sub32 regs.int_no 0x20)) }
      h ← handler_at regs.int_no s1.handlers
      v ← call_or_ignore regs v h
      ok (s1, v)
