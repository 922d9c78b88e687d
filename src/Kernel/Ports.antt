-- ===== src/Kernel/Ports.antt =====
-- The port instructions of include/asm/ioports.h, which are inline assembly: what they do to the
-- hardware `H` is a parameter. An output truncates its value to the width of the port.
use foos.Prelude.{ℕ}
use foos.Machine.{u8, u16, u32}

pub record Ports (H : Type 0) : Type 0 where
  pub read_byte : H → ℕ → H × ℕ
  pub write_byte : H → ℕ → ℕ → H
  pub read_word : H → ℕ → H × ℕ
  pub write_word : H → ℕ → ℕ → H
  pub read_long : H → ℕ → H × ℕ
  pub write_long : H → ℕ → ℕ → H

module _ {H : Type 0} (io : Ports H) where
  abbrev pub inb : H → ℕ → H × ℕ
  inb h port = io.read_byte h (u16 port)

  abbrev pub outb : H → ℕ → ℕ → H
  outb h port val = io.write_byte h (u16 port) (u8 val)

  abbrev pub inw : H → ℕ → H × ℕ
  inw h port = io.read_word h (u16 port)

  abbrev pub outw : H → ℕ → ℕ → H
  outw h port val = io.write_word h (u16 port) (u16 val)

  abbrev pub inl : H → ℕ → H × ℕ
  inl h port = io.read_long h (u16 port)

  abbrev pub outl : H → ℕ → ℕ → H
  outl h port val = io.write_long h (u16 port) (u32 val)
