-- ===== src/Kernel/Serial.antt =====
-- The serial port of kernel/dev/serial.c. `fuel` bounds how often the line status is read in a wait.
pub mod Sending
mod Tests
use foos.Prelude.{ℕ, zero, suc, ◌+◌, List, [], ◌∷◌, ◌++◌, if◌then◌else◌, ◌==◌, ltb, length, bit_and}
use foos.Machine.{Run, ok, fault, hang, out_of_fuel, ◌>>=◌, bufsiz}
use foos.Libc.Str.{Bytes}
use foos.Libc.Strtok.{text_at}
use foos.Libc.Printf.{Arg, vsprintf}
use foos.Kernel.Ports.{Ports, inb, outb}

abbrev pub serial_port : ℕ
serial_port = 0x3F8

-- `SERIAL_LINESTAT`
abbrev pub linestat : ℕ
linestat = serial_port + 5

-- The hardware, and the static variable.
pub record Serial (H : Type 0) : Type 0 where
  pub hardware : H
  pub serial_enabled : ℕ

module _ {H : Type 0} (io : Ports H) where
  -- `while((inb(SERIAL_LINESTAT) & flag)==0);`
  unfoldable pub await : ℕ → ℕ → H → Run H
  await zero flag h = out_of_fuel
  await (suc fuel) flag h =
      let (h', status) = inb io h linestat in
      let rest = await fuel flag h' in if bit_and status flag == 0 then rest else ok h'

  -- The last two statements of `serial_send`.
  unfoldable pub transmit : ℕ → H → ℕ → Run H
  transmit fuel h c = do h ← await fuel 0x20 h; ok (outb io h serial_port c)

  -- The call of itself is with `\r`, for which it makes none.
  unfoldable pub serial_send : ℕ → Serial H → ℕ → Run (Serial H)
  serial_send fuel s c = if s.serial_enabled == 0 then ok s else do
    h ← if c == b'\n' then transmit fuel s.hardware b'\r' else ok s.hardware
    h ← transmit fuel h c
    ok (record s { hardware = h })

  unfoldable pub serial_read : ℕ → Serial H → Run (Serial H × ℕ)
  serial_read fuel s = if s.serial_enabled == 0 then ok (s, 0) else do
    h ← await fuel 0x1 s.hardware
    let (h, c) = inb io h serial_port
    s ← serial_send fuel (record s { hardware = h }) c
    ok (s, c)

  unfoldable pub send_all : ℕ → Serial H → Bytes → Run (Serial H)
  send_all fuel s [] = ok s
  send_all fuel s (c ∷ buf) = do s ← serial_send fuel s c; send_all fuel s buf

  unfoldable pub serial_write : ℕ → Serial H → Bytes → Run (Serial H × ℕ)
  serial_write fuel s buf = do s ← send_all fuel s buf; ok (s, length buf)

  -- On a text. The empty one is sent nothing of; the `do` loop sends the others up to their terminator.
  unfoldable pub serial_print : ℕ → Serial H → Bytes → Run (Serial H × ℕ)
  serial_print fuel s [] = ok (s, 0)
  serial_print fuel s (c ∷ rest) = do s ← send_all fuel s (c ∷ rest); ok (s, length (c ∷ rest))

  unfoldable pub serial_printf : ℕ → Serial H → Bytes → List Arg → Run (Serial H × ℕ)
  serial_printf fuel s fmt args = do
    buf ← vsprintf fmt args
    if ltb (length buf) bufsiz then serial_print fuel s (text_at buf) else fault

  abbrev pub enabled_text : Bytes
  enabled_text =
      b'[' ∷ b's' ∷ b'e' ∷ b'r' ∷ b'i' ∷ b'a' ∷ b'l' ∷ b']' ∷ b' ' ∷ b'e' ∷ b'n' ∷ b'a' ∷ b'b'
      ∷ b'l' ∷ b'e' ∷ b'd' ∷ b'!' ∷ b'\n' ∷ []

  unfoldable pub serial_init : ℕ → Serial H → Run (Serial H)
  serial_init fuel s = do
    let h = outb io s.hardware (serial_port + 1) 0
    let h = outb io h (serial_port + 3) 0x03
    let h = outb io h (serial_port + 2) 0xC7
    (s, _) ← serial_print fuel (record s { hardware = h; serial_enabled = 1 }) enabled_text
    ok s
