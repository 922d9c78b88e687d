-- ===== src/Kernel/Serial/Tests.antt =====
-- The theorem on kernel/dev/serial.c at a transmitter that is busy for two reads after each byte.
use foos.Prelude.{
  ℕ, zero, suc, ◌-◌, ◌<◌, ◌≡◌, ◌≢◌, refl, arith, true, ltb, if◌then◌else◌, [], ◌∷◌, ◌++◌, bit_and,
}
use foos.Machine.{ok}
use foos.Libc.Str.{Bytes}
use foos.Kernel.Ports.{Ports}
use foos.Kernel.Serial.{Serial, serial_write, serial_print}
use foos.Kernel.Serial.Sending.{IsUart, serial_write-serial_print}

-- What has gone out, and the reads that still find it busy; the latter is read modulo 3.
abbrev Uart : Type 0
Uart = Bytes × ℕ

abbrev busy : Uart → ℕ
busy h = if ltb h.1 3 then h.1 else 2

abbrev status : ℕ → ℕ
status zero = 0x20
status (suc n) = 0

abbrev io : Ports Uart
io = record {
  read_byte = λ h port. ((h.0, busy h - 1), status (busy h));
  write_byte = λ h port v. (h.0 ++ (v ∷ []), 2);
  read_word = λ h port. (h, 0);
  write_word = λ h port v. h;
  read_long = λ h port. (h, 0);
  write_long = λ h port v. h;
}

status-busy : (n : ℕ) → n ≢ 0 → bit_and (status n) 0x20 ≡ 0
status-busy zero ne = absurd (ne refl)
status-busy (suc n) ne = refl

busy-small : (h : Uart) → busy h < 3
busy-small h = ground arith

busy-pred : (n : ℕ) → n < 3 → (if ltb (n - 1) 3 then n - 1 else 2) ≡ n - 1
busy-pred n lt = let t : ltb (n - 1) 3 ≡ true = ground arith in rw t refl

io-IsUart : IsUart io (λ h. h.0) busy 3
io-IsUart = record {
  bound = busy-small;
  idle = λ h e z. absurd (let s : bit_and (status (busy h)) 0x20 ≡ 0x20 = rw e refl in omega arith);
  waits = λ h ne. status-busy (busy h) ne;
  passes = λ h. busy-pred (busy h) (busy-small h);
  keeps = λ h. refl;
  sends = λ h c e. refl;
}

abbrev on : Serial Uart
on = record { hardware = ([], 1); serial_enabled = 1 }

abbrev hi : Bytes
hi = b'h' ∷ b'i' ∷ b'\n' ∷ []

serial_write-serial_print_example :
    (on.serial_enabled ≢ 0
      → (out : Serial Uart) × (serial_write io 3 on hi ≡ ok (out, 3))
        × (serial_print io 3 on hi ≡ ok (out, 3))
        × (out.hardware.0 ≡ b'h' ∷ b'i' ∷ b'\r' ∷ b'\n' ∷ []))
    × (on.serial_enabled ≡ 0
        → (serial_write io 3 on hi ≡ ok (on, 3)) × (serial_print io 3 on hi ≡ ok (on, 3)))
serial_write-serial_print_example =
    serial_write-serial_print io (λ h. h.0) busy 3 io-IsUart 3 on hi (omega arith)
