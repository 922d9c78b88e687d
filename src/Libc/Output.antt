-- ===== src/Libc/Output.antt =====
-- libc/output.c, on the terminal as the device 0 of the table `d`.
use foos.Prelude.{ℕ, [], ◌∷◌}
use foos.Machine.{Run, ok, ◌>>=◌, u8}
use foos.Libc.Str.{Bytes}
use foos.Kernel.Device.{Drivers, Devices, dev_write}

module _ {S : Type 0} (d : Drivers S) where
  -- The result is that of `dev_write`.
  unfoldable pub _puts : Devices S → Bytes → Run (Devices S × ℕ)
  _puts s text = dev_write d s 0 text

  -- The byte at the address of an `int`, which is its lowest.
  unfoldable pub putchar : Devices S → ℕ → Run (Devices S × ℕ)
  putchar s c = do (s', _) ← dev_write d s 0 (u8 c ∷ []); ok (s', c)

  -- No statement returns a result.
  unfoldable pub puts : Devices S → Bytes → Run (Devices S)
  puts s text = do (s1, _) ← _puts s text; (s2, _) ← putchar s1 b'\n'; ok s2
