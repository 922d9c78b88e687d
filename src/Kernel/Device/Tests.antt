-- ===== src/Kernel/Device/Tests.antt =====
-- Runs of kernel/dev/device.c, and its theorems at a table of one device that can only be read.
use foos.Prelude.{ℕ, ◌≡◌, refl, [], ◌∷◌, none, some}
use foos.Machine.{ok}
use foos.Kernel.Device.{Driver, Drivers, Devices, dev_read}

-- A device that reads as zeros; the world is `errno`.
abbrev zeros : Driver ℕ
zeros = record {
  write = none;
  read = some (λ w off len. ok (w, 0 ∷ [], 1));
  do_open = none;
  close = none;
  ioctl = none;
}

abbrev table : Drivers ℕ
table = record { set_errno = λ w e. e; table = zeros ∷ [] }

abbrev devices : Devices ℕ
devices = record { world = 0; offsets = 9 ∷ [] }

read_moves_on : dev_read table devices 0 1 ≡ ok (record devices { offsets = 10 ∷ [] }, 0 ∷ [], 1)
unfolding dev_read
read_moves_on = refl
