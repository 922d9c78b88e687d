-- ===== src/Kernel/Device/Missing.antt =====
-- What kernel/dev/device.c does for a device that lacks a function.
use foos.Prelude.{ℕ, ◌≡◌, refl, none, []}
use foos.Machine.{ok, enosys, neg32}
use foos.Libc.Str.{Bytes}
use foos.Kernel.Device.{
  Driver, Drivers, Devices, driver, failed, set_offset, dev_write, dev_read, dev_open, dev_close,
  dev_ioctl,
}

module _ {S : Type 0} (d : Drivers S) (s : Devices S) (dev : ℕ) (ptr : Driver S)
    (there : driver d.table dev ≡ ok ptr) where
  -- On a device of the table, a call whose function is null sets `errno` to ENOSYS and returns
  -- -ENOSYS; `dev_open` and `dev_close` have reset the offset of the device by then, and no other call
  -- changes an offset.
  pub dev_missing :
      (ptr.write ≡ none → (buf : Bytes) → dev_write d s dev buf ≡ ok (failed d s enosys))
      × (ptr.read ≡ none
          → (len : ℕ) → dev_read d s dev len ≡ ok ((failed d s enosys).0, [], neg32 enosys))
      × (ptr.do_open ≡ none
          → (flags : ℕ) → dev_open d s dev flags ≡ ok (failed d (set_offset d s dev 0) enosys))
      × (ptr.close ≡ none → dev_close d s dev ≡ ok (failed d (set_offset d s dev 0) enosys))
      × (ptr.ioctl ≡ none
          → (request arg : ℕ)
          → dev_ioctl d s dev request arg ≡ ok ((failed d s enosys).0, arg, neg32 enosys))
  unfolding dev_write dev_read dev_open dev_close dev_ioctl
  dev_missing = (
    λ e buf. rw (there, e) refl,
    λ e len. rw (there, e) refl,
    λ e flags. rw (there, e) refl,
    λ e. rw (there, e) refl,
    λ e request arg. rw (there, e) refl,
  )
