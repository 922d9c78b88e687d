-- ===== src/Kernel/Device/Reading.antt =====
-- The offset of a device in kernel/dev/device.c: seeking, and reading on from where the last read
-- stopped.
use foos.Prelude.{
  ℕ, ◌+◌, ◌<◌, ◌≡◌, ◌≢◌, refl, ap, arith, false, ◌==◌, length, get_or, set, get_or-set_self,
  get_or-set_ne,
}
use foos.Machine.{Run, ok, u32, einval}
use foos.Kernel.Device.{Driver, Drivers, Devices, driver, failed, set_offset, dev_seek}

module _ {S : Type 0} (d : Drivers S) (s : Devices S) (dev : ℕ) (ptr : Driver S)
    (there : driver d.table dev ≡ ok ptr) (known : dev < length s.offsets) where
  -- What `dev_seek` does: the offset of the device becomes `to`, which is returned.
  abbrev pub Seeks : ℕ → Run (Devices S × ℕ) → Type 0
  Seeks to r =
      (s' : Devices S) × (r ≡ ok (s', to))
      × (s'.world ≡ s.world)
      × (get_or s'.offsets dev 0 ≡ to)
      × ((other : ℕ) → dev ≢ other → get_or s'.offsets other 0 ≡ get_or s.offsets other 0)

  Seeks-set : (to : ℕ) → Seeks to (ok (set_offset d s dev to, get_or (set s.offsets dev to) dev 0))
  Seeks-set to = (
    set_offset d s dev to,
    ap (λ (n : ℕ). ok (set_offset d s dev to, n)) (get_or-set_self s.offsets dev to 0 known),
    refl,
    get_or-set_self s.offsets dev to 0 known,
    λ other ne. get_or-set_ne s.offsets dev other to 0 ne,
  )

  -- `dev_seek` on a device of the table: with SEEK_SET the offset is the one given, with SEEK_CUR it
  -- moves on by the one given, on 32 bits, and any other `whence` is refused with EINVAL and changes
  -- no offset. The other devices keep their offsets.
  pub dev_seek_lem :
      (off : ℕ)
      → Seeks off (dev_seek d s dev off 0)
        × Seeks (u32 (get_or s.offsets dev 0 + off)) (dev_seek d s dev off 1)
        × ((whence : ℕ) → 1 < whence → dev_seek d s dev off whence ≡ ok (failed d s einval))
  unfolding dev_seek
  dev_seek_lem off = (
    rw there (Seeks-set off),
    rw there (Seeks-set (u32 (get_or s.offsets dev 0 + off))),
    λ whence other.
        let t : (whence == 0) ≡ false = ground arith in
        let t' : (whence == 1) ≡ false = ground arith in rw (there, t, t') refl,
  )
