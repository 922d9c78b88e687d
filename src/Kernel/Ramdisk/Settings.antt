-- ===== src/Kernel/Ramdisk/Settings.antt =====
-- Opening, closing and setting up the ram disk of kernel/dev/ramdisk.c.
use foos.Prelude.{ℕ, ◌≡◌, ◌≢◌, refl, true, false, arith, ◌==◌}
use foos.Machine.{ok, ◌>>=◌, null}
use foos.Kernel.Ramdisk.{World, put_disk, ramdisk_ioctl}

-- On an open ram disk, RD_SETADDR and RD_SETSIZE are what RD_GETADDR and RD_GETSIZE then report, in
-- either order of the settings.
pub ramdisk_settings :
    (w : World) (a b : ℕ)
    → w.dev_data ≢ null
    → (w1 : World) × (w2 : World) × (ramdisk_ioctl w 0x01 a ≡ ok (w1, a, 0))
      × (ramdisk_ioctl w1 0x02 b ≡ ok (w2, b, 0))
      × (ramdisk_ioctl w2 0x11 0 ≡ ok (w2, a, 0))
      × (ramdisk_ioctl w2 0x12 0 ≡ ok (w2, b, 0))
unfolding ramdisk_ioctl
ramdisk_settings w a b nz =
    let t : (w.dev_data == 0) ≡ false = ground arith in
    let self : (w.dev_data == w.dev_data) ≡ true = ground arith in
    let w1 = put_disk w w.dev_data (record (w.disks w.dev_data) { addr = a }) in
    let w2 = put_disk w1 w.dev_data (record (w1.disks w.dev_data) { size = b }) in
    (w1, w2, rw t refl, rw t refl, rw (t, self) refl, rw (t, self) refl)
