-- ===== src/Kernel/Ramdisk.antt =====
-- The ram disk driver of kernel/dev/ramdisk.c.
pub mod Settings
pub mod Reading
mod Tests
use foos.Prelude.{
  ℕ, zero, suc, ◌+◌, List, [], ◌∷◌, Bool, true, false, Option, none, some, if◌then◌else◌, ◌==◌,
}
use foos.Machine.{Run, ok, fault, ◌>>=◌, u32, neg32, null, ebusy, einval}
use foos.Libc.Str.{Bytes}
use foos.Kernel.Kmalloc.{Kmem, kmalloc, kfree}
use foos.Kernel.Device.{Driver}

-- `struct ramdisk`
pub record Disk : Type 0 where
  pub addr : ℕ
  pub size : ℕ

-- What the driver acts on: the heap with `errno`, `dev->data`, the `struct ramdisk` at each address, and
-- the bytes of memory.
pub record World : Type 0 where
  pub kmem : Kmem
  pub dev_data : ℕ
  pub disks : ℕ → Disk
  pub memory : ℕ → ℕ

abbrev pub set_errno : World → ℕ → World
set_errno w e = record w { kmem = record w.kmem { errno = e } }

abbrev pub put_disk : World → ℕ → Disk → World
put_disk w p x = record w { disks = λ q. if q == p then x else w.disks q }

-- `fuel` bounds the length of the list of blocks.
unfoldable pub ramdisk_open : ℕ → World → ℕ → Run (World × ℕ)
ramdisk_open fuel w flags =
    if w.dev_data == null
    then (do (k, p) ← kmalloc fuel w.kmem 8; ok (record w { kmem = k; dev_data = p }, 0))
    else ok (set_errno w ebusy, neg32 ebusy)

unfoldable pub ramdisk_close : World → Run (World × ℕ)
ramdisk_close w =
    if w.dev_data == null
    then ok (w, 0)
    else (do k ← kfree w.kmem w.dev_data; ok (record w { kmem = k }, 0))

-- The requests are RD_SETADDR, RD_GETADDR, RD_SETSIZE and RD_GETSIZE of include/dev/ramdisk.h.
unfoldable pub ramdisk_ioctl : World → ℕ → ℕ → Run (World × ℕ × ℕ)
ramdisk_ioctl w request arg =
    let rd = w.disks w.dev_data in
    if w.dev_data == null
    then ok (w, arg, einval)
    else if request == 0x01
    then ok (put_disk w w.dev_data (record rd { addr = arg }), arg, 0)
    else if request == 0x11
    then ok (w, rd.addr, 0)
    else if request == 0x02
    then ok (put_disk w w.dev_data (record rd { size = arg }), arg, 0)
    else if request == 0x12
    then ok (w, rd.size, 0)
    else ok (w, arg, einval)

-- `memcpy` from `src`: the bytes that it copies.
unfoldable pub bytes_at : (ℕ → ℕ) → ℕ → ℕ → Bytes
bytes_at memory src zero = []
bytes_at memory src (suc len) = memory src ∷ bytes_at memory (u32 (src + 1)) len

-- `rd->addr` is read before `rd` is compared with null.
unfoldable pub ramdisk_read : World → ℕ → ℕ → Run (World × Bytes × ℕ)
ramdisk_read w off len =
    let src = u32 ((w.disks w.dev_data).addr + off) in
    if w.dev_data == null then fault else ok (w, bytes_at w.memory src len, len)

-- The entry of the table `devs`.
abbrev pub ramdisk : ℕ → Driver World
ramdisk fuel = record {
  write = none;
  read = some ramdisk_read;
  do_open = some (ramdisk_open fuel);
  close = some ramdisk_close;
  ioctl = some ramdisk_ioctl;
}
