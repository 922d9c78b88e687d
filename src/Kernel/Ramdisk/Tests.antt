-- ===== src/Kernel/Ramdisk/Tests.antt =====
-- Runs of kernel/dev/ramdisk.c, and its theorems at a disk of ascending bytes.
use foos.Prelude.{◌≡◌, ◌%◌, refl, [], ◌∷◌}
use foos.Machine.{fault}
use foos.Kernel.Kmalloc.{put}
use foos.Kernel.Device.{Drivers, Devices}
use foos.Kernel.Ramdisk.{World, set_errno, ramdisk, ramdisk_read}

abbrev opened : World
opened = record {
  kmem = record { heap = λ a. record { used = 1; size = 8; prev = 0; next = 0 }; errno = 0 };
  dev_data = 0x400010;
  disks = λ p. record { addr = 0x10_0000; size = 1024 };
  memory = λ a. a % 256;
}

abbrev table : Drivers World
table = record { set_errno = set_errno; table = ramdisk 2 ∷ [] }

abbrev devices : Devices World
devices = record { world = opened; offsets = 5 ∷ [] }

not_opened : ramdisk_read (record opened { dev_data = 0 }) 0 4 ≡ fault
unfolding ramdisk_read
not_opened = refl

abbrev closed : World
closed = record opened {
  kmem = record opened.kmem {
    heap = put opened.kmem.heap 0x400000 (record { used = 0; size = 8; prev = 0; next = 0 });
  };
}
