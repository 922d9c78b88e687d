-- ===== src/Libfs/Tests.antt =====
-- Runs of libfs/ on a small ram disk, and its theorems at it.
use foos.Prelude.{ℕ, zero, suc, ◌+◌, ◌≡◌, refl, ap, arith, List, [], ◌∷◌}
use foos.Machine.{ok, u32}
use foos.Libc.Str.{Bytes, one_of, strcmp}
use foos.Kernel.Kmalloc.{
  Kmem, blank, heap_base, put, lookup, round_size, split, carve, merge, merges, kmalloca, kmalloc,
  kfree,
}
use foos.Kernel.Kmalloc.Cells.{Cell, cell}
use foos.Kernel.Kmalloc.Chain.{header}
use foos.Kernel.Kmalloc.Alloc.{IsHeap}
use foos.Kernel.Device.{Devices}
use foos.Kernel.Ramdisk.{World, bytes_at}
use foos.Libfs.Inode.{Fs, set_kmem}
use foos.Libfs.Wrap.Lookup.{walk, names_of, fs_lookup-walk}
use foos.Libc.Strtok.Fields.{fields, fields_from}
use foos.Libfs.Wrap.{file_separator, fs_finddir, fs_read, fs_lookup}
use foos.Libfs.Disk.{
  disk, heap, world, drivers, start, device_names, file_header-disk, mounted, mounted-Mounted,
  mounted-HasNames,
}
use foos.Libfs.Ramfs.Contents.{fs_read-device, fs_finddir-fs_read}
use foos.Libfs.Ramfs.{FileHeader, ramfs_finddir, finddir_loop, header_at, ramfs_init, file_header}
use foos.Libfs.Ramfs.Image.{Mounts, ramfs_init-Mounts}
use foos.Libfs.Ramfs.Image.Arrays.{IsImage, Fit}

heap-IsHeap : IsHeap heap (cell 1 24 ∷ [])
unfolding put
heap-IsHeap = record {
  rooted = refl;
  chain = (ground arith, tt);
  positive = (omega arith, tt);
  fresh = λ a far. ground arith;
}

header_at-disk : header_at world.memory disk ≡ record { signature = 0xD158; nfiles = 1 }
unfolding header_at
header_at-disk = refl

disk_bytes-IsImage : IsImage world.memory disk 1
disk_bytes-IsImage zero lt =
    (ap (λ (f : FileHeader). f.magic) file_header-disk, rw file_header-disk (omega arith))
disk_bytes-IsImage (suc j) lt = absurd (omega arith)

device_names-Fit : Fit device_names
device_names-Fit zero lt = omega arith
device_names-Fit (suc zero) lt = omega arith
device_names-Fit (suc (suc j)) lt = absurd (omega arith)

ramfs_init-Mounts_example :
    (root : ℕ) × (p : ℕ) × (q : ℕ) × (k : Kmem) × (row : List Cell) × IsHeap k.heap row
    × Mounts start start.devices.world.memory disk 1 device_names root p q k
        (ramfs_init 9 drivers device_names start)
ramfs_init-Mounts_example =
    ramfs_init-Mounts 9 start disk 1 (omega arith) disk_bytes-IsImage 9 drivers device_names
      (cell 1 24 ∷ []) refl (λ e. absurd (omega arith)) refl header_at-disk (omega arith)
      (omega arith) device_names-Fit heap-IsHeap (omega arith) (omega arith)

fs_finddir-fs_read_example :
    let f = file_header world.memory disk 0 in
    (fs_finddir mounted 0x50_0000 f.name ≡ (mounted, 0x50_1000))
    × ((v : Devices World) × (fs_read drivers mounted 0x50_1000 5 3
          ≡ ok (
            record mounted { devices = v },
            (3, bytes_at world.memory (u32 (disk + u32 (48 + f.offset))) f.size),
            5,
          )))
fs_finddir-fs_read_example =
    fs_finddir-fs_read 9 drivers refl mounted disk 1 device_names 0x50_0000 0x50_1000 0x50_2000 0 5
      3 mounted-Mounted mounted-HasNames (λ j lt. absurd (omega arith)) (omega arith)
      (λ e. absurd (omega arith)) (omega arith) (rw file_header-disk (omega arith))
      (rw file_header-disk (omega arith))

fs_read-device_example :
    (v : Devices World) × (fs_read drivers mounted 0x50_204C 2 49
      ≡ ok (record mounted { devices = v }, (0, bytes_at world.memory (disk + 49) 2), 2))
fs_read-device_example =
    fs_read-device 9 drivers refl mounted 0x50_204C 2 49 refl refl refl (λ e. absurd (omega arith))
      (λ e. absurd (omega arith)) (omega arith) (omega arith) (omega arith)

-- A heap whose second block is free, and fits.
abbrev spare : Fs
spare = set_kmem mounted (record {
  heap =
      put (put (λ _. blank) heap_base (header (cell 1 24) 0 0x40_0028)) 0x40_0028
        (header (cell 0 16) heap_base 0);
  errno = 0;
})

abbrev tty_path : Bytes
tty_path = b'/' ∷ b'd' ∷ b'e' ∷ b'v' ∷ b'/' ∷ b't' ∷ b't' ∷ b'y' ∷ []

spare-kmalloc :
    (k : Kmem) × (kmalloc 9 spare.devices.world.kmem 9 ≡ ok (k, 0x40_0038))
    × ((k' : Kmem) × (kfree k 0x40_0038 ≡ ok k'))
unfolding kmalloc kmalloca kfree lookup round_size put merges merge split carve
spare-kmalloc = (_, refl, (_, refl))

tty_path-found :
    walk mounted.nodes 0x50_0000 (names_of tty_path (fields file_separator tty_path)) ≡ 0x50_2000
unfolding walk fields_from one_of ramfs_finddir finddir_loop strcmp
tty_path-found = refl

fs_lookup-walk_example :
    (out : Fs) × (node : ℕ) × (fs_lookup 9 spare 0x50_0000 tty_path ≡ ok (out, node))
    × (node ≡ walk mounted.nodes 0x50_0000 (names_of tty_path (fields file_separator tty_path)))
    × (out.nodes ≡ mounted.nodes)
    × (out.devices.world.kmem.heap ≡ spare-kmalloc.2.0.heap)
fs_lookup-walk_example =
    fs_lookup-walk 9 spare 0x50_0000 tty_path spare-kmalloc.0 spare-kmalloc.2.0 0x40_0038
      (omega arith) (omega arith) (λ e. absurd (omega arith)) spare-kmalloc.1
      (λ e. absurd (omega arith)) spare-kmalloc.2.1
