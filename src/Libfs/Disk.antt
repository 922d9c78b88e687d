-- ===== src/Libfs/Disk.antt =====
-- A small ram disk and the file system on it, for the runs of libfs/ and of kernel/shell.c.
use foos.Prelude.{
  ℕ, zero, suc, ◌-◌, ◌<◌, ◌≡◌, refl, arith, List, [], ◌∷◌, ◌++◌, get_or, replicate, if◌then◌else◌,
  ◌==◌,
}
use foos.Machine.{ok}
use foos.Libc.Str.{Bytes}
use foos.Kernel.Kmalloc.{Heap, blank, heap_base, put}
use foos.Kernel.Kmalloc.Cells.{cell}
use foos.Kernel.Kmalloc.Chain.{header}
use foos.Kernel.Device.{Drivers}
use foos.Kernel.Ramdisk.{World, set_errno, ramdisk, bytes_at}
use foos.Libfs.Inode.{Fs, zeroed, element}
use foos.Libfs.Devfs.{device_node}
use foos.Libfs.Wrap.{Code}
use foos.Libfs.Ramfs.Directory.{HasNames}
use foos.Libfs.Ramfs.Image.Listing.{device_dir}
use foos.Libfs.Ramfs.{file_node, dev_dir, root_dir, file_at, file_header}
use foos.Libfs.Ramfs.Image.{Mounted}

-- One file, `hi`, that contains `hello`.
abbrev pub disk_bytes : Bytes
disk_bytes =
    (0x58 ∷ 0xD1 ∷ 1 ∷ 0 ∷ [])
    ++ (0x1E ∷ 0xF1 ∷ 0xAD ∷ 0xDE ∷ [])
    ++ (b'h' ∷ b'i' ∷ replicate 30 0)
    ++ (0 ∷ 0 ∷ 0 ∷ 0 ∷ [])
    ++ (5 ∷ 0 ∷ 0 ∷ 0 ∷ [])
    ++ (b'h' ∷ b'e' ∷ b'l' ∷ b'l' ∷ b'o' ∷ [])

abbrev pub disk : ℕ
disk = 0x10_0000

abbrev pub heap : Heap
heap = put (λ _. blank) heap_base (header (cell 1 24) 0 0)

abbrev pub world : World
world = record {
  kmem = record { heap = heap; errno = 0 };
  dev_data = 0x40_0010;
  disks = λ p. record { addr = disk; size = 53 };
  memory = λ a. get_or disk_bytes (a - disk) 0;
}

abbrev pub drivers : Drivers World
drivers = record { set_errno = set_errno; table = ramdisk 9 ∷ ramdisk 9 ∷ [] }

abbrev pub start : Fs
start = record {
  devices = record { world = world; offsets = 0 ∷ 0 ∷ [] };
  nodes = λ a. zeroed;
  file_base = 0;
  rd_nfiles = 0;
}

abbrev pub device_names : List Bytes
device_names = (b't' ∷ b't' ∷ b'y' ∷ []) ∷ (b'r' ∷ b'd' ∷ []) ∷ []

pub file_header-disk :
    file_header world.memory disk 0
    ≡ record { magic = 0xDEADF11E; name = b'h' ∷ b'i' ∷ []; offset = 0; size = 5 }
unfolding file_at bytes_at
file_header-disk = refl

-- The directory that `ramfs_init` makes, at chosen addresses.
abbrev pub mounted : Fs
mounted = record start {
  nodes = λ a.
      if a == 0x50_0000
      then record root_dir { impl = 2; ptr = 0x50_1000 }
      else if a == 0x50_1000
      then file_node (record { magic = 0xDEADF11E; name = b'h' ∷ b'i' ∷ []; offset = 0; size = 5 })
          0
      else if a == 0x50_104C
      then device_dir (dev_dir 1) 2 0x50_2000
      else if a == 0x50_2000
      then device_node (b't' ∷ b't' ∷ b'y' ∷ []) 0
      else if a == 0x50_204C
      then device_node (b'r' ∷ b'd' ∷ []) 1
      else zeroed;
  file_base = 48;
  rd_nfiles = 2;
}

mounted-files :
    (j : ℕ)
    → j < 1
    → mounted.nodes (element 0x50_1000 j) ≡ file_node (file_header world.memory disk j) j
mounted-files zero lt = rw file_header-disk refl
mounted-files (suc j) lt = absurd (omega arith)

mounted-devices :
    (j : ℕ) → j < 2 → mounted.nodes (element 0x50_2000 j) ≡ device_node (get_or device_names j []) j
mounted-devices zero lt = refl
mounted-devices (suc zero) lt = refl
mounted-devices (suc (suc j)) lt = absurd (omega arith)

pub mounted-Mounted : Mounted mounted world.memory disk 1 device_names 0x50_0000 0x50_1000 0x50_2000
mounted-Mounted = record {
  directory = refl;
  files = mounted-files;
  dev = refl;
  devices = mounted-devices;
  base = refl;
  count = refl;
}

pub mounted-HasNames : HasNames mounted.nodes 0x50_0000
mounted-HasNames zero lt = omega arith
mounted-HasNames (suc zero) lt = omega arith
mounted-HasNames (suc (suc i)) lt = absurd (omega arith)

abbrev pub no_code : Code
no_code = record { open_at = λ f s node flags. ok (s, 0); close_at = λ f s node. ok (s, 0) }
