-- ===== src/Libfs/Inode.antt =====
-- include/foos/fs.h. A `struct inode` stands at its address, and an array of them is its first
-- address. A name that does not fit into its 32 bytes would overwrite what follows: that is a fault.
use foos.Prelude.{ℕ, zero, suc, ◌+◌, ◌*◌, [], Option, none, if◌then◌else◌, ◌==◌, ltb, length}
use foos.Machine.{Run, ok, fault, ◌>>=◌, u32, null}
use foos.Libc.Str.{Bytes}
use foos.Kernel.Kmalloc.{Kmem, kmalloc}
use foos.Kernel.Device.{Devices}
use foos.Kernel.Ramdisk.{World, set_errno}

-- What the sources assign to the function pointers `read`, `write`, `readdir` and `finddir`.
pub data ReadPointer : Type 0 where
  at_ramfs_read at_devfs_read : ReadPointer

pub data WritePointer : Type 0 where
  at_devfs_write : WritePointer

pub data ReaddirPointer : Type 0 where
  at_ramfs_readdir : ReaddirPointer

pub data FinddirPointer : Type 0 where
  at_ramfs_finddir : FinddirPointer

-- No source assigns `open` or `close`: those are the addresses of any code.
pub record Inode : Type 0 where
  pub name : Bytes
  pub flags : ℕ
  pub size : ℕ
  pub ino : ℕ
  pub impl : ℕ
  pub do_open : Option ℕ
  pub close : Option ℕ
  pub write : Option WritePointer
  pub read : Option ReadPointer
  pub readdir : Option ReaddirPointer
  pub finddir : Option FinddirPointer
  pub ptr : ℕ

-- All bytes zero.
abbrev pub zeroed : Inode
zeroed = record {
  name = [];
  flags = 0;
  size = 0;
  ino = 0;
  impl = 0;
  do_open = none;
  close = none;
  write = none;
  read = none;
  readdir = none;
  finddir = none;
  ptr = null;
}

pub record Dirent : Type 0 where
  pub name : Bytes
  pub ino : ℕ

abbrev pub fs_file : ℕ
fs_file = 1

abbrev pub fs_dir : ℕ
fs_dir = 2

abbrev pub fs_char : ℕ
fs_char = 3

abbrev pub fs_blk : ℕ
fs_blk = 4

-- `sizeof(struct inode)`
abbrev pub inodesiz : ℕ
inodesiz = 76

-- What the file systems act on: the devices with the heap and memory, the inodes, and the static
-- variables of libfs/ramfs.c.
pub record Fs : Type 0 where
  pub devices : Devices World
  pub nodes : ℕ → Inode
  pub file_base : ℕ
  pub rd_nfiles : ℕ

-- The element `i` of an array of inodes.
abbrev pub element : ℕ → ℕ → ℕ
element p i = p + i * inodesiz

abbrev pub set_node : Fs → ℕ → Inode → Fs
set_node s p x = record s { nodes = λ q. if q == p then x else s.nodes q }

abbrev pub set_world : Fs → World → Fs
set_world s w = record s { devices = record s.devices { world = w } }

abbrev pub set_kmem : Fs → Kmem → Fs
set_kmem s k = set_world s (record s.devices.world { kmem = k })

abbrev pub with_errno : Fs → ℕ → Fs
with_errno s e = set_world s (set_errno s.devices.world e)

-- `strcpy` to a name.
abbrev pub copy_name : Bytes → Run Bytes
copy_name name = if ltb (length name) 32 then ok name else fault

-- `memset(p,0,n * sizeof(struct inode))`
unfoldable pub clear_nodes : Fs → ℕ → ℕ → Fs
clear_nodes s p zero = s
clear_nodes s p (suc n) = set_node (clear_nodes s p n) (element p n) zeroed

-- `kmalloc` of an array of `n` inodes, which the caller clears at once.
unfoldable pub new_nodes : ℕ → Fs → ℕ → Run (Fs × ℕ)
new_nodes fuel s n = do
  (k, p) ← kmalloc fuel s.devices.world.kmem (u32 (n * inodesiz))
  if p == null then fault else ok (clear_nodes (set_kmem s k) p n, p)
