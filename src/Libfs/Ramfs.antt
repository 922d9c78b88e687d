-- ===== src/Libfs/Ramfs.antt =====
-- libfs/ramfs.c. What it writes to the serial port is left out.
pub mod Directory
pub mod Image
pub mod Contents
use foos.Prelude.{
  ℕ, zero, suc, ◌+◌, ◌*◌, ◌^◌, List, [], ◌∷◌, not, Option, none, some, if◌then◌else◌, ◌==◌, ltb,
  length,
}
use foos.Machine.{Run, ok, fault, hang, ◌>>=◌, u32, null}
use foos.Libc.Str.{Bytes, strcmp}
use foos.Libc.Strtok.{text_at}
use foos.Kernel.Device.{Drivers, Devices, dev_read, dev_seek, dev_ioctl}
use foos.Kernel.Ramdisk.{World, bytes_at}
use foos.Libc.Output.{puts}
use foos.Libfs.Inode.{
  Inode, Dirent, Fs, zeroed, fs_file, fs_dir, element, set_node, copy_name, new_nodes,
  at_ramfs_read, at_ramfs_readdir, at_ramfs_finddir,
}
use foos.Libfs.Devfs.{devfs_init}

-- `struct rd_header` and `struct rd_fileheader` at an address.
pub record Header : Type 0 where
  pub signature : ℕ
  pub nfiles : ℕ

pub record FileHeader : Type 0 where
  pub magic : ℕ
  pub name : Bytes
  pub offset : ℕ
  pub size : ℕ

abbrev pub u16_at : (ℕ → ℕ) → ℕ → ℕ
u16_at memory a = memory a + 256 * memory (u32 (a + 1))

abbrev pub u32_at : (ℕ → ℕ) → ℕ → ℕ
u32_at memory a = u16_at memory a + 2 ^ 16 * u16_at memory (u32 (a + 2))

unfoldable pub header_at : (ℕ → ℕ) → ℕ → Header
header_at memory a = record { signature = u16_at memory a; nfiles = u16_at memory (u32 (a + 2)) }

-- The name is read up to its terminator; where its 32 bytes hold none, it does not fit into an inode.
unfoldable pub file_at : (ℕ → ℕ) → ℕ → FileHeader
file_at memory a = record {
  magic = u32_at memory a;
  name = text_at (bytes_at memory (u32 (a + 4)) 32);
  offset = u32_at memory (u32 (a + 36));
  size = u32_at memory (u32 (a + 40));
}

-- `files[i]` behind the header at `a`
abbrev pub file_header : (ℕ → ℕ) → ℕ → ℕ → FileHeader
file_header memory a i = file_at memory (u32 (a + 4 + i * 44))

-- The functions that only read take the memory of the inodes alone.
unfoldable pub ramfs_readdir : (ℕ → Inode) → ℕ → ℕ → Run (Option Dirent)
ramfs_readdir nodes node index =
    let n = nodes node in
    if ltb index n.impl
    then (do
      name ← copy_name (nodes (element n.ptr index)).name
      ok (some (record { name = name; ino = index })))
    else ok none

-- The loop of `ramfs_finddir`: `left` more elements from the element `i` on.
unfoldable pub finddir_loop : (ℕ → Inode) → ℕ → Bytes → ℕ → ℕ → ℕ
finddir_loop nodes p name i zero = null
finddir_loop nodes p name i (suc left) =
    let rest = finddir_loop nodes p name (suc i) left in
    if strcmp (nodes (element p i)).name name == 0 then element p i else rest

unfoldable pub ramfs_finddir : (ℕ → Inode) → ℕ → Bytes → ℕ
ramfs_finddir nodes node name = let n = nodes node in finddir_loop nodes n.ptr name 0 n.impl

-- The inode of the file `i`.
abbrev pub file_node : FileHeader → ℕ → Inode
file_node f i = record zeroed {
  name = f.name;
  flags = fs_file;
  size = f.size;
  ino = i;
  impl = f.offset;
  read = some at_ramfs_read;
}

-- The loop of `ramfs_init` over the files, `left` more of them from the file `i` on: `a` is the
-- address of the header and `p` that of the inodes.
unfoldable pub files_loop : Fs → ℕ → ℕ → ℕ → ℕ → Run Fs
files_loop s a p i zero = ok s
files_loop s a p i (suc left) =
    let f = file_header s.devices.world.memory a i in
    if f.magic == 0xDEADF11E
    then (do
      name ← copy_name f.name
      files_loop (set_node s (element p i) (file_node (record f { name = name }) i)) a p (suc i)
          left)
    else hang

-- The last element, before `devfs_init` has filled it.
abbrev pub dev_dir : ℕ → Inode
dev_dir i = record zeroed {
  ino = i;
  finddir = some at_ramfs_finddir;
  readdir = some at_ramfs_readdir;
}

abbrev pub root_dir : Inode
root_dir = record zeroed {
  name = b'r' ∷ b'a' ∷ b'm' ∷ b'd' ∷ b'i' ∷ b's' ∷ b'k' ∷ [];
  flags = fs_dir;
  readdir = some at_ramfs_readdir;
  finddir = some at_ramfs_finddir;
}

abbrev pub bad_signature : Bytes
bad_signature =
    b'r' ∷ b'a' ∷ b'm' ∷ b'f' ∷ b's' ∷ b':' ∷ b' ' ∷ b'b' ∷ b'a' ∷ b'd' ∷ b' ' ∷ b's' ∷ b'i' ∷ b'g'
    ∷ b'n' ∷ b'a' ∷ b't' ∷ b'u' ∷ b'r' ∷ b'e' ∷ []

module _ (fuel : ℕ) (d : Drivers World) (names : List Bytes) where
  -- The part of `ramfs_init` behind the check of the signature.
  unfoldable pub ramfs_fill : Fs → ℕ → ℕ → Run (Fs × ℕ)
  ramfs_fill s a nfiles = do
    let s0 = record s { file_base = u32 (nfiles * 44 + 4); rd_nfiles = nfiles }
    (s1, root) ← new_nodes fuel s0 1
    (s2, p) ← new_nodes fuel (set_node s1 root root_dir) (nfiles + 1)
    s3 ← files_loop (set_node s2 root (record root_dir { ptr = p })) a p 0 nfiles
    let s4 = record s3 { rd_nfiles = nfiles + 1 }
    (s5, _) ←
        devfs_init fuel names (set_node s4 (element p nfiles) (dev_dir nfiles)) (element p nfiles)
    ok (set_node s5 root (record (s5.nodes root) { impl = nfiles + 1 }), root)

  unfoldable pub ramfs_init : Fs → Run (Fs × ℕ)
  ramfs_init s = do
    (v, a, ret) ← dev_ioctl d s.devices 1 0x11 0
    let h = header_at v.world.memory a
    let s1 = record s { devices = v }
    if not (ret == 0)
        then hang
        else if h.signature == 0xD158
        then ramfs_fill s1 a h.nfiles
        else do v' ← puts d v bad_signature; ok (record s1 { devices = v' }, null)

module _ (d : Drivers World) where
  -- The index into the buffer and the bytes that are put there, and the result.
  unfoldable pub ramfs_read : Fs → ℕ → ℕ → ℕ → Run (Fs × (ℕ × Bytes) × ℕ)
  ramfs_read s node sz offset = do
    let n = s.nodes node
    (v, _) ← dev_seek d s.devices 1 (u32 (s.file_base + n.impl)) 0
    (v', buf, _) ← dev_read d v 1 n.size
    ok (record s { devices = v' }, (offset, buf), sz)
