-- ===== src/Libfs/Wrap.antt =====
-- libfs/wrap.c, on the file systems of libfs/. `code` is what stands at the addresses that `open` and
-- `close` may hold.
pub mod Lookup
pub mod Missing
use foos.Prelude.{
  ℕ, zero, suc, ◌+◌, Bool, ◌||◌, not, List, [], ◌∷◌, Option, none, some, if◌then◌else◌, ◌==◌,
  length, bit_and,
}
use foos.Machine.{Run, ok, fault, hang, out_of_fuel, ◌>>=◌, u32, neg32, null, enosys, enotdir}
use foos.Libc.Str.{Bytes}
use foos.Libc.Strtok.{Text, first_call, strtok, token_at, on_token}
use foos.Kernel.Kmalloc.{kmalloc, kfree}
use foos.Kernel.Device.{Drivers, dev_open, dev_close}
use foos.Kernel.Ramdisk.{World}
use foos.Libfs.Inode.{
  Inode, Dirent, Fs, fs_char, fs_blk, with_errno, set_kmem, at_ramfs_read, at_devfs_read,
  at_devfs_write, at_ramfs_readdir, at_ramfs_finddir, ReadPointer, WritePointer, ReaddirPointer,
  FinddirPointer,
}
use foos.Libfs.Ramfs.{ramfs_read, ramfs_readdir, ramfs_finddir}
use foos.Libfs.Devfs.{devfs_read, devfs_write}

pub record Code : Type 0 where
  pub open_at : ℕ → Fs → ℕ → ℕ → Run (Fs × ℕ)
  pub close_at : ℕ → Fs → ℕ → Run (Fs × ℕ)

abbrev pub file_separator : Bytes
file_separator = b'/' ∷ []

module _ (d : Drivers World) (code : Code) where
  abbrev pub call_open : Fs → ℕ → ℕ → Option ℕ → Run (Fs × ℕ)
  call_open s node flags (some f) = code.open_at f s node flags
  call_open s node flags none = ok (s, neg32 enosys)

  -- `FIX_DEVICE` and the rest of the function.
  unfoldable pub fs_open : Fs → ℕ → ℕ → Run (Fs × ℕ)
  fs_open s node flags =
      let n = s.nodes node in
      if bit_and n.flags 7 == fs_char || bit_and n.flags 7 == fs_blk
      then (do (v, ret) ← dev_open d s.devices n.impl flags; ok (record s { devices = v }, ret))
      else call_open s node flags n.do_open

  abbrev pub call_close : Fs → ℕ → Option ℕ → Run (Fs × ℕ)
  call_close s node (some f) = code.close_at f s node
  call_close s node none = ok (s, neg32 enosys)

  unfoldable pub fs_close : Fs → ℕ → Run (Fs × ℕ)
  fs_close s node =
      let n = s.nodes node in
      if n.flags == fs_char || n.flags == fs_blk
      then (do (v, ret) ← dev_close d s.devices n.ino; ok (record s { devices = v }, ret))
      else call_close s node n.close

module _ (d : Drivers World) where
  -- The calls through the pointers `write` and `read`.
  abbrev pub call_write : Fs → ℕ → Bytes → ℕ → Option WritePointer → Run (Fs × ℕ)
  call_write s node buf off (some at_devfs_write) = devfs_write d s node buf off
  call_write s node buf off none = ok (s, neg32 enosys)

  unfoldable pub fs_write : Fs → ℕ → Bytes → ℕ → Run (Fs × ℕ)
  fs_write s node buf off = call_write s node buf off (s.nodes node).write

  abbrev pub call_read : Fs → ℕ → ℕ → ℕ → Option ReadPointer → Run (Fs × (ℕ × Bytes) × ℕ)
  call_read s node sz off (some at_ramfs_read) = ramfs_read d s node sz off
  call_read s node sz off (some at_devfs_read) = devfs_read d s node sz off
  call_read s node sz off none = ok (s, (0, []), neg32 enosys)

  unfoldable pub fs_read : Fs → ℕ → ℕ → ℕ → Run (Fs × (ℕ × Bytes) × ℕ)
  fs_read s node sz off = call_read s node sz off (s.nodes node).read

-- The test of `CHECK_DIR`, which is `flags & (0x7 != FS_DIR)`.
abbrev pub check_dir : Inode → Bool
check_dir x = not (bit_and x.flags 1 == 0)

-- The call through the pointer `readdir`.
abbrev pub call_readdir : Fs → ℕ → ℕ → Option ReaddirPointer → Run (Fs × Option Dirent)
call_readdir s node index (some at_ramfs_readdir) = do
  ent ← ramfs_readdir s.nodes node index
  ok (s, ent)
call_readdir s node index none = ok (s, none)

unfoldable pub fs_readdir : Fs → ℕ → ℕ → Run (Fs × Option Dirent)
fs_readdir s node index =
    if check_dir (s.nodes node)
    then ok (with_errno s enotdir, none)
    else call_readdir s node index (s.nodes node).readdir

-- The call through the pointer `finddir`.
abbrev pub call_finddir : (ℕ → Inode) → ℕ → Bytes → Option FinddirPointer → ℕ
call_finddir nodes node name (some at_ramfs_finddir) = ramfs_finddir nodes node name
call_finddir nodes node name none = null

unfoldable pub fs_finddir : Fs → ℕ → Bytes → Fs × ℕ
fs_finddir s node name =
    if check_dir (s.nodes node)
    then (with_errno s enotdir, null)
    else (s, call_finddir s.nodes node name (s.nodes node).finddir)

-- The loop of `fs_lookup`, one unit of fuel a round: `strtok` is called before `node` is tested.
unfoldable pub lookup_loop : ℕ → Text → Fs → ℕ → Run (Fs × ℕ)
lookup_loop zero t s node = out_of_fuel
lookup_loop (suc n) t s node =
    let (t', ptr) = strtok t file_separator in
    on_token (ok (s, node))
      (λ p.
        let (s', node') = fs_finddir s node (token_at t' p) in
        let rest = lookup_loop n t' s' node' in if node == null then ok (s, node) else rest)
      ptr

-- What `fs_lookup` does with the copy of the path at `tmp`. `root` is the global variable `fs_root`.
unfoldable pub lookup_copy : Fs → ℕ → ℕ → Bytes → Run (Fs × ℕ)
lookup_copy s root tmp path =
    let (t, ptr) = strtok (first_call path) file_separator in
    on_token (do k ← kfree s.devices.world.kmem tmp; ok (fs_finddir (set_kmem s k) root path))
      (λ p. do
        let (s1, node) = fs_finddir s root (token_at t p)
        (s2, node') ← lookup_loop (suc (length path)) t s1 node
        k ← kfree s2.devices.world.kmem tmp
        ok (set_kmem s2 k, node'))
      ptr

unfoldable pub fs_lookup : ℕ → Fs → ℕ → Bytes → Run (Fs × ℕ)
fs_lookup fuel s root path = if root == null || length path == 0 then hang else do
  (k, tmp) ← kmalloc fuel s.devices.world.kmem (u32 (length path + 1))
  if tmp == null then fault else lookup_copy (set_kmem s k) root tmp path
