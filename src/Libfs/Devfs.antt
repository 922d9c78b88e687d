-- ===== src/Libfs/Devfs.antt =====
-- libfs/devfs.c. `d` is the table of the drivers, and `names` that of their names.
use foos.Prelude.{ℕ, suc, List, [], ◌∷◌, ◌&&◌, some, if◌then◌else◌, ◌==◌, length, bit_and}
use foos.Machine.{Run, ok, hang, ◌>>=◌, neg32, null, einval}
use foos.Libc.Str.{Bytes}
use foos.Kernel.Device.{Drivers, dev_read, dev_write, dev_seek}
use foos.Kernel.Ramdisk.{World}
use foos.Libfs.Inode.{
  Inode, Fs, zeroed, fs_char, fs_blk, fs_dir, element, set_node, with_errno, copy_name, new_nodes,
  at_devfs_read, at_devfs_write,
}

-- The inode of the device `i`.
abbrev pub device_node : Bytes → ℕ → Inode
device_node name i = record zeroed {
  name = name;
  flags = fs_char;
  impl = i;
  read = some at_devfs_read;
  write = some at_devfs_write;
}

-- The loop of `devfs_init`, from the device `i` on.
unfoldable pub devfs_nodes : Fs → ℕ → List Bytes → ℕ → Run Fs
devfs_nodes s p [] i = ok s
devfs_nodes s p (name ∷ names) i = do
  name ← copy_name name
  devfs_nodes (set_node s (element p i) (device_node name i)) p names (suc i)

unfoldable pub devfs_init : ℕ → List Bytes → Fs → ℕ → Run (Fs × ℕ)
devfs_init fuel names s devdir = if devdir == null then hang else do
  let named = record (s.nodes devdir) {
    name = b'd' ∷ b'e' ∷ b'v' ∷ [];
    flags = fs_dir;
    impl = length names;
  }
  (s1, p) ← new_nodes fuel (set_node s devdir named) (length names)
  s2 ← devfs_nodes (set_node s1 devdir (record named { ptr = p })) p names 0
  ok (s2, 0)

module _ (d : Drivers World) where
  -- `CHECK_DEV`, and then `f`; `bad` is what the caller returns otherwise.
  abbrev pub check_dev {ℓ} : {A : Type ℓ} → Fs → ℕ → (Fs → Run A) → Run A → Run A
  check_dev s dev bad f =
      let flags = (s.nodes dev).flags in
      if dev == null
      then hang
      else if bit_and flags fs_char == 0 && bit_and flags fs_blk == 0
      then bad (with_errno s einval)
      else f

  unfoldable pub devfs_write : Fs → ℕ → Bytes → ℕ → Run (Fs × ℕ)
  devfs_write s dev buf off =
      check_dev s dev (λ s'. ok (s', neg32 einval))
        do
          let no = (s.nodes dev).impl
          (v, _) ← dev_seek d s.devices no off 0
          (v', ret) ← dev_write d v no buf
          ok (record s { devices = v' }, ret)

  -- The index into the buffer and the bytes that are put there, and the result.
  unfoldable pub devfs_read : Fs → ℕ → ℕ → ℕ → Run (Fs × (ℕ × Bytes) × ℕ)
  devfs_read s dev sz off =
      check_dev s dev (λ s'. ok (s', (0, []), neg32 einval))
        do
          let no = (s.nodes dev).impl
          (v, _) ← dev_seek d s.devices no off 0
          (v', buf, ret) ← dev_read d v no sz
          ok (record s { devices = v' }, (0, buf), ret)
