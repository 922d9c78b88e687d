-- ===== src/Libfs/Wrap/Missing.antt =====
-- The functions of libfs/wrap.c on devices, and where a function pointer is not set.
use foos.Prelude.{ℕ, ◌≡◌, refl, [], none}
use foos.Machine.{ok, neg32, null, enosys, enotdir}
use foos.Libc.Str.{Bytes}
use foos.Kernel.Device.{Drivers}
use foos.Kernel.Ramdisk.{World}
use foos.Libfs.Inode.{Inode, Fs, fs_file, fs_dir, with_errno}
use foos.Libfs.Wrap.{Code, fs_open, fs_close, fs_write, fs_read, fs_readdir, fs_finddir}

-- None of the function pointers of an inode is set.
pub record Bare (x : Inode) : Type 0 where
  pub do_open : x.do_open ≡ none
  pub close : x.close ≡ none
  pub write : x.write ≡ none
  pub read : x.read ≡ none
  pub readdir : x.readdir ≡ none
  pub finddir : x.finddir ≡ none

module _ (d : Drivers World) (code : Code) (s : Fs) (node : ℕ) where
  -- Four functions refuse an inode, and two find nothing in it.
  abbrev pub Refused : Fs → Type 0
  Refused t =
      (fs_open d code s node 0 ≡ ok (s, neg32 enosys))
      × (fs_close d code s node ≡ ok (s, neg32 enosys))
      × ((buf : Bytes) (off : ℕ) → fs_write d s node buf off ≡ ok (s, neg32 enosys))
      × ((sz off : ℕ) → fs_read d s node sz off ≡ ok (s, (0, []), neg32 enosys))
      × ((index : ℕ) → fs_readdir s node index ≡ ok (t, none))
      × ((name : Bytes) → fs_finddir s node name ≡ (t, null))

  -- On a regular file and on a directory without function pointers, `fs_open`, `fs_close`, `fs_write` and
  -- `fs_read` return ENOSYS negated, and `fs_readdir` and `fs_finddir` return null. On the file these set
  -- `errno` to ENOTDIR; on the directory nothing changes.
  pub fs_missing :
      Bare (s.nodes node)
      → ((s.nodes node).flags ≡ fs_file → Refused (with_errno s enotdir))
        × ((s.nodes node).flags ≡ fs_dir → Refused s)
  unfolding fs_open fs_close fs_write fs_read fs_readdir fs_finddir
  fs_missing b = (
    λ f. (
      rw (f, b.do_open) refl,
      rw (f, b.close) refl,
      λ buf off. rw b.write refl,
      λ sz off. rw b.read refl,
      λ index. rw f refl,
      λ name. rw f refl,
    ),
    λ f. (
      rw (f, b.do_open) refl,
      rw (f, b.close) refl,
      λ buf off. rw b.write refl,
      λ sz off. rw b.read refl,
      λ index. rw (f, b.readdir) refl,
      λ name. rw (f, b.finddir) refl,
    ),
  )
