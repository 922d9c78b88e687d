-- ===== src/Libfs/Ramfs/Contents.antt =====
-- Reading a file of libfs/ramfs.c, through libfs/wrap.c, on the ram disk of kernel/dev/ramdisk.c.
use foos.Prelude.{
  ℕ, ◌+◌, ◌*◌, ◌^◌, ◌<◌, ◌≡◌, ◌≢◌, refl, sym, ap, ◌∙◌, arith, false, ◌==◌, length, List,
  get_or-set_self, some,
}
use mathlib.Core.Path.{subst}
use foos.Machine.{Run, ok, u32, null}
use foos.Libc.Str.{Bytes}
use foos.Kernel.Device.{Drivers, Devices, driver, dev_read, dev_seek, set_offset}
use foos.Kernel.Ramdisk.{World, ramdisk, bytes_at}
use foos.Kernel.Ramdisk.Reading.{dev_read_step, read_on}
use foos.Libfs.Inode.{Inode, Fs, element, fs_char, at_devfs_read}
use foos.Libfs.Devfs.{devfs_read}
use foos.Libfs.Ramfs.{file_header, file_node, ramfs_read, ramfs_finddir}
use foos.Libfs.Ramfs.Directory.{HasNames, ramfs_finddir_self}
use foos.Libfs.Ramfs.Image.{Mounted}
use foos.Libfs.Wrap.{fs_read, fs_finddir, call_read}

-- The address of the ram disk.
abbrev pub disk_addr : Fs → ℕ
disk_addr s = (s.devices.world.disks s.devices.world.dev_data).addr

module _ (fuel : ℕ) (d : Drivers World) (there : driver d.table 1 ≡ ok (ramdisk fuel)) where
  -- Seeking and then reading.
  seek_read :
      (s : Devices World) (off len : ℕ)
      → s.world.dev_data ≢ null
      → 1 < length s.offsets
      → 0 < len
      → len < 2 ^ 31
      → (v : Devices World) × (dev_seek d s 1 off 0 ≡ ok (set_offset d s 1 off, off))
        × (dev_read d (set_offset d s 1 off) 1 len
            ≡ ok (
              v,
              bytes_at s.world.memory (u32 ((s.world.disks s.world.dev_data).addr + off)) len,
              len,
            ))
  unfolding dev_seek
  seek_read s off len opened known pos small =
      let at = get_or-set_self s.offsets 1 off 0 known in
      let s1 = set_offset d s 1 off in
      (
        read_on fuel d 1 there s1 len,
        rw (there, at) refl,
        dev_read_step fuel d 1 there s1 len opened pos small
            ∙ ap
                (λ (o : ℕ). ok (
                  read_on fuel d 1 there s1 len,
                  bytes_at s.world.memory (u32 ((s.world.disks s.world.dev_data).addr + o)) len,
                  len,
                ))
                at,
      )

  ramfs_read-bytes :
      (s : Fs) (node sz offset : ℕ)
      → s.devices.world.dev_data ≢ null
      → 1 < length s.devices.offsets
      → 0 < (s.nodes node).size
      → (s.nodes node).size < 2 ^ 31
      → (v : Devices World) × (ramfs_read d s node sz offset
          ≡ ok (
            record s { devices = v },
            (
              offset,
              bytes_at s.devices.world.memory
                  (u32 (disk_addr s + u32 (s.file_base + (s.nodes node).impl)))
                  (s.nodes node).size,
            ),
            sz,
          ))
  unfolding ramfs_read
  ramfs_read-bytes s node sz offset opened known pos small =
      let n = s.nodes node in
      let (v, seek, read) =
        seek_read s.devices (u32 (s.file_base + n.impl)) n.size opened known pos small in
      (v, rw (seek, read) refl)

  -- Reading from the inode of the ram disk as a device puts the bytes of the disk from the given offset
  -- on at the start of the buffer, wherever the last read stopped, and returns their number.
  pub fs_read-device :
      (s : Fs) (node sz off : ℕ)
      → (s.nodes node).flags ≡ fs_char
      → (s.nodes node).impl ≡ 1
      → (s.nodes node).read ≡ some at_devfs_read
      → node ≢ null
      → s.devices.world.dev_data ≢ null
      → 1 < length s.devices.offsets
      → 0 < sz
      → sz < 2 ^ 31
      → (v : Devices World) × (fs_read d s node sz off
          ≡ ok (
            record s { devices = v },
            (0, bytes_at s.devices.world.memory (u32 (disk_addr s + off)) sz),
            sz,
          ))
  unfolding fs_read devfs_read
  fs_read-device s node sz off char first at given opened known pos small =
      let (v, seek, read) = seek_read s.devices off sz opened known pos small in
      let t : (node == null) ≡ false = ground arith in (v, rw (at, t, char, first, seek, read) refl)

  -- The file `i` of a directory that `ramfs_init` has made, with texts for names, all different, is found
  -- by its name, and a read gets all the bytes of the disk that its header gives it, behind the headers of
  -- the files. They are put into the buffer from the index `off` on, whatever the size that is asked for,
  -- which is returned.
  pub fs_finddir-fs_read :
      (s : Fs) (a n : ℕ) (names : List Bytes) (root p q i sz off : ℕ)
      → Mounted s s.devices.world.memory a n names root p q
      → HasNames s.nodes root
      → ((j : ℕ)
          → j < i
          → (s.nodes (element p j)).name ≢ (file_header s.devices.world.memory a i).name)
      → i < n
      → s.devices.world.dev_data ≢ null
      → 1 < length s.devices.offsets
      → 0 < (file_header s.devices.world.memory a i).size
      → (file_header s.devices.world.memory a i).size < 2 ^ 31
      → let f = file_header s.devices.world.memory a i in
        (fs_finddir s root f.name ≡ (s, element p i))
        × ((v : Devices World) × (fs_read d s (element p i) sz off
              ≡ ok (
                record s { devices = v },
                (
                  off,
                  bytes_at s.devices.world.memory
                      (u32 (disk_addr s + u32 (n * 44 + 4 + f.offset)))
                      f.size,
                ),
                sz,
              )))
  unfolding fs_finddir fs_read
  fs_finddir-fs_read s a n names root p q i sz off m texts distinct lt opened known pos small =
      let f = file_header s.devices.world.memory a i in
      let dir = m.directory in
      let is : s.nodes (element p i) ≡ file_node f i = m.files i lt in
      let name : (s.nodes (element p i)).name ≡ f.name = ap (λ (x : Inode). x.name) is in
      let differ =
        subst
          (λ (x : Inode).
            (j : ℕ) → j < i → (s.nodes (element x.ptr j)).name ≢ (s.nodes (element x.ptr i)).name)
          (sym dir) (λ j below e. distinct j below (e ∙ name)) in
      let inside = subst (λ (x : Inode). i < x.impl) (sym dir) (omega arith) in
      let found =
        subst
          (λ (x : Inode).
            ramfs_finddir s.nodes root (s.nodes (element x.ptr i)).name ≡ element x.ptr i)
          dir (ramfs_finddir_self s.nodes root i texts differ inside) in
      let found' = ap (ramfs_finddir s.nodes root) (sym name) ∙ found in
      let (v, read) =
        ramfs_read-bytes s (element p i) sz off opened known
          (subst (λ (x : Inode). 0 < x.size) (sym is) pos)
          (subst (λ (x : Inode). x.size < 2 ^ 31) (sym is) small) in
      let result : ℕ → ℕ → ℕ → Run (Fs × (ℕ × Bytes) × ℕ) = λ base impl len. ok (
        record s { devices = v },
        (off, bytes_at s.devices.world.memory (u32 (disk_addr s + u32 (base + impl))) len),
        sz,
      ) in
      (
        rw dir (ap (λ (r : ℕ). (s, r)) found'),
        (
          v,
          ap (call_read d s (element p i) sz off) (ap (λ (x : Inode). x.read) is)
              ∙ read
              ∙ ap (λ (x : Inode). result s.file_base x.impl x.size) is
              ∙ ap (λ (b : ℕ). result b f.offset f.size) m.base,
        ),
      )
