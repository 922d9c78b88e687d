-- ===== src/Libfs/Ramfs/Image.antt =====
-- What `ramfs_init` of libfs/ramfs.c, with `devfs_init` of libfs/devfs.c, builds from a ram disk.
pub mod Arrays
pub mod Listing
pub mod Room
use foos.Prelude.{
  ℕ, zero, suc, ◌+◌, ◌*◌, ◌^◌, ◌<◌, ◌≤◌, ◌≡◌, ◌≢◌, ◌⊎◌, refl, sym, ap, ◌∙◌, arith, inl, inr, true,
  false, not, ◌==◌, length, List, [], get_or, Option, none, some,
}
use foos.Machine.{Run, ok, u32, null}
use foos.Libc.Str.{Bytes}
use foos.Kernel.Kmalloc.{Kmem, heap_base, kmalloc}
use foos.Kernel.Kmalloc.Cells.{Cell, stop, owned}
use foos.Kernel.Kmalloc.Alloc.{IsHeap, Allocated, kmalloc-Allocated}
use foos.Libfs.Ramfs.Image.Room.{Layout, IsHeap-Room, Room-Layout}
use foos.Kernel.Device.{Drivers, Devices, driver, dev_ioctl}
use foos.Kernel.Ramdisk.{World, ramdisk, ramdisk_ioctl}
use foos.Libfs.Inode.{Inode, Fs, element, set_node, set_kmem, new_nodes}
use foos.Libfs.Devfs.{device_node, devfs_init}
use foos.Libfs.Ramfs.{
  file_header, header_at, file_node, files_loop, dev_dir, root_dir, ramfs_fill, ramfs_init,
}
use foos.Libfs.Ramfs.Image.Arrays.{
  Outside, IsImage, Fit, node_self, node_other, new_nodes-Written, files_loop-image,
}
use foos.Libfs.Ramfs.Image.Listing.{Listed, device_dir, devfs_init-Listed}

-- The directory at `root` holds the `n` files of the image at `a`, and then `dev` with the devices.
pub record Mounted (out : Fs) (memory : ℕ → ℕ) (a n : ℕ) (names : List Bytes) (root p q : ℕ)
    : Type 0 where
  pub directory : out.nodes root ≡ record root_dir { impl = n + 1; ptr = p }
  pub files : (j : ℕ) → j < n → out.nodes (element p j) ≡ file_node (file_header memory a j) j
  pub dev : out.nodes (element p n) ≡ device_dir (dev_dir n) (length names) q
  pub devices :
      (j : ℕ) → j < length names → out.nodes (element q j) ≡ device_node (get_or names j []) j
  pub base : out.file_base ≡ n * 44 + 4
  pub count : out.rd_nfiles ≡ n + 1

-- What `ramfs_fill` and `ramfs_init` end with.
abbrev pub Mounts : Fs → (ℕ → ℕ) → ℕ → ℕ → List Bytes → ℕ → ℕ → ℕ → Kmem → Run (Fs × ℕ) → Type 0
Mounts s memory a n names root p q k r =
    (out : Fs) × (r ≡ ok (out, root))
    × Mounted out memory a n names root p q
    × (out.devices ≡ (set_kmem s k).devices)

abbrev with_kmem : Kmem → Devices World → Devices World
with_kmem k v = record v { world = record v.world { kmem = k } }

element-ne :
    (root p k j : ℕ) → (root + 1 * 76 ≤ p) ⊎ (p + k * 76 ≤ root) → j < k → root ≢ element p j
element-ne root p k j (inl le) lt e = absurd (omega arith)
element-ne root p k j (inr le) lt e = absurd (omega arith)

element-Outside :
    (p k q m j : ℕ) → (p + k * 76 ≤ q) ⊎ (q + m * 76 ≤ p) → j < k → Outside q 0 m (element p j)
element-Outside p k q m j (inl le) lt = inl (omega arith)
element-Outside p k q m j (inr le) lt = inr (omega arith)

root-Outside : (root p k : ℕ) → (root + 1 * 76 ≤ p) ⊎ (p + k * 76 ≤ root) → Outside p 0 k root
root-Outside root p k (inl le) = inl (omega arith)
root-Outside root p k (inr le) = inr (omega arith)

-- `ramfs_fill` behind its loop over the files.
record Ready (fuel : ℕ) (s : Fs) (a n root p : ℕ) (k : Kmem) : Type 0 where
  first : Fs
  second : Fs
  third : Fs
  for_root :
      new_nodes fuel (record s { file_base = u32 (n * 44 + 4); rd_nfiles = n }) 1 ≡ ok (first, root)
  for_files : new_nodes fuel (set_node first root root_dir) (n + 1) ≡ ok (second, p)
  filled : files_loop (set_node second root (record root_dir { ptr = p })) a p 0 n ≡ ok third
  directory : third.nodes root ≡ record root_dir { ptr = p }
  files :
      (j : ℕ)
      → j < n
      → third.nodes (element p j) ≡ file_node (file_header s.devices.world.memory a j) j
  devices : third.devices ≡ with_kmem k s.devices
  base : third.file_base ≡ n * 44 + 4

module _ (fuel : ℕ) (s : Fs) (a n : ℕ) (small : n < 65536)
    (image : IsImage s.devices.world.memory a n) where
  fill-Ready :
      (k1 k2 : Kmem) (root p : ℕ)
      → kmalloc fuel s.devices.world.kmem (1 * 76) ≡ ok (k1, root)
      → kmalloc fuel k1 ((n + 1) * 76) ≡ ok (k2, p)
      → root ≢ null
      → p ≢ null
      → (root + 1 * 76 ≤ p) ⊎ (p + (n + 1) * 76 ≤ root)
      → Ready fuel s a n root p k2
  fill-Ready k1 k2 root p r1 r2 given_root given_p root_p =
      let s0 = record s { file_base = u32 (n * 44 + 4); rd_nfiles = n } in
      let kmem = λ (v : Devices World). v.world.kmem in
      let memory = λ (v : Devices World). v.world.memory in
      let (s1, e1, w1) =
        new_nodes-Written fuel s0 s.devices.world.kmem k1 root 1 refl (omega arith) r1 given_root in
      let t1 = set_node s1 root root_dir in
      let (s2, e2, w2) =
        new_nodes-Written fuel t1 k1 k2 p (n + 1) (ap kmem w1.devices) (omega arith) r2 given_p in
      let t2 = set_node s2 root (record root_dir { ptr = p }) in
      let same = ap memory w2.devices ∙ ap memory w1.devices in
      let (s3, e3, w3) = files_loop-image a p n t2 s.devices.world.memory same image in
      record {
        first = s1;
        second = s2;
        third = s3;
        for_root = e1;
        for_files = e2;
        filled = e3;
        directory =
            w3.outside root
              (elim root_p [ inl le ↦ inl (omega arith) | inr le ↦ inr (omega arith) ])
            ∙ node_self s2 root (record root_dir { ptr = p });
        files = λ j lt. w3.inside j (omega arith) lt;
        devices = w3.devices ∙ w2.devices ∙ ap (with_kmem k2) w1.devices;
        base = w3.base ∙ w2.base ∙ w1.base ∙ omega arith;
      }

  ramfs_fill-Mounts :
      (d : Drivers World) (names : List Bytes) (k1 k2 k3 : Kmem) (root p q : ℕ)
      → length names < 65536
      → Fit names
      → kmalloc fuel s.devices.world.kmem (1 * 76) ≡ ok (k1, root)
      → kmalloc fuel k1 ((n + 1) * 76) ≡ ok (k2, p)
      → kmalloc fuel k2 (length names * 76) ≡ ok (k3, q)
      → Layout n (length names) root p q
      → Mounts s s.devices.world.memory a n names root p q k3 (ramfs_fill fuel d names s a n)
  unfolding ramfs_fill
  ramfs_fill-Mounts d names k1 k2 k3 root p q few fit r1 r2 r3 l =
      let m = length names in
      let given_p = l.given_p in
      let r = fill-Ready k1 k2 root p r1 r2 l.given_root given_p l.root_p in
      let last = element p n in
      let before = record r.third { rd_nfiles = n + 1 } in
      let x =
        devfs_init-Listed fuel names (set_node before last (dev_dir n)) last k2 k3 q
          (λ e. absurd (omega arith)) (ap (λ (v : Devices World). v.world.kmem) r.devices)
          (omega arith) r3 l.given_q fit (element-Outside p (n + 1) q m n l.p_q (omega arith)) in
      let apart = λ (j : ℕ) (lt : j < n + 1). element-ne root p (n + 1) j l.root_p lt in
      let end = record (x.out.nodes root) { impl = n + 1 } in
      (
        set_node x.out root end,
        rw (r.for_root, r.for_files, r.filled, x.returns) refl,
        record {
          directory =
              node_self x.out root end
              ∙ ap (λ (y : Inode). record y { impl = n + 1 })
                  (x.others root (λ e. apart n (omega arith) (sym e))
                      (root-Outside root q m l.root_q)
                    ∙ node_other before last root (dev_dir n) (λ e. apart n (omega arith) (sym e))
                    ∙ r.directory);
          files = λ j lt.
              node_other x.out root (element p j) end (apart j (omega arith))
              ∙ x.others (element p j) (λ e. absurd (omega arith))
                  (element-Outside p (n + 1) q m j l.p_q (omega arith))
              ∙ node_other before last (element p j) (dev_dir n) (λ e. absurd (omega arith))
              ∙ r.files j lt;
          dev =
              node_other x.out root last end (apart n (omega arith))
              ∙ x.dir
              ∙ ap (λ (y : Inode). device_dir y m q) (node_self before last (dev_dir n));
          devices = λ j lt.
              node_other x.out root (element q j) end (element-ne root q m j l.root_q lt)
              ∙ x.nodes j lt;
          base = x.base ∙ r.base;
          count = x.count;
        },
        x.devices ∙ ap (with_kmem k3) r.devices,
      )

  -- On an open ram disk whose image has the signature, `n` files with their own signatures and names that
  -- fit, and with room on the heap for the inodes, `ramfs_init` returns the directory: its elements are the
  -- files of the image in order, with their names, sizes and offsets, and last the directory `dev`, whose
  -- elements are the devices in order. Of the devices only the heap changes, and it is a heap again.
  pub ramfs_init-Mounts :
      (dev_fuel : ℕ) (d : Drivers World) (names : List Bytes) (cs : List Cell)
      → driver d.table 1 ≡ ok (ramdisk dev_fuel)
      → s.devices.world.dev_data ≢ null
      → (s.devices.world.disks s.devices.world.dev_data).addr ≡ a
      → header_at s.devices.world.memory a ≡ record { signature = 0xD158; nfiles = n }
      → 0 < length names
      → length names < 65536
      → Fit names
      → IsHeap s.devices.world.kmem.heap cs
      → stop heap_base cs + (n + 1 + 1 + length names) * 76 + 400 ≤ 2 ^ 32
      → length cs + 2 < fuel
      → (root : ℕ) × (p : ℕ) × (q : ℕ) × (k : Kmem) × (row : List Cell) × IsHeap k.heap row
        × Mounts s s.devices.world.memory a n names root p q k (ramfs_init fuel d names s)
  unfolding ramfs_init dev_ioctl ramdisk_ioctl
  ramfs_init-Mounts dev_fuel d names cs there opened at header pos few fit is roomy enough =
      let t : (s.devices.world.dev_data == null) ≡ false = ground arith in
      let r = IsHeap-Room fuel s.devices.world.kmem cs n (length names) is pos roomy enough in
      let x = r.for_root in
      let y = r.for_files in
      let z = r.for_devices in
      (
        x.ptr,
        y.ptr,
        z.ptr,
        z.mem,
        z.row,
        z.valid,
        rw (there, t, at, header)
            (ramfs_fill-Mounts d names x.mem y.mem z.mem x.ptr y.ptr z.ptr few fit x.returns
              y.returns z.returns (Room-Layout fuel s.devices.world.kmem cs n (length names) r)),
      )
