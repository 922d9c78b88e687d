-- ===== src/Libfs/Ramfs/Image/Listing.antt =====
-- `devfs_init` of libfs/devfs.c.
use foos.Prelude.{
  ℕ, ◌+◌, ◌*◌, ◌^◌, ◌<◌, ◌≡◌, ◌≢◌, refl, ◌∙◌, arith, false, ◌==◌, length, List, [], ◌∷◌, get_or,
}
use foos.Machine.{Run, ok, null}
use foos.Libc.Str.{Bytes}
use foos.Kernel.Kmalloc.{Kmem, kmalloc}
use foos.Libfs.Inode.{Inode, Fs, fs_dir, element, set_node, set_kmem}
use foos.Libfs.Devfs.{device_node, devfs_init}
use foos.Libfs.Ramfs.Image.Arrays.{
  Outside, Fit, node_self, node_other, new_nodes-Written, devfs_nodes-Written,
}

-- The directory that `devfs_init` makes of the inode `x`, with the array at `q`.
abbrev pub device_dir : Inode → ℕ → ℕ → Inode
device_dir x m q = record x { name = b'd' ∷ b'e' ∷ b'v' ∷ []; flags = fs_dir; impl = m; ptr = q }

-- How `devfs_init` ends.
pub record Listed (s : Fs) (names : List Bytes) (devdir : ℕ) (k : Kmem) (q : ℕ) (r : Run (Fs × ℕ))
    : Type 0 where
  pub out : Fs
  pub returns : r ≡ ok (out, 0)
  pub dir : out.nodes devdir ≡ device_dir (s.nodes devdir) (length names) q
  pub nodes :
      (j : ℕ) → j < length names → out.nodes (element q j) ≡ device_node (get_or names j []) j
  pub others : (a : ℕ) → devdir ≢ a → Outside q 0 (length names) a → out.nodes a ≡ s.nodes a
  pub devices : out.devices ≡ (set_kmem s k).devices
  pub base : out.file_base ≡ s.file_base
  pub count : out.rd_nfiles ≡ s.rd_nfiles

pub devfs_init-Listed :
    (fuel : ℕ) (names : List Bytes) (s : Fs) (devdir : ℕ) (k k' : Kmem) (q : ℕ)
    → devdir ≢ null
    → s.devices.world.kmem ≡ k
    → length names * 76 < 2 ^ 32
    → kmalloc fuel k (length names * 76) ≡ ok (k', q)
    → q ≢ null
    → Fit names
    → Outside q 0 (length names) devdir
    → Listed s names devdir k' q (devfs_init fuel names s devdir)
unfolding devfs_init
devfs_init-Listed fuel names s devdir k k' q there same small ret given fit away =
    let m = length names in
    let named = record (s.nodes devdir) {
      name = b'd' ∷ b'e' ∷ b'v' ∷ [];
      flags = fs_dir;
      impl = m;
    } in
    let s0 = set_node s devdir named in
    let (s1, made, w1) = new_nodes-Written fuel s0 k k' q m same small ret given in
    let s2 = set_node s1 devdir (record named { ptr = q }) in
    let (out, done, w2) =
      devfs_nodes-Written s2 q 0 m names (λ j. device_node (get_or names j []) j) (omega arith) fit
        (λ j lt. let e : 0 + j ≡ j = omega arith in rw e refl) in
    let t : (devdir == null) ≡ false = ground arith in
    record {
      out = out;
      returns = rw (t, made, done) refl;
      dir = w2.outside devdir away ∙ node_self s1 devdir (record named { ptr = q });
      nodes = λ j lt. w2.inside j (omega arith) lt;
      others = λ a ne far.
          w2.outside a far
          ∙ node_other s1 devdir a (record named { ptr = q }) ne
          ∙ w1.outside a far
          ∙ node_other s devdir a named ne;
      devices = w2.devices ∙ w1.devices;
      base = w2.base ∙ w1.base;
      count = w2.count ∙ w1.count;
    }
