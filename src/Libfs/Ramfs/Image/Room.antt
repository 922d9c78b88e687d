-- ===== src/Libfs/Ramfs/Image/Room.antt =====
-- Room on the heap of kernel/kmalloc.c for the inodes of libfs/ramfs.c and libfs/devfs.c.
use foos.Prelude.{ℕ, ◌+◌, ◌*◌, ◌^◌, ◌<◌, ◌≤◌, ◌≢◌, ◌⊎◌, arith, inl, inr, length, List}
use foos.Machine.{null}
use foos.Kernel.Kmalloc.{Kmem, heap_base, kmalloc}
use foos.Kernel.Kmalloc.Cells.{Cell, stop}
use foos.Kernel.Kmalloc.Alloc.{IsHeap, Allocated, kmalloc-Allocated}
use foos.Kernel.Kmalloc.Disjoint.{Handed-Holds, Handed-keeps, Handed-disjoint}

-- The heap gives an inode, an array of `n + 1` inodes and one of `m`, one after the other.
pub record Room (fuel : ℕ) (k : Kmem) (cs : List Cell) (n m : ℕ) : Type 0 where
  pub for_root : Allocated k cs (1 * 76) 0 (kmalloc fuel k (1 * 76))
  pub for_files :
      Allocated for_root.mem for_root.row
        ((n + 1) * 76)
        0
        (kmalloc fuel for_root.mem ((n + 1) * 76))
  pub for_devices :
      Allocated for_files.mem for_files.row (m * 76) 0 (kmalloc fuel for_files.mem (m * 76))

pub IsHeap-Room :
    (fuel : ℕ) (k : Kmem) (cs : List Cell) (n m : ℕ)
    → IsHeap k.heap cs
    → 0 < m
    → stop heap_base cs + (n + 1 + 1 + m) * 76 + 400 ≤ 2 ^ 32
    → length cs + 2 < fuel
    → Room fuel k cs n m
IsHeap-Room fuel k cs n m is pos roomy enough =
    let x = kmalloc-Allocated fuel k cs (1 * 76) is (omega arith) (omega arith) (omega arith) in
    let x_ends = x.ends in
    let x_longer = x.longer in
    let y =
      kmalloc-Allocated fuel x.mem x.row ((n + 1) * 76) x.valid (omega arith) (omega arith)
        (omega arith) in
    let y_ends = y.ends in
    let y_longer = y.longer in
    record {
      for_root = x;
      for_files = y;
      for_devices =
          kmalloc-Allocated fuel y.mem y.row (m * 76) y.valid (omega arith) (omega arith)
            (omega arith);
    }

-- The inode at `root`, the `n + 1` at `p` and the `m` at `q` do not overlap.
pub record Layout (n m root p q : ℕ) : Type 0 where
  pub given_root : root ≢ null
  pub given_p : p ≢ null
  pub given_q : q ≢ null
  pub root_p : (root + 1 * 76 ≤ p) ⊎ (p + (n + 1) * 76 ≤ root)
  pub root_q : (root + 1 * 76 ≤ q) ⊎ (q + m * 76 ≤ root)
  pub p_q : (p + (n + 1) * 76 ≤ q) ⊎ (q + m * 76 ≤ p)

pub Room-Layout :
    (fuel : ℕ) (k : Kmem) (cs : List Cell) (n m : ℕ) (r : Room fuel k cs n m)
    → Layout n m r.for_root.ptr r.for_files.ptr r.for_devices.ptr
Room-Layout fuel k cs n m r =
    let x = r.for_root in
    let y = r.for_files in
    let z = r.for_devices in
    let held_x = Handed-Holds x.ptr (1 * 76) x.given _ _ x.handed x.fits in
    let held_x' = Handed-keeps _ x.ptr (1 * 76) _ _ y.handed held_x in
    let held_y = Handed-Holds y.ptr ((n + 1) * 76) y.given _ _ y.handed y.fits in
    let x_y = Handed-disjoint x.ptr (1 * 76) y.ptr y.given heap_base _ _ y.apart y.handed held_x in
    let x_z = Handed-disjoint x.ptr (1 * 76) z.ptr z.given heap_base _ _ z.apart z.handed held_x' in
    let y_z =
      Handed-disjoint y.ptr ((n + 1) * 76) z.ptr z.given heap_base _ _ z.apart z.handed held_y in
    let fits_y = y.fits in
    let fits_z = z.fits in
    let above_x = x.above in
    let above_y = y.above in
    let above_z = z.above in
    record {
      given_root = λ e. absurd (omega arith);
      given_p = λ e. absurd (omega arith);
      given_q = λ e. absurd (omega arith);
      root_p = elim x_y [ inl l ↦ inl l | inr g ↦ inr (omega arith) ];
      root_q = elim x_z [ inl l ↦ inl l | inr g ↦ inr (omega arith) ];
      p_q = elim y_z [ inl l ↦ inl l | inr g ↦ inr (omega arith) ];
    }
