-- ===== src/Kernel/Kmalloc/Join.antt =====
-- `kfree` of kernel/kmalloc.c where it joins the block with a free neighbour.
use foos.Prelude.{
  ℕ, ◌+◌, ◌^◌, ◌≤◌, ◌<◌, ◌≡◌, ◌≢◌, refl, sym, ap, ◌∙◌, List, ◌∷◌, ◌++◌, arith, ◌==◌, true, false,
}
use foos.Machine.{ok}
use foos.Kernel.Kmalloc.{Heap, Kmem, heap_base, put, merges, kfree}
use foos.Kernel.Kmalloc.Cells.{Cell, cell, behind, stop, owned}
use foos.Kernel.Kmalloc.Chain.{Chain, Chain-set_prev, le-stop}
use foos.Kernel.Kmalloc.Owned.{Handed, here}
use foos.Kernel.Kmalloc.Rows.{last_of, LastBusy, Positive-suffix, Chain-suffix, stop-append}
use foos.Kernel.Kmalloc.Merge.{joined, merge-busy, merge-ok}
use foos.Kernel.Kmalloc.Alloc.{IsHeap}
use foos.Kernel.Kmalloc.Free.{
  Freed, marked, kfree-merges, merges-next, merges-prev, Freed-suffix, end-bound, base-le,
  prev-busy, marked-Chain,
}

-- A busy cell and a free one behind it, against one free cell in their place.
owned-free_two :
    (d e f : Cell) (post : List Cell) (p : ℕ)
    → d.used ≢ 0
    → e.used ≡ 0
    → Handed
        (p + 16, d.size)
        (owned (p + 16 + d.size + 16 + e.size) (f ∷ post))
        (owned p (d ∷ e ∷ f ∷ post))
unfolding owned
owned-free_two d e f post p busy free =
    let z : (d.used == 0) ≡ false = ground arith in
    let y : (e.used == 0) ≡ true = ground arith in rw (z, y) here

-- A free cell and a busy one behind it, against one free cell in their place.
owned-free_behind :
    (c d e : Cell) (post : List Cell) (p : ℕ)
    → c.used ≡ 0
    → d.used ≢ 0
    → Handed
        (p + 16 + c.size + 16, d.size)
        (owned p (cell c.used (c.size + (16 + d.size)) ∷ e ∷ post))
        (owned p (c ∷ d ∷ e ∷ post))
unfolding owned
owned-free_behind c d e post p free busy =
    let z : (c.used == 0) ≡ true = ground arith in
    let y : (d.used == 0) ≡ false = ground arith in
    let far : p + 16 + (c.size + (16 + d.size)) ≡ p + 16 + c.size + 16 + d.size = omega arith in
    rw (z, y, far) here

-- The block behind is free and is not the last one.
module _ (k : Kmem) (pre : List Cell) (d e f : Cell) (post : List Cell)
    (is : IsHeap k.heap (pre ++ (d ∷ e ∷ f ∷ post))) (busy : d.used ≢ 0) (before : LastBusy 1 pre)
    (free : e.used ≡ 0) (bound : stop heap_base (pre ++ (d ∷ e ∷ f ∷ post)) < 2 ^ 32) where
  abbrev at : ℕ
  at = stop heap_base pre

  abbrev prev_of : ℕ
  prev_of = last_of 0 heap_base pre

  abbrev joint : Heap
  joint = joined (marked k.heap at) at prev_of (behind (behind at d) e) (cell 0 d.size) e.size

  joint_merge : merges (marked k.heap at) at ≡ ok joint
  unfolding put
  joint_merge =
      let h = marked k.heap at in
      let ch = marked-Chain k pre d (e ∷ f ∷ post) is busy before bound in
      let end = end-bound k pre d (e ∷ f ∷ post) is busy before bound in
      let far = le-stop (behind (behind at d) e) (f ∷ post) in
      merges-next h at (prev-busy k pre d (e ∷ f ∷ post) is busy before bound)
      ∙ merge-ok h at prev_of (behind at d) (behind (behind at d) e) (cell 0 d.size) e ch.0
          (omega arith) ch.1.0 free (omega arith) (omega arith) (omega arith) (omega arith)

  joint-Chain : Chain joint prev_of at (cell 0 (d.size + (16 + e.size)) ∷ f ∷ post)
  unfolding put
  joint-Chain =
      let h = marked k.heap at in
      let ch = marked-Chain k pre d (e ∷ f ∷ post) is busy before bound in
      let m = behind (behind at d) e in
      let far : at + 16 + (d.size + (16 + e.size)) ≡ at + 16 + d.size + 16 + e.size = omega arith in
      rw far (
        ground arith,
        Chain-set_prev h joint (behind at d) at m f post (ground arith) (λ a lt. ground arith)
            ch.1.1,
      )

  -- `kfree` of a block with a free one behind it that is not the last, and none free before it,
  -- joins the two.
  pub kfree_join_next :
      Freed k
        (pre ++ (d ∷ e ∷ f ∷ post))
        (pre ++ (cell 0 (d.size + (16 + e.size)) ∷ f ∷ post))
        (at + 16)
        d.size
        (kfree k (at + 16))
  unfolding put owned
  kfree_join_next =
      let tail = d ∷ e ∷ f ∷ post in
      let new : List Cell = cell 0 (d.size + (16 + e.size)) ∷ f ∷ post in
      let end = end-bound k pre d (e ∷ f ∷ post) is busy before bound in
      let far = le-stop (behind (behind at d) e) (f ∷ post) in
      let pos = Positive-suffix pre tail is.positive in
      let far' : at + 16 + (d.size + (16 + e.size)) ≡ at + 16 + d.size + 16 + e.size =
        omega arith in
      Freed-suffix k pre tail new (at + 16) d.size joint is
        (kfree-merges k at (base-le k pre d (e ∷ f ∷ post) is busy before bound) (omega arith) joint
          joint_merge)
        (λ a lt. ground arith)
        (λ a lt. ground (arith, le-stop (behind (behind (behind at d) e) f) post)) joint-Chain
        (λ x. refl) (ap (λ t. stop (t + 16 + f.size) post) (sym far')) (omega arith, pos.1.1)
        (rw far' (owned-free_two d e f post at busy free))

-- The block before is free, and the one behind is in use.
module _ (k : Kmem) (pre : List Cell) (c d e : Cell) (post : List Cell)
    (is : IsHeap k.heap (pre ++ (c ∷ d ∷ e ∷ post))) (free : c.used ≡ 0) (busy : d.used ≢ 0)
    (busy' : e.used ≢ 0) (bound : stop heap_base (pre ++ (c ∷ d ∷ e ∷ post)) < 2 ^ 32) where
  abbrev from : ℕ
  from = stop heap_base pre

  abbrev blk : ℕ
  blk = behind from c

  abbrev h : Heap
  h = marked k.heap blk

  abbrev united : Heap
  united = joined h from (last_of 0 heap_base pre) (behind blk d) c d.size

  whole : Chain k.heap (last_of 0 heap_base pre) from (c ∷ d ∷ e ∷ post)
  whole = Chain-suffix k.heap 0 heap_base pre (c ∷ d ∷ e ∷ post) is.chain

  from-bound : (heap_base ≤ from) × (stop (behind blk d) (e ∷ post) < 2 ^ 32)
  from-bound = (le-stop heap_base pre, omega (arith, stop-append heap_base pre (c ∷ d ∷ e ∷ post)))

  united_merge : merges h blk ≡ ok united
  unfolding put
  united_merge =
      let (low, high) = from-bound in
      let far = le-stop (behind blk d) (e ∷ post) in
      let ch = whole in
      let prev_is : (h blk).prev ≡ from = ground arith in
      let first =
        merge-ok h from (last_of 0 heap_base pre) blk (behind blk d) {r = from} c (cell 0 d.size)
          (ground arith) (omega arith) (ground arith) refl (omega arith) (omega arith) (omega arith)
          (omega arith) in
      let second = merge-busy united blk (ground arith) in
      merges-prev h blk (ground arith) (ground arith) ∙ rw (prev_is, first) second

  united-Chain :
      Chain united (last_of 0 heap_base pre) from (cell c.used (c.size + (16 + d.size)) ∷ e ∷ post)
  unfolding put
  united-Chain =
      let ch = whole in
      let far : from + 16 + (c.size + (16 + d.size)) ≡ from + 16 + c.size + 16 + d.size =
        omega arith in
      rw far (
        ground arith,
        Chain-set_prev k.heap united blk from (behind blk d) e post (ground arith)
            (λ a lt. ground arith) ch.1.1,
      )

  -- `kfree` of a block with a free one before it, and one in use behind it, joins the two.
  pub kfree_join_prev :
      Freed k
        (pre ++ (c ∷ d ∷ e ∷ post))
        (pre ++ (cell c.used (c.size + (16 + d.size)) ∷ e ∷ post))
        (blk + 16)
        d.size
        (kfree k (blk + 16))
  unfolding put
  kfree_join_prev =
      let old = c ∷ d ∷ e ∷ post in
      let new : List Cell = cell c.used (c.size + (16 + d.size)) ∷ e ∷ post in
      let (low, high) = from-bound in
      let far = le-stop (behind blk d) (e ∷ post) in
      let far' : from + 16 + (c.size + (16 + d.size)) ≡ from + 16 + c.size + 16 + d.size =
        omega arith in
      let pos = Positive-suffix pre old is.positive in
      Freed-suffix k pre old new (blk + 16) d.size united is
        (kfree-merges k blk (omega arith) (omega arith) united united_merge) (λ a lt. ground arith)
        (λ a lt. ground (arith, le-stop (behind (behind blk d) e) post)) united-Chain (λ x. refl)
        (ap (λ t. stop (t + 16 + e.size) post) (sym far')) (omega arith, pos.1.1)
        (owned-free_behind c d e post from free busy)
