-- ===== src/Kernel/Kmalloc/Free.antt =====
-- What `kfree` of kernel/kmalloc.c does to a row of cells, by the state of the two neighbours.
use foos.Prelude.{
  ℕ, ◌+◌, ◌^◌, ◌≤◌, ◌<◌, ◌≡◌, ◌≢◌, refl, sym, ◌∙◌, List, [], ◌∷◌, ◌++◌, arith, inl, ◌==◌, ◌⊎◌, true,
  false, ltb,
}
use foos.Machine.{Run, ok, fault, ◌>>=◌, sub32}
use foos.Kernel.Kmalloc.{Heap, Kmem, heap_base, put, merge, merges, kfree}
use foos.Kernel.Kmalloc.Cells.{Cell, cell, behind, stop, owned, Positive}
use foos.Kernel.Kmalloc.Chain.{Chain, next_of, Chain-same, le-stop}
use foos.Kernel.Kmalloc.Owned.{Handed, here}
use foos.Kernel.Kmalloc.Rows.{
  last_of, LastBusy, stop-append, Positive-append, Positive-prefix, Positive-suffix, next_of-append,
  Chain-suffix, Chain-replace, last_of-busy, last_of-lt, Handed-owned,
}
use foos.Kernel.Kmalloc.Merge.{merge-last, merge-busy}
use foos.Kernel.Kmalloc.Alloc.{IsHeap}

-- How a release ends: the row is `after`, and just the block at `ptr` has left the blocks in use.
pub record Freed (k : Kmem) (before after : List Cell) (ptr size : ℕ) (r : Run Kmem) : Type 0 where
  pub mem : Kmem
  pub returns : r ≡ ok mem
  pub errno : mem.errno ≡ k.errno
  pub valid : IsHeap mem.heap after
  pub released : Handed (ptr, size) (owned heap_base after) (owned heap_base before)

-- `used = 0`, the first write of `kfree`.
abbrev pub marked : Heap → ℕ → Heap
marked h p = put h p (record (h p) { used = 0 })

module _ (k : Kmem) (p : ℕ) (above : heap_base ≤ p) (below : p + 16 < 2 ^ 32) where
  pub kfree-merges :
      (h : Heap) → merges (marked k.heap p) p ≡ ok h → kfree k (p + 16) ≡ ok (record k { heap = h })
  unfolding kfree
  kfree-merges h e =
      let t : ltb heap_base (p + 16) ≡ true = ground arith in
      let b : sub32 (p + 16) 16 ≡ p = omega arith in rw (t, b, e)

  pub kfree-merges_fault : merges (marked k.heap p) p ≡ fault → kfree k (p + 16) ≡ fault
  unfolding kfree
  kfree-merges_fault e =
      let t : ltb heap_base (p + 16) ≡ true = ground arith in
      let b : sub32 (p + 16) 16 ≡ p = omega arith in rw (t, b, e)

-- With no free block before it, only the block behind is looked at.
pub merges-next :
    (h : Heap) (p : ℕ) → ((h p).prev ≡ 0) ⊎ ((h (h p).prev).used ≢ 0) → merges h p ≡ merge h p
unfolding merges
merges-next h p busy = ground arith

pub merges-prev :
    (h : Heap) (p : ℕ)
    → (h p).prev ≢ 0
    → (h (h p).prev).used ≡ 0
    → merges h p ≡ (merge h (h p).prev >>= λ h'. merge h' p)
unfolding merges
merges-prev h p nz free = let a : ((h p).prev == 0) ≡ false = ground arith in rw (a, free)

-- A release that changes only the end of the row.
pub Freed-suffix :
    (k : Kmem) (pre old new : List Cell) (ptr size : ℕ) (h : Heap)
    → IsHeap k.heap (pre ++ old)
    → kfree k ptr ≡ ok (record k { heap = h })
    → ((a : ℕ) → a < stop heap_base pre → h a ≡ k.heap a)
    → ((a : ℕ) → stop (stop heap_base pre) old ≤ a → h a ≡ k.heap a)
    → Chain h (last_of 0 heap_base pre) (stop heap_base pre) new
    → ((e : ℕ) → next_of e old ≡ next_of e new)
    → stop (stop heap_base pre) old ≡ stop (stop heap_base pre) new
    → Positive new
    → Handed (ptr, size) (owned (stop heap_base pre) new) (owned (stop heap_base pre) old)
    → Freed k (pre ++ old) (pre ++ new) ptr size (kfree k ptr)
Freed-suffix k pre old new ptr size h is ret below above ch same end pos handed = record {
  mem = record k { heap = h };
  returns = ret;
  errno = refl;
  valid = record {
    rooted = sym (next_of-append 1 pre old new (same 1)) ∙ is.rooted;
    chain = Chain-replace k.heap h 0 heap_base pre old new same below ch is.chain;
    positive = Positive-append pre new (Positive-prefix pre old is.positive) pos;
    fresh = λ a far.
        let far' : stop (stop heap_base pre) old ≤ a =
          omega (arith, stop-append heap_base pre new) in
        above a far' ∙ is.fresh a (omega (arith, stop-append heap_base pre old));
  };
  released = Handed-owned (ptr, size) heap_base pre new old handed;
}

pub owned-free :
    (p : ℕ) (d : Cell) (m : ℕ) (cs : List Cell)
    → d.used ≢ 0
    → behind p d ≡ m
    → Handed (p + 16, d.size) (owned m cs) (owned p (d ∷ cs))
unfolding owned
owned-free p d m cs busy e = let z : (d.used == 0) ≡ false = ground arith in rw (z, e) here

-- The block behind, if there is one, is in use.
abbrev pub FirstBusy : List Cell → Type 0
FirstBusy [] = Unit {0}
FirstBusy (c ∷ cs) = c.used ≢ 0

merge-alone :
    (h : Heap) (q p : ℕ) (d : Cell) (post : List Cell)
    → Chain h q p (d ∷ post)
    → FirstBusy post
    → merge h p ≡ ok h
merge-alone h q p d [] ch after = merge-last h p (ground arith)
merge-alone h q p d (e ∷ es) ch after = merge-busy h p (ground arith)

module _ (k : Kmem) (pre : List Cell) (d : Cell) (post : List Cell)
    (is : IsHeap k.heap (pre ++ (d ∷ post))) (busy : d.used ≢ 0) (before : LastBusy 1 pre)
    (bound : stop heap_base (pre ++ (d ∷ post)) < 2 ^ 32) where
  abbrev pub p : ℕ
  p = stop heap_base pre

  pub suffix : Chain k.heap (last_of 0 heap_base pre) p (d ∷ post)
  suffix = Chain-suffix k.heap 0 heap_base pre (d ∷ post) is.chain

  pub base-le : heap_base ≤ p
  base-le = le-stop heap_base pre

  pub end-bound : stop (behind p d) post < 2 ^ 32
  end-bound = omega (arith, stop-append heap_base pre (d ∷ post))

  pub prev-busy : let h = marked k.heap p in ((h p).prev ≡ 0) ⊎ ((h (h p).prev).used ≢ 0)
  unfolding put
  prev-busy = ground (
    arith,
    suffix.0,
    last_of-busy k.heap 0 heap_base 1 pre (d ∷ post) before (λ nz. inl refl) is.chain,
    last_of-lt 0 heap_base pre (omega arith),
  )

  pub marked-Chain : Chain (marked k.heap p) (last_of 0 heap_base pre) p (cell 0 d.size ∷ post)
  unfolding put
  marked-Chain =
      let h = marked k.heap p in
      (
        ground (arith, suffix.0),
        Chain-same k.heap h p (behind p d) post (λ a lt. ground arith) suffix.1,
      )

  -- `kfree` of a block whose neighbours are in use, or absent, just marks it free.
  pub kfree_alone :
      FirstBusy post
      → Freed k
          (pre ++ (d ∷ post))
          (pre ++ (cell 0 d.size ∷ post))
          (p + 16)
          d.size
          (kfree k (p + 16))
  unfolding put owned
  kfree_alone after =
      let h = marked k.heap p in
      let far = le-stop (behind p d) post in
      let done =
        merges-next h p prev-busy
        ∙ merge-alone h (last_of 0 heap_base pre) p (cell 0 d.size) post marked-Chain after in
      Freed-suffix k pre (d ∷ post) (cell 0 d.size ∷ post) (p + 16) d.size h is
        (kfree-merges k p base-le (omega (arith, end-bound)) h done) (λ a lt. ground arith)
        (λ a lt. ground arith) marked-Chain (λ e. refl) refl
        (Positive-suffix pre (d ∷ post) is.positive) (owned-free p d (behind p d) post busy refl)
