-- ===== src/Kernel/Kmalloc/Alloc.antt =====
-- What `kmalloca` and `kmalloc` of kernel/kmalloc.c promise.
use foos.Prelude.{
  ℕ, zero, suc, ◌+◌, ◌*◌, ◌%◌, ◌^◌, ◌≤◌, ◌<◌, ◌≡◌, refl, Bool-cases, inl, inr, false, arith, List,
  [], ◌∷◌, length, ◌==◌,
}
use foos.Prelude.Bits.{bit_and-ones}
use foos.Machine.{Run, ok, u32, null}
use foos.Kernel.Kmalloc.{Heap, Kmem, blank, heap_base, put, lookup, round_size, kmalloca, kmalloc}
use foos.Kernel.Kmalloc.Cells.{
  Cell, cell, stop, owned, is_misaligned, takes, first_fit, Snug, Positive,
}
use foos.Kernel.Kmalloc.Chain.{Chain, Fresh, next_of}
use foos.Kernel.Kmalloc.Lookup.{lookup-first_fit, lookup-blank, next_of-visit, next_of-grab}
use foos.Kernel.Kmalloc.Owned.{Handed, Apart, owned-Apart, first_fit-Given}

-- The list in `h` is the row `cs`, from `root` on, and memory behind it was never written.
pub record IsHeap (h : Heap) (cs : List Cell) : Type 0 where
  pub rooted : next_of 1 cs ≡ 1
  pub chain : Chain h 0 heap_base cs
  pub positive : Positive cs
  pub fresh : Fresh h (stop heap_base cs)

-- How a successful allocation ends.
pub record Allocated (k : Kmem) (cs : List Cell) (size align : ℕ) (r : Run (Kmem × ℕ))
    : Type 0 where
  pub mem : Kmem
  pub ptr : ℕ
  pub row : List Cell
  pub given : ℕ
  pub returns : r ≡ ok (mem, ptr)
  pub errno : mem.errno ≡ k.errno
  pub valid : IsHeap mem.heap row
  pub fits : size ≤ given
  pub aligned : ptr % 2 ^ align ≡ 0
  pub above : heap_base < ptr
  pub bound : ptr < 2 ^ 32
  pub ends : stop heap_base row ≤ stop heap_base cs + size + 2 ^ align + 24
  pub longer : length row ≤ length cs + 1
  pub handed : Handed (ptr, given) (owned heap_base cs) (owned heap_base row)
  pub apart : Apart heap_base (owned heap_base row)

-- `kmalloca` rounds a size up to the next multiple of eight.
pub round_size_lem :
    (size : ℕ)
    → size + 8 ≤ 2 ^ 32
    → (size ≤ round_size size) × (round_size size < size + 8) × (round_size size % 8 ≡ 0)
unfolding round_size
round_size_lem size h = ground (arith, bit_and-ones 3 size)

next_of-first_fit :
    (size align p : ℕ) (c : Cell) (cs : List Cell) → next_of 1 (first_fit size align p c cs).0 ≡ 1
unfolding first_fit
next_of-first_fit size align p c cs = elim (Bool-cases (takes size align p c)) [
  | inl t ↦ rw t (next_of-grab size c cs 1)
  | inr t ↦ rw t (next_of-visit size align p c cs 1)
]

aligned_of : (p align : ℕ) → is_misaligned p align ≡ false → (p + 16) % 2 ^ align ≡ 0
aligned_of p zero h = omega arith
aligned_of p (suc align) h = ground arith

kmalloca-ok :
    (fuel : ℕ) (k : Kmem) (size align : ℕ) (h : Heap) (p : ℕ)
    → lookup fuel k.heap null (round_size size) align ≡ ok (h, p)
    → 0 < size
    → 0 < p
    → p + 16 < 2 ^ 32
    → kmalloca fuel k size align ≡ ok (record { heap = h; errno = k.errno }, p + 16)
unfolding kmalloca
kmalloca-ok fuel k size align h p found pos above below =
    let a : (size == 0) ≡ false = ground arith in
    let b : (p == 0) ≡ false = ground arith in
    let c : u32 (p + 16) ≡ p + 16 = omega arith in rw (a, found, b, c)

pub kmalloca-Allocated :
    (fuel : ℕ) (k : Kmem) (cs : List Cell) (size align : ℕ)
    → IsHeap k.heap cs
    → 0 < size
    → align < 32
    → Snug (stop heap_base cs) align
    → stop heap_base cs + size + 2 * 2 ^ align + 256 ≤ 2 ^ 32
    → length cs < fuel
    → Allocated k cs size align (kmalloca fuel k size align)
kmalloca-Allocated fuel k [] size align is pos small snug room enough =
    absurd (omega (arith, is.rooted))
kmalloca-Allocated fuel k (c ∷ cs) size align is pos small snug room enough =
    let n = round_size size in
    let (le, lt, _) = round_size_lem size (omega (arith)) in
    let v =
      lookup-first_fit fuel k.heap c cs n align is.chain is.positive is.fresh snug small
        (omega arith) enough in
    let g = first_fit-Given n align heap_base c cs (omega arith) is.positive snug in
    record {
      mem = record { heap = v.heap; errno = k.errno };
      ptr = (first_fit n align heap_base c cs).1 + 16;
      row = (first_fit n align heap_base c cs).0;
      given = g.given;
      returns =
          kmalloca-ok fuel k size align v.heap (first_fit n align heap_base c cs).1 v.returns pos
            (omega (arith, g.above)) (omega (arith, g.bound));
      errno = refl;
      valid = record {
        rooted = next_of-first_fit n align heap_base c cs;
        chain = v.chain;
        positive = g.positive;
        fresh = v.fresh;
      };
      fits = omega (arith, g.fits);
      aligned = aligned_of (first_fit n align heap_base c cs).1 align g.aligned;
      above = omega (arith, g.above);
      bound = omega (arith, g.bound);
      ends = omega (arith, g.ends);
      longer = g.longer;
      handed = g.handed;
      apart = owned-Apart heap_base _;
    }

-- Without alignment the block behind the row needs no gap, so `kmalloc` promises the same on every
-- heap that is a row of cells with room behind it.
pub kmalloc-Allocated :
    (fuel : ℕ) (k : Kmem) (cs : List Cell) (size : ℕ)
    → IsHeap k.heap cs
    → 0 < size
    → stop heap_base cs + size + 258 ≤ 2 ^ 32
    → length cs < fuel
    → Allocated k cs size 0 (kmalloc fuel k size)
unfolding kmalloc
kmalloc-Allocated fuel k cs size is pos room enough =
    kmalloca-Allocated fuel k cs size 0 is pos (omega arith) (λ m. cc) (omega arith) enough

-- The first call, on a heap that was never written: the root block is given its size.
pub kmalloc_first :
    (fuel : ℕ) (k : Kmem) (size : ℕ)
    → ((a : ℕ) → k.heap a ≡ blank)
    → 0 < size
    → size + 8 ≤ 2 ^ 32
    → (h : Heap) × (kmalloc (suc fuel) k size
        ≡ ok (record { heap = h; errno = k.errno }, heap_base + 16))
      × IsHeap h (cell 1 (round_size size) ∷ [])
unfolding kmalloc put
kmalloc_first fuel k size clear pos room =
    let n = round_size size in
    let (le, lt, _) = round_size_lem size (omega arith) in
    let h = put k.heap heap_base (record { used = 1; size = n; prev = 0; next = 0 }) in
    (
      h,
      kmalloca-ok (suc fuel) k size 0 h heap_base
          (lookup-blank fuel k.heap n (clear heap_base) (omega arith)) pos (omega arith)
          (omega arith),
      record {
        rooted = refl;
        chain = (ground arith, tt);
        positive = (omega arith, tt);
        fresh = λ a far. ground (arith, clear a);
      },
    )
