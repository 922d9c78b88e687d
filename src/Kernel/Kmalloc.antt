-- ===== src/Kernel/Kmalloc.antt =====
-- The heap allocator of kernel/kmalloc.c. A `struct block` stands at its address in a map, so its
-- four header words are one record; what callers store in the data behind a header is not
-- represented. Lines logged on the serial port are left out.
pub mod Cells
pub mod Chain
pub mod Place
pub mod Extend
pub mod Lookup
pub mod Owned
pub mod Disjoint
pub mod Alloc
pub mod Rows
pub mod Merge
pub mod Free
pub mod Join
pub mod Misuse
pub mod Info
mod Tests
use foos.Prelude.{
  ℕ, zero, suc, ◌+◌, ◌*◌, ◌/◌, ◌%◌, ◌^◌, Bool, not, ◌&&◌, ◌||◌, ltb, leb, ◌==◌, if◌then◌else◌,
  bit_and,
}
use foos.Machine.{Run, ok, fault, hang, out_of_fuel, ◌>>=◌, u32, sub32, null, einval, enomem}

abbrev pub heap_base : ℕ
heap_base = 0x400000

-- `BLOCKSIZ`, the offset of `data` in a block.
abbrev pub blocksiz : ℕ
blocksiz = 16

-- `struct block`, less its data.
pub record Block : Type 0 where
  pub used : ℕ
  pub size : ℕ
  pub prev : ℕ
  pub next : ℕ

-- What stands in memory that was never written.
abbrev pub blank : Block
blank = record { used = 0; size = 0; prev = 0; next = 0 }

abbrev pub Heap : Type 0
Heap = ℕ → Block

unfoldable pub put : Heap → ℕ → Block → Heap
put h p b a = if a == p then b else h a

-- `new->next->prev = p`, through a pointer that may be null.
unfoldable pub set_prev : Heap → ℕ → ℕ → Run Heap
set_prev h q p = if q == null then fault else ok (put h q (record (h q) { prev = p }))

-- The first two writes of `merge`: `blk` takes in the size and the `next` of the block behind it.
unfoldable pub absorb : Heap → ℕ → Heap
unfolding put
absorb h blk =
    let n = (h blk).next in
    let h1 = put h blk (record (h blk) { size = u32 ((h blk).size + (blocksiz + (h n).size)) }) in
    put h1 blk (record (h1 blk) { next = (h1 (h1 blk).next).next })

unfoldable pub merge : Heap → ℕ → Run Heap
merge h blk =
    if not ((h blk).next == null) && (h (h blk).next).used == 0
    then (let h' = absorb h blk in set_prev h' (h' blk).next blk)
    else ok h

-- The writes of `split`: a free block `new` between `blk` and `after`.
unfoldable pub carve : Heap → ℕ → ℕ → ℕ → ℕ → Heap
unfolding put
carve h blk new after size =
    let h1 =
      put h new (record (h new) { next = after; size = sub32 after (u32 (new + blocksiz)) }) in
    let h2 = put h1 after (record (h1 after) { prev = new }) in
    let h3 = put h2 new (record (h2 new) { prev = blk; used = 0 }) in
    put h3 blk (record (h3 blk) { next = new; size = size })

-- `assert(blk != NULL)` holds: `lookup` passes the address of a block.
unfoldable pub split : Heap → ℕ → ℕ → Heap
split h blk size =
    let delta = sub32 (h blk).size size in
    let new = u32 (blk + blocksiz + size) in
    if (h blk).next == null || leb delta (blocksiz + 8)
    then h
    else carve h blk new (h blk).next size

-- `(size_t)p->data % (1 << align)` is not zero, for a nonzero `align`.
abbrev pub misaligned : ℕ → ℕ → Bool
misaligned p align = not (align == 0) && not (u32 (p + blocksiz) % u32 (2 ^ align) == 0)

-- Where `lookup` puts a block behind the last one.
unfoldable pub next_place : ℕ → ℕ → ℕ
next_place p align =
    if misaligned p align
    then sub32 (u32 (bit_and p (u32 (0xFFFFFFFF * 2 ^ align)) + u32 (2 ^ align))) blocksiz
    else p

-- The writes that create a block at `p` behind `blk`; `moved` if alignment moved it.
unfoldable pub append_block : Heap → ℕ → ℕ → ℕ → Bool → Heap
unfolding put
append_block h blk p size moved =
    let h1 =
      if moved
      then put h blk (record (h blk) { size = sub32 p (u32 (blk + blocksiz)); next = p })
      else put h blk (record (h blk) { next = p }) in
    let h2 = put h1 p (record (h1 p) { prev = blk }) in put h2 p (record (h2 p) { size = size })

-- The branch of `lookup` in which `*ptr` is null: a block is created behind `blk`.
unfoldable pub extend : Heap → ℕ → ℕ → ℕ → Heap × ℕ
extend h blk size align =
    let at = u32 (blk + blocksiz + (h blk).size) in
    let p = next_place at align in (append_block h blk p size (misaligned at align), p)

-- `lookup`, one unit of fuel a call. `root` is never null, so `*ptr` is null only behind a block.
unfoldable pub lookup : ℕ → Heap → ℕ → ℕ → ℕ → Run (Heap × ℕ)
unfolding extend append_block split carve next_place
lookup zero h blk size align = out_of_fuel
lookup (suc fuel) h blk size align =
    let cur = if blk == null then heap_base else (h blk).next in
    let (h', p) = if cur == null then extend h blk size align else (h, cur) in
    let again = lookup fuel h' p size align in
    let taken = put h' p (record (h' p) { used = 1 }) in
    if leb size (h' p).size && (h' p).used == 0
    then (if misaligned p align then again else ok (split taken p size, p))
    else if (h' p).size == 0 && align == 0
    then ok (put h' p (record (h' p) { size = size; used = 1 }), p)
    else again

-- The heap with `errno`, which `kmalloca` sets.
pub record Kmem : Type 0 where
  pub heap : Heap
  pub errno : ℕ

-- `size = (size & 0x7) ? ((size >> 3) + 1) << 3 : size`
unfoldable pub round_size : ℕ → ℕ
round_size size = if bit_and size 7 == 0 then size else u32 ((size / 2 ^ 3 + 1) * 2 ^ 3)

unfoldable pub kmalloca : ℕ → Kmem → ℕ → ℕ → Run (Kmem × ℕ)
kmalloca fuel k size align = if size == 0 then ok (record k { errno = einval }, null) else do
  (h, p) ← lookup fuel k.heap null (round_size size) align
  let errno = if p == null then enomem else k.errno
  ok (record { heap = h; errno = errno }, u32 (p + blocksiz))

unfoldable pub kmalloc : ℕ → Kmem → ℕ → Run (Kmem × ℕ)
kmalloc fuel k size = kmalloca fuel k size 0

-- What `kfree` does behind its first write.
unfoldable pub merges : Heap → ℕ → Run Heap
merges h blk = do
  h' ←
      if not ((h blk).prev == null) && (h (h blk).prev).used == 0
      then merge h (h blk).prev
      else ok h
  merge h' blk

unfoldable pub kfree : Kmem → ℕ → Run Kmem
unfolding put
kfree k ptr =
    if ltb heap_base ptr
    then (let blk = sub32 ptr blocksiz in
        do
          h ← merges (put k.heap blk (record (k.heap blk) { used = 0 })) blk
          ok (record k { heap = h }))
    else hang
