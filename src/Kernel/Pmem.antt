-- ===== src/Kernel/Pmem.antt =====
-- The page frame allocator of kernel/pmem.c: one bit a frame, in `frame_set`. The pointer to a page
-- table entry is modelled by the entry that it leads to.
pub mod Frames
pub mod Free
pub mod Map
mod Tests
use foos.Prelude.{
  ℕ, zero, suc, ◌+◌, ◌-◌, ◌*◌, ◌/◌, ◌%◌, ◌^◌, List, if◌then◌else◌, ltb, ◌==◌, get_or, set, length,
  bit_and, bit_or, replicate,
}
use foos.Machine.{Run, ok, fault, out_of_fuel, ◌>>=◌, null}

-- include/cpu/memory.h
abbrev pub page_size : ℕ
page_size = 0x1000

abbrev pub mapped_memory : ℕ
mapped_memory = 0x1000000

abbrev pub p_present : ℕ
p_present = 0x1

abbrev pub p_writable : ℕ
p_writable = 0x2

-- `frame_set`, as 32-bit words.
abbrev pub Frames : Type 0
Frames = List ℕ

-- `BIT_INDEX` and `BIT_OFFSET` of the frame of an address.
abbrev pub word_of : ℕ → ℕ
word_of addr = addr / page_size / 32

abbrev pub offset_of : ℕ → ℕ
offset_of addr = addr / page_size % 32

-- A word of `frame_set`; there is none beyond its end.
abbrev pub word_at : Frames → ℕ → Run ℕ
word_at fs i = if ltb i (length fs) then ok (get_or fs i 0) else fault

unfoldable pub pmem_set : Frames → ℕ → Run Frames
pmem_set fs addr = do
  w ← word_at fs (word_of addr)
  ok (set fs (word_of addr) (bit_or w (2 ^ offset_of addr)))

unfoldable pub pmem_clear : Frames → ℕ → Run Frames
pmem_clear fs addr = do
  w ← word_at fs (word_of addr)
  ok (set fs (word_of addr) (bit_and w (2 ^ 32 - 1 - 2 ^ offset_of addr)))

-- Nonzero for a frame that is in use.
unfoldable pub pmem_test : Frames → ℕ → Run ℕ
pmem_test fs addr = do w ← word_at fs (word_of addr); ok (bit_and w (2 ^ offset_of addr))

-- `pmem_init`: a page of zeros, that is 1024 words.
unfoldable pub pmem_init : Frames
pmem_init = replicate 1024 0

-- The loop of `pmem_get_free`, one unit of fuel a round.
unfoldable pub get_free_loop : ℕ → Frames → ℕ → Run ℕ
unfolding pmem_test
get_free_loop zero fs addr = out_of_fuel
get_free_loop (suc fuel) fs addr =
    let rest = get_free_loop fuel fs (addr + page_size) in
    if ltb addr mapped_memory
    then (do t ← pmem_test fs addr; if t == 0 then ok addr else rest)
    else ok null

unfoldable pub pmem_get_free : Frames → Run ℕ
unfolding get_free_loop
pmem_get_free fs = get_free_loop 4097 fs 0

-- `*pg |= (size_t)physaddr | P_PRESENT | flags`, on the entry `*pg`; the new entry is returned.
unfoldable pub pmem_map : Frames → ℕ → ℕ → ℕ → Run (Frames × ℕ)
unfolding pmem_get_free pmem_set
pmem_map fs pg physaddr flags = do
  at ← if physaddr == null then pmem_get_free fs else ok physaddr
  fs' ← pmem_set fs at
  ok (fs', bit_or pg (bit_or (bit_or at p_present) flags))
