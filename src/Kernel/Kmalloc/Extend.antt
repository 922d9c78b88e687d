-- ===== src/Kernel/Kmalloc/Extend.antt =====
-- What `lookup` of kernel/kmalloc.c does behind the last block.
use foos.Prelude.{
  ℕ, ◌+◌, ◌-◌, ◌^◌, ◌≤◌, ◌<◌, ◌≡◌, ◌≢◌, refl, ◌∙◌, true, false, arith, Bool, [], ◌∷◌,
}
use foos.Machine.{u32}
use foos.Kernel.Kmalloc.{Heap, blank, append_block, extend}
use foos.Kernel.Kmalloc.Cells.{Cell, cell, behind, is_misaligned, place, Snug}
use foos.Kernel.Kmalloc.Chain.{header, Chain, Fresh}
use foos.Kernel.Kmalloc.Place.{misaligned-eq, next_place-place, place-le, place-bound}

-- The writes of `append_block`, behind a cell `c` at `p`.
module _ (h : Heap) (q p e size : ℕ) (c : Cell) (lt : behind p c ≤ e) (bound : e < 2 ^ 32)
    (hc : h p ≡ header c q 0) where
  append_here :
      (m : Bool)
      → (m ≡ false → e ≡ behind p c)
      → append_block h p e size m p ≡ header (cell c.used (e - (p + 16))) q e
  unfolding append_block
  append_here true tight = ground arith
  append_here false tight = ground (arith, tight refl)

  append_new : (m : Bool) → h e ≡ blank → append_block h p e size m e ≡ header (cell 0 size) p 0
  unfolding append_block
  append_new true clear = ground arith
  append_new false clear = ground arith

  append_else : (m : Bool) (a : ℕ) → a ≢ p → a ≢ e → append_block h p e size m a ≡ h a
  unfolding append_block
  append_else true a n n' = ground arith
  append_else false a n n' = ground arith

-- `extend` behind the last cell `c`: the row grows by a free cell of the size that is asked for.
pub record Extended (h : Heap) (q p : ℕ) (c : Cell) (size e : ℕ) (r : Heap × ℕ) : Type 0 where
  pub at : r.1 ≡ e
  pub chain : Chain r.0 q p (cell c.used (e - (p + 16)) ∷ cell 0 size ∷ [])
  pub below : (a : ℕ) → a < p → r.0 a ≡ h a
  pub fresh : Fresh r.0 (e + 16 + size)

append_block-Extended :
    (h : Heap) (q p e size : ℕ) (c : Cell) (m : Bool)
    → behind p c ≤ e
    → e < 2 ^ 32
    → h p ≡ header c q 0
    → (m ≡ false → e ≡ behind p c)
    → Fresh h (behind p c)
    → Extended h q p c size e (append_block h p e size m, e)
append_block-Extended h q p e size c m le bound hc tight fresh =
    let far : p + 16 + (e - (p + 16)) ≡ e = omega arith in
    record {
      at = refl;
      chain = rw far (
        append_here h q p e size c le bound hc m tight,
        (append_new h q p e size c le bound hc m (fresh e le), tt),
      );
      below = λ a lt. append_else h q p e size c le bound hc m a (omega arith) (omega arith);
      fresh = λ a lt.
          append_else h q p e size c le bound hc m a (omega arith) (omega arith)
          ∙ fresh a (omega arith);
    }

place-tight : (e align : ℕ) → is_misaligned e align ≡ false → place e align ≡ e
unfolding place
place-tight e align fits = rw fits

module _ (h : Heap) (q p : ℕ) (c : Cell) (size align : ℕ) (hc : h p ≡ header c q 0)
    (small : align < 32) (room : behind p c + 2 ^ align + 64 ≤ 2 ^ 32) where
  pub extend_lem : extend h p size align ≡ (
      let e = place (behind p c) align in
      (append_block h p e size (is_misaligned (behind p c) align), e))
  unfolding extend
  extend_lem =
      let at : u32 (p + 16 + (h p).size) ≡ behind p c = ground arith in
      rw (
        at,
        next_place-place (behind p c) align small room (omega arith),
        misaligned-eq (behind p c) align small room,
      )

  pub extend-Extended :
      Snug (behind p c) align
      → Fresh h (behind p c)
      → Extended h q p c size (place (behind p c) align) (extend h p size align)
  extend-Extended snug fresh = rw extend_lem (
      append_block-Extended h q p (place (behind p c) align) size c
        (is_misaligned (behind p c) align) (place-le (behind p c) align snug)
        (omega (arith, place-bound (behind p c) align)) hc (place-tight (behind p c) align) fresh)
