-- ===== src/Kernel/Kmalloc/Chain.antt =====
-- The block list of kernel/kmalloc.c as a row of cells: each `next` leads to the block behind the
-- data, each `prev` back, and the last `next` is null.
use foos.Prelude.{
  ℕ, ◌+◌, ◌-◌, ◌^◌, ◌≤◌, ◌<◌, ◌≡◌, ◌≢◌, refl, sym, true, false, List, [], ◌∷◌, arith, Bool-cases,
  inl, inr, ◌⊎◌, leb, ◌∙◌,
}
use mathlib.Core.Path.{subst}
use foos.Machine.{sub32, u32}
use foos.Kernel.Kmalloc.{Heap, Block, blank, split, carve}
use foos.Kernel.Kmalloc.Cells.{Cell, cell, behind, stop, grab}

abbrev pub header : Cell → ℕ → ℕ → Block
header c q n = record { used = c.used; size = c.size; prev = q; next = n }

-- The `next` that leads to address `e`, or null if no cell stands there.
abbrev pub next_of : ℕ → List Cell → ℕ
next_of e [] = 0
next_of e (_ ∷ _) = e

-- From `p` on, with `q` before it, the list in `h` is the row of cells.
abbrev pub Chain : Heap → ℕ → ℕ → List Cell → Type 0
Chain h q p [] = Unit {0}
Chain h q p (c ∷ cs) = (h p ≡ header c q (next_of (behind p c) cs)) × Chain h p (behind p c) cs

-- From `e` on no memory was ever written.
abbrev pub Fresh : Heap → ℕ → Type 0
Fresh h e = (a : ℕ) → e ≤ a → h a ≡ blank

-- `h'` is `h` below address `p` and from `e` on.
abbrev pub SameOutside : ℕ → ℕ → Heap → Heap → Type 0
SameOutside p e h h' = (a : ℕ) → (a < p) ⊎ (e ≤ a) → h' a ≡ h a

pub le-stop : (p : ℕ) (cs : List Cell) → p ≤ stop p cs
le-stop p [] = omega arith
le-stop p (c ∷ cs) = omega (arith, le-stop (behind p c) cs)

-- A chain survives any change below it.
pub Chain-same :
    (h h' : Heap) (q p : ℕ) (cs : List Cell)
    → ((a : ℕ) → p ≤ a → h' a ≡ h a)
    → Chain h q p cs
    → Chain h' q p cs
Chain-same h h' q p [] same ch = tt
Chain-same h h' q p (c ∷ cs) same ch = (
  same p (omega arith) ∙ ch.0,
  Chain-same h h' p (behind p c) cs (λ a le. same a (omega arith)) ch.1,
)

-- The first cell of a chain with another block before it.
pub Chain-set_prev :
    (h h' : Heap) (q q' p : ℕ) (c : Cell) (cs : List Cell)
    → h' p ≡ record (h p) { prev = q' }
    → ((a : ℕ) → p < a → h' a ≡ h a)
    → Chain h q p (c ∷ cs)
    → Chain h' q' p (c ∷ cs)
Chain-set_prev h h' q q' p c cs here same ch =
    (ground (arith), Chain-same h h' p (behind p c) cs (λ a le. same a (omega arith)) ch.1)

-- The writes of `split`, at addresses in order.
module _ (h : Heap) (p new next size : ℕ) (lt : p < new) (lt' : new < next) where
  carve_here : carve h p new next size p ≡ record (h p) { next = new; size = size }
  unfolding carve
  carve_here = ground arith

  carve_new :
      carve h p new next size new
      ≡ record { used = 0; size = sub32 next (u32 (new + 16)); prev = p; next = next }
  unfolding carve
  carve_new = ground arith

  carve_next : carve h p new next size next ≡ record (h next) { prev = new }
  unfolding carve
  carve_next = ground arith

  carve_else : (a : ℕ) → a ≢ p → a ≢ new → a ≢ next → carve h p new next size a ≡ h a
  unfolding carve
  carve_else a n1 n2 n3 = ground arith

split-last : (h : Heap) (p size : ℕ) → (h p).next ≡ 0 → split h p size ≡ h
unfolding split
split-last h p size e = rw e

module _ (h : Heap) (q size p : ℕ) (d e : Cell) (es : List Cell) (hs : size ≤ d.size)
    (bound : stop p (d ∷ e ∷ es) + 64 ≤ 2 ^ 32) (ch : Chain h q p (cell 1 d.size ∷ e ∷ es)) where
  behind-bound : behind p d + 64 ≤ 2 ^ 32
  behind-bound = omega (arith, le-stop (behind p d) (e ∷ es))

  split-keep : leb (d.size - size) 24 ≡ true → split h p size ≡ h
  unfolding split
  split-keep small = ground (arith, behind-bound)

  split-cut :
      leb (d.size - size) 24 ≡ false → split h p size ≡ carve h p (p + 16 + size) (behind p d) size
  unfolding split
  split-cut large = ground (arith, behind-bound)

  grab-large :
      leb (d.size - size) 24 ≡ false
      → Chain
          (carve h p (p + 16 + size) (behind p d) size)
          q
          p
          (cell 1 size ∷ cell 0 (d.size - size - 16) ∷ e ∷ es)
  grab-large large =
      let lt : p < p + 16 + size = omega arith in
      let lt' : p + 16 + size < behind p d = ground arith in
      let far : p + 16 + size + 16 + (d.size - size - 16) ≡ p + 16 + d.size = ground arith in
      (
        ground (arith, carve_here h p (p + 16 + size) (behind p d) size lt lt'),
        (
          ground (arith, behind-bound, carve_new h p (p + 16 + size) (behind p d) size lt lt'),
          rw far (
              Chain-set_prev h (carve h p (p + 16 + size) (behind p d) size) p (p + 16 + size)
                (behind p d) e es (carve_next h p (p + 16 + size) (behind p d) size lt lt')
                (λ a far'.
                  carve_else h p (p + 16 + size) (behind p d) size lt lt' a (omega arith)
                    (omega arith) (omega arith))
                ch.1),
        ),
      )

-- To run a chain's proof at the heap that a call returns.
pub Chain-eq :
    (h : Heap) (q p e : ℕ) (cs : List Cell) {g g' : Heap}
    → g' ≡ g
    → Chain g q p cs × SameOutside p e h g
    → Chain g' q p cs × SameOutside p e h g'
Chain-eq h q p e cs same = subst (λ g. Chain g q p cs × SameOutside p e h g) (sym same)

-- `split` after `used = 1`: the cell is grabbed, and nothing before or behind the row changes.
pub split-grab :
    (h : Heap) (q size p : ℕ) (d : Cell) (ds : List Cell)
    → size ≤ d.size
    → stop p (d ∷ ds) + 64 ≤ 2 ^ 32
    → Chain h q p (cell 1 d.size ∷ ds)
    → Chain (split h p size) q p (grab size d ds)
      × SameOutside p (stop p (d ∷ ds)) h (split h p size)
unfolding grab
split-grab h q size p d [] hs bound ch =
    Chain-eq h q p (behind p d) (cell 1 d.size ∷ []) (split-last h p size (ground arith))
      (ch, λ a out. refl)
split-grab h q size p d (e ∷ es) hs bound ch = elim (Bool-cases (leb (d.size - size) 24)) [
  | inl small ↦ rw small (
      Chain-eq h q p (stop p (d ∷ e ∷ es)) (cell 1 d.size ∷ e ∷ es)
        (split-keep h q size p d e es hs bound ch small) (ch, λ a out. refl))
  | inr large ↦ rw large (
      Chain-eq h q p (stop p (d ∷ e ∷ es)) (cell 1 size ∷ cell 0 (d.size - size - 16) ∷ e ∷ es)
        (split-cut h q size p d e es hs bound ch large)
        (
          grab-large h q size p d e es hs bound ch large,
          λ a out.
              let far = le-stop (behind (behind p d) e) es in
              carve_else h p (p + 16 + size) (behind p d) size (omega arith) (ground arith) a
                (omega arith) (omega arith) (ground arith),
        ))
]
