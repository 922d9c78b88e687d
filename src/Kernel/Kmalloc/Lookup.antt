-- ===== src/Kernel/Kmalloc/Lookup.antt =====
-- `lookup` of kernel/kmalloc.c is first fit on the row of cells.
use foos.Prelude.{
  ℕ, zero, suc, ◌+◌, ◌-◌, ◌*◌, ◌^◌, ◌≤◌, ◌<◌, ◌≡◌, ◌≢◌, refl, ap, ◌∙◌, true, false, arith,
  Bool-cases, inl, inr, if◌then◌else◌, leb, ◌==◌, ◌&&◌, length, List, [], ◌∷◌,
}
use foos.Machine.{Run, ok, null}
use foos.Kernel.Kmalloc.{Heap, blank, heap_base, put, misaligned, extend, lookup, split}
use foos.Kernel.Kmalloc.Cells.{
  Cell, cell, behind, stop, is_misaligned, place, Snug, visit, takes, first_fit, grab, Positive,
}
use foos.Kernel.Kmalloc.Chain.{header, next_of, Chain, Fresh, Chain-same, le-stop, split-grab}
use foos.Kernel.Kmalloc.Place.{misaligned-eq, place-le, place-bound, place-aligned}
use foos.Kernel.Kmalloc.Extend.{Extended, extend-Extended}

-- What `lookup` does once `*ptr` is known to be `p`.
abbrev serve : Heap → ℕ → ℕ → ℕ → Run (Heap × ℕ) → Run (Heap × ℕ)
serve g p size align again =
    if leb size (g p).size && (g p).used == 0
    then (if misaligned p align
        then again
        else ok (split (put g p (record (g p) { used = 1 })) p size, p))
    else if (g p).size == 0 && align == 0
    then ok (put g p (record (g p) { size = size; used = 1 }), p)
    else again

module _ (fuel : ℕ) (h : Heap) (p size align : ℕ) (nz : p ≢ 0) where
  lookup_last :
      (h p).next ≡ 0
      → let (g, e) = extend h p size align in
        lookup (suc fuel) h p size align ≡ serve g e size align (lookup fuel g e size align)
  unfolding lookup
  lookup_last e = let t : (p == 0) ≡ false = ground arith in rw (t, e)

  lookup_next :
      (n : ℕ)
      → (h p).next ≡ n
      → n ≢ 0
      → lookup (suc fuel) h p size align ≡ serve h n size align (lookup fuel h n size align)
  unfolding lookup
  lookup_next n e ne =
      let t : (p == 0) ≡ false = ground arith in
      let t' : (n == 0) ≡ false = ground arith in rw (t, e, t')

lookup_root :
    (fuel : ℕ) (h : Heap) (size align : ℕ)
    → lookup (suc fuel) h null size align
      ≡ serve h heap_base size align (lookup fuel h heap_base size align)
unfolding lookup
lookup_root fuel h size align = refl

module _ (g : Heap) (q p n size align : ℕ) (d : Cell) (again : Run (Heap × ℕ))
    (hd : g p ≡ header d q n) (small : align < 32) (room : p + 2 ^ align + 64 ≤ 2 ^ 32) where
  serve-takes :
      takes size align p d ≡ true
      → (size ≤ d.size)
        × (serve g p size align again ≡ ok (split (put g p (header (cell 1 d.size) q n)) p size, p))
  serve-takes h = (ground arith, ground (arith, misaligned-eq p align small room))

  serve-skips : takes size align p d ≡ false → 0 < d.size → serve g p size align again ≡ again
  serve-skips h pos = ground (arith, misaligned-eq p align small room)

-- How `lookup` ends: the list in the new heap is the row `out`, the block at `a` is handed out, and
-- memory before `p` and behind the row is as it was.
pub record Visited (h : Heap) (q p : ℕ) (out : List Cell × ℕ) (r : Run (Heap × ℕ)) : Type 0 where
  pub heap : Heap
  pub returns : r ≡ ok (heap, out.1)
  pub chain : Chain heap q p out.0
  pub below : (a : ℕ) → a < p → heap a ≡ h a
  pub fresh : Fresh heap (stop p out.0)

stop-grab :
    (size p : ℕ) (d : Cell) (ds : List Cell)
    → size ≤ d.size
    → stop p (grab size d ds) ≡ stop p (d ∷ ds)
unfolding grab
stop-grab size p d [] le = refl
stop-grab size p d (e ∷ es) le = elim (Bool-cases (leb (d.size - size) 24)) [
  | inl small ↦ rw small
  | inr large ↦
      let far : p + 16 + size + 16 + (d.size - size - 16) ≡ p + 16 + d.size = ground arith in
      rw large (ap (λ t. stop (t + 16 + e.size) es) far)
]

taken-Visited :
    (g : Heap) (q p size align : ℕ) (d : Cell) (ds : List Cell) (again : Run (Heap × ℕ))
    → Chain g q p (d ∷ ds)
    → takes size align p d ≡ true
    → align < 32
    → stop p (d ∷ ds) + 2 ^ align + 64 ≤ 2 ^ 32
    → Fresh g (stop p (d ∷ ds))
    → Visited g q p (grab size d ds, p) (serve g p size align again)
unfolding put
taken-Visited g q p size align d ds again ch t small room fresh =
    let n = next_of (behind p d) ds in
    let g' = put g p (header (cell 1 d.size) q n) in
    let far = le-stop (behind p d) ds in
    let (le, eq) = serve-takes g q p n size align d again ch.0 small (omega arith) t in
    let ch' : Chain g' q p (cell 1 d.size ∷ ds) =
      (ground arith, Chain-same g g' p (behind p d) ds (λ a lt. ground arith) ch.1) in
    let (chain, same) = split-grab g' q size p d ds le (omega arith) ch' in
    record {
      heap = split g' p size;
      returns = eq;
      chain = chain;
      below = λ a lt. same a (inl lt) ∙ ground arith;
      fresh =
          rw (stop-grab size p d ds le)
            (λ a lt. same a (inr lt) ∙ (let e : g' a ≡ g a = ground arith in e) ∙ fresh a lt);
    }

-- The last cell of the row was passed over: a block is created behind it, and handed out.
grown-Visited :
    (h : Heap) (q p e size align : ℕ) (c : Cell) (r : Heap × ℕ) (again : Run (Heap × ℕ))
    → Extended h q p c size e r
    → is_misaligned e align ≡ false
    → p + 16 ≤ e
    → align < 32
    → e + size + 2 ^ align + 128 ≤ 2 ^ 32
    → Visited h q p
        (cell c.used (e - (p + 16)) ∷ cell 1 size ∷ [], e)
        (serve r.0 r.1 size align again)
unfolding grab
grown-Visited h q p e size align c r again x fit le small room =
    let far : p + 16 + (e - (p + 16)) ≡ e = omega arith in
    let ch : Chain r.0 p e (cell 0 size ∷ []) = rw far at x.chain.1 in
    let v =
      taken-Visited r.0 p e size align (cell 0 size) [] again ch (ground arith) small (omega arith)
        (λ a lt. x.fresh a (omega arith)) in
    record {
      heap = v.heap;
      returns = rw x.at v.returns;
      chain = (v.below p (omega arith) ∙ x.chain.0, rw far v.chain);
      below = λ a lt. v.below a (omega arith) ∙ x.below a lt;
      fresh = rw far v.fresh;
    }

pub next_of-visit :
    (size align p : ℕ) (c : Cell) (cs : List Cell) (e : ℕ)
    → next_of e (visit size align p c cs).0 ≡ e
unfolding visit
next_of-visit size align p c [] e = refl
next_of-visit size align p c (d ∷ ds) e = ground arith

pub next_of-grab : (size : ℕ) (d : Cell) (ds : List Cell) (e : ℕ) → next_of e (grab size d ds) ≡ e
unfolding grab
next_of-grab size d [] e = refl
next_of-grab size d (x ∷ xs) e = ground arith

-- A row whose first cell was passed over, once the rest of it has been visited.
skipped-Visited :
    (h : Heap) (q p : ℕ) (c : Cell) (cs : List Cell) (out : List Cell × ℕ) (r : Run (Heap × ℕ))
    → h p ≡ header c q (behind p c)
    → next_of (behind p c) out.0 ≡ behind p c
    → Visited h p (behind p c) out r
    → Visited h q p (c ∷ out.0, out.1) r
skipped-Visited h q p c cs out r hp full v = record {
  heap = v.heap;
  returns = v.returns;
  chain = (v.below p (omega arith) ∙ rw full hp, v.chain);
  below = λ a lt. v.below a (omega arith);
  fresh = v.fresh;
}

Visited-eq :
    {h : Heap} {q p : ℕ} {out : List Cell × ℕ} {r r' : Run (Heap × ℕ)}
    → r' ≡ r
    → Visited h q p out r
    → Visited h q p out r'
Visited-eq e v = record {
  heap = v.heap;
  returns = e ∙ v.returns;
  chain = v.chain;
  below = v.below;
  fresh = v.fresh;
}

-- Behind a block `p`, `lookup` is first fit on the row, with one unit of fuel a cell.
pub lookup-visit :
    (fuel : ℕ) (h : Heap) (q p : ℕ) (c : Cell) (cs : List Cell) (size align : ℕ)
    → Chain h q p (c ∷ cs)
    → Positive cs
    → Fresh h (stop p (c ∷ cs))
    → Snug (stop p (c ∷ cs)) align
    → p ≢ 0
    → align < 32
    → stop p (c ∷ cs) + size + 2 * 2 ^ align + 128 ≤ 2 ^ 32
    → length cs < fuel
    → Visited h q p (visit size align p c cs) (lookup fuel h p size align)
unfolding visit
lookup-visit zero h q p c cs size align ch pos fresh snug nz small room enough =
    absurd (omega arith)
lookup-visit (suc fuel) h q p c [] size align ch pos fresh snug nz small room enough =
    let e = place (behind p c) align in
    let x = extend-Extended h q p c size align ch.0 small (omega arith) snug fresh in
    let le = place-le (behind p c) align snug in
    let far = place-bound (behind p c) align in
    Visited-eq (lookup_last fuel h p size align nz (ground arith)) (
      grown-Visited h q p e size align c (extend h p size align) _ x
        (place-aligned (behind p c) align snug) (omega arith) small (omega arith))
lookup-visit (suc fuel) h q p c (d ∷ ds) size align ch pos fresh snug nz small room enough =
    let p' = behind p c in
    let far = le-stop p' (d ∷ ds) in
    let step = lookup_next fuel h p size align nz p' (ground arith) (omega arith) in
    let hd = ch.1.0 in
    elim (Bool-cases (takes size align p' d)) [
      | inl t ↦ rw t (
          Visited-eq step (
            skipped-Visited h q p c ds (grab size d ds, p') _ ch.0 (next_of-grab size d ds p')
              (taken-Visited h p p' size align d ds _ ch.1 t small (omega arith) fresh)))
      | inr t ↦ rw t (
          Visited-eq
            (step
              ∙ serve-skips h p p' (next_of (behind p' d) ds) size align d _ hd small
                  (omega (arith, le-stop (behind p' d) ds)) t pos.0)
            (skipped-Visited h q p c ds (visit size align p' d ds) _ ch.0
              (next_of-visit size align p' d ds p')
              (lookup-visit fuel h p p' d ds size align ch.1 pos.1 fresh snug (omega arith) small
                room (omega arith))))
    ]

-- The call of `lookup` that `kmalloca` makes is first fit on the whole row, which starts at `root`.
pub lookup-first_fit :
    (fuel : ℕ) (h : Heap) (c : Cell) (cs : List Cell) (size align : ℕ)
    → Chain h 0 heap_base (c ∷ cs)
    → Positive (c ∷ cs)
    → Fresh h (stop heap_base (c ∷ cs))
    → Snug (stop heap_base (c ∷ cs)) align
    → align < 32
    → stop heap_base (c ∷ cs) + size + 2 * 2 ^ align + 128 ≤ 2 ^ 32
    → length (c ∷ cs) < fuel
    → Visited h 0 heap_base (first_fit size align heap_base c cs) (lookup fuel h null size align)
unfolding first_fit
lookup-first_fit zero h c cs size align ch pos fresh snug small room enough = absurd (omega arith)
lookup-first_fit (suc fuel) h c cs size align ch pos fresh snug small room enough =
    let far = le-stop (behind heap_base c) cs in
    elim (Bool-cases (takes size align heap_base c)) [
      | inl t ↦ rw t (
          Visited-eq (lookup_root fuel h size align)
            (taken-Visited h 0 heap_base size align c cs _ ch t small (omega arith) fresh))
      | inr t ↦ rw t (
          Visited-eq
            (lookup_root fuel h size align
              ∙ serve-skips h 0 heap_base (next_of (behind heap_base c) cs) size align c _ ch.0
                  small (omega arith) t pos.0)
            (lookup-visit fuel h 0 heap_base c cs size align ch pos.1 fresh snug (omega arith) small
              room (omega arith)))
    ]

-- On a root that was never written `lookup` gives the root its size.
pub lookup-blank :
    (fuel : ℕ) (h : Heap) (size : ℕ)
    → h heap_base ≡ blank
    → 0 < size
    → lookup (suc fuel) h null size 0 ≡ ok (put h heap_base (header (cell 1 size) 0 0), heap_base)
lookup-blank fuel h size clear pos =
    lookup_root fuel h size 0 ∙ (let a : leb size 0 ≡ false = ground arith in rw (clear, a))
