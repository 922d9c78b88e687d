-- ===== src/Kernel/Interrupt/Gates.antt =====
-- `idt_init` of kernel/interrupt.c: where the 256 gates lead, with the vectors that `pic_remap` gives.
use foos.Prelude.{
  ℕ, zero, suc, ◌+◌, ◌*◌, ◌/◌, ◌^◌, ◌<◌, ◌≤◌, ◌≡◌, ◌≢◌, ◌⊎◌, refl, sym, ap, ◌∙◌, arith, inl, inr,
  false, ◌==◌, Bool-cases, List, none, some, length, get_or, replicate, get_or-set_self,
  get_or-set_ne, length-set, length-replicate, get_or-replicate,
}
use foos.Prelude.Bits.{bit_and-ones}
use mathlib.Core.Path.{subst}
use foos.Machine.{ok, null}
use foos.Kernel.Kmalloc.{heap_base}
use foos.Kernel.Kmalloc.Cells.{Cell, stop}
use foos.Kernel.Kmalloc.Alloc.{IsHeap, kmalloc-Allocated}
use foos.Kernel.Ports.{Ports}
use foos.Kernel.Pic.{pic1, pic2, pic_remap}
use foos.Kernel.Pic.Controller.{Chip, ready, Is8259}
use foos.Kernel.Pic.Remap.{pic_remap_lem}
use foos.Kernel.Interrupt.{Gate, no_gate, codeseg, idt_hook, hooks, Idt, irq_init, idt_init}

-- A present interrupt gate of the kernel's code segment, to the address `base`.
pub record Leads (g : Gate) (base : ℕ) : Type 0 where
  pub to : g.base_lo + 2 ^ 16 * g.base_hi ≡ base
  pub low : g.base_lo < 2 ^ 16
  pub segment : g.segment ≡ codeseg
  pub flags : g.flags ≡ 0x8E
  pub reserved : g.reserved ≡ 0

idt_hook-Leads :
    (entries : List Gate) (num base : ℕ)
    → num < length entries
    → base < 2 ^ 32
    → Leads (get_or (idt_hook entries num base codeseg 0x8E) num no_gate) base
unfolding idt_hook
idt_hook-Leads entries num base lt small = rw (get_or-set_self entries num _ no_gate lt) (record {
  to = omega (arith, bit_and-ones 16 base, bit_and-ones 16 (base / 2 ^ 16));
  low = omega (arith, bit_and-ones 16 base);
  segment = refl;
  flags = refl;
  reserved = refl;
})

length-hooks :
    (entries : List Gate) (stub : ℕ → ℕ) (from n : ℕ)
    → length (hooks entries stub from n) ≡ length entries
unfolding hooks idt_hook
length-hooks entries stub from zero = refl
length-hooks entries stub from (suc n) =
    length-set (hooks entries stub from n) (from + n) _ ∙ length-hooks entries stub from n

hooks-other :
    (entries : List Gate) (stub : ℕ → ℕ) (from n j : ℕ)
    → (j < from) ⊎ (from + n ≤ j)
    → get_or (hooks entries stub from n) j no_gate ≡ get_or entries j no_gate
unfolding hooks idt_hook
hooks-other entries stub from zero j away = refl
hooks-other entries stub from (suc n) j away =
    get_or-set_ne (hooks entries stub from n) (from + n) j _ no_gate
      (elim away [ inl lt ↦ λ e. absurd (omega arith) | inr ge ↦ λ e. absurd (omega arith) ])
    ∙ hooks-other entries stub from n j (elim away [ inl lt ↦ inl lt | inr ge ↦ inr (omega arith) ])

idt_hook-other :
    (entries : List Gate) (num base j : ℕ)
    → num ≢ j
    → get_or (idt_hook entries num base codeseg 0x8E) j no_gate ≡ get_or entries j no_gate
unfolding idt_hook
idt_hook-other entries num base j ne = get_or-set_ne entries num j _ no_gate ne

hooks-Leads :
    (entries : List Gate) (stub : ℕ → ℕ) (from n i : ℕ)
    → ((k : ℕ) → stub k < 2 ^ 32)
    → from + n ≤ length entries
    → i < n
    → Leads (get_or (hooks entries stub from n) (from + i) no_gate) (stub i)
unfolding hooks
hooks-Leads entries stub from zero i small fits lt = absurd (omega arith)
hooks-Leads entries stub from (suc n) i small fits lt =
    let before = hooks entries stub from n in
    let len = length-hooks entries stub from n in
    elim (Bool-cases (n == i)) [
      | inl same ↦
          let e : n ≡ i = ground arith in
          subst
            (λ (k : ℕ).
              Leads (get_or (idt_hook before (from + n) (stub n) codeseg 0x8E) (from + k) no_gate)
                (stub k))
            e (idt_hook-Leads before (from + n) (stub n) (omega arith) (small n))
      | inr differ ↦
          subst (λ (g : Gate). Leads g (stub i))
            (sym
              (idt_hook-other before (from + n) (stub n) (from + i) (λ e. absurd (ground arith))))
            (hooks-Leads entries stub from n i small (omega arith) (ground arith))
    ]

-- The whole table: the exceptions, the interrupts of the two controllers, and the rest.
record Tabled (int_stub irq_stub : ℕ → ℕ) (es : List Gate) : Type 0 where
  pub exceptions : (n : ℕ) → n < 32 → Leads (get_or es n no_gate) (int_stub n)
  pub irqs : (n : ℕ) → n < 16 → Leads (get_or es (0x20 + n) no_gate) (irq_stub n)
  pub rest : (n : ℕ) → 48 ≤ n → n < 256 → get_or es n no_gate ≡ no_gate
  pub size : length es ≡ 256

hooks-Tabled :
    (int_stub irq_stub : ℕ → ℕ)
    → ((k : ℕ) → int_stub k < 2 ^ 32)
    → ((k : ℕ) → irq_stub k < 2 ^ 32)
    → Tabled int_stub irq_stub (hooks (hooks (replicate 256 no_gate) int_stub 0 32) irq_stub 32 16)
hooks-Tabled int_stub irq_stub small small' =
    let blank = replicate 256 no_gate in
    let first = hooks blank int_stub 0 32 in
    let len0 : length blank ≡ 256 = length-replicate 256 no_gate in
    let len = length-hooks blank int_stub 0 32 in
    record {
      exceptions = λ n lt.
          subst (λ (g : Gate). Leads g (int_stub n))
            (sym (hooks-other first irq_stub 32 16 n (inl lt)))
            (subst (λ (k : ℕ). Leads (get_or first k no_gate) (int_stub n)) (omega arith)
              (hooks-Leads blank int_stub 0 32 n small (omega arith) lt));
      irqs = λ n lt. hooks-Leads first irq_stub 32 16 n small' (omega arith) lt;
      rest = λ n ge lt.
          hooks-other first irq_stub 32 16 n (inr (omega arith))
          ∙ hooks-other blank int_stub 0 32 n (inr (omega arith))
          ∙ get_or-replicate 256 n no_gate no_gate lt;
      size = length-hooks first irq_stub 32 16 ∙ len ∙ len0;
    }

module _ {H F : Type 0} (io : Ports H) (chip : H → ℕ → Chip) (law : Is8259 io chip)
    (int_stub irq_stub : ℕ → ℕ) (small : (k : ℕ) → int_stub k < 2 ^ 32)
    (small' : (k : ℕ) → irq_stub k < 2 ^ 32) where
  -- At start-up, with room on the heap and both controllers ready, `idt_init` makes a table of 256 gates:
  -- the exception `n` leads to the stub `int_stub n`; interrupt line `k` of the first controller leads,
  -- through the vector that the controller has then, to `irq_stub k`, and line `k` of the second to
  -- `irq_stub (8 + k)`; the gates behind them are not present. There is no handler yet, and the masks of the
  -- controllers are kept.
  pub idt_init-Leads :
      (fuel : ℕ) (s : Idt H F) (cs : List Cell)
      → s.entries ≡ none
      → s.handlers ≡ none
      → IsHeap s.kmem.heap cs
      → stop heap_base cs + 4096 ≤ 2 ^ 32
      → length cs + 1 < fuel
      → (chip s.hardware pic1).stage ≡ ready
      → (chip s.hardware pic2).stage ≡ ready
      → (out : Idt H F) × (es : List Gate) × (idt_init io int_stub irq_stub fuel s ≡ ok out)
        × (out.entries ≡ some es)
        × (out.handlers ≡ some (replicate 256 none))
        × ((n : ℕ) → n < 32 → Leads (get_or es n no_gate) (int_stub n))
        × ((k : ℕ)
            → k < 8
            → Leads (get_or es ((chip out.hardware pic1).vector + k) no_gate) (irq_stub k))
        × ((k : ℕ)
            → k < 8
            → Leads (get_or es ((chip out.hardware pic2).vector + k) no_gate) (irq_stub (8 + k)))
        × ((n : ℕ) → 48 ≤ n → n < 256 → get_or es n no_gate ≡ no_gate)
        × ((chip out.hardware pic1).mask ≡ (chip s.hardware pic1).mask)
        × ((chip out.hardware pic2).mask ≡ (chip s.hardware pic2).mask)
  unfolding idt_init irq_init
  idt_init-Leads fuel s cs no_entries no_handlers is room enough idle1 idle2 =
      let x =
        kmalloc-Allocated fuel s.kmem cs (8 * 256) is (omega arith) (omega arith) (omega arith) in
      let x_ends = x.ends in
      let x_longer = x.longer in
      let x_above = x.above in
      let y =
        kmalloc-Allocated fuel x.mem x.row (4 * 256) x.valid (omega arith) (omega arith)
          (omega arith) in
      let y_above = y.above in
      let t : (x.ptr == null) ≡ false = ground arith in
      let t' : (y.ptr == null) ≡ false = ground arith in
      let h = pic_remap io s.hardware 0x20 0x28 in
      let (one, two) =
        pic_remap_lem io chip law s.hardware 0x20 0x28 idle1 idle2 (omega arith) (omega arith) refl
          refl in
      let vector = λ (c : Chip). c.vector in
      let es = hooks (hooks (replicate 256 no_gate) int_stub 0 32) irq_stub 32 16 in
      let all = hooks-Tabled int_stub irq_stub small small' in
      (
        record s {
          kmem = y.mem;
          hardware = h;
          entries = some es;
          handlers = some (replicate 256 none);
          limit = 2047;
        },
        es,
        rw (no_entries, no_handlers, x.returns, t, y.returns, t') refl,
        refl,
        refl,
        all.exceptions,
        λ k lt.
            subst (λ (v : ℕ). Leads (get_or es (v + k) no_gate) (irq_stub k)) (sym (ap vector one))
              (all.irqs k (omega arith)),
        λ k lt.
            subst (λ (v : ℕ). Leads (get_or es (v + k) no_gate) (irq_stub (8 + k)))
              (sym (ap vector two))
              (subst (λ (j : ℕ). Leads (get_or es j no_gate) (irq_stub (8 + k))) (omega arith)
                (all.irqs (8 + k) (omega arith))),
        all.rest,
        ap (λ (c : Chip). c.mask) one,
        ap (λ (c : Chip). c.mask) two,
      )
