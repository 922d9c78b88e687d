-- ===== src/Kernel/Pmem/Frames.antt =====
-- `pmem_set`, `pmem_clear` and `pmem_test` of kernel/pmem.c as operations on a set of frames.
use native.Mathlib.Nat.{one-le-pow}
use foos.Prelude.{
  ℕ, zero, suc, ◌-◌, ◌*◌, ◌/◌, ◌%◌, ◌^◌, ◌≤◌, ◌<◌, ◌≡◌, ◌≢◌, ◌↔◌, refl, sym, ◌∙◌, ap, Bool-cases,
  inl, inr, ◌==◌, get_or, set, length, arith, length-set, get_or-set_self, get_or-set_ne, bit_and,
  bit_or,
}
use foos.Prelude.Bits.{
  bit_at, bit_at-bit_or, bit_at-bit_and, bit_at-pow_self, bit_at-pow_ne, bit_at-hole_self,
  bit_at-hole_ne, bit_and-pow, bit_at-le-one,
}
use foos.Machine.{ok}
use foos.Kernel.Pmem.{Frames, page_size, word_at, word_of, pmem_set, pmem_clear, pmem_test}

-- The mark of frame `n`: 1 if it is in use, 0 if it is free.
abbrev pub mark : Frames → ℕ → ℕ
mark fs n = bit_at (get_or fs (n / 32) 0) (n % 32)

-- `gs` is `fs` but for the mark `b` of frame `n`.
pub record Marked (fs gs : Frames) (n b : ℕ) : Type 0 where
  pub same_length : length gs ≡ length fs
  pub here : mark gs n ≡ b
  pub elsewhere : (m : ℕ) → m ≢ n → mark gs m ≡ mark fs m

-- The frame of an address has its word in `frame_set`.
abbrev pub Covered : Frames → ℕ → Type 0
Covered fs addr = word_of addr < length fs

zero_of_mul : (a b : ℕ) → 1 ≤ b → a * b ≡ 0 → a ≡ 0
zero_of_mul zero b h e = refl
zero_of_mul (suc a) b h e = absurd (grind arith)

zero_mul : (b : ℕ) → 0 * b ≡ 0
zero_mul b = omega arith

word_at-ok : (fs : Frames) (i : ℕ) → i < length fs → word_at fs i ≡ ok (get_or fs i 0)
word_at-ok fs i h = ground arith

module _ (fs : Frames) (n w' : ℕ) (inside : n / 32 < length fs) where
  mark-set : (b : ℕ) → bit_at w' (n % 32) ≡ b → mark (set fs (n / 32) w') n ≡ b
  mark-set b e = rw (get_or-set_self fs (n / 32) w' 0 inside) e

  mark-set_ne :
      (m : ℕ)
      → m ≢ n
      → ((k : ℕ) → k < 32 → k ≢ n % 32 → bit_at w' k ≡ bit_at (get_or fs (n / 32) 0) k)
      → mark (set fs (n / 32) w') m ≡ mark fs m
  mark-set_ne m ne keep = elim (Bool-cases (m / 32 == n / 32)) [
    | inl e ↦
        let q : m / 32 ≡ n / 32 = ground arith in
        rw (q, get_or-set_self fs (n / 32) w' 0 inside)
          (keep (m % 32) (omega arith) (λ r. ne (omega arith)))
    | inr e ↦ rw (get_or-set_ne fs (n / 32) (m / 32) w' 0 (ground arith))
  ]

module _ (fs : Frames) (addr : ℕ) (inside : Covered fs addr) where
  abbrev n : ℕ
  n = addr / page_size

  abbrev w : ℕ
  w = get_or fs (word_of addr) 0

  -- `pmem_set` marks the frame of the address as in use, and no other.
  pub pmem_set-Marked : (gs : Frames) × (pmem_set fs addr ≡ ok gs) × Marked fs gs n 1
  unfolding pmem_set
  pmem_set-Marked =
      let w' = bit_or w (2 ^ (n % 32)) in
      let k = n % 32 in
      (
        set fs (n / 32) w',
        rw (word_at-ok fs (word_of addr) inside),
        record {
          same_length = length-set fs (n / 32) w';
          here =
              mark-set fs n w' inside 1
                (omega (arith, bit_at-bit_or k w (2 ^ k), bit_at-pow_self k, bit_at-le-one k w));
          elsewhere = λ m ne. mark-set_ne fs n w' inside m ne (λ j lt nj.
              omega (arith, bit_at-bit_or j w (2 ^ k), bit_at-pow_ne k j (λ e. nj (sym e))));
        },
      )

  -- `pmem_clear` marks the frame of the address as free, and no other.
  pub pmem_clear-Marked : (gs : Frames) × (pmem_clear fs addr ≡ ok gs) × Marked fs gs n 0
  unfolding pmem_clear
  pmem_clear-Marked =
      let k = n % 32 in
      let w' = bit_and w (2 ^ 32 - 1 - 2 ^ k) in
      (
        set fs (n / 32) w',
        rw (word_at-ok fs (word_of addr) inside),
        record {
          same_length = length-set fs (n / 32) w';
          here = mark-set fs n w' inside 0 (
              omega (
                arith,
                bit_at-bit_and k w (2 ^ 32 - 1 - 2 ^ k),
                bit_at-hole_self 32 k (omega arith),
              ));
          elsewhere = λ m ne. mark-set_ne fs n w' inside m ne (λ j lt nj. omega (
            arith,
            bit_at-bit_and j w (2 ^ 32 - 1 - 2 ^ k),
            bit_at-hole_ne 32 k j (omega arith) lt (λ e. nj (sym e)),
            bit_at-le-one j w,
          ));
        },
      )

  -- `pmem_test` returns zero exactly for a frame that is free.
  pub pmem_test_lem : (t : ℕ) × (pmem_test fs addr ≡ ok t) × ((t ≡ 0) ↔ (mark fs n ≡ 0))
  unfolding pmem_test
  pmem_test_lem =
      let k = n % 32 in
      (
        bit_and w (2 ^ k),
        rw (word_at-ok fs (word_of addr) inside),
        (
          λ z.
              zero_of_mul (bit_at w k) (2 ^ k) (one-le-pow k 2 (omega arith))
                (sym (bit_and-pow k w) ∙ z),
          λ z. bit_and-pow k w ∙ ap (λ (t : ℕ). t * 2 ^ k) z ∙ zero_mul (2 ^ k),
        ),
      )
