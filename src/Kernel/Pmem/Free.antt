-- ===== src/Kernel/Pmem/Free.antt =====
-- `pmem_get_free` of kernel/pmem.c finds the lowest free frame of the mapped memory.
use foos.Prelude.{
  ℕ, zero, suc, ◌+◌, ◌*◌, ◌/◌, ◌%◌, ◌≤◌, ◌<◌, ◌≡◌, ◌≢◌, ◌⊎◌, ◌∙◌, Bool-cases, inl, inr, ltb, ◌==◌,
  length, get_or, arith, true, false,
}
use foos.Prelude.Bits.{bit_at-le-one}
use foos.Machine.{ok, null}
use foos.Kernel.Pmem.{Frames, page_size, mapped_memory, get_free_loop, pmem_get_free}
use foos.Kernel.Pmem.Frames.{mark, pmem_test_lem}

-- Frame `j` is the first free one from `i` on.
pub record First (fs : Frames) (i j : ℕ) : Type 0 where
  pub from : i ≤ j
  pub mapped : j < 4096
  pub free : mark fs j ≡ 0
  pub taken : (m : ℕ) → i ≤ m → m < j → mark fs m ≡ 1

-- No frame from `i` on is free.
abbrev pub Exhausted : Frames → ℕ → Type 0
Exhausted fs i = (m : ℕ) → i ≤ m → m < 4096 → mark fs m ≡ 1

ne_test : (t : ℕ) → t ≢ 0 → (t == 0) ≡ false
ne_test t h = ground arith

taken_from :
    (fs : Frames) (i m : ℕ) → mark fs i ≢ 0 → i ≤ m → (suc i ≤ m → mark fs m ≡ 1) → mark fs m ≡ 1
taken_from fs i m nz lo later = elim (Bool-cases (i == m)) [
  | inl e ↦
      let e' : i ≡ m = ground arith in
      rw (← e') (omega (arith, bit_at-le-one (i % 32) (get_or fs (i / 32) 0)))
  | inr e ↦ later (ground arith)
]

module _ (fs : Frames) (all : 128 ≤ length fs) where
  -- A round of the loop, by the mark of its frame.
  round_free :
      (fuel i : ℕ)
      → i < 4096
      → mark fs i ≡ 0
      → get_free_loop (suc fuel) fs (i * page_size) ≡ ok (i * page_size)
  unfolding get_free_loop
  round_free fuel i lt z =
      let n : i * page_size / page_size ≡ i = omega arith in
      let (t, returns, iff) = pmem_test_lem fs (i * page_size) (omega arith) in
      let below : ltb (i * page_size) mapped_memory ≡ true = ground arith in
      let t0 : t ≡ 0 = iff.1 (rw n z) in rw (below, returns, t0)

  round_taken :
      (fuel i : ℕ)
      → i < 4096
      → mark fs i ≢ 0
      → get_free_loop (suc fuel) fs (i * page_size) ≡ get_free_loop fuel fs (suc i * page_size)
  unfolding get_free_loop
  round_taken fuel i lt nz =
      let n : i * page_size / page_size ≡ i = omega arith in
      let (t, returns, iff) = pmem_test_lem fs (i * page_size) (omega arith) in
      let below : ltb (i * page_size) mapped_memory ≡ true = ground arith in
      let t1 : (t == 0) ≡ false = ne_test t (λ e. nz (rw n at (iff.0 e))) in
      let next : i * page_size + page_size ≡ suc i * page_size = omega arith in
      rw (below, returns, t1, next)

  round_past : (fuel i : ℕ) → 4096 ≤ i → get_free_loop (suc fuel) fs (i * page_size) ≡ ok null
  unfolding get_free_loop
  round_past fuel i ge =
      let past : ltb (i * page_size) mapped_memory ≡ false = ground arith in rw past

  get_free_loop_lem :
      (fuel i : ℕ)
      → i ≤ 4096
      → 4096 < fuel + i
      → ((j : ℕ) × (get_free_loop fuel fs (i * page_size) ≡ ok (j * page_size)) × First fs i j)
        ⊎ ((get_free_loop fuel fs (i * page_size) ≡ ok null) × Exhausted fs i)
  get_free_loop_lem zero i le enough = absurd (omega arith)
  get_free_loop_lem (suc fuel) i le enough = elim (Bool-cases (ltb i 4096)) [
    | inr past ↦ inr (round_past fuel i (ground arith), λ m lo hi. absurd (ground arith))
    | inl inside ↦
        let lt : i < 4096 = ground arith in
        elim (Bool-cases (mark fs i == 0)) [
          | inl z ↦
              let z' : mark fs i ≡ 0 = ground arith in
              inl (
                i,
                round_free fuel i lt z',
                record {
                  from = omega arith;
                  mapped = lt;
                  free = z';
                  taken = λ m lo hi. absurd (omega arith);
                },
              )
          | inr nz ↦
              let nz' : mark fs i ≢ 0 = ground arith in
              elim (get_free_loop_lem fuel (suc i) lt (omega arith)) [
                | inl (j, returns, first) ↦ inl (
                  j,
                  round_taken fuel i lt nz' ∙ returns,
                  record {
                    from = omega (arith, first.from);
                    mapped = first.mapped;
                    free = first.free;
                    taken = λ m lo hi. taken_from fs i m nz' lo (λ lo'. first.taken m lo' hi);
                  },
                )
                | inr (returns, none_free) ↦ inr (
                  round_taken fuel i lt nz' ∙ returns,
                  λ m lo hi. taken_from fs i m nz' lo (λ lo'. none_free m lo' hi),
                )
              ]
        ]
  ]

  -- With a word for every frame of the mapped memory, `pmem_get_free` returns the address of the
  -- first free frame, or null if no frame is free.
  pub pmem_get_free_lem :
      ((j : ℕ) × (pmem_get_free fs ≡ ok (j * page_size)) × First fs 0 j)
      ⊎ ((pmem_get_free fs ≡ ok null) × Exhausted fs 0)
  unfolding pmem_get_free
  pmem_get_free_lem = get_free_loop_lem 4097 0 (omega arith) (omega arith)
