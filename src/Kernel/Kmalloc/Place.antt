-- ===== src/Kernel/Kmalloc/Place.antt =====
-- The address arithmetic of `lookup` in kernel/kmalloc.c, without its wrap-arounds.
use native.Mathlib.Nat.{one-le-pow, div-add-mod', mul-mod_left}
use foos.Prelude.{
  ℕ, ◌+◌, ◌-◌, ◌*◌, ◌/◌, ◌%◌, ◌^◌, ◌≤◌, ◌<◌, ◌≡◌, ap, ◌∙◌, false, arith, bit_and, Bool-cases, inl,
  inr,
}
use foos.Prelude.Bits.{bit_and-high}
use foos.Machine.{u32}
use foos.Kernel.Kmalloc.{misaligned, next_place}
use foos.Kernel.Kmalloc.Cells.{is_misaligned, place, Snug}

module _ (e align : ℕ) (small : align < 32) (room : e + 2 ^ align + 64 ≤ 2 ^ 32) where
  pub misaligned-eq : misaligned e align ≡ is_misaligned e align
  misaligned-eq =
      let a : u32 (e + 16) ≡ e + 16 = omega arith in
      let b : u32 (2 ^ align) ≡ 2 ^ align = omega arith in rw (a, b)

  high_mask : u32 (0xFFFFFFFF * 2 ^ align) ≡ 2 ^ 32 - 2 ^ align
  high_mask = omega (arith, one-le-pow align 2)

  masked : bit_and e (u32 (0xFFFFFFFF * 2 ^ align)) + e % 2 ^ align ≡ e
  masked = rw high_mask (bit_and-high 32 align e (omega arith) (omega (arith, one-le-pow align 2)))

  pub next_place-place : 16 ≤ e → next_place e align ≡ place e align
  unfolding next_place place
  next_place-place h = elim (Bool-cases (is_misaligned e align)) [
    | inl m ↦ rw (misaligned-eq, m) (omega (arith, masked, one-le-pow align 2))
    | inr m ↦ rw (misaligned-eq, m)
  ]

pub place-le : (e align : ℕ) → Snug e align → e ≤ place e align
unfolding place
place-le e align snug = elim (Bool-cases (is_misaligned e align)) [
  | inl m ↦ rw m (omega (arith, snug m))
  | inr m ↦ rw m (omega arith)
]

pub place-bound : (e align : ℕ) → place e align ≤ e + 2 ^ align
unfolding place
place-bound e align = elim (Bool-cases (is_misaligned e align)) [
  | inl m ↦ rw m (omega arith)
  | inr m ↦ rw m (omega arith)
]

rounded_up : (e align : ℕ) → e - e % 2 ^ align + 2 ^ align ≡ (e / 2 ^ align + 1) * 2 ^ align
rounded_up e align = omega (arith, div-add-mod' e (2 ^ align))

pub place-aligned : (e align : ℕ) → Snug e align → is_misaligned (place e align) align ≡ false
unfolding place
place-aligned e align snug = elim (Bool-cases (is_misaligned e align)) [
  | inl m ↦
      let a : (e - e % 2 ^ align + 2 ^ align - 16 + 16) % 2 ^ align ≡ 0 =
        ap (λ (t : ℕ). t % 2 ^ align)
          (let b : e - e % 2 ^ align + 2 ^ align - 16 + 16 ≡ e - e % 2 ^ align + 2 ^ align =
              omega (arith, snug m) in
            b ∙ rounded_up e align)
        ∙ mul-mod_left (e / 2 ^ align + 1) (2 ^ align) in
      ground arith
  | inr m ↦ rw m m
]
