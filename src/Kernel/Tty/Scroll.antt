-- ===== src/Kernel/Tty/Scroll.antt =====
-- The scrolling of kernel/dev/tty.c.
use foos.Prelude.{
  ℕ, zero, suc, ◌+◌, ◌-◌, ◌*◌, ◌≤◌, ◌<◌, ◌≡◌, ◌≢◌, ◌⊎◌, inl, inr, refl, ◌∙◌, arith, Bool-cases, ltb,
  ◌==◌,
}
use foos.Kernel.Tty.{Memory, vga_base, space, poke, copy_line, shift_lines, clean, scroll}

copy_line_in :
    (m : Memory) (i a : ℕ)
    → vga_base + (i - 1) * 80 ≤ a
    → a < vga_base + (i - 1) * 80 + 80
    → copy_line m i a ≡ m (a + 80)
unfolding copy_line
copy_line_in m i a lo hi = ground arith

copy_line_out :
    (m : Memory) (i a : ℕ)
    → (a < vga_base + (i - 1) * 80) ⊎ (vga_base + (i - 1) * 80 + 80 ≤ a)
    → copy_line m i a ≡ m a
unfolding copy_line
copy_line_out m i a out = ground arith

shift_lines_out :
    (n i : ℕ) (m : Memory) (a : ℕ)
    → (a < vga_base + i * 80) ⊎ (vga_base + (i + n) * 80 ≤ a)
    → shift_lines n (suc i) m a ≡ m a
unfolding shift_lines
shift_lines_out zero i m a out = refl
shift_lines_out (suc n) i m a out =
    shift_lines_out n (suc i) (copy_line m (suc i)) a (ground arith)
    ∙ copy_line_out m (suc i) a (ground arith)

shift_lines_in :
    (n i : ℕ) (m : Memory) (a : ℕ)
    → vga_base + i * 80 ≤ a
    → a < vga_base + (i + n) * 80
    → shift_lines n (suc i) m a ≡ m (a + 80)
unfolding shift_lines
shift_lines_in zero i m a lo hi = absurd (omega arith)
shift_lines_in (suc n) i m a lo hi = elim (Bool-cases (ltb a (vga_base + i * 80 + 80))) [
  | inl here ↦
      shift_lines_out n (suc i) (copy_line m (suc i)) a (ground arith)
      ∙ copy_line_in m (suc i) a (ground arith) (ground arith)
  | inr later ↦
      shift_lines_in n (suc i) (copy_line m (suc i)) a (ground arith) (ground arith)
      ∙ copy_line_out m (suc i) (a + 80) (ground arith)
]

pub poke_self : (m : Memory) (a v : ℕ) → poke m a v a ≡ v
unfolding poke
poke_self m a v = ground arith

pub poke_else : (m : Memory) (p a v : ℕ) → p ≢ a → poke m p v a ≡ m a
unfolding poke
poke_else m p a v ne = ground arith

clean_out : (n p : ℕ) (m : Memory) (a : ℕ) → (a < p) ⊎ (p + n ≤ a) → clean n p m a ≡ m a
unfolding clean
clean_out zero p m a out = refl
clean_out (suc n) p m a out =
    clean_out n (suc p) (poke m p space) a (ground arith)
    ∙ poke_else m p a space (λ e. absurd (ground arith))

clean_in : (n p : ℕ) (m : Memory) (a : ℕ) → p ≤ a → a < p + n → clean n p m a ≡ space
unfolding clean
clean_in zero p m a lo hi = absurd (omega arith)
clean_in (suc n) p m a lo hi = elim (Bool-cases (p == a)) [
  | inl here ↦
      let e : p ≡ a = ground arith in
      clean_out n (suc p) (poke m p space) a (inl (omega arith)) ∙ rw e (poke_self m a space)
  | inr later ↦ clean_in n (suc p) (poke m p space) a (ground arith) (omega arith)
]

-- `m'` is what `m` shows one line further down, over a clean last line.
pub record Scrolled (m m' : Memory) : Type 0 where
  pub up : (p : ℕ) → p < 24 * 80 → m' (vga_base + p) ≡ m (vga_base + p + 80)
  pub last : (p : ℕ) → 24 * 80 ≤ p → p < 25 * 80 → m' (vga_base + p) ≡ space
  pub outside : (a : ℕ) → (a < vga_base) ⊎ (vga_base + 25 * 80 ≤ a) → m' a ≡ m a

pub scroll-Scrolled : (m : Memory) → Scrolled m (scroll m)
unfolding scroll
scroll-Scrolled m = record {
  up = λ p lt.
      clean_out 80 (vga_base + 24 * 80) (shift_lines 24 1 m) (vga_base + p) (inl (omega arith))
      ∙ shift_lines_in 24 0 m (vga_base + p) (omega arith) (omega arith);
  last = λ p lo hi.
      clean_in 80 (vga_base + 24 * 80) (shift_lines 24 1 m) (vga_base + p) (omega arith)
        (omega arith);
  outside = λ a out.
      clean_out 80 (vga_base + 24 * 80) (shift_lines 24 1 m) a (ground arith)
      ∙ shift_lines_out 24 0 m a (ground arith);
}
