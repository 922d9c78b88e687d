-- ===== src/Kernel/Tty/Clear.antt =====
-- `tty_clear` of kernel/dev/tty.c, and that output stays on the screen.
use foos.Prelude.{
  ℕ, zero, suc, ◌+◌, ◌-◌, ◌≤◌, ◌<◌, ◌≡◌, ◌≢◌, ◌⊎◌, inl, inr, refl, ap, ◌∙◌, arith, Bool-cases, ltb,
  List, [], ◌∷◌, All,
}
use foos.Kernel.Tty.{
  Memory, Screen, vga_base, space, poke, write_cell, clear_loop, tty_get_cursor, tty_writechar,
  tty_write, tty_clear, settle, move, wrap_line,
}
use foos.Kernel.Tty.Scroll.{poke_else, poke_self}
use foos.Kernel.Tty.Writing.{
  advance, Shows, tty_writechar-Shows, tty_get_cursor-tty_update_cursor, memory-tty_update_cursor,
}

-- `a` is not a cell of the screen.
abbrev pub Outside : ℕ → Type 0
Outside a = (a < vga_base) ⊎ (vga_base + 2000 ≤ a)

clear_loop_out :
    (n : ℕ) (m : Memory) (a : ℕ) → (a < vga_base) ⊎ (vga_base + n ≤ a) → clear_loop n m a ≡ m a
unfolding clear_loop
clear_loop_out zero m a out = refl
clear_loop_out (suc n) m a out =
    clear_loop_out n (poke m (vga_base + n) space) a (ground arith)
    ∙ poke_else m (vga_base + n) a space (λ e. absurd (ground arith))

clear_loop_in : (n p : ℕ) (m : Memory) → p < n → clear_loop n m (vga_base + p) ≡ space
unfolding clear_loop
clear_loop_in zero p m lt = absurd (omega arith)
clear_loop_in (suc n) p m lt = elim (Bool-cases (ltb p n)) [
  | inl below ↦ clear_loop_in n p (poke m (vga_base + n) space) (ground arith)
  | inr top ↦
      let e : p ≡ n = ground arith in
      rw e (
        clear_loop_out n (poke m (vga_base + n) space) (vga_base + n) (inr (omega arith))
        ∙ poke_self m (vga_base + n) space)
]

-- `tty_clear` blanks each cell of the screen and no other, and moves the cursor to the start.
pub tty_clear_lem :
    (s : Screen)
    → ((p : ℕ) → p < 2000 → (tty_clear s).vga.memory (vga_base + p) ≡ space)
      × ((a : ℕ) → Outside a → (tty_clear s).vga.memory a ≡ s.vga.memory a)
      × (tty_get_cursor (tty_clear s).vga ≡ 0)
unfolding tty_clear
tty_clear_lem s =
    let s1 = record s { vga = record s.vga { memory = clear_loop 2000 s.vga.memory } } in
    rw (memory-tty_update_cursor s1 0) (
      λ p lt. clear_loop_in 2000 p s.vga.memory lt,
      λ a out. clear_loop_out 2000 s.vga.memory a out,
      tty_get_cursor-tty_update_cursor s1 0 (omega arith),
    )

advance_bound : (c p : ℕ) → p < 2000 → advance c p < 2080
unfolding advance
advance_bound c p on = ground arith

write_cell_out :
    (m : Memory) (p color c a : ℕ)
    → p < 2000
    → (c ≢ 8) ⊎ (0 < p)
    → Outside a
    → write_cell m p color c a ≡ m a
unfolding write_cell poke
write_cell_out m p color c a on back out = ground arith

-- One character leaves the cursor on the screen, and memory outside of it as it was.
Kept : Screen → Screen → Type 0
Kept s s' =
    (tty_get_cursor s'.vga < 2000) × ((a : ℕ) → Outside a → s'.vga.memory a ≡ s.vga.memory a)

Shows-Kept :
    (s s' : Screen) (m : Memory) (q : ℕ)
    → Shows m q s'
    → q < 2080
    → ((a : ℕ) → Outside a → m a ≡ s.vga.memory a)
    → Kept s s'
unfolding Kept
Shows-Kept s s' m q h bound out = elim (Bool-cases (ltb q 2000)) [
  | inl here ↦
      let (at, same) = h.stays (ground arith) in
      (ground arith, λ a o. ap (λ (f : Memory). f a) same ∙ out a o)
  | inr up ↦
      let (at, moved) = h.scrolls (ground arith) in
      (omega arith, λ a o. moved.outside a o ∙ out a o)
]

tty_writechar-Kept :
    (s : Screen) (c : ℕ)
    → tty_get_cursor s.vga < 2000
    → (c ≢ 8) ⊎ (0 < tty_get_cursor s.vga)
    → Kept s (tty_writechar s c)
tty_writechar-Kept s c on back =
    let p = tty_get_cursor s.vga in
    Shows-Kept s (tty_writechar s c) (write_cell s.vga.memory p s.tty.color c) (advance c p)
      (tty_writechar-Shows s c on back) (advance_bound c p on)
      (λ a o. write_cell_out s.vga.memory p s.tty.color c a on back o)

-- A text without backspaces, written from a cursor on the screen, leaves the cursor on the screen, and
-- memory outside of the screen as it was.
pub tty_write_lem :
    (s : Screen) (text : List ℕ)
    → tty_get_cursor s.vga < 2000
    → All (λ c. c ≢ 8) text
    → (tty_get_cursor (tty_write s text).vga < 2000)
      × ((a : ℕ) → Outside a → (tty_write s text).vga.memory a ≡ s.vga.memory a)
unfolding tty_write Kept
tty_write_lem s [] on plain = (on, λ a o. refl)
tty_write_lem s (c ∷ text) on plain =
    let (on1, same1) = tty_writechar-Kept s c on (inl plain.0) in
    let (on2, same2) = tty_write_lem (tty_writechar s c) text on1 plain.1 in
    (on2, λ a o. same2 a o ∙ same1 a o)

-- A backspace at the start of the screen blanks the cell before it, and the cursor is then as far from
-- the screen as its registers allow.
pub tty_writechar_underflow :
    (s : Screen)
    → tty_get_cursor s.vga ≡ 0
    → (tty_get_cursor (tty_writechar s 8).vga ≡ 0xFFFF)
      × ((tty_writechar s 8).vga.memory (vga_base - 1) ≡ space)
unfolding tty_writechar settle move wrap_line write_cell poke
tty_writechar_underflow s start =
    let m = poke s.vga.memory (vga_base - 1) space in
    let s1 = record s { vga = record s.vga { memory = m } } in
    rw start (
      tty_get_cursor-tty_update_cursor s1 0xFFFF (omega arith),
      ap (λ (f : Memory). f (vga_base - 1)) (memory-tty_update_cursor s1 0xFFFF),
    )
