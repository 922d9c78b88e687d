-- ===== src/Kernel/Tty/Writing.antt =====
-- What `tty_writechar` of kernel/dev/tty.c does to the screen and to the cursor.
use foos.Prelude.{
  ℕ, ◌+◌, ◌-◌, ◌*◌, ◌/◌, ◌%◌, ◌^◌, ◌≤◌, ◌<◌, ◌≡◌, ◌≢◌, ◌⊎◌, inl, inr, refl, sym, ◌∙◌, arith,
  Bool-cases, leb, false, ◌==◌, if◌then◌else◌,
}
use mathlib.Core.Path.{subst}
use native.Mathlib.Nat.{mod-eq_of_lt}
use foos.Machine.{u16}
use foos.Kernel.Tty.{
  Memory, Screen, write_cell, move, wrap_line, settle, scroll, tty_get_cursor, tty_update_cursor,
  tty_writechar,
}
use foos.Kernel.Tty.Scroll.{Scrolled, scroll-Scrolled}

-- The cell behind the character `c` written at the cell `p`, on a screen without end: a new line, the
-- start of the line, the next multiple of eight, the cell before, or the next cell.
unfoldable pub advance : ℕ → ℕ → ℕ
advance c p =
    if c == 10
    then (p / 80 + 1) * 80
    else if c == 13
    then p / 80 * 80
    else if c == 9
    then p / 80 * 80 + (p % 80 + 8) / 8 * 8
    else if c == 8
    then p - 1
    else p + 1

-- The place that the switch and the wrapping lead to.
Placed : ℕ → ℕ × ℕ → Type 0
Placed q xy = (xy.1 * 80 + xy.0 ≡ q) × (xy.0 < 80) × (xy.1 ≤ 25)

wrap-Placed : (x y : ℕ) → x ≤ 80 → y ≤ 24 → Placed (y * 80 + x) (wrap_line x y)
unfolding wrap_line Placed
wrap-Placed x y hx hy = elim (Bool-cases (leb 80 x)) [
  | inl full ↦
      let t : leb (2 ^ 15) x ≡ false = ground arith in
      let e : u16 (y + 1) ≡ y + 1 = mod-eq_of_lt (omega arith) in
      rw (t, full, e) (ground arith, omega arith, omega arith)
  | inr room ↦
      let t : leb (2 ^ 15) x ≡ false = ground arith in
      rw (t, room) (refl, ground arith, omega arith)
]

wrap_start : (y : ℕ) → y ≤ 25 → Placed (y * 80) (wrap_line 0 y)
unfolding wrap_line Placed
wrap_start y hy = (omega arith, omega arith, hy)

wrap_back : (y : ℕ) → 0 < y → y ≤ 24 → Placed (y * 80 - 1) (wrap_line (u16 (0 + 2 ^ 16 - 1)) y)
unfolding wrap_line Placed
wrap_back y pos hy =
    let e : u16 (y + 2 ^ 16 - 1) ≡ y - 1 = omega arith in
    rw e (omega arith, omega arith, omega arith)

Placed-eq : (q r : ℕ) (xy : ℕ × ℕ) → q ≡ r → Placed q xy → Placed r xy
unfolding Placed
Placed-eq q r xy e h = (h.0 ∙ e, h.1, h.2)

-- The two steps lead to `advance`.
move-advance :
    (c p : ℕ)
    → p < 2000
    → (c ≢ 8) ⊎ (0 < p)
    → (let (x, y) = move c (p % 80) (p / 80) in Placed (advance c p) (wrap_line x y))
unfolding move advance
move-advance c p on ok_back = elim (Bool-cases (c == 10)) [
  | inl nl ↦
      let e : u16 (p / 80 + 1) ≡ p / 80 + 1 = mod-eq_of_lt (omega arith) in
      rw (nl, e) (wrap_start (p / 80 + 1) (omega arith))
  | inr n1 ↦ elim (Bool-cases (c == 13)) [
    | inl cr ↦ rw (n1, cr) (wrap_start (p / 80) (omega arith))
    | inr n2 ↦ elim (Bool-cases (c == 9)) [
      | inl tab ↦
          rw (n1, n2, tab) (wrap-Placed ((p % 80 + 8) / 8 * 8) (p / 80) (omega arith) (omega arith))
      | inr n3 ↦ elim (Bool-cases (c == 8)) [
        | inl back ↦
            rw (n1, n2, n3, back) (let e : c ≡ 8 = ground arith in backspaced p on (ground arith))
        | inr other ↦
            rw (n1, n2, n3, other)
              (Placed-eq (p / 80 * 80 + (p % 80 + 1)) (p + 1) _ (omega arith)
                (wrap-Placed (p % 80 + 1) (p / 80) (omega arith) (omega arith)))
      ]
    ]
  ]
]
  where
    backspaced :
        (p : ℕ) → p < 2000 → 0 < p → Placed (p - 1) (wrap_line (u16 (p % 80 + 2 ^ 16 - 1)) (p / 80))
    backspaced p on pos = elim (Bool-cases (p % 80 == 0)) [
      | inl start ↦
          let e : p % 80 ≡ 0 = ground arith in
          rw e (
            Placed-eq (p / 80 * 80 - 1) (p - 1) _ (omega arith)
              (wrap_back (p / 80) (omega arith) (omega arith)))
      | inr inner ↦
          let ne : 0 < p % 80 = ground arith in
          let e : u16 (p % 80 + 2 ^ 16 - 1) ≡ p % 80 - 1 = omega arith in
          rw e (
            Placed-eq (p / 80 * 80 + (p % 80 - 1)) (p - 1) _ (omega arith)
              (wrap-Placed (p % 80 - 1) (p / 80) (omega arith) (omega arith)))
    ]

-- The cursor registers hold the offset that they are given.
pub tty_get_cursor-tty_update_cursor :
    (s : Screen) (offset : ℕ)
    → offset < 2 ^ 16
    → tty_get_cursor (tty_update_cursor s offset).vga ≡ offset
unfolding tty_get_cursor tty_update_cursor
tty_get_cursor-tty_update_cursor s offset h = omega arith

-- The screen `s'` shows `m` with the cursor at `q`, or one line up if `q` is behind the last line.
pub record Shows (m : Memory) (q : ℕ) (s' : Screen) : Type 0 where
  pub stays : q < 2000 → (tty_get_cursor s'.vga ≡ q) × (s'.vga.memory ≡ m)
  pub scrolls : 2000 ≤ q → (tty_get_cursor s'.vga ≡ q - 80) × Scrolled m s'.vga.memory

pub memory-tty_update_cursor :
    (s : Screen) (offset : ℕ) → (tty_update_cursor s offset).vga.memory ≡ s.vga.memory
unfolding tty_update_cursor
memory-tty_update_cursor s offset = refl

settle-Shows : (s : Screen) (m : Memory) (q x y : ℕ) → Placed q (x, y) → Shows m q (settle s m x y)
unfolding settle Placed
settle-Shows s m q x y (at, hx, hy) =
    let short : leb (2 ^ 15) y ≡ false = ground arith in
    elim (Bool-cases (leb 25 y)) [
      | inl full ↦
          rw (full, short)
            (let s1 = record s { vga = record s.vga { memory = scroll m } } in
              record {
                stays = λ lt. absurd (ground arith);
                scrolls = λ le. (
                  tty_get_cursor-tty_update_cursor s1 (u16 (24 * 80 + x)) (omega arith)
                      ∙ (let e : y ≡ 25 = ground arith in omega arith),
                  subst (λ (t : Memory). Scrolled m t)
                      (sym (memory-tty_update_cursor s1 (u16 (24 * 80 + x)))) (scroll-Scrolled m),
                );
              })
      | inr room ↦ rw room (
          let s1 = record s { vga = record s.vga { memory = m } } in
          record {
            stays = λ lt. (
              tty_get_cursor-tty_update_cursor s1 (u16 (y * 80 + x)) (omega arith) ∙ omega arith,
              memory-tty_update_cursor s1 (u16 (y * 80 + x)),
            );
            scrolls = λ le. absurd (ground arith);
          })
    ]

pub tty_writechar-Shows :
    (s : Screen) (c : ℕ)
    → tty_get_cursor s.vga < 2000
    → (c ≢ 8) ⊎ (0 < tty_get_cursor s.vga)
    → (let p = tty_get_cursor s.vga in
        Shows (write_cell s.vga.memory p s.tty.color c) (advance c p) (tty_writechar s c))
unfolding tty_writechar
tty_writechar-Shows s c on back =
    let p = tty_get_cursor s.vga in
    let m = write_cell s.vga.memory p s.tty.color c in
    let xy1 = move c (p % 80) (p / 80) in
    let xy = wrap_line xy1.0 xy1.1 in
    let h = settle-Shows s m (advance c p) xy.0 xy.1 (move-advance c p on back) in
    elim (Bool-cases (c == 8)) [
      | inl b ↦ rw b h
      | inr b ↦ rw b (record { stays = h.stays; scrolls = h.scrolls })
    ]
