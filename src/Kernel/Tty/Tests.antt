-- ===== src/Kernel/Tty/Tests.antt =====
-- Runs of the output of kernel/dev/tty.c, and its theorems at small screens.
use foos.Prelude.{ℕ, ◌-◌, ◌≡◌, ◌<◌, refl, arith, [], ◌∷◌}
use foos.Kernel.Tty.{
  Screen, settle, move, wrap_line, vga_base, space, tty_get_cursor, tty_update_cursor,
  tty_writechar, tty_write,
}
use foos.Kernel.Tty.Clear.{Outside, tty_write_lem, tty_writechar_underflow}

-- A screen of zeros, with the cursor at the cell `256 * high + low`.
abbrev screen : ℕ → ℕ → Screen
screen high low = record {
  vga = record { high = high; low = low; memory = λ a. 0 };
  tty = record { color = 7; cursor = low; last = 0 };
}

next_line : tty_get_cursor (tty_write (screen 0 70) (65 ∷ 10 ∷ 66 ∷ [])).vga ≡ 81
unfolding tty_get_cursor tty_write tty_writechar settle move wrap_line tty_update_cursor
next_line = refl

tty_write_lem_example :
    (tty_get_cursor (tty_write (screen 7 206) (65 ∷ 10 ∷ [])).vga < 2000)
    × ((a : ℕ) → Outside a → (tty_write (screen 7 206) (65 ∷ 10 ∷ [])).vga.memory a ≡ 0)
unfolding tty_get_cursor
tty_write_lem_example =
    tty_write_lem (screen 7 206) (65 ∷ 10 ∷ []) (omega arith)
      (λ e. absurd (omega arith), (λ e. absurd (omega arith), tt))

tty_writechar_underflow_example :
    (tty_get_cursor (tty_writechar (screen 0 0) 8).vga ≡ 0xFFFF)
    × ((tty_writechar (screen 0 0) 8).vga.memory (vga_base - 1) ≡ space)
unfolding tty_get_cursor
tty_writechar_underflow_example = tty_writechar_underflow (screen 0 0) refl
