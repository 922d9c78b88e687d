-- ===== src/Kernel/Tty.antt =====
-- The screen of kernel/dev/tty.c. Memory is a map of 16-bit cells, that is by half the address, so that
-- a write outside the screen is represented. The cursor registers 0xE and 0xF of the display
-- controller are two bytes, written and read through its ports.
pub mod Scroll
pub mod Writing
pub mod Clear
pub mod Writestring
mod Tests
use foos.Prelude.{
  ℕ, zero, suc, ◌+◌, ◌-◌, ◌*◌, ◌/◌, ◌%◌, ◌^◌, Bool, ◌&&◌, ◌||◌, not, if◌then◌else◌, ltb, leb, ◌==◌,
  List, [], ◌∷◌, bit_and,
}
use foos.Machine.{Run, ok, fault, u8, u16}

-- `VGA_BASE`, as a cell.
abbrev pub vga_base : ℕ
vga_base = 0xB8000 / 2

abbrev pub vga_width : ℕ
vga_width = 80

abbrev pub vga_height : ℕ
vga_height = 25

-- Gray on black.
abbrev pub space : ℕ
space = 0x0720

abbrev pub Memory : Type 0
Memory = ℕ → ℕ

pub record Vga : Type 0 where
  pub high : ℕ
  pub low : ℕ
  pub memory : Memory

-- The fields of a `struct tty` that the output uses; `cursor` is one byte wide.
pub record Tty : Type 0 where
  pub color : ℕ
  pub cursor : ℕ
  pub last : ℕ

pub record Screen : Type 0 where
  pub vga : Vga
  pub tty : Tty

unfoldable pub tty_get_cursor : Vga → ℕ
tty_get_cursor v = u16 (u16 (v.high * 2 ^ 8) + v.low)

unfoldable pub tty_update_cursor : Screen → ℕ → Screen
tty_update_cursor s offset = record {
  vga = record s.vga { high = offset / 2 ^ 8 % 2 ^ 8; low = offset % 2 ^ 8 };
  tty = record s.tty { cursor = u8 offset };
}

unfoldable pub poke : Memory → ℕ → ℕ → Memory
poke m a v b = if b == a then v else m b

-- `(ptty->color << 8)+c`, where `c` is a signed character.
abbrev pub cell_of : ℕ → ℕ → ℕ
cell_of color c = u16 (color * 2 ^ 8 + (if ltb c 128 then c else c + 2 ^ 16 - 256))

-- The cell that `tty_writechar` writes before it moves the cursor, which is at `current`.
unfoldable pub write_cell : Memory → ℕ → ℕ → ℕ → Memory
write_cell m current color c =
    if c == 10 || c == 13 || c == 9
    then m
    else if c == 8
    then poke m (vga_base + current - 1) space
    else poke m (vga_base + current) (cell_of color c)

-- `x` and `y` are of type short: patterns of 16 bits, negative from 2^15 on.
abbrev pub is_negative : ℕ → Bool
is_negative x = leb (2 ^ 15) x

-- The switch of `tty_writechar`, on `x` and `y`.
unfoldable pub move : ℕ → ℕ → ℕ → ℕ × ℕ
move c x y =
    if c == 10
    then (0, u16 (y + 1))
    else if c == 13
    then (0, y)
    else if c == 9
    then ((x + 8) / 8 * 8, y)
    else if c == 8
    then (u16 (x + 2 ^ 16 - 1), y)
    else (x + 1, y)

-- To the next line if the line is full, to the one before if it is completely backspaced.
unfoldable pub wrap_line : ℕ → ℕ → ℕ × ℕ
wrap_line x y =
    if is_negative x
    then (u16 (x + 80), u16 (y + 2 ^ 16 - 1))
    else if leb 80 x
    then (0, u16 (y + 1))
    else (x, y)

-- `memcpy` of line `i` to line `i - 1`.
unfoldable pub copy_line : Memory → ℕ → Memory
copy_line m i a =
    if leb (vga_base + (i - 1) * 80) a && ltb a (vga_base + (i - 1) * 80 + 80)
    then m (a + 80)
    else m a

-- The loop `for(i=1;i<=y;i++)`, with `n` rounds to go.
unfoldable pub shift_lines : ℕ → ℕ → Memory → Memory
shift_lines zero i m = m
shift_lines (suc n) i m = shift_lines n (suc i) (copy_line m i)

-- The loop that cleans the last line, with `n` rounds to go.
unfoldable pub clean : ℕ → ℕ → Memory → Memory
clean zero a m = m
clean (suc n) a m = clean n (suc a) (poke m a space)

unfoldable pub scroll : Memory → Memory
scroll m = clean 80 (vga_base + 24 * 80) (shift_lines 24 1 m)

-- The end of `tty_writechar`: scroll if the cursor left the screen, and move the cursor.
unfoldable pub settle : Screen → Memory → ℕ → ℕ → Screen
settle s m x y =
    let full = leb 25 y && not (is_negative y) in
    let m' = if full then scroll m else m in
    let y' = if full then 24 else y in
    tty_update_cursor (record s { vga = record s.vga { memory = m' } }) (u16 (y' * 80 + x))

unfoldable pub tty_writechar : Screen → ℕ → Screen
tty_writechar s c =
    let current = tty_get_cursor s.vga in
    let (x1, y1) = move c (current % 80) (current / 80) in
    let (x2, y2) = wrap_line x1 y1 in
    let s' = settle s (write_cell s.vga.memory current s.tty.color c) x2 y2 in
    if c == 8 then s' else record s' { tty = record s'.tty { last = c } }

unfoldable pub tty_write : Screen → List ℕ → Screen
tty_write s [] = s
tty_write s (c ∷ buf) = tty_write (tty_writechar s c) buf

-- `tty_writestring` looks for the terminator behind each character that it writes, and so not before
-- the first one: of an empty string it writes the terminator and reads on behind it, which is a fault.
unfoldable pub string_loop : Screen → ℕ → ℕ → List ℕ → Screen × ℕ
string_loop s count c [] = (tty_writechar s c, count + 1)
string_loop s count c (d ∷ string) = string_loop (tty_writechar s c) (count + 1) d string

unfoldable pub tty_writestring : Screen → List ℕ → Run (Screen × ℕ)
tty_writestring s [] = fault
tty_writestring s (c ∷ string) = ok (string_loop s 0 c string)

-- The loop of `tty_clear` runs down from the end of the screen, with `n` cells to go.
unfoldable pub clear_loop : ℕ → Memory → Memory
clear_loop zero m = m
clear_loop (suc n) m = clear_loop n (poke m (vga_base + n) space)

unfoldable pub tty_clear : Screen → Screen
tty_clear s =
    tty_update_cursor (record s { vga = record s.vga { memory = clear_loop 2000 s.vga.memory } }) 0
