-- ===== src/Kernel/Ttydev.antt =====
-- The terminal of kernel/dev/tty.c as a device: its set-up, and the functions ttydev_open, ttydev_close,
-- ttydev_read, ttydev_write and ttydev_ioctl of the device table. Of the display controller, the
-- cursor position stands in `Vga` and all else in the hardware of the ports.
pub mod Opening
pub mod Lines
mod Tests
use foos.Prelude.{
  ℕ, ◌+◌, ◌-◌, ◌*◌, ◌/◌, ◌%◌, ◌^◌, Bool, true, false, List, [], ◌∷◌, Option, none, some,
  if◌then◌else◌, ◌==◌, length, replicate, bit_and, bit_or,
}
use foos.Machine.{Run, ok, fault, ◌>>=◌, u8, u16, neg32, null, bufsiz, ebusy, einval}
use foos.Libc.Str.{Bytes}
use foos.Kernel.Kmalloc.{Kmem, kmalloc, kfree}
use foos.Kernel.Device.{Driver}
use foos.Kernel.Ports.{Ports, inb, outb}
use foos.Kernel.Pic.{irq_enable, irq_disable}
use foos.Kernel.Interrupt.{Idt, Handler, hooked, int_hook_handler}
use foos.Kernel.Tty.{Vga, Tty, Screen, tty_get_cursor, tty_update_cursor, tty_write, tty_clear}
use foos.Kernel.Keyboard.{Kbd, Input, tty_read, tty_readchar}

-- `VGA_CMD` and `VGA_DATA`
abbrev pub vga_cmd : ℕ
vga_cmd = 0x3D4

abbrev pub vga_data : ℕ
vga_data = 0x3D5

module _ {H : Type 0} (io : Ports H) where
  -- `start` and `end` are bytes.
  unfoldable pub tty_enable_cursor : H → ℕ → ℕ → H
  tty_enable_cursor h start end =
      let h = outb io h vga_cmd 0xA in
      let (h, old) = inb io h vga_data in
      let h = outb io h vga_data (bit_or (bit_and old 0xC0) start) in
      let h = outb io h vga_cmd 0xB in
      let (h, old') = inb io h vga_data in outb io h vga_data (bit_or (bit_and old' 0xE0) end)

  -- Both bytes go to the register that was selected before.
  unfoldable pub tty_disable_cursor : H → H
  tty_disable_cursor h = outb io (outb io h vga_data 0xA) vga_data 0x20

-- `struct tty`; `bufptr` and `tmp` are indices into `buf`, and null is 0.
pub record TtyStruct : Type 0 where
  pub tty : Tty
  pub buf : Bytes
  pub bufptr : ℕ
  pub tmp : ℕ
  pub kbd : Kbd

-- What `memset` makes of it, with the number of bytes.
abbrev pub cleared : TtyStruct
cleared = record {
  tty = record { color = 0; cursor = 0; last = 0 };
  buf = replicate 512 0;
  bufptr = 0;
  tmp = 0;
  kbd = record { ctrl = 0; shift = 0; alt = 0; caps = 0; irq = 0; special = 0; flush = 0 };
}

abbrev pub ttysiz : ℕ
ttysiz = 524

-- The variables of the file, `dev->data`, and the `struct tty` at each address, with the heap, the
-- interrupts and the hardware in `idt`. `port` is the scan code that the port 0x60 shows, and
-- `codes` are those that will come in.
pub record Teletype (H F : Type 0) : Type 0 where
  pub idt : Idt H (Handler F)
  pub dev_data : ℕ
  pub structs : ℕ → TtyStruct
  pub current_tty : ℕ
  pub init : Bool
  pub vga : Vga
  pub port : ℕ
  pub codes : List ℕ

module _ {H F : Type 0} where
  abbrev pub with_kmem : Teletype H F → Kmem → Teletype H F
  with_kmem w k = record w { idt = record w.idt { kmem = k } }

  abbrev pub with_errno : Teletype H F → ℕ → Teletype H F
  with_errno w e = with_kmem w (record w.idt.kmem { errno = e })

  abbrev pub with_hardware : Teletype H F → H → Teletype H F
  with_hardware w h = record w { idt = record w.idt { hardware = h } }

  abbrev pub set_struct : Teletype H F → ℕ → TtyStruct → Teletype H F
  set_struct w p x = record w { structs = λ q. if q == p then x else w.structs q }

  -- The terminal at an address, as the screen and the keyboard see it.
  abbrev pub input_at : Teletype H F → ℕ → Input
  input_at w p =
      let x = w.structs p in
      record {
        screen = record { vga = w.vga; tty = x.tty };
        buf = x.buf;
        bufptr = x.bufptr;
        tmp = x.tmp;
        kbd = x.kbd;
      }

  -- What an operation on it leaves.
  abbrev pub leave : Teletype H F → ℕ → Input → Teletype H F
  leave w p i =
      record (set_struct w p
        (record { tty = i.screen.tty; buf = i.buf; bufptr = i.bufptr; tmp = i.tmp; kbd = i.kbd })) {
          vga = i.screen.vga;
        }

  abbrev pub leave_screen : Teletype H F → ℕ → Screen → Teletype H F
  leave_screen w p s = record (set_struct w p (record (w.structs p) { tty = s.tty })) {
    vga = s.vga;
  }

  -- `CHECK_TTY`, and then `f`.
  abbrev pub check_tty {ℓ} : {A : Type ℓ} → Teletype H F → ℕ → (Teletype H F → ℕ → Run A) → Run A
  check_tty w ptr f =
      let p = if ptr == null then w.current_tty else ptr in
      if p == null then fault else f (record w { current_tty = p }) p

  unfoldable pub ttydev_write : Teletype H F → Bytes → Run (Teletype H F × ℕ)
  ttydev_write w [] = ok (w, 0)
  ttydev_write w (c ∷ buf) =
      let p = w.dev_data in
      let s = tty_write (input_at w p).screen (c ∷ buf) in
      if p == null
      then fault
      else ok (leave_screen (record w { current_tty = p }) p s, length (c ∷ buf))

  -- What `tty_read` leaves and returns, given what it read behind its `CHECK_TTY`.
  abbrev pub line_read : Teletype H F → ℕ → Input × Bytes × List ℕ → Run (Teletype H F × Bytes × ℕ)
  line_read w p r = ok (record (leave w p r.0) { codes = r.2 }, r.1, length r.1)

  -- `tty_read` on the terminal at `ptr`; it does not look at `len`.
  unfoldable pub read_from : Teletype H F → ℕ → Run (Teletype H F × Bytes × ℕ)
  read_from w ptr = check_tty w ptr (λ w1 p. tty_read (input_at w1 p) w1.codes >>= line_read w1 p)

  unfoldable pub ttydev_read : Teletype H F → ℕ → ℕ → Run (Teletype H F × Bytes × ℕ)
  unfolding read_from
  ttydev_read w off len = read_from w w.dev_data

  -- `args` points to a word, of which TTY_SETCSR and TTY_GETCSR use two bytes, TTY_SETCOL and
  -- TTY_GETCOL one.
  unfoldable pub ttydev_ioctl : Teletype H F → ℕ → ℕ → Run (Teletype H F × ℕ × ℕ)
  ttydev_ioctl w request arg =
      let p = w.dev_data in
      let x = w.structs p in
      if request == 0x00
      then check_tty w p (λ w1 p. ok (leave_screen w1 p (tty_clear (input_at w1 p).screen), arg, 0))
      else if request == 0x01
      then check_tty w p (λ w1 p.
        ok (leave_screen w1 p (tty_update_cursor (input_at w1 p).screen (u16 arg)), arg, 0))
      else if request == 0x81
      then ok (w, arg - u16 arg + tty_get_cursor w.vga, 0)
      else if request == 0x02
      then (if p == null
          then fault
          else ok (set_struct w p (record x { tty = record x.tty { color = u8 arg } }), arg, 0))
      else if request == 0x82
      then (if p == null then fault else ok (w, arg - u8 arg + x.tty.color, 0))
      else ok (with_errno w einval, arg, neg32 einval)

  -- libc/input.c, in the terminal that was used last.
  unfoldable pub getchar : Teletype H F → Run (Teletype H F × ℕ)
  getchar w = check_tty w null λ w1 p. do
    (i, c, port, rest) ← tty_readchar (input_at w1 p) w1.port w1.codes
    ok (record (leave w1 p i) { port = port; codes = rest }, c)

  -- What `tty_read` puts at the start of the buffer.
  unfoldable pub gets : Teletype H F → Run (Teletype H F × Bytes)
  unfolding read_from
  gets w = do (w1, line, _) ← read_from w w.current_tty; ok (w1, line)

-- `irq` is the address of `kbd_irq`.
module _ {H F : Type 0} (io : Ports H) (irq : F) where
  unfoldable pub tty_init : Teletype H F → Run (Teletype H F × ℕ)
  tty_init w = if w.init then ok (w, neg32 1) else do
    t ← int_hook_handler w.idt 0x21 (hooked irq)
    let w1 = record w { idt = t; init = true }
    ok (with_hardware w1 (irq_enable io t.hardware 0x1), 0)

  unfoldable pub tty_create : Teletype H F → ℕ → Run (Teletype H F × ℕ)
  tty_create w ptr =
      let w1 = with_hardware w (tty_enable_cursor io w.idt.hardware 0xE 0xF) in
      let color = record cleared.tty { color = 0x7; cursor = u8 (tty_get_cursor w.vga) } in
      let w2 = set_struct w1 ptr (record cleared { tty = color }) in
      if ptr == null then fault else ok (record w2 { current_tty = ptr }, 0)

  -- `fuel` bounds the length of the list of blocks.
  unfoldable pub ttydev_open : ℕ → Teletype H F → ℕ → Run (Teletype H F × ℕ)
  ttydev_open fuel w flags =
      if w.dev_data == null
      then (do
        (w1, _) ← tty_init w
        (k, p) ← kmalloc fuel w1.idt.kmem ttysiz
        (w2, _) ← tty_create (with_kmem w1 k) p
        ok (record w2 { dev_data = p }, 0))
      else ok (with_errno w ebusy, neg32 ebusy)

  unfoldable pub ttydev_close : Teletype H F → Run (Teletype H F × ℕ)
  ttydev_close w = do
    k ← kfree w.idt.kmem w.dev_data
    let w1 = record (with_kmem w k) { dev_data = null }
    ok (with_hardware w1 (irq_disable io w1.idt.hardware 0x1), 0)

  -- The entry of the table `devs`.
  abbrev pub ttydev : ℕ → Driver (Teletype H F)
  ttydev fuel = record {
    write = some ttydev_write;
    read = some ttydev_read;
    do_open = some (ttydev_open fuel);
    close = some ttydev_close;
    ioctl = some ttydev_ioctl;
  }
