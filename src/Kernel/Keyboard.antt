-- ===== src/Kernel/Keyboard.antt =====
-- The keyboard input of kernel/dev/tty.c: the interrupt handler, which edits a line in the buffer of the
-- terminal, and the read that waits for the line. `bufptr` and `tmp` are indices into `buf`. The log
-- lines on the serial port are left out.
pub mod Editor
pub mod Editing
pub mod Reading
mod Tests
use foos.Prelude.{
  ℕ, zero, suc, ◌+◌, ◌-◌, Bool, ◌&&◌, ◌||◌, not, if◌then◌else◌, ltb, leb, ◌==◌, List, [], ◌∷◌,
  length, get_or, set, take,
}
use foos.Machine.{Run, ok, fault, hang, ◌>>=◌}
use foos.Libc.Str.{Bytes}
use foos.Libc.Conv.{toupper, tolower}
use foos.Kernel.Tty.{Screen, tty_writechar}

-- `struct kbd_state`, a bit a field.
pub record Kbd : Type 0 where
  pub ctrl : ℕ
  pub shift : ℕ
  pub alt : ℕ
  pub caps : ℕ
  pub irq : ℕ
  pub special : ℕ
  pub flush : ℕ

-- The fields of a `struct tty` that the input uses, and the screen that it echoes on.
pub record Input : Type 0 where
  pub screen : Screen
  pub buf : Bytes
  pub bufptr : ℕ
  pub tmp : ℕ
  pub kbd : Kbd

-- The two strings, with their terminators.
abbrev pub scancode_set : Bytes
scancode_set =
    63 ∷ 63 ∷ 49 ∷ 50 ∷ 51 ∷ 52 ∷ 53 ∷ 54 ∷ 55 ∷ 56 ∷ 57 ∷ 48 ∷ 45 ∷ 61 ∷ 8 ∷ 9 ∷ 113 ∷ 119 ∷ 101
    ∷ 114 ∷ 116 ∷ 121 ∷ 117 ∷ 105 ∷ 111 ∷ 112 ∷ 91 ∷ 93 ∷ 10 ∷ 63 ∷ 97 ∷ 115 ∷ 100 ∷ 102 ∷ 103 ∷ 104
    ∷ 106 ∷ 107 ∷ 108 ∷ 59 ∷ 39 ∷ 96 ∷ 63 ∷ 92 ∷ 122 ∷ 120 ∷ 99 ∷ 118 ∷ 98 ∷ 110 ∷ 109 ∷ 44 ∷ 46
    ∷ 47 ∷ 63 ∷ 63 ∷ 63 ∷ 32 ∷ 63 ∷ 0 ∷ []

abbrev pub shift_set : Bytes
shift_set =
    46 ∷ 46 ∷ 33 ∷ 64 ∷ 35 ∷ 36 ∷ 37 ∷ 94 ∷ 38 ∷ 42 ∷ 40 ∷ 41 ∷ 95 ∷ 43 ∷ 8 ∷ 9 ∷ 81 ∷ 87 ∷ 69 ∷ 82
    ∷ 84 ∷ 89 ∷ 85 ∷ 73 ∷ 79 ∷ 80 ∷ 123 ∷ 125 ∷ 10 ∷ 46 ∷ 65 ∷ 83 ∷ 68 ∷ 70 ∷ 71 ∷ 72 ∷ 74 ∷ 75 ∷ 76
    ∷ 58 ∷ 34 ∷ 126 ∷ 46 ∷ 124 ∷ 90 ∷ 88 ∷ 67 ∷ 86 ∷ 66 ∷ 78 ∷ 77 ∷ 60 ∷ 62 ∷ 63 ∷ 46 ∷ 42 ∷ 46 ∷ 32
    ∷ 63 ∷ 0 ∷ []

-- A character of one of them; a scan code can lie beyond the end.
abbrev pub key_of : Bytes → ℕ → Run ℕ
key_of keys code = if ltb code (length keys) then ok (get_or keys code 0) else fault

unfoldable pub decode : ℕ → ℕ → ℕ → Run ℕ
decode shift caps code =
    if shift == 0 && not (caps == 0)
    then (do c ← key_of scancode_set code; ok (toupper c))
    else if not (shift == 0) && caps == 0
    then key_of shift_set code
    else if shift == 0
    then key_of scancode_set code
    else (do c ← key_of shift_set code; ok (tolower c))

-- A write to `buf`; beyond its end it would hit the fields behind.
unfoldable pub store : Bytes → ℕ → ℕ → Run Bytes
store buf i c = if ltb i (length buf) then ok (set buf i c) else fault

abbrev pub set_special : Input → ℕ → Input
set_special s b = record s { kbd = record s.kbd { special = b } }

abbrev pub set_shift : Input → ℕ → Input
set_shift s b = record s { kbd = record s.kbd { shift = b } }

-- The default branch.
unfoldable pub type_key : Input → ℕ → Run Input
type_key s code = do
  ch ← decode s.kbd.shift s.kbd.caps code
  buf1 ← store s.buf s.bufptr ch
  buf2 ← store buf1 (s.bufptr + 1) 0
  ok (record s { screen = tty_writechar s.screen ch; buf = buf2; bufptr = s.bufptr + 1 })

-- The branch of BACKSPACE.
unfoldable pub rub_out : Input → Run Input
rub_out s = if s.bufptr == 0 then ok s else (do
  buf1 ← store s.buf (s.bufptr - 1) 0
  ok (record s { screen = tty_writechar s.screen 8; buf = buf1; bufptr = s.bufptr - 1 }))

-- The branch of ENTER.
unfoldable pub end_line : Input → Input
end_line s = record s {
  screen = tty_writechar s.screen 10;
  kbd = record s.kbd { flush = 1 };
  tmp = s.bufptr;
  bufptr = 0;
}

-- A key is pressed: TAB, CTRL, LSHIFT, RSHIFT, CAPS, ALT, ENTER, BACKSPACE, or another.
unfoldable pub press : Input → ℕ → Run Input
press s code =
    if code == 0x0F
    then ok s
    else if code == 0x1D
    then ok (record s { kbd = record s.kbd { ctrl = 1 } })
    else if code == 0x2A || code == 0x36
    then ok (set_shift s 1)
    else if code == 0x3A
    then ok (record s { kbd = record s.kbd { caps = 1 - s.kbd.caps } })
    else if code == 0x38
    then ok (record s { kbd = record s.kbd { alt = 1 } })
    else if code == 0x1C
    then ok (end_line (set_special s 0))
    else if code == 0x0E
    then rub_out (set_special s 0)
    else type_key (set_special s 0) code

unfoldable pub release : Input → ℕ → Input
release s code =
    if code == 0x1D
    then record s { kbd = record s.kbd { ctrl = 0 } }
    else if code == 0x2A || code == 0x36
    then set_shift s 0
    else if code == 0x38
    then record s { kbd = record s.kbd { alt = 0 } }
    else s

-- `scancode` is a byte: its top bit tells a release.
unfoldable pub kbd_irq : Input → ℕ → Run Input
kbd_irq s scancode =
    let s0 = record s { kbd = record s.kbd { irq = 1; special = 1 } } in
    if leb 0x80 scancode then ok (release s0 (scancode - 0x80)) else press s0 scancode

-- The wait of `tty_read`, in which the scan codes `codes` come in; it does not end before a line does.
unfoldable pub wait_line : Input → List ℕ → Run (Input × List ℕ)
wait_line s [] = if s.kbd.flush == 0 then hang else ok (s, [])
wait_line s (code ∷ codes) =
    if s.kbd.flush == 0 then (do s' ← kbd_irq s code; wait_line s' codes) else ok (s, code ∷ codes)

-- `tty_read`: the bytes that it copies to the buffer of the caller, whose size it does not look at, and
-- the codes that are left.
unfoldable pub tty_read : Input → List ℕ → Run (Input × Bytes × List ℕ)
tty_read s codes = do
  (s', rest) ← wait_line (record s { bufptr = 0 }) codes
  let s1 = record s' { kbd = record s'.kbd { flush = 0 }; tmp = 0 }
  ok (s1, take s'.tmp s'.buf, rest)

-- The wait of `tty_readchar` and the read of the port behind it, which shows `port`.
unfoldable pub tty_readchar : Input → ℕ → List ℕ → Run (Input × ℕ × ℕ × List ℕ)
tty_readchar s port [] = if s.kbd.irq == 0 || not (s.kbd.special == 0) then hang else do
  c ← decode s.kbd.shift s.kbd.caps port
  ok (record s { kbd = record s.kbd { irq = 0 } }, c, port, [])
tty_readchar s port (code ∷ codes) =
    if s.kbd.irq == 0 || not (s.kbd.special == 0)
    then (do s' ← kbd_irq s code; tty_readchar s' code codes)
    else do
      c ← decode s.kbd.shift s.kbd.caps port
      ok (record s { kbd = record s.kbd { irq = 0 } }, c, port, code ∷ codes)
