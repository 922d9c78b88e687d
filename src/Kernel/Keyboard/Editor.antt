-- ===== src/Kernel/Keyboard/Editor.antt =====
-- The line editor that the keyboard handler of kernel/dev/tty.c is.
use foos.Prelude.{
  ℕ, ◌-◌, ◌≤◌, ◌<◌, ◌≡◌, ◌≢◌, ◌⊎◌, inl, inr, refl, arith, Bool-cases, true, false, ◌||◌,
  if◌then◌else◌, ltb, leb, ◌==◌, [], ◌∷◌, ◌++◌, length, get_or, take,
}
use foos.Machine.{ok}
use foos.Libc.Str.{Bytes}
use foos.Libc.Conv.{toupper, tolower}
use foos.Kernel.Keyboard.{Input, scancode_set, shift_set, decode}

-- What the user sees: the shift keys, and the line so far.
pub record Editor : Type 0 where
  pub shift : ℕ
  pub caps : ℕ
  pub text : Bytes

abbrev pub editor_of : Input → Editor
editor_of s = record { shift = s.kbd.shift; caps = s.kbd.caps; text = take s.bufptr s.buf }

-- The character of a key.
abbrev pub key : ℕ → ℕ → ℕ → ℕ
key shift caps code =
    let lower = get_or scancode_set code 0 in
    let upper = get_or shift_set code 0 in
    if shift == 0
    then (if caps == 0 then lower else toupper lower)
    else if caps == 0
    then upper
    else tolower upper

-- What a key does to the line.
unfoldable pub edit : Editor → ℕ → Editor
edit e code =
    if code == 0x0F || code == 0x1D || code == 0x38
    then e
    else if code == 0x2A || code == 0x36
    then record e { shift = 1 }
    else if code == 0x3A
    then record e { caps = 1 - e.caps }
    else if code == 0x0E
    then record e { text = take (length e.text - 1) e.text }
    else record e { text = e.text ++ (key e.shift e.caps code ∷ []) }

pub decode-key :
    (shift caps code : ℕ) → code < 60 → decode shift caps code ≡ ok (key shift caps code)
unfolding decode
decode-key shift caps code lt =
    let t : ltb code 60 ≡ true = ground arith in
    rw t (elim (Bool-cases (shift == 0)) [
      | inl a ↦ elim (Bool-cases (caps == 0)) [ inl b ↦ rw (a, b) refl | inr b ↦ rw (a, b) refl ]
      | inr a ↦ elim (Bool-cases (caps == 0)) [ inl b ↦ rw (a, b) refl | inr b ↦ rw (a, b) refl ]
    ])

-- What a scan code does to the line: a key is pressed or released.
unfoldable pub respond : Editor → ℕ → Editor
respond e code =
    if leb 0x80 code
    then (if code - 0x80 == 0x2A || code - 0x80 == 0x36 then record e { shift = 0 } else e)
    else edit e code

-- The code of a key of the tables other than ENTER, or of the release of a key.
abbrev pub IsKey : ℕ → Type 0
IsKey code = (code < 60) × (code ≢ 0x1C) ⊎ (0x80 ≤ code)

pub respond_key : (e : Editor) (code : ℕ) → code < 60 → respond e code ≡ edit e code
unfolding respond
respond_key e code lt = let t : leb 0x80 code ≡ false = ground arith in rw t refl
