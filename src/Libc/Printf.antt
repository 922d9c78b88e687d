-- ===== src/Libc/Printf.antt =====
-- libc/printf.c. A `va_list` is the list of the arguments that are left. A buffer is the list of the
-- bytes that are put into it, without the terminator that ends it.
pub mod Pieces
mod Tests
use foos.Prelude.{
  ℕ, zero, suc, ◌+◌, Bool, true, false, List, [], ◌∷◌, ◌++◌, if◌then◌else◌, ◌==◌, ltb, length,
}
use foos.Machine.{Run, ok, fault, ◌>>=◌, u8, bufsiz}
use foos.Libc.Str.{Bytes}
use foos.Libc.Strtok.{text_at}
use foos.Libc.Conv.{itoa, utoa, itoh}
use foos.Libc.Output.{_puts}
use foos.Kernel.Device.{Drivers, Devices}

-- A word, or a pointer to a text; the null pointer is the word 0.
pub data Arg : Type 0 where
  word : ℕ → Arg
  text : Bytes → Arg

-- `va_arg`. The arguments are what the format says; a read of another kind, or of more, is a fault.
abbrev pub word_arg : List Arg → Run (ℕ × List Arg)
word_arg [] = fault
word_arg (word n ∷ args) = ok (n, args)
word_arg (text s ∷ args) = fault

abbrev pub null_text : Bytes
null_text = b'(' ∷ b'n' ∷ b'u' ∷ b'l' ∷ b'l' ∷ b')' ∷ []

abbrev pub text_arg : List Arg → Run (Bytes × List Arg)
text_arg [] = fault
text_arg (word n ∷ args) = if n == 0 then ok (null_text, args) else fault
text_arg (text s ∷ args) = ok (s, args)

-- The `switch` behind a `%`: what is put into the buffer, and the arguments that are left.
unfoldable pub convert : ℕ → List Arg → Run (Bytes × List Arg)
convert ch args =
    if ch == b'%'
    then ok (b'%' ∷ [], args)
    else if ch == b'c'
    then (do (n, args) ← word_arg args; ok (u8 n ∷ [], args))
    else if ch == b's'
    then text_arg args
    else if ch == b'd'
    then (do (n, args) ← word_arg args; s ← itoa n; ok (s, args))
    else if ch == b'u'
    then (do (n, args) ← word_arg args; s ← utoa n; ok (s, args))
    else if ch == b'x'
    then (do (n, args) ← word_arg args; s ← itoh n; ok (s, args))
    else ok ([], args)

-- The loop over the format, `switch` being whether the last character was the `%` of a conversion. A
-- format that ends there is read on behind its terminator.
unfoldable pub vsprintf_loop : Bytes → Bool → Bytes → List Arg → Run Bytes
vsprintf_loop buffer false [] args = ok buffer
vsprintf_loop buffer true [] args = fault
vsprintf_loop buffer false (ch ∷ format) args =
    vsprintf_loop (if ch == b'%' then buffer else buffer ++ (ch ∷ [])) (ch == b'%') format args
vsprintf_loop buffer true (ch ∷ format) args = do
  (s, args) ← convert ch args
  vsprintf_loop (buffer ++ s) false format args

-- The buffer; the result is its length.
unfoldable pub vsprintf : Bytes → List Arg → Run Bytes
vsprintf format vlist = vsprintf_loop [] false format vlist

unfoldable pub sprintf : Bytes → List Arg → Run Bytes
sprintf fmt args = vsprintf fmt args

module _ {S : Type 0} (d : Drivers S) where
  -- `buf` has 512 bytes, of which the terminator takes one. `_puts` stops at the first zero.
  unfoldable pub vprintf : Devices S → Bytes → List Arg → Run (Devices S × ℕ)
  vprintf s fmt vlist = do
    buf ← vsprintf fmt vlist
    if ltb (length buf) bufsiz
        then (do (s', _) ← _puts d s (text_at buf); ok (s', length buf))
        else fault

  unfoldable pub printf : Devices S → Bytes → List Arg → Run (Devices S × ℕ)
  printf s fmt args = vprintf s fmt args
