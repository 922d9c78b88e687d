-- ===== src/Kernel/Tty/Writestring.antt =====
-- `tty_writestring` and `tty_write` of kernel/dev/tty.c.
use foos.Prelude.{ℕ, ◌+◌, ◌≡◌, refl, ap, ◌∙◌, arith, List, [], ◌∷◌, length}
use foos.Machine.{ok}
use foos.Kernel.Tty.{Screen, tty_writechar, tty_write, string_loop, tty_writestring}

string_loop-tty_write :
    (s : Screen) (count c : ℕ) (string : List ℕ)
    → string_loop s count c string ≡ (tty_write s (c ∷ string), count + length (c ∷ string))
unfolding string_loop tty_write
string_loop-tty_write s count c [] = refl
string_loop-tty_write s count c (d ∷ string) =
    string_loop-tty_write (tty_writechar s c) (count + 1) d string
    ∙ ap (λ (n : ℕ). (tty_write (tty_writechar s c) (d ∷ string), n)) (omega arith)

-- On a string that is not empty, `tty_writestring` writes what `tty_write` does, and returns the length.
pub tty_writestring-tty_write :
    (s : Screen) (c : ℕ) (string : List ℕ)
    → tty_writestring s (c ∷ string) ≡ ok (tty_write s (c ∷ string), length (c ∷ string))
unfolding tty_writestring
tty_writestring-tty_write s c string = ap ok (
    string_loop-tty_write s 0 c string
    ∙ ap (λ (n : ℕ). (tty_write s (c ∷ string), n)) (omega arith))
