-- ===== src/Libc/Printf/Tests.antt =====
-- Runs of libc/printf.c, and its theorems at a small format.
use foos.Prelude.{ℕ, ◌≡◌, refl, List, [], ◌∷◌}
use foos.Machine.{ok, fault}
use foos.Libc.Printf.{vsprintf, vsprintf_loop, convert}
use foos.Libc.Printf.Pieces.{Piece, plain, int, string}
use foos.Kernel.Device.{Drivers, Devices}

-- `%s: %d`
abbrev pieces : List Piece
pieces = string (b'a' ∷ b'b' ∷ []) ∷ plain b':' ∷ plain b' ' ∷ int 0xffff_ffff ∷ []

percent_at_end : vsprintf (b'5' ∷ b'%' ∷ []) [] ≡ fault
unfolding vsprintf vsprintf_loop
percent_at_end = refl

unknown_dropped : vsprintf (b'%' ∷ b'q' ∷ b'5' ∷ []) [] ≡ ok (b'5' ∷ [])
unfolding vsprintf vsprintf_loop convert
unknown_dropped = refl

abbrev silent : Drivers ℕ
silent = record { set_errno = λ s e. e; table = [] }

abbrev nothing_done : Devices ℕ
nothing_done = record { world = 0; offsets = [] }
