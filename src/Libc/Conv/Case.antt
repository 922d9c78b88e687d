-- ===== src/Libc/Conv/Case.antt =====
-- The case of letters in libc/conv.c.
use foos.Prelude.{ℕ, ◌≡◌, arith}
use foos.Libc.Conv.{toupper, tolower}

-- `toupper` and `tolower` undo each other up to case: after either, the other gives what it gives on
-- the character itself, and doing one twice changes nothing more.
pub toupper-tolower :
    (c : ℕ)
    → (toupper (tolower c) ≡ toupper c)
      × (tolower (toupper c) ≡ tolower c)
      × (toupper (toupper c) ≡ toupper c)
      × (tolower (tolower c) ≡ tolower c)
unfolding toupper tolower
toupper-tolower c = (ground arith, ground arith, ground arith, ground arith)
