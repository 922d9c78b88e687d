-- ===== src/Libc/Conv/Tests.antt =====
-- Runs of libc/conv.c, and its theorems at small numbers.
use foos.Prelude.{◌≡◌, refl, [], ◌∷◌}
use foos.Libc.Conv.{atoi}

signs_skipped : atoi (b'+' ∷ b'1' ∷ b'2' ∷ []) ≡ 12
unfolding atoi
signs_skipped = refl
