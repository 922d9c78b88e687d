-- ===== src/Libc/Str/Copy.antt =====
-- `strcpy` of libc/string.c.
use foos.Prelude.{suc, ◌<◌, ◌≤◌, ◌≡◌, refl, arith, [], ◌∷◌, ◌++◌, length, drop}
use foos.Machine.{ok, fault}
use foos.Libc.Str.{Bytes, strcpy}

-- A text that fits with its terminator is copied and ended, and the rest of the array stays; one that
-- does not fit runs over the end.
pub strcpy_lem :
    (to from : Bytes)
    → (length from < length to → strcpy to from ≡ ok (from ++ (0 ∷ drop (suc (length from)) to)))
      × (length to ≤ length from → strcpy to from ≡ fault)
unfolding strcpy
strcpy_lem [] from = (λ lt. absurd (omega arith), λ le. refl)
strcpy_lem (b ∷ to) [] = (λ lt. refl, λ le. absurd (omega arith))
strcpy_lem (b ∷ to) (c ∷ from) =
    let (fits, over) = strcpy_lem to from in
    (λ lt. rw (fits (omega arith)) refl, λ le. rw (over (omega arith)) refl)
