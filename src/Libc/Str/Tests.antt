-- ===== src/Libc/Str/Tests.antt =====
-- Runs of libc/string.c, and its theorems at small texts.
use foos.Prelude.{◌≡◌, refl, [], ◌∷◌, arith, some}
use foos.Machine.{ok}
use foos.Libc.Str.{memmem, Bytes, IsText, strrev, strncmp, strstr, strstr_loop, matches, strnstr}
use foos.Libc.Str.Memory.{memmem-Finds}
use foos.Libc.Str.Search.{Finds, strnstr-Finds}

abbrev abcab : Bytes
abcab = 97 ∷ 98 ∷ 99 ∷ 97 ∷ 98 ∷ []

abbrev ab : Bytes
ab = 97 ∷ 98 ∷ []

abbrev bc : Bytes
bc = 98 ∷ 99 ∷ []

abcab-IsText : IsText abcab
abcab-IsText = (
  (omega arith, omega arith),
  (
    (omega arith, omega arith),
    ((omega arith, omega arith), ((omega arith, omega arith), ((omega arith, omega arith), tt))),
  ),
)

ab-IsText : IsText ab
ab-IsText = ((omega arith, omega arith), ((omega arith, omega arith), tt))

bc-IsText : IsText bc
bc-IsText = ((omega arith, omega arith), ((omega arith, omega arith), tt))

reversed : strrev abcab ≡ ok (98 ∷ 97 ∷ 99 ∷ 98 ∷ 97 ∷ [])
unfolding strrev
reversed = refl

found : strstr abcab bc ≡ some (98 ∷ 99 ∷ 97 ∷ 98 ∷ [])
unfolding strstr strstr_loop matches strncmp
found = refl

strnstr-Finds_example : Finds abcab bc 2 (strnstr abcab bc 2)
strnstr-Finds_example = strnstr-Finds abcab bc 2 abcab-IsText bc-IsText

memmem-Finds_example : Finds abcab bc 5 (memmem abcab bc)
memmem-Finds_example = memmem-Finds abcab bc
