-- ===== src/Libc/Str.antt =====
-- libc/string.c. A text is the list of its characters, without the terminator, so that `*s` is 0 at
-- the end; the characters are between 1 and 255. A pointer into a text is the rest from there on, and
-- a function that changes a text in place returns the new one. An `int` is its 32-bit pattern.
pub mod Reverse
pub mod Compare
pub mod Search
pub mod Memory
pub mod Copy
pub mod Span
mod Tests
use foos.Prelude.{
  ℕ, zero, suc, ◌+◌, ◌-◌, ◌<◌, ◌≤◌, List, [], ◌∷◌, Bool, true, false, ◌&&◌, Option, none, some,
  if◌then◌else◌, ltb, leb, ◌==◌, length, get_or, set, All,
}
use foos.Machine.{Run, ok, fault, out_of_fuel, ◌>>=◌, sub32, neg32}

abbrev pub Bytes : Type 0
Bytes = List ℕ

-- A byte that is not the terminator.
abbrev pub IsChar : ℕ → Type 0
IsChar c = (0 < c) × (c < 256)

abbrev pub IsText : Bytes → Type 0
IsText = All IsChar

-- The second loop of `strrev`, with the indices of `start` and `end`, one unit of fuel a round.
unfoldable pub strrev_loop : ℕ → Bytes → ℕ → ℕ → Run Bytes
strrev_loop zero s start end = out_of_fuel
strrev_loop (suc fuel) s start end =
    let tmp = get_or s start 0 in
    let rest =
      strrev_loop fuel (set (set s start (get_or s end 0)) end tmp) (suc start) (end - 1) in
    if ltb start end then rest else ok s

-- `end` is one before the terminator. On the empty text it is one before `start`, where the loop stops
-- as it does at `start`.
unfoldable pub strrev : Bytes → Run Bytes
unfolding strrev_loop
strrev s = strrev_loop (suc (length s)) s 0 (length s - 1)

-- Into the array `to`, with the terminator; behind its end would be a write to something else.
unfoldable pub strcpy : Bytes → Bytes → Run Bytes
strcpy [] from = fault
strcpy (b ∷ to) [] = ok (0 ∷ to)
strcpy (b ∷ to) (c ∷ from) = do rest ← strcpy to from; ok (c ∷ rest)

unfoldable pub strcmp : Bytes → Bytes → ℕ
strcmp [] [] = 0
strcmp [] (b ∷ t) = neg32 b
strcmp (a ∷ s) [] = a
strcmp (a ∷ s) (b ∷ t) = if a == b then strcmp s t else sub32 a b

unfoldable pub strncmp : Bytes → Bytes → ℕ → ℕ
strncmp s t zero = 0
strncmp [] [] (suc num) = 0
strncmp [] (b ∷ t) (suc num) = neg32 b
strncmp (a ∷ s) [] (suc num) = a
strncmp (a ∷ s) (b ∷ t) (suc num) = if a == b then strncmp s t num else sub32 a b

-- `*haystack==*needle && strncmp(haystack,needle,needle_len)==0`
unfoldable pub matches : Bytes → Bytes → Bool
matches h needle = get_or h 0 0 == get_or needle 0 0 && strncmp h needle (length needle) == 0

-- The loop of `strstr`.
unfoldable pub strstr_loop : Bytes → Bytes → Option Bytes
strstr_loop [] needle = none
strstr_loop (c ∷ h) needle = if matches (c ∷ h) needle then some (c ∷ h) else strstr_loop h needle

unfoldable pub strstr : Bytes → Bytes → Option Bytes
strstr h needle = if length needle == 0 then some h else strstr_loop h needle

-- The loop of `strnstr`.
unfoldable pub strnstr_loop : Bytes → Bytes → ℕ → Option Bytes
strnstr_loop [] needle len = none
strnstr_loop (c ∷ h) needle len =
    if leb (length needle) len
    then (if matches (c ∷ h) needle then some (c ∷ h) else strnstr_loop h needle (len - 1))
    else none

unfoldable pub strnstr : Bytes → Bytes → ℕ → Option Bytes
strnstr h needle len = if length needle == 0 then some h else strnstr_loop h needle len

-- The inner loop of `strspn`, which `strtok` has too: is `c` one of `accept`?
unfoldable pub one_of : ℕ → Bytes → Bool
one_of c [] = false
one_of c (b ∷ accept) = if c == b then true else one_of c accept

unfoldable pub strspn : Bytes → Bytes → ℕ
strspn [] accept = 0
strspn (a ∷ s) accept = if one_of a accept then suc (strspn s accept) else 0

-- `memcmp(h,n,len)==0` of include/string.h: the bytes agree.
unfoldable pub same_bytes : Bytes → Bytes → Bool
same_bytes h [] = true
same_bytes [] (b ∷ n) = false
same_bytes (a ∷ h) (b ∷ n) = if a == b then same_bytes h n else false

-- The loop of `memmem`, with `rounds` to go, at the rest `h` of the haystack.
unfoldable pub memmem_loop : ℕ → Bytes → Bytes → Option Bytes
memmem_loop zero h needle = none
memmem_loop (suc rounds) [] needle = if same_bytes [] needle then some [] else none
memmem_loop (suc rounds) (c ∷ h) needle =
    if c == get_or needle 0 0 && same_bytes (c ∷ h) needle
    then some (c ∷ h)
    else memmem_loop rounds h needle

-- The haystack and the needle are as long as the lists.
unfoldable pub memmem : Bytes → Bytes → Option Bytes
memmem h needle =
    if length needle == 0
    then some h
    else if ltb (length h) (length needle)
    then none
    else memmem_loop (length h - length needle + 1) h needle
