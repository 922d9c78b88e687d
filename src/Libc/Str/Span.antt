-- ===== src/Libc/Str/Span.antt =====
-- `strspn` of libc/string.c measures the beginning of a text that uses the given characters only.
use foos.Prelude.{
  ◌≤◌, ◌≡◌, inl, inr, [], ◌∷◌, true, false, arith, Bool-cases, length, All, take, drop,
}
use foos.Libc.Str.{Bytes, one_of, strspn}

-- The rest begins with a character that is not in `accept`, or is empty.
abbrev pub Stops : Bytes → Bytes → Type 0
Stops accept [] = Unit
Stops accept (c ∷ s) = one_of c accept ≡ false

-- `strspn` returns the length of the longest beginning of the text in which each character is in
-- `accept`.
pub strspn_lem :
    (s accept : Bytes)
    → (strspn s accept ≤ length s)
      × All (λ c. one_of c accept ≡ true) (take (strspn s accept) s)
      × Stops accept (drop (strspn s accept) s)
unfolding strspn
strspn_lem [] accept = (omega arith, tt, tt)
strspn_lem (c ∷ s) accept = elim (Bool-cases (one_of c accept)) [
  | inl e ↦ let (le, all, stops) = strspn_lem s accept in rw e (omega arith, (e, all), stops)
  | inr e ↦ rw e (omega arith, tt, e)
]
