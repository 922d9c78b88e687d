-- ===== src/Libc/Conv/Decimal.antt =====
-- The decimal conversions of libc/conv.c: `atoi` reads back what `utoa` and `itoa` write.
use foos.Prelude.{
  ℕ, zero, suc, ◌+◌, ◌-◌, ◌*◌, ◌/◌, ◌%◌, ◌^◌, ◌≤◌, ◌<◌, ◌≡◌, refl, ◌∙◌, [], ◌∷◌, ◌++◌, true, false,
  arith, Bool-cases, ◌==◌, ◌≢◌, ◌⊎◌, inl, inr, All,
}
use mathlib.Core.List.{reverse, reverse-cons}
use native.Mathlib.Nat.{pow-suc}
use foos.Machine.{Run, ok, u32}
use foos.Libc.Str.{Bytes, strrev, strrev_loop}
use foos.Libc.Str.Reverse.{strrev-reverse}
use foos.Libc.Conv.{sign_extend, atoi_loop, atoi, digits_loop, utoa, negative_loop, itoa}

pub IsDigit : ℕ → Type 0
IsDigit c = (b'0' ≤ c) × (c ≤ b'9')

All-append : (P : ℕ → Type 0) (s t : Bytes) → All P s → All P t → All P (s ++ t)
All-append P [] t hs ht = ht
All-append P (c ∷ s) t hs ht = (hs.0, All-append P s t hs.1 ht)

atoi_loop-append : (res : ℕ) (s t : Bytes) → atoi_loop res (s ++ t) ≡ atoi_loop (atoi_loop res s) t
unfolding atoi_loop
atoi_loop-append res [] t = refl
atoi_loop-append res (c ∷ s) t =
    atoi_loop-append (u32 (res * 10 + sign_extend c + 2 ^ 32 - b'0')) s t

-- One more digit behind the others.
atoi_loop-digit :
    (res d : ℕ) → d < 10 → res * 10 + d < 2 ^ 32 → atoi_loop res ((d + b'0') ∷ []) ≡ res * 10 + d
unfolding atoi_loop
atoi_loop-digit res d small bound = ground arith

-- The digits that the loop leaves, from the last on.
record Digits (n : ℕ) (r : Run Bytes) : Type 0 where
  text : Bytes
  returns : r ≡ ok text
  decimal : All IsDigit (reverse text)
  value : atoi_loop 0 (reverse text) ≡ n

-- Enough fuel for `n` is one unit a digit.
digits_loop-Digits :
    (fuel n : ℕ) → n < 10 ^ suc fuel → n < 2 ^ 32 → Digits n (digits_loop (suc fuel) n)
unfolding digits_loop IsDigit
digits_loop-Digits zero n small bound =
    let t : (n / 10 == 0) ≡ true = ground arith in
    rw t (record {
      text = (n % 10 + b'0') ∷ [];
      returns = refl;
      decimal = ((omega arith, omega arith), tt);
      value = atoi_loop-digit 0 (n % 10) (omega arith) (omega arith) ∙ omega arith;
    })
digits_loop-Digits (suc fuel) n small bound = elim (Bool-cases (n / 10 == 0)) [
  | inl last ↦ rw last (
      let one : n / 10 ≡ 0 = ground arith in
      record {
        text = (n % 10 + b'0') ∷ [];
        returns = refl;
        decimal = ((omega arith, omega arith), tt);
        value = atoi_loop-digit 0 (n % 10) (omega arith) (omega arith) ∙ omega arith;
      })
  | inr more ↦
      let d =
        digits_loop-Digits fuel (n / 10) (omega (arith, pow-suc 10 (suc fuel))) (omega arith) in
      let back = reverse-cons (n % 10 + b'0') d.text in
      rw (more, d.returns)
        (record {
          text = (n % 10 + b'0') ∷ d.text;
          returns = refl;
          decimal = rw back (
              All-append IsDigit (reverse d.text) ((n % 10 + b'0') ∷ []) d.decimal
                ((omega arith, omega arith), tt));
          value = rw back (
              atoi_loop-append 0 (reverse d.text) ((n % 10 + b'0') ∷ [])
              ∙ rw d.value
                  (atoi_loop-digit (n / 10) (n % 10) (omega arith) (omega arith) ∙ omega arith));
        })
]

-- A text of digits has no sign for `atoi` to skip.
atoi-digits : (s : Bytes) → All IsDigit s → atoi s ≡ atoi_loop 0 s
unfolding atoi IsDigit
atoi-digits [] h = refl
atoi-digits (c ∷ s) h =
    let (lo, hi) = h.0 in
    let minus : (c == b'-') ≡ false = ground arith in
    let plus : (c == b'+') ≡ false = ground arith in rw (minus, plus) refl

-- `utoa` returns for every 32-bit number, the text is one of digits, and `atoi` reads the number
-- back from it.
pub atoi-utoa : (n : ℕ) → n < 2 ^ 32 → (s : Bytes) × (utoa n ≡ ok s) × All IsDigit s × (atoi s ≡ n)
unfolding utoa
atoi-utoa n bound =
    let d = digits_loop-Digits 9 n (omega arith) bound in
    (
      reverse d.text,
      rw d.returns (strrev-reverse d.text),
      d.decimal,
      atoi-digits (reverse d.text) d.decimal ∙ d.value,
    )

-- An optional sign, and digits.
pub IsDecimal : Bytes → Type 0
IsDecimal [] = Unit
IsDecimal (c ∷ s) = (c ≡ b'-') × All IsDigit s ⊎ All IsDigit (c ∷ s)

-- The text of the number whose pattern is 2^31: each digit lies below '0'.
abbrev pub least_text : Bytes
least_text = b'-' ∷ b'.' ∷ b'/' ∷ b',' ∷ b')' ∷ b',' ∷ b'(' ∷ b'-' ∷ b'*' ∷ b',' ∷ b'(' ∷ []

pub itoa_least : (itoa (2 ^ 31) ≡ ok least_text) × (atoi least_text ≡ 2 ^ 31)
unfolding itoa negative_loop strrev strrev_loop atoi atoi_loop
itoa_least = (refl, refl)

-- What `itoa` promises for `w`.
abbrev pub Written : ℕ → Run Bytes → Type 0
Written w r = (s : Bytes) × (r ≡ ok s) × (w ≢ 2 ^ 31 → IsDecimal s) × (atoi s ≡ w)
