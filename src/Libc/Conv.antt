-- ===== src/Libc/Conv.antt =====
-- libc/conv.c: numbers to and from text, and the case of letters. A 32-bit `int` is its bit pattern.
-- The buffer that a function fills is the text that it leaves there, without the terminator.
pub mod Decimal
pub mod Hex
pub mod Case
mod Tests
use foos.Prelude.{
  ℕ, zero, suc, ◌+◌, ◌-◌, ◌*◌, ◌/◌, ◌%◌, ◌^◌, List, [], ◌∷◌, ◌++◌, Bool, true, false, ◌&&◌, ◌||◌,
  if◌then◌else◌, ltb, leb, ◌==◌, length, get_or, bit_and,
}
use foos.Machine.{Run, ok, out_of_fuel, ◌>>=◌, u32, neg32}
use foos.Libc.Str.{Bytes, strrev}

-- The loop of `atoi` over the rest of the text: `res = res * 10 + *x - '0'` on 32 bits, where `*x`
-- is a signed character.
abbrev pub sign_extend : ℕ → ℕ
sign_extend c = if ltb c 128 then c else c + 2 ^ 32 - 256

unfoldable pub atoi_loop : ℕ → Bytes → ℕ
atoi_loop res [] = res
atoi_loop res (c ∷ s) = atoi_loop (u32 (res * 10 + sign_extend c + 2 ^ 32 - b'0')) s

-- `-` falls through to `+`: either sign is skipped.
unfoldable pub atoi : Bytes → ℕ
unfolding atoi_loop
atoi [] = 0
atoi (c ∷ s) =
    if c == b'-'
    then neg32 (atoi_loop 0 s)
    else if c == b'+'
    then atoi_loop 0 s
    else atoi_loop 0 (c ∷ s)

-- `do { *x = n%10+'0'; x++; } while (n/=10);`, one unit of fuel a round: the digits from the last on.
unfoldable pub digits_loop : ℕ → ℕ → Run Bytes
digits_loop zero n = out_of_fuel
digits_loop (suc fuel) n =
    let rest = digits_loop fuel (n / 10) in
    if n / 10 == 0 then ok ((n % 10 + b'0') ∷ []) else (do s ← rest; ok ((n % 10 + b'0') ∷ s))

-- Ten digits are enough for 32 bits.
unfoldable pub utoa : ℕ → Run Bytes
unfolding digits_loop
utoa n = do s ← digits_loop 10 n; strrev s

-- The same loop on a negative `n`, which is -2^31 there: C's `%` gives a remainder that is not
-- positive, so the digits lie below '0'. `m` is the absolute value.
unfoldable pub negative_loop : ℕ → ℕ → Run Bytes
negative_loop zero m = out_of_fuel
negative_loop (suc fuel) m =
    let rest = negative_loop fuel (m / 10) in
    if m / 10 == 0 then ok ((b'0' - m % 10) ∷ []) else (do s ← rest; ok ((b'0' - m % 10) ∷ s))

-- `n = -n` for a negative `n`, which leaves -2^31 as it is.
unfoldable pub itoa : ℕ → Run Bytes
unfolding digits_loop negative_loop
itoa w =
    if ltb w (2 ^ 31)
    then (do s ← digits_loop 10 w; strrev s)
    else (let n = neg32 w in
        do
          s ← if ltb n (2 ^ 31) then digits_loop 10 n else negative_loop 10 n
          strrev (s ++ (b'-' ∷ [])))

unfoldable pub num_hex_loop : ℕ → ℕ → ℕ → Run ℕ
num_hex_loop zero n ret = out_of_fuel
num_hex_loop (suc fuel) n ret =
    let rest = num_hex_loop fuel (n / 2 ^ 4) (ret + 1) in if n == 0 then ok ret else rest

unfoldable pub num_hex_digits : ℕ → Run ℕ
num_hex_digits n = if n == 0 then ok 1 else num_hex_loop 9 n 0

-- `hex_lookup`
abbrev pub hex_digit : ℕ → ℕ
hex_digit d = if ltb d 10 then d + b'0' else d - 10 + b'A'

-- `for (--len; len>=0; n>>=4, --len) s[len] = hex_lookup[n & 0xF];` fills `len` places from the last
-- one down; `done` is the text behind them.
unfoldable pub itoh_loop : ℕ → ℕ → Bytes → Bytes
itoh_loop zero n done = done
itoh_loop (suc len) n done = itoh_loop len (n / 2 ^ 4) (hex_digit (bit_and n 0xF) ∷ done)

unfoldable pub itoh : ℕ → Run Bytes
unfolding num_hex_digits itoh_loop
itoh n = do
  len ← num_hex_digits n
  ok (if bit_and len 1 == 0 then itoh_loop len n [] else b'0' ∷ itoh_loop len n [])

-- On the characters that they are called with, which are not negative.
unfoldable pub toupper : ℕ → ℕ
toupper c = if leb b'a' c && leb c b'z' then c + b'A' - b'a' else c

unfoldable pub tolower : ℕ → ℕ
tolower c = if leb b'A' c && leb c b'Z' then c + b'a' - b'A' else c
