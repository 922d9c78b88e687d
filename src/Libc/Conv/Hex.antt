-- ===== src/Libc/Conv/Hex.antt =====
-- `itoh` of libc/conv.c writes a number in hexadecimal.
use foos.Prelude.{
  ℕ, zero, suc, ◌+◌, ◌-◌, ◌*◌, ◌/◌, ◌%◌, ◌^◌, ◌<◌, ◌≡◌, refl, ap, ◌∙◌, [], ◌∷◌, true, arith,
  Bool-cases, ◌==◌, ltb, inl, inr, length, bit_and, if◌then◌else◌,
}
use foos.Prelude.Bits.{bit_and-ones}
use native.Mathlib.Nat.{pow-suc}
use foos.Machine.{ok}
use foos.Libc.Str.{Bytes}
use foos.Libc.Conv.{num_hex_loop, num_hex_digits, hex_digit, itoh_loop, itoh}

-- The value of a hexadecimal digit, and of a text of them behind the value `v`.
abbrev pub nibble : ℕ → ℕ
nibble c = if ltb c b'A' then c - b'0' else c - b'A' + 10

abbrev pub hex_value : ℕ → Bytes → ℕ
hex_value v [] = v
hex_value v (c ∷ s) = hex_value (v * 16 + nibble c) s

nibble-hex_digit : (d : ℕ) → d < 16 → nibble (hex_digit d) ≡ d
nibble-hex_digit d h = ground arith

num_hex_loop_lem :
    (fuel n ret : ℕ)
    → n < 16 ^ fuel
    → (k : ℕ) × (num_hex_loop (suc fuel) n ret ≡ ok (ret + k)) × (n < 16 ^ k)
unfolding num_hex_loop
num_hex_loop_lem zero n ret small =
    let t : (n == 0) ≡ true = ground arith in rw t (0, ap ok (omega arith), small)
num_hex_loop_lem (suc fuel) n ret small = elim (Bool-cases (n == 0)) [
  | inl done ↦ rw done (0, ap ok (omega arith), ground arith)
  | inr more ↦
      let (k, returns, bound) =
        num_hex_loop_lem fuel (n / 2 ^ 4) (ret + 1) (omega (arith, pow-suc 16 fuel)) in
      rw more (suc k, returns ∙ ap ok (omega arith), omega (arith, pow-suc 16 k))
]

num_hex_digits_lem : (n : ℕ) → n < 2 ^ 32 → (k : ℕ) × (num_hex_digits n ≡ ok k) × (n < 16 ^ k)
unfolding num_hex_digits
num_hex_digits_lem n bound = elim (Bool-cases (n == 0)) [
  | inl z ↦ rw z (1, refl, ground arith)
  | inr nz ↦
      let (k, returns, small) = num_hex_loop_lem 8 n 0 (omega arith) in
      rw nz (k, returns ∙ ap ok (omega arith), small)
]

hex_value-itoh_loop :
    (len n : ℕ) (done : Bytes)
    → n < 16 ^ len
    → hex_value 0 (itoh_loop len n done) ≡ hex_value n done
unfolding itoh_loop
hex_value-itoh_loop zero n done small =
    let e : 0 ≡ n = omega arith in ap (λ (t : ℕ). hex_value t done) e
hex_value-itoh_loop (suc len) n done small =
    let low : bit_and n 0xF ≡ n % 2 ^ 4 = bit_and-ones 4 n in
    let e : n / 2 ^ 4 * 16 + nibble (hex_digit (n % 2 ^ 4)) ≡ n =
      omega (arith, nibble-hex_digit (n % 2 ^ 4) (omega arith)) in
    hex_value-itoh_loop len (n / 2 ^ 4) (hex_digit (bit_and n 0xF) ∷ done)
      (omega (arith, pow-suc 16 len))
    ∙ rw low (ap (λ (t : ℕ). hex_value t done) e)

length-itoh_loop : (len n : ℕ) (done : Bytes) → length (itoh_loop len n done) ≡ len + length done
unfolding itoh_loop
length-itoh_loop zero n done = omega arith
length-itoh_loop (suc len) n done =
    omega (arith, length-itoh_loop len (n / 2 ^ 4) (hex_digit (bit_and n 0xF) ∷ done))

-- `itoh` returns for every 32-bit number: the text has the value of the number in base 16, and an
-- even number of digits.
pub itoh_lem :
    (n : ℕ) → n < 2 ^ 32 → (s : Bytes) × (itoh n ≡ ok s) × (hex_value 0 s ≡ n) × (length s % 2 ≡ 0)
unfolding itoh
itoh_lem n bound =
    let (len, returns, small) = num_hex_digits_lem n bound in
    let odd : bit_and len 1 ≡ len % 2 = bit_and-ones 1 len in
    let value = hex_value-itoh_loop len n [] small in
    let size = length-itoh_loop len n [] in
    elim (Bool-cases (len % 2 == 0)) [
      | inl even ↦
          rw (returns, odd, even)
            (itoh_loop len n [], refl, value, (let z : len % 2 ≡ 0 = ground arith in omega arith))
      | inr uneven ↦
          rw (returns, odd, uneven)
            (
              b'0' ∷ itoh_loop len n [],
              refl,
              value,
              (let z : len % 2 ≡ 1 = ground arith in omega arith),
            )
    ]
