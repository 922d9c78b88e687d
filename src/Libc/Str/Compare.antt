-- ===== src/Libc/Str/Compare.antt =====
-- `strcmp` and `strncmp` of libc/string.c compare texts.
use foos.Prelude.{
  ℕ, ◌-◌, ◌<◌, ◌≡◌, refl, ap₂, ◌↔◌, inl, inr, [], ◌∷◌, ◌++◌, true, arith, Bool-cases, ◌==◌, length,
}
use foos.Machine.{neg32}
use foos.Libc.Str.{Bytes, IsText, strcmp, strncmp}

-- `h` begins with `n`.
abbrev pub StartsWith : Bytes → Bytes → Type 0
StartsWith h n = (rest : Bytes) × (h ≡ n ++ rest)

pub cons-injective : (a b : ℕ) (s t : Bytes) → a ∷ s ≡ b ∷ t → (a ≡ b) × (s ≡ t)
cons-injective a b s t e = (cc, cc)

-- `strcmp` returns 0 exactly for equal texts.
pub strcmp_iff : (s t : Bytes) → IsText s → IsText t → (strcmp s t ≡ 0) ↔ (s ≡ t)
unfolding strcmp
strcmp_iff [] [] hs ht = (λ e. refl, λ e. refl)
strcmp_iff [] (b ∷ t) hs ht =
    let pos = ht.0.0 in let below = ht.0.1 in (λ e. absurd (omega arith), λ e. absurd cc)
strcmp_iff (a ∷ s) [] hs ht = let pos = hs.0.0 in (λ e. absurd (omega arith), λ e. absurd cc)
strcmp_iff (a ∷ s) (b ∷ t) hs ht =
    let (pa, ba) = hs.0 in
    let (pb, bb) = ht.0 in
    let (to, from) = strcmp_iff s t hs.1 ht.1 in
    elim (Bool-cases (a == b)) [
      | inl same ↦
          let e : a ≡ b = ground arith in
          rw same (
            λ z. ap₂ (λ (x : ℕ) (xs : Bytes). x ∷ xs) e (to z),
            λ q. from (cons-injective a b s t q).1,
          )
      | inr differ ↦ rw differ (
        λ z. absurd (ground arith),
        λ q. absurd (let e = (cons-injective a b s t q).0 in ground arith),
      )
    ]

-- The comparison that `strstr` makes: the first `length n` characters agree exactly if the first text
-- begins with `n`.
pub strncmp_iff :
    (h n : Bytes) → IsText h → IsText n → (strncmp h n (length n) ≡ 0) ↔ StartsWith h n
unfolding strncmp
strncmp_iff h [] hh hn = (λ e. (h, refl), λ e. refl)
strncmp_iff [] (b ∷ n) hh hn =
    let pos = hn.0.0 in
    let below = hn.0.1 in (λ e. absurd (omega arith), λ e. absurd (let q = e.1 in cc))
strncmp_iff (a ∷ h) (b ∷ n) hh hn =
    let (pa, ba) = hh.0 in
    let (pb, bb) = hn.0 in
    let (to, from) = strncmp_iff h n hh.1 hn.1 in
    elim (Bool-cases (a == b)) [
      | inl same ↦
          let e : a ≡ b = ground arith in
          rw same (
            λ z. (let (rest, q) = to z in (rest, ap₂ (λ (x : ℕ) (xs : Bytes). x ∷ xs) e q)),
            λ p. from (p.0, (cons-injective a b h (n ++ p.0) p.1).1),
          )
      | inr differ ↦ rw differ (
        λ z. absurd (ground arith),
        λ p. absurd (let e = (cons-injective a b h (n ++ p.0) p.1).0 in ground arith),
      )
    ]

-- For texts with a common beginning and different characters behind it, `strcmp` returns the
-- difference of these two, as a negative number if the first text has the smaller one.
pub strcmp_sign :
    (p s t : Bytes) (a b : ℕ)
    → a < 256
    → b < 256
    → a < b
    → (strcmp (p ++ (a ∷ s)) (p ++ (b ∷ t)) ≡ neg32 (b - a))
      × (strcmp (p ++ (b ∷ t)) (p ++ (a ∷ s)) ≡ b - a)
unfolding strcmp
strcmp_sign [] s t a b ha hb lt = (ground arith, ground arith)
strcmp_sign (c ∷ p) s t a b ha hb lt =
    let refl_test : (c == c) ≡ true = ground arith in rw refl_test (strcmp_sign p s t a b ha hb lt)
