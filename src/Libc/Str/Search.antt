-- ===== src/Libc/Str/Search.antt =====
-- `strstr` and `strnstr` of libc/string.c find the first occurrence of a text.
use foos.Prelude.{
  ℕ, zero, suc, ◌+◌, ◌-◌, ◌≤◌, ◌≡◌, refl, ap, ◌↔◌, ◌⊎◌, inl, inr, [], ◌∷◌, true, false, arith,
  Bool-cases, ◌==◌, leb, length, length-append, drop, Option, none, some, get_or,
}
use foos.Libc.Str.{Bytes, IsText, matches, strstr_loop, strstr, strnstr_loop, strnstr}
use foos.Libc.Str.Compare.{StartsWith, strncmp_iff}

-- `n` occurs in `h` at `k`, within the first `len` characters.
pub record Occurs (h n : Bytes) (len k : ℕ) : Type 0 where
  pub inside : k + length n ≤ len
  pub there : StartsWith (drop k h) n

-- A search returns the rest of `h` from the first occurrence on, or null if there is none.
abbrev pub Finds : Bytes → Bytes → ℕ → Option Bytes → Type 0
Finds h n len r =
    ((k : ℕ) × (k ≤ length h)
      × (r ≡ some (drop k h))
      × Occurs h n len k
      × ((j : ℕ) → Occurs h n len j → k ≤ j))
    ⊎ ((r ≡ none) × ((j : ℕ) → ¬ Occurs h n len j))

pub StartsWith-length : (h n : Bytes) → StartsWith h n → length n ≤ length h
StartsWith-length h n (rest, e) =
    let size = ap (λ (s : Bytes). length s) e in omega (arith, length-append n rest)

matches_iff :
    (c : ℕ) (h : Bytes) (b : ℕ) (n : Bytes)
    → IsText (c ∷ h)
    → IsText (b ∷ n)
    → (matches (c ∷ h) (b ∷ n) ≡ true) ↔ StartsWith (c ∷ h) (b ∷ n)
unfolding matches
matches_iff c h b n hh hn =
    let (to, from) = strncmp_iff (c ∷ h) (b ∷ n) hh hn in
    (
      λ m. to (ground arith),
      λ p.
          let same : c ≡ b = ap (λ (s : Bytes). get_or s 0 0) p.1 in
          let zero_result = from p in ground arith,
    )

pub Occurs-here :
    (c : ℕ) (h n : Bytes) (len : ℕ)
    → length n ≤ len
    → StartsWith (c ∷ h) n
    → Finds (c ∷ h) n len (some (c ∷ h))
Occurs-here c h n len fits p =
    inl (0, omega arith, refl, record { inside = omega arith; there = p }, λ j o. omega arith)

-- An occurrence behind the first character.
Occurs-suc :
    (c : ℕ) (h n : Bytes) (len k : ℕ) → Occurs h n len k → Occurs (c ∷ h) n (suc len) (suc k)
Occurs-suc c h n len k o = record { inside = omega (arith, o.inside); there = o.there }

pub Finds-suc :
    (c : ℕ) (h n : Bytes) (len : ℕ) (r : Option Bytes)
    → ¬ StartsWith (c ∷ h) n
    → Finds h n len r
    → Finds (c ∷ h) n (suc len) r
Finds-suc c h n len r miss (inl (k, le, e, o, least)) =
    inl (suc k, omega arith, e, Occurs-suc c h n len k o, λ j. later j)
  where
    later : (j : ℕ) → Occurs (c ∷ h) n (suc len) j → suc k ≤ j
    later zero o' = absurd (miss o'.there)
    later (suc j) o' =
        let le' = least j (record { inside = omega (arith, o'.inside); there = o'.there }) in
        omega arith
Finds-suc c h n len r miss (inr (e, none_at)) = inr (e, λ j. nowhere j)
  where
    nowhere : (j : ℕ) → ¬ Occurs (c ∷ h) n (suc len) j
    nowhere zero o' = miss o'.there
    nowhere (suc j) o' = none_at j (record { inside = omega (arith, o'.inside); there = o'.there })

pub Finds-none : (h n : Bytes) (len : ℕ) → ((j : ℕ) → ¬ Occurs h n len j) → Finds h n len none
Finds-none h n len nowhere = inr (refl, nowhere)

StartsWith-nil : (b : ℕ) (n : Bytes) (j : ℕ) → ¬ StartsWith (drop j []) (b ∷ n)
StartsWith-nil b n zero p = let size = StartsWith-length [] (b ∷ n) p in absurd (omega arith)
StartsWith-nil b n (suc j) p = let size = StartsWith-length [] (b ∷ n) p in absurd (omega arith)

strnstr_loop-Finds :
    (h : Bytes) (b : ℕ) (n : Bytes) (len : ℕ)
    → IsText h
    → IsText (b ∷ n)
    → Finds h (b ∷ n) len (strnstr_loop h (b ∷ n) len)
unfolding strnstr_loop
strnstr_loop-Finds [] b n len hh hn =
    Finds-none [] (b ∷ n) len (λ j o. StartsWith-nil b n j o.there)
strnstr_loop-Finds (c ∷ h) b n zero hh hn =
    let short : leb (suc (length n)) 0 ≡ false = ground arith in
    rw short (Finds-none (c ∷ h) (b ∷ n) 0 (λ j o. let i = o.inside in absurd (omega arith)))
strnstr_loop-Finds (c ∷ h) b n (suc len) hh hn =
    elim (Bool-cases (leb (length (b ∷ n)) (suc len))) [
      | inr short ↦
          rw short (
            Finds-none (c ∷ h) (b ∷ n) (suc len) (λ j o. let i = o.inside in absurd (ground arith)))
      | inl fits ↦ elim (Bool-cases (matches (c ∷ h) (b ∷ n))) [
        | inl m ↦
            rw (fits, m)
              (Occurs-here c h (b ∷ n) (suc len) (ground arith) ((matches_iff c h b n hh hn).0 m))
        | inr m ↦
            let back : suc len - 1 ≡ len = omega arith in
            rw (fits, m, back)
              (let miss : ¬ StartsWith (c ∷ h) (b ∷ n) =
                  λ p. let hit = (matches_iff c h b n hh hn).1 p in absurd cc in
                Finds-suc c h (b ∷ n) len (strnstr_loop h (b ∷ n) len) miss
                  (strnstr_loop-Finds h b n len hh.1 hn))
      ]
    ]

-- `strnstr` returns the first occurrence of the text within the first `len` characters, or null if
-- there is none; the empty text is found at the start.
pub strnstr-Finds : (h n : Bytes) (len : ℕ) → IsText h → IsText n → Finds h n len (strnstr h n len)
unfolding strnstr
strnstr-Finds h [] len hh hn =
    inl
      (0, omega arith, refl, record { inside = omega arith; there = (h, refl) }, λ j o. omega arith)
strnstr-Finds h (b ∷ n) len hh hn =
    let t : (suc (length n) == 0) ≡ false = ground arith in
    rw t (strnstr_loop-Finds h b n len hh hn)

strstr_loop-Finds :
    (h : Bytes) (b : ℕ) (n : Bytes)
    → IsText h
    → IsText (b ∷ n)
    → Finds h (b ∷ n) (length h) (strstr_loop h (b ∷ n))
unfolding strstr_loop
strstr_loop-Finds [] b n hh hn = Finds-none [] (b ∷ n) 0 (λ j o. StartsWith-nil b n j o.there)
strstr_loop-Finds (c ∷ h) b n hh hn = elim (Bool-cases (matches (c ∷ h) (b ∷ n))) [
  | inl m ↦ rw m (
      let p = (matches_iff c h b n hh hn).0 m in
      Occurs-here c h (b ∷ n) (suc (length h)) (StartsWith-length (c ∷ h) (b ∷ n) p) p)
  | inr m ↦ rw m (
      let miss : ¬ StartsWith (c ∷ h) (b ∷ n) =
        λ p. let hit = (matches_iff c h b n hh hn).1 p in absurd cc in
      Finds-suc c h (b ∷ n) (length h) (strstr_loop h (b ∷ n)) miss
        (strstr_loop-Finds h b n hh.1 hn))
]

-- `strstr` returns the first occurrence of the text, or null if there is none.
pub strstr-Finds : (h n : Bytes) → IsText h → IsText n → Finds h n (length h) (strstr h n)
unfolding strstr
strstr-Finds h [] hh hn =
    inl
      (0, omega arith, refl, record { inside = omega arith; there = (h, refl) }, λ j o. omega arith)
strstr-Finds h (b ∷ n) hh hn =
    let t : (suc (length n) == 0) ≡ false = ground arith in rw t (strstr_loop-Finds h b n hh hn)
