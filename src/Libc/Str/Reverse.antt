-- ===== src/Libc/Str/Reverse.antt =====
-- `strrev` of libc/string.c reverses a text.
use foos.Prelude.{
  ℕ, zero, suc, ◌+◌, ◌-◌, ◌≤◌, ◌<◌, ◌≡◌, ◌≢◌, refl, ap, ap₂, ◌∙◌, sym, ◌⊎◌, inl, inr, [], ◌∷◌, ◌++◌,
  false, arith, Bool-cases, ltb, length, get_or, set, length-set, length-append, get_or-set_self,
  get_or-set_ne,
}
use mathlib.Core.List.{reverse, reverse-cons}
use foos.Machine.{ok}
use foos.Libc.Str.{Bytes, strrev_loop, strrev}

-- `r` is `s` with the stretch from `i` to `j` turned round.
record Turned (s r : Bytes) (i j : ℕ) : Type 0 where
  size : length r ≡ length s
  inside : (k : ℕ) → i ≤ k → k ≤ j → get_or r k 0 ≡ get_or s (i + j - k) 0
  before : (k : ℕ) → k < i → get_or r k 0 ≡ get_or s k 0
  behind : (k : ℕ) → j < k → get_or r k 0 ≡ get_or s k 0

-- One exchange of the ends, and the rest turned round.
module _ (s r : Bytes) (i j : ℕ) (lt : i < j) (bound : j < length s) where
  abbrev swapped : Bytes
  swapped = set (set s i (get_or s j 0)) j (get_or s i 0)

  swapped_first : get_or swapped i 0 ≡ get_or s j 0
  swapped_first =
      get_or-set_ne (set s i (get_or s j 0)) j i (get_or s i 0) 0 (omega arith)
      ∙ get_or-set_self s i (get_or s j 0) 0 (omega arith)

  swapped_last : get_or swapped j 0 ≡ get_or s i 0
  swapped_last =
      get_or-set_self (set s i (get_or s j 0)) j (get_or s i 0) 0
        (omega (arith, length-set s i (get_or s j 0)))

  swapped_else : (k : ℕ) → i ≢ k → j ≢ k → get_or swapped k 0 ≡ get_or s k 0
  swapped_else k ni nj =
      get_or-set_ne (set s i (get_or s j 0)) j k (get_or s i 0) 0 nj
      ∙ get_or-set_ne s i k (get_or s j 0) 0 ni

  swapped_inside :
      Turned swapped r (suc i) (j - 1)
      → (k : ℕ) → i ≤ k
      → k ≤ j
      → get_or r k 0 ≡ get_or s (i + j - k) 0
  swapped_inside t k lo hi = elim (cut k lo hi) [
    | inl e ↦
        let mirror : i + j - k ≡ j = omega arith in
        rw mirror (t.before k (omega arith) ∙ ap (λ (n : ℕ). get_or swapped n 0) e ∙ swapped_first)
    | inr (inl e) ↦
        let mirror : i + j - k ≡ i = omega arith in
        rw mirror (t.behind k (omega arith) ∙ ap (λ (n : ℕ). get_or swapped n 0) e ∙ swapped_last)
    | inr (inr (above, under)) ↦
        let mirror : suc i + (j - 1) - k ≡ i + j - k = omega arith in
        t.inside k above (omega arith)
        ∙ ap (λ (n : ℕ). get_or swapped n 0) mirror
        ∙ swapped_else (i + j - k) (omega arith) (omega arith)
  ]
    where
      cut : (k : ℕ) → i ≤ k → k ≤ j → (k ≡ i) ⊎ ((k ≡ j) ⊎ (suc i ≤ k) × (k < j))
      cut k lo hi = ground arith

  Turned-swapped : Turned swapped r (suc i) (j - 1) → Turned s r i j
  Turned-swapped t = record {
    size =
        t.size
        ∙ length-set (set s i (get_or s j 0)) j (get_or s i 0)
        ∙ length-set s i (get_or s j 0);
    inside = swapped_inside t;
    before = λ k lo. t.before k (omega arith) ∙ swapped_else k (omega arith) (omega arith);
    behind = λ k hi. t.behind k (omega arith) ∙ swapped_else k (omega arith) (omega arith);
  }

strrev_loop-Turned :
    (fuel : ℕ) (s : Bytes) (i j : ℕ)
    → (j < length s) ⊎ (j ≤ i)
    → 0 < fuel
    → j < i + fuel
    → (r : Bytes) × (strrev_loop fuel s i j ≡ ok r) × Turned s r i j
unfolding strrev_loop
strrev_loop-Turned zero s i j bound pos enough = absurd (omega arith)
strrev_loop-Turned (suc fuel) s i j bound pos enough = elim (Bool-cases (ltb i j)) [
  | inl on ↦
      let lt : i < j = ground arith in
      let within : j < length s = ground arith in
      let size = length-set (set s i (get_or s j 0)) j (get_or s i 0) in
      let size' = length-set s i (get_or s j 0) in
      let (r, returns, turned) =
        strrev_loop-Turned fuel (swapped s s i j lt within) (suc i) (j - 1) (inl (omega arith))
          (omega arith) (omega arith) in
      rw on (r, returns, Turned-swapped s r i j lt within turned)
  | inr off ↦
      let here : (k : ℕ) → i ≤ k → k ≤ j → k ≡ i + j - k = λ k lo hi. ground arith in
      rw off (
        s,
        refl,
        record {
          size = refl;
          inside = λ k lo hi. ap (λ (n : ℕ). get_or s n 0) (here k lo hi);
          before = λ k lo. refl;
          behind = λ k hi. refl;
        },
      )
]

get_or-append_left : (s t : Bytes) (k : ℕ) → k < length s → get_or (s ++ t) k 0 ≡ get_or s k 0
get_or-append_left [] t k lt = absurd (omega arith)
get_or-append_left (c ∷ s) t zero lt = refl
get_or-append_left (c ∷ s) t (suc k) lt = get_or-append_left s t k (omega arith)

get_or-append_last : (s : Bytes) (c : ℕ) → get_or (s ++ (c ∷ [])) (length s) 0 ≡ c
get_or-append_last [] c = refl
get_or-append_last (b ∷ s) c = get_or-append_last s c

length-reverse : (s : Bytes) → length (reverse s) ≡ length s
length-reverse [] = refl
length-reverse (c ∷ s) =
    rw (reverse-cons c s) (omega (arith, length-append (reverse s) (c ∷ []), length-reverse s))

get_or-reverse :
    (s : Bytes) (k : ℕ) → k < length s → get_or (reverse s) k 0 ≡ get_or s (length s - 1 - k) 0
get_or-reverse [] k lt = absurd (omega arith)
get_or-reverse (c ∷ s) k lt = elim (Bool-cases (ltb k (length s))) [
  | inl h ↦
      let under : k < length s = ground arith in
      let mirror : suc (length s - 1 - k) ≡ suc (length s) - 1 - k = omega arith in
      rw (reverse-cons c s) (
        get_or-append_left (reverse s) (c ∷ []) k (omega (arith, length-reverse s))
        ∙ get_or-reverse s k under
        ∙ ap (λ (n : ℕ). get_or (c ∷ s) n 0) mirror)
  | inr h ↦
      let last : k ≡ length (reverse s) = omega (arith, length-reverse s, at_end k h) in
      let mirror : 0 ≡ suc (length s) - 1 - k = omega (arith, length-reverse s) in
      rw (reverse-cons c s) (
        ap (λ (n : ℕ). get_or (reverse s ++ (c ∷ [])) n 0) last
        ∙ get_or-append_last (reverse s) c
        ∙ ap (λ (n : ℕ). get_or (c ∷ s) n 0) mirror)
]
  where
    at_end : (k : ℕ) → ltb k (length s) ≡ false → length s ≤ k
    at_end k h = ground arith

same_text :
    (s t : Bytes)
    → length s ≡ length t
    → ((k : ℕ) → k < length t → get_or s k 0 ≡ get_or t k 0)
    → s ≡ t
same_text [] [] size same = refl
same_text [] (c ∷ t) size same = absurd (omega arith)
same_text (c ∷ s) [] size same = absurd (omega arith)
same_text (b ∷ s) (c ∷ t) size same =
    ap₂ (λ (x : ℕ) (xs : Bytes). x ∷ xs) (same 0 (omega arith))
      (same_text s t (omega arith) (λ k lt. same (suc k) (omega arith)))

-- `strrev` returns, and leaves the text in reverse.
pub strrev-reverse : (s : Bytes) → strrev s ≡ ok (reverse s)
unfolding strrev
strrev-reverse s =
    let (r, returns, t) =
      strrev_loop-Turned (suc (length s)) s 0 (length s - 1) (ends (length s)) (omega arith)
        (omega arith) in
    returns
    ∙ ap ok (
        same_text r (reverse s) (t.size ∙ sym (length-reverse s)) (λ k lt.
          let under : k < length s = omega (arith, length-reverse s) in
          let mirror : 0 + (length s - 1) - k ≡ length s - 1 - k = omega arith in
          t.inside k (omega arith) (omega arith)
          ∙ ap (λ (n : ℕ). get_or s n 0) mirror
          ∙ sym (get_or-reverse s k under)))
  where
    ends : (n : ℕ) → (n - 1 < n) ⊎ (n - 1 ≤ 0)
    ends zero = inr (omega arith)
    ends (suc n) = inl (omega arith)
