-- ===== src/Kernel/Acpi/Search.antt =====
-- `acpi_search_s5` of kernel/acpi.c finds the first package of that name.
use foos.Prelude.{
  ℕ, zero, suc, ◌+◌, ◌-◌, ◌≤◌, ◌<◌, ◌≡◌, ◌≢◌, ◌⊎◌, refl, sym, ap, ◌∙◌, arith, Bool-cases, inl, inr,
  true, false, ◌==◌, [], ◌∷◌, ◌++◌, Option, none, some, length, get_or, drop,
}
use mathlib.Core.Path.{subst}
use foos.Machine.{Run, ok}
use foos.Libc.Str.{Bytes}
use foos.Libc.Str.Compare.{StartsWith}
use foos.Libc.Str.Search.{Occurs}
use foos.Libc.Str.Memory.{memmem-Finds}
use foos.Kernel.Acpi.{s5_name, is_s5, next_s5, search_loop, acpi_search_s5}

-- The name stands at the index.
pub record Named (zone : Bytes) (p : ℕ) : Type 0 where
  pub first : get_or zone p 0 ≡ b'_'
  pub second : get_or zone (p + 1) 0 ≡ b'S'
  pub third : get_or zone (p + 2) 0 ≡ b'5'
  pub fourth : get_or zone (p + 3) 0 ≡ b'_'

-- The package `_S5_`: the name with 0x12 behind it, and 0x08 before it or a backslash and 0x08.
pub record IsS5 (zone : Bytes) (p : ℕ) : Type 0 where
  pub named : Named zone p
  pub inside : p + 4 < length zone
  pub behind : get_or zone (p + 4) 0 ≡ 0x12
  pub before :
      ((1 ≤ p) × (get_or zone (p - 1) 0 ≡ 0x08))
      ⊎ ((2 ≤ p) × (get_or zone (p - 1) 0 ≡ b'\\') × (get_or zone (p - 2) 0 ≡ 0x08))

get_or-drop : (k i : ℕ) (s : Bytes) → get_or (drop k s) i 0 ≡ get_or s (k + i) 0
get_or-drop zero i s = ap (λ (n : ℕ). get_or s n 0) (omega arith)
get_or-drop (suc k) i [] = refl
get_or-drop (suc k) i (c ∷ s) =
    get_or-drop k i s
    ∙ ap (λ (n : ℕ). get_or (c ∷ s) n 0) (let e : suc (k + i) ≡ suc k + i = omega arith in e)

length-drop_eq : (k : ℕ) (s : Bytes) → length (drop k s) ≡ length s - k
length-drop_eq zero s = omega arith
length-drop_eq (suc k) [] = omega arith
length-drop_eq (suc k) (c ∷ s) = omega (arith, length-drop_eq k s)

drop-nil : (n : ℕ) → drop {A = ℕ} n [] ≡ []
drop-nil zero = refl
drop-nil (suc n) = refl

drop-drop : (j k : ℕ) (s : Bytes) → drop j (drop k s) ≡ drop (k + j) s
drop-drop j zero s = ap (λ (n : ℕ). drop n s) (omega arith)
drop-drop j (suc k) [] = drop-nil j ∙ sym (drop-nil (suc k + j))
drop-drop j (suc k) (c ∷ s) =
    drop-drop j k s
    ∙ ap (λ (n : ℕ). drop n (c ∷ s)) (let e : suc (k + j) ≡ suc k + j = omega arith in e)

Occurs-Named : (zone : Bytes) (len p : ℕ) → Occurs zone s5_name len p → Named zone p
Occurs-Named zone len p o =
    let (rest, e) = o.there in
    let at : (i : ℕ) → get_or zone (p + i) 0 ≡ get_or (s5_name ++ rest) i 0 =
      λ i. sym (get_or-drop p i zone) ∙ ap (λ (s : Bytes). get_or s i 0) e in
    record {
      first = ap (λ (n : ℕ). get_or zone n 0) (omega arith) ∙ at 0;
      second = at 1;
      third = at 2;
      fourth = at 3;
    }

is_s5-IsS5 : (zone : Bytes) (p : ℕ) → Named zone p → is_s5 zone p ≡ true → IsS5 zone p
is_s5-IsS5 zone p name yes_s5 = record {
  named = name;
  inside = ground arith;
  behind = ground arith;
  before = ground arith;
}

IsS5-is_s5 : (zone : Bytes) (p : ℕ) → IsS5 zone p → is_s5 zone p ≡ true
IsS5-is_s5 zone p v =
    let inside = v.inside in let behind = v.behind in let before = v.before in ground arith

-- Behind a name, the zone that is left has the same packages.
IsS5-drop :
    (zone : Bytes) (k p : ℕ)
    → Named zone k
    → IsS5 zone p
    → k < p
    → (k + 4 ≤ p) × IsS5 (drop (k + 4) zone) (p - (k + 4))
IsS5-drop zone k p name v lt =
    let at : (i j : ℕ) → i ≡ j → get_or zone i 0 ≡ get_or zone j 0 =
      λ i j e. ap (λ (n : ℕ). get_or zone n 0) e in
    let first = v.named.first in
    let second = name.second in
    let third = name.third in
    let fourth = name.fourth in
    let ne1 : p ≢ k + 1 = λ e. absurd (omega (arith, at p (k + 1) e)) in
    let ne2 : p ≢ k + 2 = λ e. absurd (omega (arith, at p (k + 2) e)) in
    let ne3 : p ≢ k + 3 = λ e. elim v.before [
      | inl (ge, b) ↦ absurd (omega (arith, at (p - 1) (k + 2) (omega arith)))
      | inr (ge, b, c) ↦ absurd (omega (arith, at (p - 1) (k + 2) (omega arith)))
    ] in
    let ne4 : p ≢ k + 4 = λ e. elim v.before [
      | inl (ge, b) ↦ absurd (omega (arith, at (p - 1) (k + 3) (omega arith)))
      | inr (ge, b, c) ↦ absurd (omega (arith, at (p - 1) (k + 3) (omega arith)))
    ] in
    let far : k + 4 < p = ground arith in
    let m = p - (k + 4) in
    let moved : (i j : ℕ) → k + 4 + i ≡ j → get_or (drop (k + 4) zone) i 0 ≡ get_or zone j 0 =
      λ i j e. get_or-drop (k + 4) i zone ∙ at (k + 4 + i) j e in
    (
      omega arith,
      record {
        named = record {
          first = moved m p (omega arith) ∙ v.named.first;
          second = moved (m + 1) (p + 1) (omega arith) ∙ v.named.second;
          third = moved (m + 2) (p + 2) (omega arith) ∙ v.named.third;
          fourth = moved (m + 3) (p + 3) (omega arith) ∙ v.named.fourth;
        };
        inside = let i = v.inside in omega (arith, length-drop_eq (k + 4) zone);
        behind = moved (m + 4) (p + 4) (omega arith) ∙ v.behind;
        before = elim v.before [
          | inl (ge, b) ↦ inl (omega arith, moved (m - 1) (p - 1) (omega arith) ∙ b)
          | inr (ge, b, c) ↦
              let ne5 : p ≢ k + 5 = λ e. absurd (omega (arith, at (p - 2) (k + 3) (omega arith))) in
              let farther : k + 5 < p = ground arith in
              inr (
                omega arith,
                moved (m - 1) (p - 1) (omega arith) ∙ b,
                moved (m - 2) (p - 2) (omega arith) ∙ c,
              )
        ];
      },
    )

drop-IsS5 : (zone : Bytes) (k q : ℕ) → IsS5 (drop k zone) q → IsS5 zone (k + q)
drop-IsS5 zone k q v =
    let moved : (i j : ℕ) → k + i ≡ j → get_or zone j 0 ≡ get_or (drop k zone) i 0 =
      λ i j e. ap (λ (n : ℕ). get_or zone n 0) (sym e) ∙ sym (get_or-drop k i zone) in
    record {
      named = record {
        first = moved q (k + q) refl ∙ v.named.first;
        second = moved (q + 1) (k + q + 1) (omega arith) ∙ v.named.second;
        third = moved (q + 2) (k + q + 2) (omega arith) ∙ v.named.third;
        fourth = moved (q + 3) (k + q + 3) (omega arith) ∙ v.named.fourth;
      };
      inside = let i = v.inside in omega (arith, length-drop_eq k zone);
      behind = moved (q + 4) (k + q + 4) (omega arith) ∙ v.behind;
      before = elim v.before [
        | inl (ge, b) ↦ inl (omega arith, moved (q - 1) (k + q - 1) (omega arith) ∙ b)
        | inr (ge, b, c) ↦ inr (
          omega arith,
          moved (q - 1) (k + q - 1) (omega arith) ∙ b,
          moved (q - 2) (k + q - 2) (omega arith) ∙ c,
        )
      ];
    }

-- A search returns the first package, or nothing if there is none.
pub data Searches (zone : Bytes) : Option ℕ → Type 0 where
  no_package : ((p : ℕ) → ¬ IsS5 zone p) → Searches zone none
  first_package : (p : ℕ) → IsS5 zone p → ((q : ℕ) → IsS5 zone q → p ≤ q) → Searches zone (some p)

starts : (s : Bytes) → Named s 0 → StartsWith s s5_name
starts [] v = let e = v.first in absurd (omega arith)
starts (a ∷ []) v = let e = v.second in absurd (omega arith)
starts (a ∷ b ∷ []) v = let e = v.third in absurd (omega arith)
starts (a ∷ b ∷ c ∷ []) v = let e = v.fourth in absurd (omega arith)
starts (a ∷ b ∷ c ∷ d ∷ rest) v =
    let first = v.first in
    let second = v.second in let third = v.third in let fourth = v.fourth in (rest, cc)

IsS5-Occurs : (zone : Bytes) (p : ℕ) → IsS5 zone p → Occurs zone s5_name (length zone) p
IsS5-Occurs zone p v = record {
  inside = let i = v.inside in omega arith;
  there = starts (drop p zone) (record {
    first = get_or-drop p 0 zone ∙ ap (λ (n : ℕ). get_or zone n 0) (omega arith) ∙ v.named.first;
    second = get_or-drop p 1 zone ∙ v.named.second;
    third = get_or-drop p 2 zone ∙ v.named.third;
    fourth = get_or-drop p 3 zone ∙ v.named.fourth;
  });
}

abbrev shift : ℕ → Option ℕ → Option ℕ
shift from none = none
shift from (some p) = some (from + p)

shift-shift : (a b : ℕ) (r : Option ℕ) → shift (a + b) r ≡ shift a (shift b r)
shift-shift a b none = refl
shift-shift a b (some p) = ap (λ (n : ℕ). some n) (omega arith)

-- A name that is no package comes before the first one.
IsS5-behind :
    (zone : Bytes) (k : ℕ)
    → is_s5 zone k ≡ false
    → ((q : ℕ) → IsS5 zone q → k ≤ q)
    → (q : ℕ) → IsS5 zone q
    → k < q
IsS5-behind zone k fails least q v = elim (Bool-cases (k == q)) [
  | inl same ↦
      let e : k ≡ q = ground arith in
      let hit : is_s5 zone k ≡ true = ap (λ (n : ℕ). is_s5 zone n) e ∙ IsS5-is_s5 zone q v in
      absurd cc
  | inr differ ↦ (let le = least q v in ground arith)
]

-- It is passed over.
Searches-drop :
    (zone : Bytes) (k : ℕ) (r : Option ℕ)
    → Named zone k
    → is_s5 zone k ≡ false
    → ((q : ℕ) → IsS5 zone q → k ≤ q)
    → Searches (drop (k + 4) zone) r
    → Searches zone (shift (k + 4) r)
Searches-drop zone k none name fails least (no_package empty) =
    no_package (λ p v.
      empty (p - (k + 4)) (IsS5-drop zone k p name v (IsS5-behind zone k fails least p v)).1)
Searches-drop zone k (some r) name fails least (first_package p v first) =
    first_package (k + 4 + p) (drop-IsS5 zone (k + 4) p v) (λ q w.
      (let moved = IsS5-drop zone k q name w (IsS5-behind zone k fails least q w) in
        let le = first (q - (k + 4)) moved.1 in let ge = moved.0 in omega arith))

-- The round at the name at `k`.
module _ (from : ℕ) (aml : Bytes) (more : Bytes → ℕ → Run (Option ℕ)) (k : ℕ)
    (le : k ≤ length aml) where
  position : length aml - length (drop k aml) ≡ k
  position = omega (arith, length-drop_eq k aml)

  next_s5-hit :
      is_s5 aml k ≡ true → next_s5 from aml more (some (drop k aml)) ≡ ok (some (from + k))
  next_s5-hit hit = rw (position, hit) refl

  next_s5-miss :
      is_s5 aml k ≡ false
      → next_s5 from aml more (some (drop k aml)) ≡ more (drop 4 (drop k aml)) (from + k + 4)
  next_s5-miss miss = rw (position, miss) refl

search_loop-Searches :
    (fuel : ℕ) (aml : Bytes) (from : ℕ)
    → length aml < fuel
    → (r : Option ℕ) × (search_loop fuel aml from ≡ ok (shift from r)) × Searches aml r
unfolding search_loop
search_loop-Searches zero aml from enough = absurd (omega arith)
search_loop-Searches (suc fuel) aml from enough =
    let more = λ (aml' : Bytes) (from' : ℕ). search_loop fuel aml' from' in
    elim (memmem-Finds aml s5_name) [
      | inr (e, empty) ↦
          (none, ap (next_s5 from aml more) e, no_package (λ p v. empty p (IsS5-Occurs aml p v)))
      | inl (k, le, e, o, least) ↦
          let name = Occurs-Named aml (length aml) k o in
          let first : (q : ℕ) → IsS5 aml q → k ≤ q = λ q v. least q (IsS5-Occurs aml q v) in
          elim (Bool-cases (is_s5 aml k)) [
            | inl hit ↦ (
              some k,
              ap (next_s5 from aml more) e ∙ next_s5-hit from aml more k le hit,
              first_package k (is_s5-IsS5 aml k name hit) first,
            )
            | inr miss ↦
                let inside = o.inside in
                let (r, ret, found) =
                  search_loop-Searches fuel (drop 4 (drop k aml)) (from + k + 4)
                    (omega (arith, length-drop_eq k aml, length-drop_eq 4 (drop k aml))) in
                (
                  shift (k + 4) r,
                  ap (next_s5 from aml more) e
                      ∙ next_s5-miss from aml more k le miss
                      ∙ ret
                      ∙ ap (λ (n : ℕ). ok (shift n r)) (omega arith)
                      ∙ ap (λ (x : Option ℕ). ok x) (shift-shift from (k + 4) r),
                  Searches-drop aml k r name miss first
                      (subst (λ (s : Bytes). Searches s r) (drop-drop 4 k aml) found),
                )
          ]
    ]

shift-zero : (r : Option ℕ) → shift 0 r ≡ r
shift-zero none = refl
shift-zero (some p) = ap (λ (n : ℕ). some n) (omega arith)

-- On every zone `acpi_search_s5` returns the index of the first package `_S5_`, that is of the name with
-- 0x12 behind it and 0x08, or a backslash and 0x08, before it; and null if there is none. Names that are
-- no packages are passed over.
pub acpi_search_s5-Searches :
    (aml : Bytes) → (r : Option ℕ) × (acpi_search_s5 aml ≡ ok r) × Searches aml r
unfolding acpi_search_s5
acpi_search_s5-Searches aml =
    let (r, ret, found) = search_loop-Searches (suc (length aml)) aml 0 (omega arith) in
    (r, ret ∙ ap (λ (x : Option ℕ). ok x) (shift-zero r), found)
