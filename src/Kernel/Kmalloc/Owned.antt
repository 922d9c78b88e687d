-- ===== src/Kernel/Kmalloc/Owned.antt =====
-- What first fit does to the blocks that callers of kernel/kmalloc.c hold.
use foos.Prelude.{
  ℕ, ◌+◌, ◌-◌, ◌^◌, ◌≤◌, ◌<◌, ◌≡◌, ap, Bool-cases, inl, inr, true, false, arith, List, [], ◌∷◌, leb,
  length, ◌==◌,
}
use foos.Kernel.Kmalloc.Cells.{
  Cell, behind, stop, owned, is_misaligned, takes, grab, place, visit, first_fit, Snug, Positive,
}
use foos.Kernel.Kmalloc.Place.{place-le, place-aligned, place-bound}
use foos.Kernel.Kmalloc.Chain.{le-stop}

-- `ys` is `xs` with the block `x` put in. The last block of `xs` may have grown, up to `x`.
pub data Handed (x : ℕ × ℕ) : List (ℕ × ℕ) → List (ℕ × ℕ) → Type 0 where
  here : {xs : List (ℕ × ℕ)} → Handed x xs (x ∷ xs)
  grown : {a n m : ℕ} → n ≤ m → Handed x ((a, n) ∷ []) ((a, m) ∷ x ∷ [])
  there : {y : ℕ × ℕ} {xs ys : List (ℕ × ℕ)} → Handed x xs ys → Handed x (y ∷ xs) (y ∷ ys)

-- From address `p` on, the blocks lie one behind the other, with room for a header before each.
abbrev pub Apart : ℕ → List (ℕ × ℕ) → Type 0
Apart p [] = Unit {0}
Apart p ((a, n) ∷ xs) = (p + 16 ≤ a) × Apart (a + n) xs

Apart-mono : (p p' : ℕ) (xs : List (ℕ × ℕ)) → p ≤ p' → Apart p' xs → Apart p xs
Apart-mono p p' [] le h = tt
Apart-mono p p' ((a, n) ∷ xs) le h = (omega arith, h.1)

pub owned-Apart : (p : ℕ) (cs : List Cell) → Apart p (owned p cs)
unfolding owned
owned-Apart p [] = tt
owned-Apart p (c ∷ cs) = elim (Bool-cases (c.used == 0)) [
  | inl f ↦ rw f (Apart-mono p (behind p c) _ (omega arith) (owned-Apart (behind p c) cs))
  | inr u ↦ rw u (omega arith, owned-Apart (behind p c) cs)
]

-- What is true of the block that first fit hands out: it fits, it is aligned, and it is new.
pub record Given (size align p : ℕ) (before : List Cell) (out : List Cell × ℕ) : Type 0 where
  pub given : ℕ
  pub fits : size ≤ given
  pub aligned : is_misaligned out.1 align ≡ false
  pub handed : Handed (out.1 + 16, given) (owned p before) (owned p out.0)
  pub positive : Positive out.0
  pub above : p ≤ out.1
  pub bound : out.1 + 16 + given ≤ stop p before + size + 2 ^ align + 16
  pub ends : stop p out.0 ≤ stop p before + size + 2 ^ align + 16
  pub longer : length out.0 ≤ length before + 1

grab-Given :
    (size align p : ℕ) (d : Cell) (ds : List Cell)
    → takes size align p d ≡ true
    → 0 < size
    → Positive (d ∷ ds)
    → Given size align p (d ∷ ds) (grab size d ds, p)
unfolding grab owned
grab-Given size align p d [] t pos all = record {
  given = d.size;
  fits = ground arith;
  aligned = ground arith;
  handed = let z : (d.used == 0) ≡ true = ground arith in rw z here;
  positive = all;
  above = omega arith;
  bound = omega (arith, le-stop (behind p d) []);
  ends = omega arith;
  longer = omega arith;
}
grab-Given size align p d (e ∷ es) t pos all = elim (Bool-cases (leb (d.size - size) 24)) [
  | inl small ↦ rw small (record {
    given = d.size;
    fits = ground arith;
    aligned = ground arith;
    handed = let z : (d.used == 0) ≡ true = ground arith in rw z here;
    positive = all;
    above = omega arith;
    bound = omega (arith, le-stop (behind p d) (e ∷ es));
    ends = omega arith;
    longer = omega arith;
  })
  | inr large ↦ rw large (record {
    given = size;
    fits = omega arith;
    aligned = ground arith;
    handed =
        let z : (d.used == 0) ≡ true = ground arith in
        let far : p + 16 + size + 16 + (d.size - size - 16) ≡ p + 16 + d.size = ground arith in
        rw (z, far) here;
    positive = (pos, (ground arith, all.1));
    above = omega arith;
    bound = ground (arith, le-stop (behind p d) (e ∷ es));
    ends =
        let far : p + 16 + size + 16 + (d.size - size - 16) ≡ p + 16 + d.size = ground arith in
        omega (arith, ap (λ (a : ℕ). stop a (e ∷ es)) far);
    longer = omega arith;
  })
]

skip-Given :
    (size align p : ℕ) (c : Cell) (cs : List Cell) (out : List Cell × ℕ)
    → 0 < c.size
    → Given size align (behind p c) cs out
    → Given size align p (c ∷ cs) (c ∷ out.0, out.1)
unfolding owned
skip-Given size align p c cs out pos g = record {
  given = g.given;
  fits = g.fits;
  aligned = g.aligned;
  handed = elim (Bool-cases (c.used == 0)) [
    | inl z ↦ rw z g.handed
    | inr z ↦ rw z (there g.handed)
  ];
  positive = (pos, g.positive);
  above = omega (arith, g.above);
  bound = g.bound;
  ends = g.ends;
  longer = omega (arith, g.longer);
}

visit-Given :
    (size align p : ℕ) (c : Cell) (cs : List Cell)
    → 0 < size
    → Positive (c ∷ cs)
    → Snug (stop p (c ∷ cs)) align
    → Given size align p (c ∷ cs) (visit size align p c cs)
unfolding visit owned
visit-Given size align p c [] pos all snug =
    let le = place-le (behind p c) align snug in
    let e = place (behind p c) align in
    let far : p + 16 + (e - (p + 16)) ≡ e = omega arith in
    record {
      given = size;
      fits = omega arith;
      aligned = place-aligned (behind p c) align snug;
      handed = elim (Bool-cases (c.used == 0)) [
        | inl z ↦ rw (z, far) here
        | inr z ↦ rw (z, far) (grown (omega arith))
      ];
      positive = (omega arith, (pos, tt));
      above = omega arith;
      bound = omega (arith, place-bound (behind p c) align);
      ends = omega (arith, place-bound (behind p c) align);
      longer = omega arith;
    }
visit-Given size align p c (d ∷ ds) pos all snug =
    elim (Bool-cases (takes size align (behind p c) d)) [
      | inl t ↦ rw t (
          skip-Given size align p c (d ∷ ds) (grab size d ds, behind p c) all.0
            (grab-Given size align (behind p c) d ds t pos all.1))
      | inr t ↦ rw t (
          skip-Given size align p c (d ∷ ds) (visit size align (behind p c) d ds) all.0
            (visit-Given size align (behind p c) d ds pos all.1 snug))
    ]

pub first_fit-Given :
    (size align p : ℕ) (c : Cell) (cs : List Cell)
    → 0 < size
    → Positive (c ∷ cs)
    → Snug (stop p (c ∷ cs)) align
    → Given size align p (c ∷ cs) (first_fit size align p c cs)
unfolding first_fit
first_fit-Given size align p c cs pos all snug = elim (Bool-cases (takes size align p c)) [
  | inl t ↦ rw t (grab-Given size align p c cs t pos all)
  | inr t ↦ rw t (visit-Given size align p c cs pos all snug)
]
