-- ===== src/Kernel/Kmalloc/Rows.antt =====
-- Rows of cells, and chains over them, that are put together from two parts.
use foos.Prelude.{
  ℕ, ◌<◌, ◌≡◌, ◌≢◌, refl, ap, ◌∙◌, List, [], ◌∷◌, ◌++◌, arith, Bool-cases, inl, inr, ◌==◌, ◌⊎◌,
}
use foos.Kernel.Kmalloc.{Heap}
use foos.Kernel.Kmalloc.Cells.{Cell, behind, stop, owned, Positive}
use foos.Kernel.Kmalloc.Chain.{Chain, next_of, header, le-stop}
use foos.Kernel.Kmalloc.Owned.{Handed, there}

-- The address of the last cell, or `q` if there is none.
abbrev pub last_of : ℕ → ℕ → List Cell → ℕ
last_of q p [] = q
last_of q p (c ∷ cs) = last_of p (behind p c) cs

-- The last cell of the row is in use; `u` stands for the `used` of what comes before the row.
abbrev pub LastBusy : ℕ → List Cell → Type 0
LastBusy u [] = u ≢ 0
LastBusy u (c ∷ cs) = LastBusy c.used cs

pub stop-append : (p : ℕ) (xs ys : List Cell) → stop p (xs ++ ys) ≡ stop (stop p xs) ys
stop-append p [] ys = refl
stop-append p (x ∷ xs) ys = stop-append (behind p x) xs ys

pub Positive-append : (xs ys : List Cell) → Positive xs → Positive ys → Positive (xs ++ ys)
Positive-append [] ys hx hy = hy
Positive-append (x ∷ xs) ys hx hy = (hx.0, Positive-append xs ys hx.1 hy)

pub Positive-prefix : (xs ys : List Cell) → Positive (xs ++ ys) → Positive xs
Positive-prefix [] ys h = tt
Positive-prefix (x ∷ xs) ys h = (h.0, Positive-prefix xs ys h.1)

pub Positive-suffix : (xs ys : List Cell) → Positive (xs ++ ys) → Positive ys
Positive-suffix [] ys h = h
Positive-suffix (x ∷ xs) ys h = Positive-suffix xs ys h.1

pub next_of-append :
    (e : ℕ) (xs ys zs : List Cell)
    → next_of e ys ≡ next_of e zs
    → next_of e (xs ++ ys) ≡ next_of e (xs ++ zs)
next_of-append e [] ys zs h = h
next_of-append e (x ∷ xs) ys zs h = refl

pub Chain-suffix :
    (h : Heap) (q p : ℕ) (xs ys : List Cell)
    → Chain h q p (xs ++ ys)
    → Chain h (last_of q p xs) (stop p xs) ys
Chain-suffix h q p [] ys ch = ch
Chain-suffix h q p (x ∷ xs) ys ch = Chain-suffix h p (behind p x) xs ys ch.1

-- The end of a chain is replaced, and what stands before it is untouched.
pub Chain-replace :
    (h h' : Heap) (q p : ℕ) (xs ys zs : List Cell)
    → ((e : ℕ) → next_of e ys ≡ next_of e zs)
    → ((a : ℕ) → a < stop p xs → h' a ≡ h a)
    → Chain h' (last_of q p xs) (stop p xs) zs
    → Chain h q p (xs ++ ys)
    → Chain h' q p (xs ++ zs)
Chain-replace h h' q p [] ys zs same below new ch = new
Chain-replace h h' q p (x ∷ xs) ys zs same below new ch =
    let far = le-stop (behind p x) xs in
    (
      below p (omega arith)
          ∙ ch.0
          ∙ ap (header x q) (next_of-append (behind p x) xs ys zs (same (behind p x))),
      Chain-replace h h' p (behind p x) xs ys zs same below new ch.1,
    )

-- The block before the rest of a chain is in use, or there is none.
pub last_of-busy :
    (h : Heap) (q p u : ℕ) (xs ys : List Cell)
    → LastBusy u xs
    → (u ≢ 0 → (q ≡ 0) ⊎ ((h q).used ≢ 0))
    → Chain h q p (xs ++ ys)
    → (last_of q p xs ≡ 0) ⊎ ((h (last_of q p xs)).used ≢ 0)
last_of-busy h q p u [] ys busy before ch = before busy
last_of-busy h q p u (c ∷ cs) ys busy before ch =
    last_of-busy h p (behind p c) c.used cs ys busy (λ nz. inr (ground arith)) ch.1

pub last_of-lt : (q p : ℕ) (xs : List Cell) → q < p → last_of q p xs < stop p xs
last_of-lt q p [] lt = lt
last_of-lt q p (c ∷ cs) lt = last_of-lt p (behind p c) cs (omega arith)

-- What is handed out behind the same cells.
pub Handed-owned :
    (x : ℕ × ℕ) (p : ℕ) (xs ys zs : List Cell)
    → Handed x (owned (stop p xs) ys) (owned (stop p xs) zs)
    → Handed x (owned p (xs ++ ys)) (owned p (xs ++ zs))
unfolding owned
Handed-owned x p [] ys zs h = h
Handed-owned x p (c ∷ cs) ys zs h = elim (Bool-cases (c.used == 0)) [
  | inl z ↦ rw z (Handed-owned x (behind p c) cs ys zs h)
  | inr z ↦ rw z (there (Handed-owned x (behind p c) cs ys zs h))
]
