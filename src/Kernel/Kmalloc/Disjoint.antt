-- ===== src/Kernel/Kmalloc/Disjoint.antt =====
-- The blocks that callers of kernel/kmalloc.c hold do not overlap, across several allocations.
use foos.Prelude.{ℕ, ◌+◌, ◌≤◌, ◌⊎◌, inl, inr, arith, List, ◌∷◌}
use foos.Kernel.Kmalloc.Owned.{Handed, Apart, here, grown, there}

-- The list has a block at `a` with room for `n` bytes.
pub data Holds (a n : ℕ) : List (ℕ × ℕ) → Type 0 where
  first : {m : ℕ} {xs : List (ℕ × ℕ)} → n ≤ m → Holds a n ((a, m) ∷ xs)
  later : {x : ℕ × ℕ} {xs : List (ℕ × ℕ)} → Holds a n xs → Holds a n (x ∷ xs)

-- What was handed out is held, for every size that fits into it.
pub Handed-Holds : (a n m : ℕ) (xs ys : List (ℕ × ℕ)) → Handed (a, m) xs ys → n ≤ m → Holds a n ys
Handed-Holds a n m xs ys here le = first le
Handed-Holds a n m xs ys (grown g) le = later (first le)
Handed-Holds a n m xs ys (there h) le = later (Handed-Holds a n m _ _ h le)

-- What was held before an allocation is held behind it.
pub Handed-keeps :
    (x : ℕ × ℕ) (a n : ℕ) (xs ys : List (ℕ × ℕ)) → Handed x xs ys → Holds a n xs → Holds a n ys
Handed-keeps x a n xs ys here h = later h
Handed-keeps x a n xs ys (grown g) (first le) = first (omega arith)
Handed-keeps x a n xs ys (grown g) (later h) = elim h [ ]
Handed-keeps x a n xs ys (there t) (first le) = first le
Handed-keeps x a n xs ys (there t) (later h) = later (Handed-keeps x a n _ _ t h)

Holds-above : (a n p : ℕ) (xs : List (ℕ × ℕ)) → Apart p xs → Holds a n xs → p + 16 ≤ a
Holds-above a n p xs apart (first le) = apart.0
Holds-above a n p ((b, m) ∷ xs) apart (later h) =
    omega (arith, apart.0, Holds-above a n (b + m) xs apart.1 h)

-- The block that an allocation hands out does not overlap one that was held before.
pub Handed-disjoint :
    (a n b m p : ℕ) (xs ys : List (ℕ × ℕ))
    → Apart p ys
    → Handed (b, m) xs ys
    → Holds a n xs
    → (a + n ≤ b) ⊎ (b + m ≤ a)
Handed-disjoint a n b m p xs ys apart here h =
    inr (omega (arith, Holds-above a n (b + m) xs apart.1 h))
Handed-disjoint a n b m p xs ys apart (grown g) (first le) = inl (omega (arith, apart.1.0))
Handed-disjoint a n b m p xs ys apart (grown g) (later h) = elim h [ ]
Handed-disjoint a n b m p xs ((a', k) ∷ ys) apart (there t) (first le) =
    inl
      (omega (arith, Holds-above b m (a' + k) ys apart.1 (Handed-Holds b m m _ _ t (omega arith))))
Handed-disjoint a n b m p xs ((a', k) ∷ ys) apart (there t) (later h) =
    Handed-disjoint a n b m (a' + k) _ ys apart.1 t h
