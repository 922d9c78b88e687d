-- ===== src/Libc/Str/Memory.antt =====
-- `memmem` of libc/string.c finds the first occurrence of some bytes.
use foos.Prelude.{
  ℕ, zero, suc, ◌+◌, ◌-◌, ◌≡◌, refl, ap, ap₂, ◌↔◌, inl, inr, [], ◌∷◌, ◌++◌, true, false, arith,
  Bool-cases, ◌==◌, ◌&&◌, ltb, length, get_or,
}
use foos.Libc.Str.{Bytes, same_bytes, memmem_loop, memmem}
use foos.Libc.Str.Compare.{StartsWith, cons-injective}
use foos.Libc.Str.Search.{Finds, Occurs-here, Finds-suc, Finds-none, StartsWith-length}

pub same_bytes_iff : (h n : Bytes) → (same_bytes h n ≡ true) ↔ StartsWith h n
unfolding same_bytes
same_bytes_iff h [] = (λ e. (h, refl), λ p. refl)
same_bytes_iff [] (b ∷ n) = (λ e. absurd cc, λ p. absurd (let q = p.1 in cc))
same_bytes_iff (a ∷ h) (b ∷ n) =
    let (to, from) = same_bytes_iff h n in
    elim (Bool-cases (a == b)) [
      | inl same ↦
          let e : a ≡ b = ground arith in
          rw same (
            λ z. (let (rest, q) = to z in (rest, ap₂ (λ (x : ℕ) (xs : Bytes). x ∷ xs) e q)),
            λ p. from (p.0, (cons-injective a b h (n ++ p.0) p.1).1),
          )
      | inr differ ↦ rw differ (
        λ z. absurd cc,
        λ p. absurd (let e = (cons-injective a b h (n ++ p.0) p.1).0 in ground arith),
      )
    ]

memmem_loop-Finds :
    (rounds : ℕ) (h : Bytes) (b : ℕ) (n : Bytes)
    → rounds + length n ≡ length h
    → Finds h (b ∷ n) (length h) (memmem_loop rounds h (b ∷ n))
unfolding memmem_loop
memmem_loop-Finds zero h b n size =
    Finds-none h (b ∷ n) (length h) (λ j o. let i = o.inside in absurd (omega arith))
memmem_loop-Finds (suc rounds) [] b n size = absurd (omega arith)
memmem_loop-Finds (suc rounds) (c ∷ h) b n size =
    elim (Bool-cases (c == b && same_bytes (c ∷ h) (b ∷ n))) [
      | inl m ↦ rw m (
          let hit : same_bytes (c ∷ h) (b ∷ n) ≡ true = ground arith in
          let p = (same_bytes_iff (c ∷ h) (b ∷ n)).0 hit in
          Occurs-here c h (b ∷ n) (suc (length h)) (StartsWith-length (c ∷ h) (b ∷ n) p) p)
      | inr m ↦ rw m (
          let miss : ¬ StartsWith (c ∷ h) (b ∷ n) = λ p.
            let same : c ≡ b = ap (λ (s : Bytes). get_or s 0 0) p.1 in
            let hit = (same_bytes_iff (c ∷ h) (b ∷ n)).1 p in absurd (ground arith) in
          Finds-suc c h (b ∷ n) (length h) (memmem_loop rounds h (b ∷ n)) miss
            (memmem_loop-Finds rounds h b n (omega arith)))
    ]

-- `memmem` returns the first occurrence of the needle, or null if there is none; the empty needle is
-- found at the start.
pub memmem-Finds : (h n : Bytes) → Finds h n (length h) (memmem h n)
unfolding memmem
memmem-Finds h [] =
    inl
      (0, omega arith, refl, record { inside = omega arith; there = (h, refl) }, λ j o. omega arith)
memmem-Finds h (b ∷ n) =
    let t : (suc (length n) == 0) ≡ false = ground arith in
    elim (Bool-cases (ltb (length h) (suc (length n)))) [
      | inl short ↦
          rw (t, short)
            (Finds-none h (b ∷ n) (length h) (λ j o. let i = o.inside in absurd (ground arith)))
      | inr long ↦
          rw (t, long)
            (memmem_loop-Finds (length h - suc (length n) + 1) h b n (rounds (length h) long))
    ]
  where
    rounds : (l : ℕ) → ltb l (suc (length n)) ≡ false → l - suc (length n) + 1 + length n ≡ l
    rounds l long = ground arith
