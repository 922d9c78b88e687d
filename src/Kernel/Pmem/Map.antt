-- ===== src/Kernel/Pmem/Map.antt =====
-- `pmem_map` of kernel/pmem.c gives frames out in order.
use native.Mathlib.Decide.{dec_lt, ℕ_discrete}
use foos.Prelude.{
  ℕ, suc, ◌+◌, ◌*◌, ◌/◌, ◌≤◌, ◌<◌, ◌≡◌, ap, ◌∙◌, inl, inr, length, arith, bit_or, if◌then◌else◌,
  ◌==◌,
}
use foos.Prelude.Bits.{bit_at, bit_at-bit_or, bit_or_fields, bit_or_step, zero-bit_or}
use foos.Machine.{Run, ok, null, ◌>>=◌, >>=-eq-ok}
use foos.Kernel.Pmem.{Frames, page_size, p_present, p_writable, pmem_set, pmem_get_free, pmem_map}
use foos.Kernel.Pmem.Frames.{mark, Marked, pmem_set-Marked}
use foos.Kernel.Pmem.Free.{First, pmem_get_free_lem}

-- The frames in use are those below `n`.
pub record Prefix (fs : Frames) (n : ℕ) : Type 0 where
  pub words : length fs ≡ 1024
  pub used : (m : ℕ) → m < n → mark fs m ≡ 1
  pub free : (m : ℕ) → n ≤ m → mark fs m ≡ 0

least-Prefix : (fs : Frames) (n j : ℕ) → Prefix fs n → n < 4096 → First fs 0 j → j ≡ n
least-Prefix fs n j pre lt first = elim (dec_lt j n) [
  | yes below ↦ absurd (omega (arith, pre.used j below, first.free))
  | no le ↦ elim (dec_lt n j) [
    | yes above ↦
        absurd (omega (arith, first.taken n (omega arith) above, pre.free n (omega arith)))
    | no ge ↦ omega arith
  ]
]

get_free-Prefix :
    (fs : Frames) (n : ℕ) → Prefix fs n → n < 4096 → pmem_get_free fs ≡ ok (n * page_size)
get_free-Prefix fs n pre lt = elim (pmem_get_free_lem fs (omega (arith, pre.words))) [
  | inl (j, returns, first) ↦ rw (least-Prefix fs n j pre lt first) at returns
  | inr (returns, none_free) ↦
      absurd (omega (arith, none_free n (omega arith) lt, pre.free n (omega arith)))
]

-- The two flag bits of an entry, behind a frame address.
pub low_two : (n : ℕ) → bit_or (n * 4096 + 1) 2 ≡ n * 4096 + 3
low_two n =
    let a : bit_or (n * 2048) 1 ≡ n * 2048 + 1 = bit_or_fields 11 n 1 (omega arith) in
    let h : (n * 4096 + 1) / 2 ≡ n * 2048 = omega arith in
    omega (arith, bit_or_step (n * 4096 + 1) 2, ap (λ (t : ℕ). bit_or t 1) h, a)

entry_bits :
    (n : ℕ) → bit_or 0 (bit_or (bit_or (n * page_size) p_present) p_writable) ≡ n * page_size + 3
entry_bits n =
    let a : bit_or (n * 4096) 1 ≡ n * 4096 + 1 = bit_or_fields 12 n 1 (omega arith) in
    let b : bit_or (n * 4096 + 1) 2 ≡ n * 4096 + 3 = low_two n in zero-bit_or _ ∙ rw (a, b)

Prefix-Marked : (fs gs : Frames) (n : ℕ) → Prefix fs n → Marked fs gs n 1 → Prefix gs (suc n)
Prefix-Marked fs gs n pre marked = record {
  words = marked.same_length ∙ pre.words;
  used = λ m lo. elim (ℕ_discrete m n) [
    | yes e ↦ rw e marked.here
    | no ne ↦ marked.elsewhere m ne ∙ pre.used m (omega arith)
  ];
  free = λ m hi. marked.elsewhere m (omega arith) ∙ pre.free m (omega arith);
}

-- The call that `vmem_init` makes for each page: with the frames below `n` in use and an entry of
-- zero, `pmem_map` marks frame `n`, and the entry maps it as present and writable.
pub pmem_map_next :
    (fs : Frames) (n : ℕ)
    → Prefix fs n
    → n < 4096
    → (gs : Frames) × (pmem_map fs 0 null p_writable ≡ ok (gs, n * page_size + 3))
      × Prefix gs (suc n)
unfolding pmem_map
pmem_map_next fs n pre lt =
    let at : n * page_size / page_size ≡ n = omega arith in
    let (gs, returns, marked) = pmem_set-Marked fs (n * page_size) (omega (arith, pre.words)) in
    (
      gs,
      rw (get_free-Prefix fs n pre lt, returns, entry_bits n),
      Prefix-Marked fs gs n pre (rw at at marked),
    )

-- `pmem_map` only adds bits: what the entry held before is still there.
pub pmem_map-keeps_bits :
    (fs gs : Frames) (pg addr flags entry : ℕ)
    → pmem_map fs pg addr flags ≡ ok (gs, entry)
    → (k : ℕ) → bit_at pg k ≤ bit_at entry k
unfolding pmem_map
pmem_map-keeps_bits fs gs pg addr flags entry h k =
    let (at, _, h1) =
      >>=-eq-ok
        (λ a. do fs' ← pmem_set fs a; ok (fs', bit_or pg (bit_or (bit_or a p_present) flags)))
        (if addr == null then pmem_get_free fs else ok addr) h in
    let (fs', _, h2) =
      >>=-eq-ok (λ fs'. ok (fs', bit_or pg (bit_or (bit_or at p_present) flags))) (pmem_set fs at)
        h1 in
    let e : bit_or pg (bit_or (bit_or at p_present) flags) ≡ entry = ap entry_of h2 in
    rw (← e) (omega (arith, bit_at-bit_or k pg (bit_or (bit_or at p_present) flags)))
  where
    entry_of : Run (Frames × ℕ) → ℕ
    entry_of = elim [ ok r ↦ r.1 | _ ↦ 0 ]
