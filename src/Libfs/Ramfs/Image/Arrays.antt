-- ===== src/Libfs/Ramfs/Image/Arrays.antt =====
-- The loops of libfs/ramfs.c and libfs/devfs.c that fill an array of inodes.
use foos.Prelude.{
  ℕ, zero, suc, ◌+◌, ◌*◌, ◌^◌, ◌<◌, ◌≤◌, ◌≡◌, ◌≢◌, ◌⊎◌, refl, sym, ap, ◌∙◌, arith, Bool-cases, inl,
  inr, true, false, ◌==◌, ltb, length, List, [], ◌∷◌, get_or,
}
use mathlib.Core.Path.{subst}
use foos.Machine.{ok, u32, null}
use foos.Libc.Str.{Bytes}
use foos.Kernel.Kmalloc.{Kmem, kmalloc}
use foos.Libfs.Inode.{Inode, Fs, zeroed, element, set_node, set_kmem, clear_nodes, new_nodes}
use foos.Libfs.Devfs.{device_node, devfs_nodes}
use foos.Libfs.Ramfs.{file_header, file_node, files_loop}

-- The address `q` is not within the elements from `i` below `n` of the array at `p`.
abbrev pub Outside : ℕ → ℕ → ℕ → ℕ → Type 0
Outside p i n q = (q < element p i) ⊎ (element p n ≤ q)

-- `out` differs from `s` in the elements from `i` below `n` at `p` alone, and those are `f`.
pub record Written (s out : Fs) (p i n : ℕ) (f : ℕ → Inode) : Type 0 where
  pub devices : out.devices ≡ s.devices
  pub base : out.file_base ≡ s.file_base
  pub count : out.rd_nfiles ≡ s.rd_nfiles
  pub inside : (j : ℕ) → i ≤ j → j < n → out.nodes (element p j) ≡ f j
  pub outside : (q : ℕ) → Outside p i n q → out.nodes q ≡ s.nodes q

pub node_self : (s : Fs) (q : ℕ) (x : Inode) → (set_node s q x).nodes q ≡ x
node_self s q x = let t : (q == q) ≡ true = ground arith in rw t refl

pub node_other : (s : Fs) (q r : ℕ) (x : Inode) → q ≢ r → (set_node s q x).nodes r ≡ s.nodes r
node_other s q r x ne = let t : (r == q) ≡ false = ground arith in rw t refl

-- One element is written, and then those behind it.
Written-next :
    (s out : Fs) (p i n : ℕ) (f : ℕ → Inode)
    → i < n
    → Written (set_node s (element p i) (f i)) out p (suc i) n f
    → Written s out p i n f
Written-next s out p i n f lt w = record {
  devices = w.devices;
  base = w.base;
  count = w.count;
  inside = λ j ge below. elim (Bool-cases (i == j)) [
    | inl same ↦
        let e : i ≡ j = ground arith in
        ap (λ (k : ℕ). out.nodes (element p k)) (sym e)
        ∙ w.outside (element p i) (inl (omega arith))
        ∙ node_self s (element p i) (f i)
        ∙ ap f e
    | inr differ ↦ w.inside j (ground arith) below
  ];
  outside = λ q away.
      w.outside q (elim away [ inl a ↦ inl (omega arith) | inr b ↦ inr b ])
      ∙ node_other s (element p i) q (f i)
          (elim away [ inl a ↦ λ e. absurd (omega arith) | inr b ↦ λ e. absurd (omega arith) ]);
}

Written-none : (s : Fs) (p i : ℕ) (f : ℕ → Inode) → Written s s p i (i + 0) f
Written-none s p i f = record {
  devices = refl;
  base = refl;
  count = refl;
  inside = λ j ge below. absurd (omega arith);
  outside = λ q away. refl;
}

clear_nodes-Written : (s : Fs) (p n : ℕ) → Written s (clear_nodes s p n) p 0 n (λ i. zeroed)
unfolding clear_nodes
clear_nodes-Written s p zero = record {
  devices = refl;
  base = refl;
  count = refl;
  inside = λ j ge below. absurd (omega arith);
  outside = λ q away. refl;
}
clear_nodes-Written s p (suc n) =
    let w = clear_nodes-Written s p n in
    let t = clear_nodes s p n in
    record {
      devices = w.devices;
      base = w.base;
      count = w.count;
      inside = λ j ge below. elim (Bool-cases (n == j)) [
        | inl same ↦
            let e : n ≡ j = ground arith in
            ap (λ (k : ℕ). (set_node t (element p n) zeroed).nodes (element p k)) (sym e)
            ∙ node_self t (element p n) zeroed
        | inr differ ↦
            node_other t (element p n) (element p j) zeroed (λ e. absurd (ground arith))
            ∙ w.inside j ge (ground arith)
      ];
      outside = λ q away.
          node_other t (element p n) q zeroed
            (elim away [ inl a ↦ λ e. absurd (omega arith) | inr b ↦ λ e. absurd (omega arith) ])
          ∙ w.outside q (elim away [ inl a ↦ inl a | inr b ↦ inr (omega arith) ]);
    }

-- The header of every file below `n` has its signature, and its name fits into an inode.
abbrev pub IsImage : (ℕ → ℕ) → ℕ → ℕ → Type 0
IsImage memory a n =
    (j : ℕ)
    → j < n
    → ((file_header memory a j).magic ≡ 0xDEADF11E) × (length (file_header memory a j).name < 32)

module _ (a p n : ℕ) where
  files_loop-Written :
      (s : Fs) (i left : ℕ)
      → i + left ≡ n
      → IsImage s.devices.world.memory a n
      → (out : Fs) × (files_loop s a p i left ≡ ok out)
        × Written s out p i n (λ j. file_node (file_header s.devices.world.memory a j) j)
  unfolding files_loop
  files_loop-Written s i zero end image =
      let w =
        Written-none s p i (λ (j : ℕ). file_node (file_header s.devices.world.memory a j) j) in
      (
        s,
        refl,
        subst
            (λ (m : ℕ).
              Written s s p i m (λ j. file_node (file_header s.devices.world.memory a j) j))
            end w,
      )
  files_loop-Written s i (suc left) end image =
      let f = file_header s.devices.world.memory a i in
      let (magic, fits) = image i (omega arith) in
      let t : (f.magic == 0xDEADF11E) ≡ true = ground arith in
      let t' : ltb (length f.name) 32 ≡ true = ground arith in
      let (out, ret, w) =
        files_loop-Written (set_node s (element p i) (file_node f i)) (suc i) left (omega arith)
          image in
      (
        out,
        rw (t, t') ret,
        Written-next s out p i n (λ j. file_node (file_header s.devices.world.memory a j) j)
            (omega arith) w,
      )

  -- The same for a state whose memory is `m`.
  pub files_loop-image :
      (s : Fs) (m : ℕ → ℕ)
      → s.devices.world.memory ≡ m
      → IsImage m a n
      → (out : Fs) × (files_loop s a p 0 n ≡ ok out)
        × Written s out p 0 n (λ j. file_node (file_header m a j) j)
  files_loop-image s m same =
      subst
        (λ (m : ℕ → ℕ).
          IsImage m a n
          → (out : Fs) × (files_loop s a p 0 n ≡ ok out)
            × Written s out p 0 n (λ j. file_node (file_header m a j) j))
        same (files_loop-Written s 0 n (omega arith))

-- Every name fits into an inode.
abbrev pub Fit : List Bytes → Type 0
Fit names = (j : ℕ) → j < length names → length (get_or names j []) < 32

pub devfs_nodes-Written :
    (s : Fs) (p i n : ℕ) (names : List Bytes) (f : ℕ → Inode)
    → i + length names ≡ n
    → Fit names
    → ((j : ℕ) → j < length names → f (i + j) ≡ device_node (get_or names j []) (i + j))
    → (out : Fs) × (devfs_nodes s p names i ≡ ok out) × Written s out p i n f
unfolding devfs_nodes
devfs_nodes-Written s p i n [] f end fit is =
    (s, refl, subst (λ (m : ℕ). Written s s p i m f) end (Written-none s p i f))
devfs_nodes-Written s p i n (name ∷ names) f end fit is =
    let fits = fit 0 (omega arith) in
    let t' : ltb (length name) 32 ≡ true = ground arith in
    let e : i + 0 ≡ i = omega arith in
    let this = subst (λ (k : ℕ). f k ≡ device_node name k) e (is 0 (omega arith)) in
    let (out, ret, w) =
      devfs_nodes-Written (set_node s (element p i) (f i)) p (suc i) n names f (omega arith)
        (λ j lt. fit (suc j) (omega arith))
        (λ j lt.
          let e' : suc i + j ≡ i + suc j = omega arith in rw e' (is (suc j) (omega arith))) in
    (out, rw (t', sym this) ret, Written-next s out p i n f (omega arith) w)

-- `kmalloc` of an array, and the `memset` behind it.
pub new_nodes-Written :
    (fuel : ℕ) (s : Fs) (k k' : Kmem) (p n : ℕ)
    → s.devices.world.kmem ≡ k
    → n * 76 < 2 ^ 32
    → kmalloc fuel k (n * 76) ≡ ok (k', p)
    → p ≢ null
    → (out : Fs) × (new_nodes fuel s n ≡ ok (out, p))
      × Written (set_kmem s k') out p 0 n (λ i. zeroed)
unfolding new_nodes
new_nodes-Written fuel s k k' p n same small ret given =
    let e : u32 (n * 76) ≡ n * 76 = omega arith in
    let t : (p == null) ≡ false = ground arith in
    (
      clear_nodes (set_kmem s k') p n,
      rw (same, e, ret, t) refl,
      clear_nodes-Written (set_kmem s k') p n,
    )
