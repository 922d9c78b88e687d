-- ===== src/Libfs/Ramfs/Directory.antt =====
-- `ramfs_finddir` and `ramfs_readdir` of libfs/ramfs.c on the elements of a directory.
use foos.Prelude.{
  ℕ, zero, suc, ◌+◌, ◌<◌, ◌≤◌, ◌≡◌, ◌≢◌, refl, ap, ◌∙◌, arith, Bool-cases, ◌⊎◌, inl, inr, true,
  false, ◌==◌, ltb, length, some, none,
}
use mathlib.Core.Path.{subst}
use foos.Machine.{ok, null}
use foos.Libc.Str.{Bytes, IsText, strcmp}
use foos.Libc.Str.Compare.{strcmp_iff}
use foos.Libfs.Inode.{Inode, element}
use foos.Libfs.Ramfs.{finddir_loop, ramfs_finddir, ramfs_readdir}

-- `r` is the first of the elements from `i` below `n` at `p` whose name is `name`, or null for none.
pub data FindsFrom (nodes : ℕ → Inode) (p : ℕ) (name : Bytes) (i n : ℕ) (r : ℕ) : Type 0 where
  absent :
      r ≡ null
      → ((j : ℕ) → i ≤ j → j < n → (nodes (element p j)).name ≢ name)
      → FindsFrom nodes p name i n r
  present :
      (k : ℕ)
      → i ≤ k
      → k < n
      → r ≡ element p k
      → (nodes (element p k)).name ≡ name
      → ((j : ℕ) → i ≤ j → j < k → (nodes (element p j)).name ≢ name)
      → FindsFrom nodes p name i n r

abbrev pub FindsFirst : (ℕ → Inode) → ℕ → Bytes → ℕ → Type 0
FindsFirst nodes node name r = FindsFrom nodes (nodes node).ptr name 0 (nodes node).impl r

-- The names of the elements are texts.
abbrev pub HasNames : (ℕ → Inode) → ℕ → Type 0
HasNames nodes node =
    (i : ℕ) → i < (nodes node).impl → IsText (nodes (element (nodes node).ptr i)).name

le-cases : (i j : ℕ) → i ≤ j → (i ≡ j) ⊎ (suc i ≤ j)
le-cases i j le = elim (Bool-cases (i == j)) [
  | inl same ↦ inl (ground arith)
  | inr differ ↦ inr (ground arith)
]

module _ (nodes : ℕ → Inode) (p : ℕ) (name : Bytes) (text : IsText name) where
  finddir_loop-FindsFrom :
      (i left : ℕ)
      → ((j : ℕ) → j < i + left → IsText (nodes (element p j)).name)
      → FindsFrom nodes p name i (i + left) (finddir_loop nodes p name i left)
  unfolding finddir_loop
  finddir_loop-FindsFrom i zero names = absent refl (λ j ge lt. absurd (omega arith))
  finddir_loop-FindsFrom i (suc left) names =
      let a = (nodes (element p i)).name in
      let (to, from) = strcmp_iff a name (names i (omega arith)) text in
      elim (Bool-cases (strcmp a name == 0)) [
        | inl same ↦ rw same (
            present i (omega arith) (omega arith) refl (to (ground arith))
              (λ j ge lt. absurd (omega arith)))
        | inr differ ↦
            let not_here : a ≢ name = λ e. absurd (let z = from e in ground arith) in
            let later = finddir_loop-FindsFrom (suc i) left (λ j lt. names j (omega arith)) in
            rw differ (elim later [
              | absent r none_there ↦ absent r (λ j ge lt. elim (le-cases i j ge) [
                | inl e ↦ λ q. not_here (ap (λ (m : ℕ). (nodes (element p m)).name) e ∙ q)
                | inr ge' ↦ none_there j ge' (omega arith)
              ])
              | present k ge lt r here before ↦
                  present k (omega arith) (omega arith) r here (λ j ge' lt'.
                    elim (le-cases i j ge') [
                      | inl e ↦ λ q. not_here (ap (λ (m : ℕ). (nodes (element p m)).name) e ∙ q)
                      | inr more ↦ before j more lt'
                    ])
            ])
      ]

-- `ramfs_finddir` returns the first element of the directory with that name, and null if there is none.
pub ramfs_finddir-FindsFirst :
    (nodes : ℕ → Inode) (node : ℕ) (name : Bytes)
    → HasNames nodes node
    → IsText name
    → FindsFirst nodes node name (ramfs_finddir nodes node name)
unfolding ramfs_finddir
ramfs_finddir-FindsFirst nodes node name names text =
    let n = nodes node in
    let e : 0 + n.impl ≡ n.impl = omega arith in
    subst (λ (k : ℕ). FindsFrom nodes n.ptr name 0 k (finddir_loop nodes n.ptr name 0 n.impl)) e
      (finddir_loop-FindsFrom nodes (nodes node).ptr name text 0 (nodes node).impl
        (λ j lt. names j (omega arith)))

module _ (nodes : ℕ → Inode) (node : ℕ) where
  ramfs_readdir-in :
      (i : ℕ)
      → i < (nodes node).impl
      → length (nodes (element (nodes node).ptr i)).name < 32
      → ramfs_readdir nodes node i
        ≡ ok (some (record { name = (nodes (element (nodes node).ptr i)).name; ino = i }))
  unfolding ramfs_readdir
  ramfs_readdir-in i lt fits =
      let t : ltb i (nodes node).impl ≡ true = ground arith in
      let t' : ltb (length (nodes (element (nodes node).ptr i)).name) 32 ≡ true = ground arith in
      rw (t, t') refl

  ramfs_readdir-out : (i : ℕ) → (nodes node).impl ≤ i → ramfs_readdir nodes node i ≡ ok none
  unfolding ramfs_readdir
  ramfs_readdir-out i ge = let t : ltb i (nodes node).impl ≡ false = ground arith in rw t refl

  -- In a directory whose elements have texts for names, all different, the element that `ramfs_finddir`
  -- finds by the name of an element is that element.
  pub ramfs_finddir_self :
      (i : ℕ)
      → HasNames nodes node
      → ((j : ℕ)
          → j < i
          → (nodes (element (nodes node).ptr j)).name ≢ (nodes (element (nodes node).ptr i)).name)
      → i < (nodes node).impl
      → ramfs_finddir nodes node (nodes (element (nodes node).ptr i)).name
        ≡ element (nodes node).ptr i
  ramfs_finddir_self i names distinct lt =
      let name = (nodes (element (nodes node).ptr i)).name in
      elim (ramfs_finddir-FindsFirst nodes node name names (names i lt)) [
        | absent r none_there ↦ absurd (none_there i (omega arith) lt refl)
        | present k ge lt' r here before ↦ elim (Bool-cases (ltb k i)) [
          | inl less ↦ absurd (distinct k (ground arith) here)
          | inr ge' ↦ elim (Bool-cases (k == i)) [
            | inl same ↦ r ∙ ap (λ (m : ℕ). element (nodes node).ptr m) (ground arith)
            | inr differ ↦ absurd (before i (omega arith) (ground arith) refl)
          ]
        ]
      ]
