-- ===== src/Libfs/Wrap/Lookup.antt =====
-- `fs_lookup` of libfs/wrap.c as a walk over the names in a path.
use foos.Prelude.{
  ℕ, zero, suc, ◌+◌, ◌<◌, ◌≡◌, ◌≢◌, refl, ap, ◌∙◌, arith, Bool, Bool-cases, ltb, inl, inr, true,
  false, List, [], ◌∷◌, if◌then◌else◌, ◌==◌, length,
}
use foos.Machine.{Run, ok, fault, hang, out_of_fuel, sub32, ◌>>=◌, u32, null}
use foos.Libc.Str.{Bytes, IsText}
use foos.Libc.Strtok.{Text, first_call, strtok, token_at, on_token}
use foos.Libc.Strtok.Fields.{fields, none_left, found, strtok-Called}
use foos.Kernel.Kmalloc.{Heap, Kmem, heap_base, put, merges, kmalloc, kfree}
use foos.Libfs.Inode.{Inode, Fs, set_kmem}
use foos.Libfs.Wrap.{
  file_separator, check_dir, call_finddir, fs_finddir, lookup_loop, lookup_copy, fs_lookup,
}

-- The element of a directory that `fs_finddir` finds by a name.
abbrev pub found_in : (ℕ → Inode) → ℕ → Bytes → ℕ
found_in nodes node name =
    if check_dir (nodes node) then null else call_finddir nodes node name (nodes node).finddir

-- From an inode through the directories, name by name, until there is no inode.
unfoldable pub walk : (ℕ → Inode) → ℕ → List Bytes → ℕ
walk nodes node [] = node
walk nodes node (name ∷ names) =
    let rest = walk nodes (found_in nodes node name) names in if node == null then null else rest

-- The names in a path are its fields; a path without a name is itself the name that is looked up.
abbrev pub names_of : Bytes → List Bytes → List Bytes
names_of path [] = path ∷ []
names_of path (name ∷ names) = name ∷ names

-- A call that finds the inode `node` and changes nothing but `errno`.
abbrev pub Finds : Fs → ℕ → Fs × ℕ → Type 0
Finds s node r =
    (r.0.nodes ≡ s.nodes) × (r.0.devices.world.kmem.heap ≡ s.devices.world.kmem.heap) × (r.1 ≡ node)

fs_finddir-Finds :
    (s : Fs) (node : ℕ) (name : Bytes)
    → Finds s (found_in s.nodes node name) (fs_finddir s node name)
unfolding fs_finddir
fs_finddir-Finds s node name = elim (Bool-cases (check_dir (s.nodes node))) [
  | inl refused ↦ rw refused (refl, refl, refl)
  | inr passes ↦ rw passes (refl, refl, refl)
]

-- A walk that goes on from what a call has found.
Finds-walk :
    (s : Fs) (node : ℕ) (next out : Fs × ℕ) (names : List Bytes)
    → Finds s node next
    → Finds next.0 (walk next.0.nodes next.1 names) out
    → Finds s (walk s.nodes node names) out
Finds-walk s node next out names at there = (
  there.0 ∙ at.0,
  there.1 ∙ at.1,
  there.2
      ∙ ap (λ (m : ℕ → Inode). walk m next.1 names) at.0
      ∙ ap (λ (q : ℕ). walk s.nodes q names) at.2,
)

-- The loop of `fs_lookup` returns what the walk ends at.
lookup_loop-walk :
    (n : ℕ) (t : Text) (s : Fs) (node : ℕ)
    → IsText t.rest
    → length t.rest < n
    → (r : Fs × ℕ) × (lookup_loop n t s node ≡ ok r)
      × Finds s (walk s.nodes node (fields file_separator t.rest)) r
unfolding lookup_loop walk
lookup_loop-walk zero t s node h enough = absurd (omega arith)
lookup_loop-walk (suc n) t s node h enough =
    let r = strtok t file_separator in
    let more = λ (p : ℕ).
      (let (s', node') = fs_finddir s node (token_at r.0 p) in
        let rest = lookup_loop n r.0 s' node' in if node == null then ok (s, node) else rest) in
    elim (strtok-Called t file_separator h) [
      | none_left e e' ↦ ((s, node), ap (on_token (ok (s, node)) more) e', (refl, refl, rw e refl))
      | found p text less returns e ↦ elim (Bool-cases (node == null)) [
        | inl z ↦ (
          (s, node),
          ap (on_token (ok (s, node)) more) returns ∙ rw z refl,
          (refl, refl, rw (e, z) (ground arith)),
        )
        | inr nz ↦
            let next = fs_finddir s node (token_at r.0 p) in
            let at = fs_finddir-Finds s node (token_at r.0 p) in
            let (out, ret, there) = lookup_loop-walk n r.0 next.0 next.1 text (omega arith) in
            (
              out,
              ap (on_token (ok (s, node)) more) returns ∙ rw nz ret,
              rw (e, nz)
                  (Finds-walk s (found_in s.nodes node (token_at r.0 p)) next out
                    (fields file_separator r.0.rest) at there),
            )
      ]
    ]

-- What `kfree` does depends on the heap alone.
heap_alone :
    (b : Bool) (call : Run Heap) (x y : ℕ) (k' : Kmem)
    → (if b then (do h ← call; ok (record { heap = h; errno = x })) else hang) ≡ ok k'
    → (j : Kmem) × ((if b then (do h ← call; ok (record { heap = h; errno = y })) else hang) ≡ ok j)
      × (j.heap ≡ k'.heap)
heap_alone false call x y k' e = absurd cc
heap_alone true fault x y k' e = absurd cc
heap_alone true hang x y k' e = absurd cc
heap_alone true out_of_fuel x y k' e = absurd cc
heap_alone true (ok h) x y k' e =
    let same : record { heap = h; errno = x } ≡ k' = cc in
    (record { heap = h; errno = y }, refl, ap (λ (k : Kmem). k.heap) same)

kfree-heap :
    (k k' j : Kmem) (tmp : ℕ)
    → j.heap ≡ k.heap
    → kfree k tmp ≡ ok k'
    → (j' : Kmem) × (kfree j tmp ≡ ok j') × (j'.heap ≡ k'.heap)
unfolding kfree
kfree-heap k k' j tmp same e =
    let blk = sub32 tmp 16 in
    let call = merges (put k.heap blk (record (k.heap blk) { used = 0 })) blk in
    let (j', ret, heap) = heap_alone (ltb heap_base tmp) call k.errno j.errno k' e in
    (j', ap (λ (h : Heap). kfree (record { heap = h; errno = j.errno }) tmp) same ∙ ret, heap)

lookup_copy-walk :
    (s : Fs) (root tmp : ℕ) (path : Bytes) (k' : Kmem)
    → IsText path
    → root ≢ null
    → kfree s.devices.world.kmem tmp ≡ ok k'
    → (out : Fs) × (node : ℕ) × (lookup_copy s root tmp path ≡ ok (out, node))
      × (node ≡ walk s.nodes root (names_of path (fields file_separator path)))
      × (out.nodes ≡ s.nodes)
      × (out.devices.world.kmem.heap ≡ k'.heap)
unfolding lookup_copy walk
lookup_copy-walk s root tmp path k' text rooted free =
    let r = strtok (first_call path) file_separator in
    let done = (do k ← kfree s.devices.world.kmem tmp; ok (fs_finddir (set_kmem s k) root path)) in
    let more : ℕ → Run (Fs × ℕ) = λ p. (do
      let (s1, node) = fs_finddir s root (token_at r.0 p)
      (s2, node') ← lookup_loop (suc (length path)) r.0 s1 node
      k ← kfree s2.devices.world.kmem tmp
      ok (set_kmem s2 k, node')) in
    let t : (root == null) ≡ false = ground arith in
    elim (strtok-Called (first_call path) file_separator text) [
      | none_left e e' ↦
          let end = fs_finddir (set_kmem s k') root path in
          let at = fs_finddir-Finds (set_kmem s k') root path in
          (end.0, end.1, ap (on_token done more) e' ∙ rw free refl, rw (e, t) at.2, at.0, at.1)
      | found p text' less returns e ↦
          let next = fs_finddir s root (token_at r.0 p) in
          let at = fs_finddir-Finds s root (token_at r.0 p) in
          let (out, ret, there) =
            lookup_loop-walk (suc (length path)) r.0 next.0 next.1 text' (omega arith) in
          let all =
            Finds-walk s (found_in s.nodes root (token_at r.0 p)) next out
              (fields file_separator r.0.rest) at there in
          let (j, freed, heap) =
            kfree-heap s.devices.world.kmem k' out.0.devices.world.kmem tmp all.1 free in
          (
            set_kmem out.0 j,
            out.1,
            ap (on_token done more) returns ∙ rw (ret, freed) refl,
            rw (e, t) all.2,
            all.0,
            heap,
          )
    ]

-- A non-empty path is looked up as a walk from the root over the names in it, one `fs_finddir` each until
-- there is no inode; a path of separators alone is itself looked up in the root. The call returns the inode
-- where the walk ends, or null, changes no inode, and leaves the heap as the allocation and the release of
-- the copy of the path do.
pub fs_lookup-walk :
    (fuel : ℕ) (s : Fs) (root : ℕ) (path : Bytes) (k k' : Kmem) (tmp : ℕ)
    → IsText path
    → 0 < length path
    → root ≢ null
    → kmalloc fuel s.devices.world.kmem (u32 (length path + 1)) ≡ ok (k, tmp)
    → tmp ≢ null
    → kfree k tmp ≡ ok k'
    → (out : Fs) × (node : ℕ) × (fs_lookup fuel s root path ≡ ok (out, node))
      × (node ≡ walk s.nodes root (names_of path (fields file_separator path)))
      × (out.nodes ≡ s.nodes)
      × (out.devices.world.kmem.heap ≡ k'.heap)
unfolding fs_lookup
fs_lookup-walk fuel s root path k k' tmp text pos rooted alloc given free =
    let t : (root == null) ≡ false = ground arith in
    let t1 : (length path == 0) ≡ false = ground arith in
    let t2 : (tmp == null) ≡ false = ground arith in
    rw (t, t1, alloc, t2) (lookup_copy-walk (set_kmem s k) root tmp path k' text rooted free)
