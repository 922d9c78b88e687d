-- ===== src/Kernel/Kmalloc/Cells.antt =====
-- What the heap of kernel/kmalloc.c stands for: a row of cells that tile memory from an address on,
-- each a header and its data. First fit on such a row is the specification of `lookup`.
use foos.Prelude.{
  ℕ, ◌+◌, ◌-◌, ◌%◌, ◌^◌, ◌≤◌, ◌<◌, ◌≡◌, Bool, true, not, All, ◌&&◌, List, [], ◌∷◌, leb, ◌==◌,
  if◌then◌else◌,
}

pub record Cell : Type 0 where
  pub used : ℕ
  pub size : ℕ

abbrev pub cell : ℕ → ℕ → Cell
cell u n = record { used = u; size = n }

-- The address behind a cell that stands at `p`.
abbrev pub behind : ℕ → Cell → ℕ
behind p c = p + 16 + c.size

-- The address behind the last cell.
abbrev pub stop : ℕ → List Cell → ℕ
stop p [] = p
stop p (c ∷ cs) = stop (behind p c) cs

-- Data address and size of each cell in use.
unfoldable pub owned : ℕ → List Cell → List (ℕ × ℕ)
owned p [] = []
owned p (c ∷ cs) =
    let rest = owned (behind p c) cs in if c.used == 0 then rest else (p + 16, c.size) ∷ rest

abbrev pub is_misaligned : ℕ → ℕ → Bool
is_misaligned p align = not (align == 0) && not ((p + 16) % 2 ^ align == 0)

-- First fit takes the cell `d`, which stands at `p`.
abbrev pub takes : ℕ → ℕ → ℕ → Cell → Bool
takes size align p d = leb size d.size && (d.used == 0 && not (is_misaligned p align))

-- The cell `d` is taken, and what is left of it becomes a free cell if it is worth it.
unfoldable pub grab : ℕ → Cell → List Cell → List Cell
grab size d [] = cell 1 d.size ∷ []
grab size d (e ∷ es) =
    if leb (d.size - size) 24
    then cell 1 d.size ∷ e ∷ es
    else cell 1 size ∷ cell 0 (d.size - size - 16) ∷ e ∷ es

-- Where the header of a cell behind the row goes, so that its data is aligned.
unfoldable pub place : ℕ → ℕ → ℕ
place e align = if is_misaligned e align then e - e % 2 ^ align + 2 ^ align - 16 else e

-- First fit behind the cell `c` at `p`: the new row, and the address of the header that is handed out.
unfoldable pub visit : ℕ → ℕ → ℕ → Cell → List Cell → List Cell × ℕ
unfolding grab place
visit size align p c [] =
    let e = place (behind p c) align in (cell c.used (e - (p + 16)) ∷ cell 1 size ∷ [], e)
visit size align p c (d ∷ ds) =
    let p' = behind p c in
    let later = visit size align p' d ds in
    if takes size align p' d then (c ∷ grab size d ds, p') else (c ∷ later.0, later.1)

-- First fit on a whole row.
unfoldable pub first_fit : ℕ → ℕ → ℕ → Cell → List Cell → List Cell × ℕ
unfolding visit
first_fit size align p c cs =
    if takes size align p c then (grab size c cs, p) else visit size align p c cs

-- A block behind address `e` can be aligned without going back over what stands before `e`.
abbrev pub Snug : ℕ → ℕ → Type 0
Snug e align = is_misaligned e align ≡ true → e % 2 ^ align + 16 ≤ 2 ^ align

-- No cell is empty.
abbrev pub Positive : List Cell → Type 0
Positive = All (λ c. 0 < c.size)
