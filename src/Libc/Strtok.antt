-- ===== src/Libc/Strtok.antt =====
-- libc/strtok.c. The text that is being split is a buffer in two parts: `before` the static pointer
-- `old`, and the `rest` from there to the terminator, which is left out. `strtok` writes terminators into
-- the buffer; a pointer into it is an index.
pub mod Fields
mod Tests
use foos.Prelude.{
  ℕ, zero, suc, ◌+◌, Bool, true, false, ◌&&◌, List, [], ◌∷◌, ◌++◌, Option, none, some,
  if◌then◌else◌, ◌==◌, length, take, drop,
}
use foos.Libc.Str.{Bytes, one_of, strspn}

pub record Text : Type 0 where
  pub before : Bytes
  pub rest : Bytes

-- The text that a pointer into a buffer leads to: up to the terminator.
abbrev pub text_at : Bytes → Bytes
text_at [] = []
text_at (c ∷ s) = let more = text_at s in if c == 0 then [] else c ∷ more

-- The loop, with the flags `f` (no token yet) and `i` (a delimiter was passed), and the token `ptr`.
-- The inner loop is `one_of`.
unfoldable pub strtok_loop : Bytes → Bytes → Bytes → Bool → Bool → Option ℕ → Text × Option ℕ
strtok_loop before [] delim f i ptr = (record { before = before; rest = [] }, ptr)
strtok_loop before (c ∷ s) delim f i ptr =
    let ptr' = if f then some (length before) else ptr in
    if one_of c delim
    then strtok_loop (before ++ (0 ∷ [])) s delim f true ptr
    else if i
    then (record { before = before; rest = c ∷ s }, ptr')
    else strtok_loop (before ++ (c ∷ [])) s delim false i ptr'

-- `strtok(NULL,delim)`; `strtok(str,delim)` starts with the text `str` as the rest of a new buffer.
unfoldable pub strtok : Text → Bytes → Text × Option ℕ
strtok t delim =
    let n = strspn t.rest delim in
    strtok_loop (t.before ++ take n t.rest) (drop n t.rest) delim true false none

abbrev pub first_call : Bytes → Text
first_call str = record { before = []; rest = str }

-- The token at an index of the buffer.
abbrev pub token_at : Text → ℕ → Bytes
token_at t p = text_at (drop p (t.before ++ t.rest))

-- What a caller does with the pointer that `strtok` returns: null, or an index.
abbrev pub on_token {ℓ} : {A : Type ℓ} → A → (ℕ → A) → Option ℕ → A
on_token done more none = done
on_token done more (some p) = more p
