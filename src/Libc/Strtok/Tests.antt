-- ===== src/Libc/Strtok/Tests.antt =====
-- Runs of libc/strtok.c, and its theorem at a path.
use foos.Prelude.{◌≡◌, refl, [], ◌∷◌}
use foos.Libc.Str.{Bytes, strspn, one_of}
use foos.Libc.Strtok.{first_call, strtok, strtok_loop}
use foos.Libc.Strtok.Fields.{fields, fields_from, tokens}

abbrev path : Bytes
path = b'/' ∷ b'd' ∷ b'e' ∷ b'v' ∷ b'/' ∷ b'/' ∷ b't' ∷ []

abbrev slash : Bytes
slash = b'/' ∷ []

path-fields : fields slash path ≡ (b'd' ∷ b'e' ∷ b'v' ∷ []) ∷ (b't' ∷ []) ∷ []
unfolding fields_from one_of
path-fields = refl

path-tokens : tokens 3 (first_call path) slash ≡ fields slash path
unfolding fields_from one_of tokens strtok strtok_loop strspn
path-tokens = refl
