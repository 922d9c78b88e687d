-- ===== src/Libc/Strtok/Fields.antt =====
-- Calls of `strtok` of libc/strtok.c in a row yield the fields of a text.
use foos.Prelude.{
  ℕ, zero, suc, ◌≤◌, ◌<◌, ◌≡◌, refl, sym, ap, ◌∙◌, arith, Bool-cases, true, false, inl, inr, List,
  [], ◌∷◌, ◌++◌, Option, none, some, if◌then◌else◌, ◌==◌, length, take, drop,
}
use mathlib.Core.Path.{subst}
use mathlib.Core.List.{append_assoc, append-nil}
use foos.Libc.Str.{Bytes, IsText, one_of, strspn}
use foos.Libc.Str.Span.{Stops, strspn_lem}
use foos.Libc.Strtok.{Text, text_at, strtok_loop, strtok, token_at}

-- The fields of a text: its longest stretches without a delimiter, `cur` being the one that is read.
abbrev pub flush : Bytes → List Bytes → List Bytes
flush [] rest = rest
flush (c ∷ cur) rest = (c ∷ cur) ∷ rest

unfoldable pub fields_from : Bytes → Bytes → Bytes → List Bytes
fields_from delim cur [] = flush cur []
fields_from delim cur (c ∷ s) =
    if one_of c delim
    then flush cur (fields_from delim [] s)
    else fields_from delim (cur ++ (c ∷ [])) s

abbrev pub fields : Bytes → Bytes → List Bytes
fields delim s = fields_from delim [] s

-- The loop `while((ptr=strtok(NULL,delim))!=NULL)`, with the tokens that it sees.
abbrev pub tokens_of : Text → List Bytes → Option ℕ → List Bytes
tokens_of t more none = []
tokens_of t more (some p) = token_at t p ∷ more

unfoldable pub tokens : ℕ → Text → Bytes → List Bytes
tokens zero t delim = []
tokens (suc n) t delim = let (t', ptr) = strtok t delim in tokens_of t' (tokens n t' delim) ptr

drop-append : (b s : Bytes) → drop (length b) (b ++ s) ≡ s
drop-append [] s = refl
drop-append (c ∷ b) s = drop-append b s

text_at-append : (w s : Bytes) → IsText w → text_at (w ++ (0 ∷ s)) ≡ w
text_at-append [] s h = refl
text_at-append (c ∷ w) s h =
    let pos = h.0.0 in
    let t : (c == 0) ≡ false = ground arith in
    rw t (ap (λ (x : Bytes). c ∷ x) (text_at-append w s h.1))

text_at-IsText : (w : Bytes) → IsText w → text_at w ≡ w
text_at-IsText [] h = refl
text_at-IsText (c ∷ w) h =
    let pos = h.0.0 in
    let t : (c == 0) ≡ false = ground arith in
    rw t (ap (λ (x : Bytes). c ∷ x) (text_at-IsText w h.1))

strspn_delim :
    (c : ℕ) (s delim : Bytes) → one_of c delim ≡ true → strspn (c ∷ s) delim ≡ suc (strspn s delim)
unfolding strspn
strspn_delim c s delim d = rw d refl

strspn_other : (c : ℕ) (s delim : Bytes) → one_of c delim ≡ false → strspn (c ∷ s) delim ≡ 0
unfolding strspn
strspn_other c s delim d = rw d refl

drop-strspn_nil : (delim : Bytes) → drop {A = ℕ} (strspn [] delim) [] ≡ []
unfolding strspn
drop-strspn_nil delim = refl

drop-strspn_delim :
    (c : ℕ) (s delim : Bytes)
    → one_of c delim ≡ true
    → drop (strspn (c ∷ s) delim) (c ∷ s) ≡ drop (strspn s delim) s
drop-strspn_delim c s delim d = ap (λ (n : ℕ). drop n (c ∷ s)) (strspn_delim c s delim d)

drop-strspn_other :
    (c : ℕ) (s delim : Bytes) → one_of c delim ≡ false → drop (strspn (c ∷ s) delim) (c ∷ s) ≡ c ∷ s
drop-strspn_other c s delim n = ap (λ (k : ℕ). drop k (c ∷ s)) (strspn_other c s delim n)

fields_delim :
    (delim cur : Bytes) (c : ℕ) (s : Bytes)
    → one_of c delim ≡ true
    → fields_from delim cur (c ∷ s) ≡ flush cur (fields delim s)
unfolding fields_from
fields_delim delim cur c s d = rw d refl

fields_other :
    (delim cur : Bytes) (c : ℕ) (s : Bytes)
    → one_of c delim ≡ false
    → fields_from delim cur (c ∷ s) ≡ fields_from delim (cur ++ (c ∷ [])) s
unfolding fields_from
fields_other delim cur c s n = rw n refl

-- Delimiters in front make no field.
fields-skip : (delim s : Bytes) → fields delim s ≡ fields delim (drop (strspn s delim) s)
fields-skip delim [] = ap (λ (x : Bytes). fields delim x) (sym (drop-strspn_nil delim))
fields-skip delim (c ∷ s) = elim (Bool-cases (one_of c delim)) [
  | inl d ↦
      fields_delim delim [] c s d
      ∙ fields-skip delim s
      ∙ ap (λ (x : Bytes). fields delim x) (sym (drop-strspn_delim c s delim d))
  | inr n ↦ ap (λ (x : Bytes). fields delim x) (sym (drop-strspn_other c s delim n))
]

IsText-drop : (n : ℕ) (s : Bytes) → IsText s → IsText (drop n s)
IsText-drop zero s h = h
IsText-drop (suc n) [] h = tt
IsText-drop (suc n) (c ∷ s) h = IsText-drop n s h.1

length-drop : (n : ℕ) (s : Bytes) → length (drop n s) ≤ length s
length-drop zero s = omega arith
length-drop (suc n) [] = omega arith
length-drop (suc n) (c ∷ s) = omega (arith, length-drop n s)

IsText-append : (s : Bytes) (c : ℕ) → IsText s → (0 < c) × (c < 256) → IsText (s ++ (c ∷ []))
IsText-append [] c h hc = (hc, tt)
IsText-append (a ∷ s) c h hc = (h.0, IsText-append s c h.1 hc)

-- The loop once a delimiter was passed behind the token: it clears the others.
record Passed (before s delim : Bytes) (ptr : Option ℕ) (r : Text × Option ℕ) : Type 0 where
  cleared : Bytes
  writes : r.0.before ≡ before ++ cleared
  stops : r.0.rest ≡ drop (strspn s delim) s
  keeps : r.1 ≡ ptr

loop-Passed :
    (before s delim : Bytes) (ptr : Option ℕ)
    → Passed before s delim ptr (strtok_loop before s delim false true ptr)
unfolding strtok_loop
loop-Passed before [] delim ptr = record {
  cleared = [];
  writes = sym (append-nil before);
  stops = sym (drop-strspn_nil delim);
  keeps = refl;
}
loop-Passed before (c ∷ s) delim ptr = elim (Bool-cases (one_of c delim)) [
  | inl d ↦
      let p = loop-Passed (before ++ (0 ∷ [])) s delim ptr in
      rw d (record {
        cleared = 0 ∷ p.cleared;
        writes = p.writes ∙ append_assoc before (0 ∷ []) p.cleared;
        stops = p.stops ∙ sym (drop-strspn_delim c s delim d);
        keeps = p.keeps;
      })
  | inr n ↦ rw n (record {
    cleared = [];
    writes = sym (append-nil before);
    stops = sym (drop-strspn_other c s delim n);
    keeps = refl;
  })
]

-- The loop in the middle of a token, `cur` of which has been read.
record Read (b cur s delim : Bytes) (r : Text × Option ℕ) : Type 0 where
  word : Bytes
  text : IsText r.0.rest
  shorter : length r.0.rest ≤ length s
  returns : r.1 ≡ some (length b)
  token : token_at r.0 (length b) ≡ word
  first : fields_from delim cur s ≡ word ∷ fields delim r.0.rest

loop-Read :
    (b : Bytes) (a : ℕ) (cur s delim : Bytes)
    → IsText (a ∷ cur)
    → IsText s
    → Read b (a ∷ cur) s delim (strtok_loop (b ++ (a ∷ cur)) s delim false false (some (length b)))
unfolding strtok_loop fields_from
loop-Read b a cur [] delim hc hs = record {
  word = a ∷ cur;
  text = tt;
  shorter = omega arith;
  returns = refl;
  token =
      ap (λ (x : Bytes). text_at (drop (length b) x)) (append-nil (b ++ (a ∷ cur)))
      ∙ ap text_at (drop-append b (a ∷ cur))
      ∙ text_at-IsText (a ∷ cur) hc;
  first = refl;
}
loop-Read b a cur (c ∷ s) delim hc hs = elim (Bool-cases (one_of c delim)) [
  | inl d ↦
      let p = loop-Passed ((b ++ (a ∷ cur)) ++ (0 ∷ [])) s delim (some (length b)) in
      let r = strtok_loop ((b ++ (a ∷ cur)) ++ (0 ∷ [])) s delim false true (some (length b)) in
      let whole : r.0.before ++ r.0.rest ≡ b ++ ((a ∷ cur) ++ (0 ∷ (p.cleared ++ r.0.rest))) =
        ap (λ (x : Bytes). x ++ r.0.rest) p.writes
        ∙ append_assoc ((b ++ (a ∷ cur)) ++ (0 ∷ [])) p.cleared r.0.rest
        ∙ append_assoc (b ++ (a ∷ cur)) (0 ∷ []) (p.cleared ++ r.0.rest)
        ∙ append_assoc b (a ∷ cur) (0 ∷ (p.cleared ++ r.0.rest)) in
      rw d (record {
        word = a ∷ cur;
        text = subst IsText (sym p.stops) (IsText-drop (strspn s delim) s hs.1);
        shorter =
            let e = ap (λ (x : Bytes). length x) p.stops in
            omega (arith, length-drop (strspn s delim) s);
        returns = p.keeps;
        token =
            ap (λ (x : Bytes). text_at (drop (length b) x)) whole
            ∙ ap text_at (drop-append b ((a ∷ cur) ++ (0 ∷ (p.cleared ++ r.0.rest))))
            ∙ text_at-append (a ∷ cur) (p.cleared ++ r.0.rest) hc;
        first =
            fields_delim delim (a ∷ cur) c s d
            ∙ ap (λ (x : List Bytes). (a ∷ cur) ∷ x)
                (fields-skip delim s ∙ ap (λ (x : Bytes). fields delim x) (sym p.stops));
      })
  | inr n ↦
      let more = loop-Read b a (cur ++ (c ∷ [])) s delim (IsText-append (a ∷ cur) c hc hs.0) hs.1 in
      rw (n, append_assoc b (a ∷ cur) (c ∷ []))
        (record {
          word = more.word;
          text = more.text;
          shorter = omega (arith, more.shorter);
          returns = more.returns;
          token = more.token;
          first = fields_other delim (a ∷ cur) c s n ∙ more.first;
        })
]

-- A call of `strtok`: there is no field and it returns null, or it returns the first field and leaves
-- the others.
pub data Called (t : Text) (delim : Bytes) (r : Text × Option ℕ) : Type 0 where
  none_left : fields delim t.rest ≡ [] → r.1 ≡ none → Called t delim r
  found :
      (p : ℕ)
      → IsText r.0.rest
      → length r.0.rest < length t.rest
      → r.1 ≡ some p
      → fields delim t.rest ≡ token_at r.0 p ∷ fields delim r.0.rest
      → Called t delim r

strtok-from :
    (b s delim : Bytes)
    → IsText s
    → Stops delim s
    → (t : Text) → fields delim t.rest ≡ fields delim s
    → length s ≤ length t.rest
    → Called t delim (strtok_loop b s delim true false none)
unfolding strtok_loop fields_from
strtok-from b [] delim hs stop t same le = none_left same refl
strtok-from b (c ∷ s) delim hs stop t same le =
    let x = loop-Read b c [] s delim (hs.0, tt) hs.1 in
    rw stop (
      found (length b) x.text (omega (arith, x.shorter)) x.returns (
        same
        ∙ fields_other delim [] c s stop
        ∙ x.first
        ∙ ap
            (λ (w : Bytes).
              w
              ∷ fields delim
                  (strtok_loop (b ++ (c ∷ [])) s delim false false (some (length b))).0.rest)
            (sym x.token)))

pub strtok-Called : (t : Text) (delim : Bytes) → IsText t.rest → Called t delim (strtok t delim)
unfolding strtok
strtok-Called t delim h =
    let n = strspn t.rest delim in
    strtok-from (t.before ++ take n t.rest) (drop n t.rest) delim (IsText-drop n t.rest h)
      (strspn_lem t.rest delim).2 t (fields-skip delim t.rest) (length-drop n t.rest)
