-- ===== src/Kernel/Keyboard/Editing.antt =====
-- The keyboard handler of kernel/dev/tty.c is a line editor.
use foos.Prelude.{
  ℕ, suc, ◌+◌, ◌-◌, ◌≤◌, ◌<◌, ◌≡◌, ◌≢◌, inl, inr, refl, ap, ◌∙◌, sym, arith, Bool-cases, true,
  false, ◌||◌, ltb, leb, ◌==◌, [], ◌∷◌, ◌++◌, length, set, take, length-set, length-take, take-set,
  take-set_last, take-take,
}
use foos.Machine.{Run, ok}
use foos.Libc.Str.{Bytes}
use foos.Kernel.Keyboard.Editor.{
  Editor, editor_of, key, edit, respond, IsKey, decode-key, respond_key,
}
use foos.Kernel.Keyboard.{
  Kbd, Input, store, type_key, rub_out, press, release, kbd_irq, set_special,
}

-- There is room for another character and the terminator.
pub record Room (s : Input) : Type 0 where
  pub size : length s.buf ≡ 512
  pub within : s.bufptr < 511
  pub waiting : s.kbd.flush ≡ 0

-- The state after a key with `n` characters in the buffer: it shows the line `e`, and at most one character more is in the buffer.
pub record Edited (n : ℕ) (e : Editor) (r : Run Input) : Type 0 where
  pub after : Input
  pub returns : r ≡ ok after
  pub shows : editor_of after ≡ e
  pub size : length after.buf ≡ 512
  pub within : after.bufptr ≤ n + 1
  pub waiting : after.kbd.flush ≡ 0

type_key-Edited :
    (s : Input) (code : ℕ)
    → Room s
    → code < 60
    → Edited s.bufptr
        (record (editor_of s) {
          text = take s.bufptr s.buf ++ (key s.kbd.shift s.kbd.caps code ∷ []);
        })
        (type_key s code)
unfolding type_key store
type_key-Edited s code r lt =
    let size = r.size in
    let within = r.within in
    let ch = key s.kbd.shift s.kbd.caps code in
    let size1 = length-set s.buf s.bufptr ch in
    let size2 = length-set (set s.buf s.bufptr ch) (s.bufptr + 1) 0 in
    let t1 : ltb s.bufptr (length s.buf) ≡ true = ground arith in
    let t2 : ltb (s.bufptr + 1) (length (set s.buf s.bufptr ch)) ≡ true = ground arith in
    let next : s.bufptr + 1 ≡ suc s.bufptr = omega arith in
    let line : take (s.bufptr + 1) (set (set s.buf s.bufptr ch) (s.bufptr + 1) 0)
        ≡ take s.bufptr s.buf ++ (ch ∷ []) =
      take-set (s.bufptr + 1) (set s.buf s.bufptr ch) (s.bufptr + 1) 0 (omega arith)
      ∙ ap (λ (n : ℕ). take n (set s.buf s.bufptr ch)) next
      ∙ take-set_last s.bufptr s.buf ch (omega arith) in
    rw (decode-key s.kbd.shift s.kbd.caps code lt, t1, t2)
      (record {
        after = _;
        returns = refl;
        shows = ap (λ (t : Bytes). record (editor_of s) { text = t }) line;
        size = omega arith;
        within = omega arith;
        waiting = r.waiting;
      })

rub_out-Edited :
    (s : Input)
    → Room s
    → Edited s.bufptr
        (record (editor_of s) {
          text = take (length (take s.bufptr s.buf) - 1) (take s.bufptr s.buf);
        })
        (rub_out s)
unfolding rub_out store
rub_out-Edited s r =
    let size = r.size in
    let within = r.within in
    let len : length (take s.bufptr s.buf) ≡ s.bufptr = length-take s.bufptr s.buf (omega arith) in
    rw len (elim (Bool-cases (s.bufptr == 0)) [
      | inl empty ↦
          let e : s.bufptr ≡ 0 = ground arith in
          rw empty (record {
            after = s;
            returns = refl;
            shows = ap (λ (t : Bytes). record (editor_of s) { text = t }) (rw e refl);
            size = size;
            within = omega arith;
            waiting = r.waiting;
          })
      | inr some_text ↦
          let pos : 0 < s.bufptr = ground arith in
          let t : ltb (s.bufptr - 1) (length s.buf) ≡ true = ground arith in
          let line : take (s.bufptr - 1) (set s.buf (s.bufptr - 1) 0)
              ≡ take (s.bufptr - 1) (take s.bufptr s.buf) =
            take-set (s.bufptr - 1) s.buf (s.bufptr - 1) 0 (omega arith)
            ∙ sym (take-take (s.bufptr - 1) s.bufptr s.buf (omega arith)) in
          rw (some_text, t)
            (record {
              after = _;
              returns = refl;
              shows = ap (λ (x : Bytes). record (editor_of s) { text = x }) line;
              size = omega (arith, length-set s.buf (s.bufptr - 1) 0);
              within = omega arith;
              waiting = r.waiting;
            })
    ])

-- A key that changes no more than the shift keys.
same_line : (s s' : Input) → Room s' → s'.bufptr ≡ s.bufptr → Edited s.bufptr (editor_of s') (ok s')
same_line s s' r e = record {
  after = s';
  returns = refl;
  shows = refl;
  size = r.size;
  within = omega arith;
  waiting = r.waiting;
}

press-edit :
    (s : Input) (code : ℕ)
    → Room s
    → code < 60
    → code ≢ 0x1C
    → Edited s.bufptr (edit (editor_of s) code) (press s code)
unfolding press edit
press-edit s code r lt other =
    let room : (k : Kbd) → k.flush ≡ 0 → Room (record s { kbd = k }) =
      λ k w. record { size = r.size; within = r.within; waiting = w } in
    let enter : (code == 0x1C) ≡ false = ground arith in
    elim (Bool-cases (code == 0x0F)) [
      | inl a ↦ rw a (same_line s s r refl)
      | inr n1 ↦ elim (Bool-cases (code == 0x1D)) [
        | inl a ↦
            rw (n1, a)
              (same_line s (record s { kbd = record s.kbd { ctrl = 1 } }) (room _ r.waiting) refl)
        | inr n2 ↦ elim (Bool-cases (code == 0x2A || code == 0x36)) [
          | inl a ↦
              let alt : (code == 0x38) ≡ false = ground arith in
              rw (n1, n2, alt, a)
                (same_line s (record s { kbd = record s.kbd { shift = 1 } }) (room _ r.waiting)
                  refl)
          | inr n3 ↦ elim (Bool-cases (code == 0x3A)) [
            | inl a ↦
                let alt : (code == 0x38) ≡ false = ground arith in
                rw (n1, n2, n3, alt, a)
                  (same_line s (record s { kbd = record s.kbd { caps = 1 - s.kbd.caps } })
                    (room _ r.waiting) refl)
            | inr n4 ↦ elim (Bool-cases (code == 0x38)) [
              | inl a ↦
                  rw (n1, n2, n3, n4, a)
                    (same_line s (record s { kbd = record s.kbd { alt = 1 } }) (room _ r.waiting)
                      refl)
              | inr n5 ↦ elim (Bool-cases (code == 0x0E)) [
                | inl a ↦
                    rw (n1, n2, n3, n4, n5, enter, a)
                      (rub_out-Edited (set_special s 0) (room _ r.waiting))
                | inr n6 ↦
                    rw (n1, n2, n3, n4, n5, enter, n6)
                      (type_key-Edited (set_special s 0) code (room _ r.waiting) lt)
              ]
            ]
          ]
        ]
      ]
    ]

release-respond :
    (s : Input) (code : ℕ)
    → Room s
    → 0x80 ≤ code
    → Edited s.bufptr (respond (editor_of s) code) (ok (release s (code - 0x80)))
unfolding release respond
release-respond s code r up =
    let t : leb 0x80 code ≡ true = ground arith in
    let room : (k : Kbd) → k.flush ≡ 0 → Room (record s { kbd = k }) =
      λ k w. record { size = r.size; within = r.within; waiting = w } in
    elim (Bool-cases (code - 0x80 == 0x1D)) [
      | inl a ↦
          let shift : (code - 0x80 == 0x2A || code - 0x80 == 0x36) ≡ false = ground arith in
          rw (t, shift, a)
            (same_line s (record s { kbd = record s.kbd { ctrl = 0 } }) (room _ r.waiting) refl)
      | inr n1 ↦ elim (Bool-cases (code - 0x80 == 0x2A || code - 0x80 == 0x36)) [
        | inl a ↦
            rw (t, n1, a)
              (same_line s (record s { kbd = record s.kbd { shift = 0 } }) (room _ r.waiting) refl)
        | inr n2 ↦ elim (Bool-cases (code - 0x80 == 0x38)) [
          | inl a ↦
              rw (t, n1, n2, a)
                (same_line s (record s { kbd = record s.kbd { alt = 0 } }) (room _ r.waiting) refl)
          | inr n3 ↦ rw (t, n1, n2, n3) (same_line s s r refl)
        ]
      ]
    ]

-- The interrupt handler does to the line what the editor does: with room in the buffer it returns for
-- each key of the tables but ENTER and for each release, the line and the shift keys are then as
-- `respond` says, and the buffer holds at most one character more.
pub kbd_irq-respond :
    (s : Input) (code : ℕ)
    → Room s
    → IsKey code
    → Edited s.bufptr (respond (editor_of s) code) (kbd_irq s code)
unfolding kbd_irq
kbd_irq-respond s code r (inr up) =
    let t : leb 0x80 code ≡ true = ground arith in
    rw t (
      release-respond (record s { kbd = record s.kbd { irq = 1; special = 1 } }) code
        (record { size = r.size; within = r.within; waiting = r.waiting }) up)
kbd_irq-respond s code r (inl (lt, other)) =
    let t : leb 0x80 code ≡ false = ground arith in
    rw (t, respond_key (editor_of s) code lt)
      (press-edit (record s { kbd = record s.kbd { irq = 1; special = 1 } }) code
        (record { size = r.size; within = r.within; waiting = r.waiting }) lt other)
