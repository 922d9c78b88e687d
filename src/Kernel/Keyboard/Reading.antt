-- ===== src/Kernel/Keyboard/Reading.antt =====
-- `tty_read` of kernel/dev/tty.c returns the line that was typed.
use foos.Prelude.{
  ℕ, ◌+◌, ◌<◌, ◌≡◌, refl, ap, ◌∙◌, arith, true, ◌==◌, List, [], ◌∷◌, ◌++◌, length, take, All,
}
use foos.Machine.{ok}
use foos.Libc.Str.{Bytes}
use foos.Kernel.Keyboard.{Input, press, end_line, kbd_irq, wait_line, tty_read}
use foos.Kernel.Keyboard.Editor.{Editor, editor_of, respond, IsKey}
use foos.Kernel.Keyboard.Editing.{kbd_irq-respond}

-- The editor after a sequence of codes.
abbrev pub respond_all : Editor → List ℕ → Editor
respond_all e [] = e
respond_all e (code ∷ codes) = respond_all (respond e code) codes

kbd_irq_enter :
    (s : Input)
    → kbd_irq s 0x1C ≡ ok (end_line (record s { kbd = record s.kbd { irq = 1; special = 0 } }))
unfolding kbd_irq press
kbd_irq_enter s = refl

wait_line_done : (s : Input) (rest : List ℕ) → s.kbd.flush ≡ 1 → wait_line s rest ≡ ok (s, rest)
unfolding wait_line
wait_line_done s [] e = rw e refl
wait_line_done s (c ∷ rest) e = rw e refl

end_line_flush : (s : Input) → (end_line s).kbd.flush ≡ 1
unfolding end_line
end_line_flush s = refl

end_line_text : (s : Input) → take (end_line s).tmp (end_line s).buf ≡ take s.bufptr s.buf
unfolding end_line
end_line_text s = refl

wait_line-respond_all :
    (s : Input) (codes rest : List ℕ)
    → length s.buf ≡ 512
    → s.kbd.flush ≡ 0
    → s.bufptr + length codes < 511
    → All IsKey codes
    → (s' : Input) × (wait_line s (codes ++ (0x1C ∷ rest)) ≡ ok (s', rest))
      × (take s'.tmp s'.buf ≡ (respond_all (editor_of s) codes).text)
unfolding wait_line
wait_line-respond_all s [] rest size idle room keys =
    let s' = end_line (record s { kbd = record s.kbd { irq = 1; special = 0 } }) in
    let t : (s.kbd.flush == 0) ≡ true = ground arith in
    rw (t, kbd_irq_enter s) (s', wait_line_done s' rest (end_line_flush _), end_line_text _)
wait_line-respond_all s (code ∷ codes) rest size idle room keys =
    let x =
      kbd_irq-respond s code (record { size = size; within = omega arith; waiting = idle })
        keys.0 in
    let within = x.within in
    let (s', returns, line) =
      wait_line-respond_all x.after codes rest x.size x.waiting (omega arith) keys.1 in
    let t : (s.kbd.flush == 0) ≡ true = ground arith in
    rw (t, x.returns) (s', returns, line ∙ ap (λ (e : Editor). (respond_all e codes).text) x.shows)

-- With no line waiting, `tty_read` returns the line that the codes before ENTER edit, starting from an
-- empty one, if they are fewer than 511: keys of the tables and releases of any. The codes behind
-- ENTER are left.
pub tty_read-respond_all :
    (s : Input) (codes rest : List ℕ)
    → length s.buf ≡ 512
    → s.kbd.flush ≡ 0
    → length codes < 511
    → All IsKey codes
    → (s' : Input) × (tty_read s (codes ++ (0x1C ∷ rest))
        ≡ ok (
          s',
          (respond_all (record { shift = s.kbd.shift; caps = s.kbd.caps; text = [] }) codes).text,
          rest,
        ))
unfolding tty_read
tty_read-respond_all s codes rest size idle few keys =
    let (s1, returns, line) =
      wait_line-respond_all (record s { bufptr = 0 }) codes rest size idle (omega arith) keys in
    let s2 = record s1 { kbd = record s1.kbd { flush = 0 }; tmp = 0 } in
    (s2, rw returns (ap (λ (t : Bytes). ok (s2, t, rest)) line))
