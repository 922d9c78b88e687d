-- ===== src/Kernel/Shell/Sessions.antt =====
-- A session with the shell of kernel/shell.c: the lines up to `exit`.
use foos.Prelude.{
  ℕ, suc, zero, ◌-◌, ◌≡◌, ◌≢◌, refl, sym, ap, ◌∙◌, arith, false, List, [], ◌∷◌, ◌++◌, length, drop,
  replicate, Bool-cases, inl, inr, ltb, ◌==◌, codes,
}
use foos.Machine.{Run, ok, fault, hang, out_of_fuel, >>=-eq-ok, bufsiz}
use foos.Libc.Str.{Bytes, IsText, strcmp}
use foos.Libc.Str.Compare.{strcmp_iff}
use foos.Libc.Strtok.{text_at}
use foos.Libc.Output.{putchar}
use foos.Kernel.Ports.{Ports}
use foos.Kernel.Device.{Drivers, Devices}
use foos.Kernel.Ramdisk.{World}
use foos.Libfs.Wrap.{Code}
use foos.Kernel.Shell.{
  Shell, with_devices, fill, say_text, run_line, prompt, shell_loop, shell_main,
}
use foos.Kernel.Shell.Requests.{Request, Asks}
use foos.Kernel.Shell.Commands.{carry_out, run_line-Asks}

pub text_at-replicate : (n : ℕ) → text_at (replicate {A = ℕ} n 0) ≡ []
text_at-replicate zero = refl
text_at-replicate (suc n) = refl

pub drop-replicate : (k n : ℕ) → drop k (replicate {A = ℕ} n 0) ≡ replicate (n - k) 0
drop-replicate zero n = let e : n ≡ n - 0 = omega arith in ap (λ (m : ℕ). replicate m 0) e
drop-replicate (suc k) zero = let e : 0 ≡ 0 - suc k = omega arith in ap (λ (m : ℕ). replicate m 0) e
drop-replicate (suc k) (suc n) =
    let e : n - k ≡ suc n - suc k = omega arith in
    drop-replicate k n ∙ ap (λ (m : ℕ). replicate m 0) e

pub text_at-append :
    (line rest : Bytes) → IsText line → text_at rest ≡ [] → text_at (line ++ rest) ≡ line
text_at-append [] rest chars none = none
text_at-append (c ∷ line) rest chars none =
    let pos = chars.0.0 in
    let t : (c == 0) ≡ false = ground arith in
    rw t (ap (λ (s : Bytes). c ∷ s) (text_at-append line rest chars.1 none))

module _ {H : Type 0} (d : Drivers World) (code : Code) (io : Ports H) (fuel : ℕ) where
  buf_text : Run (Shell H) → Bytes
  buf_text (ok s) = text_at s.buf
  buf_text fault = []
  buf_text hang = []
  buf_text out_of_fuel = []

  fill_text :
      (s s1 : Shell H) (line : Bytes)
      → IsText line
      → fill (record s { buf = replicate bufsiz 0 }) line ≡ ok s1
      → text_at s1.buf ≡ line
  unfolding buf_text
  fill_text s s1 line chars e = elim (Bool-cases (ltb (length line) bufsiz)) [
    | inl fits ↦
        let e' : ok (record s { buf = line ++ drop (length line) (replicate bufsiz 0) }) ≡ ok s1 =
          rw fits at e in
        sym (ap buf_text e')
        ∙ text_at-append line _ chars (
            ap text_at (drop-replicate (length line) bufsiz)
            ∙ text_at-replicate (bufsiz - length line))
    | inr long ↦ (let e' : fault ≡ ok s1 = rw long at e in absurd cc)
  ]

  prompt-text :
      (s s1 : Shell H) (line : Bytes)
      → IsText line
      → prompt d code io fuel s line ≡ ok s1
      → text_at s1.buf ≡ line
  unfolding prompt
  prompt-text s s1 line chars e =
      let (s0, _, e') =
        >>=-eq-ok (λ s. fill (record s { buf = replicate bufsiz 0 }) line)
          (say_text d s (codes "> ")) e in
      fill_text s0 s1 line chars e'

  -- The lines are answered one after the other, each at its prompt.
  pub data Answers : Shell H → List Bytes → Shell H → Type 0 where
    done : (s : Shell H) → Answers s [] s
    answer :
        {s s1 s2 s3 : Shell H} {line : Bytes} {lines : List Bytes} {r : Request}
        → IsText line
        → line ≢ codes "exit"
        → prompt d code io fuel s line ≡ ok s1
        → Asks line r
        → carry_out d code io fuel s1 line r ≡ ok s2
        → Answers s2 lines s3
        → Answers s (line ∷ lines) s3

  loop_answer :
      (s s1 s2 : Shell H) (line : Bytes) (lines : List Bytes)
      → IsText line
      → line ≢ codes "exit"
      → prompt d code io fuel s line ≡ ok s1
      → run_line d code io fuel s1 line ≡ ok s2
      → shell_loop d code io fuel s (line ∷ lines) ≡ shell_loop d code io fuel s2 lines
  unfolding shell_loop
  loop_answer s s1 s2 line lines chars exits asks ran =
      let same = strcmp_iff line (codes "exit") chars (omega arith) in
      let t : (strcmp line (codes "exit") == 0) ≡ false =
        elim (Bool-cases (strcmp line (codes "exit") == 0)) [
          | inl z ↦ absurd (exits (same.0 (ground arith)))
          | inr z ↦ z
        ] in
      rw (asks, prompt-text s s1 line chars asks, t, ran) refl

  loop_exit :
      (s s1 : Shell H) (lines : List Bytes)
      → prompt d code io fuel s (codes "exit") ≡ ok s1
      → shell_loop d code io fuel s (codes "exit" ∷ lines) ≡ ok (s1, lines)
  unfolding shell_loop strcmp
  loop_exit s s1 lines asks = rw (asks, prompt-text s s1 (codes "exit") (omega arith) asks) refl

  shell_loop-Answers :
      {s s1 : Shell H} {lines : List Bytes} (s2 : Shell H) (after : List Bytes)
      → Answers s lines s1
      → prompt d code io fuel s1 (codes "exit") ≡ ok s2
      → shell_loop d code io fuel s (lines ++ (codes "exit" ∷ after)) ≡ ok (s2, after)
  shell_loop-Answers {s} s2 after (done _) asks = loop_exit s s2 after asks
  shell_loop-Answers s2 after
        (answer {s = s0} {s1 = s1} {s2 = s3} {line = line} {lines = lines} chars exits shows is does
          more)
        asks =
      loop_answer s0 s1 s3 line (lines ++ (codes "exit" ∷ after)) chars exits shows
        (run_line-Asks d code io fuel s1 line chars exits is ∙ does)
      ∙ shell_loop-Answers s2 after more asks

  -- `shell_main` answers the lines before `exit` one after the other, each with what it asks for, and
  -- returns at `exit`, with the lines behind it left, where the prompts and what the lines ask for return.
  pub shell_main-Answers :
      (s s1 s2 : Shell H) (v : Devices World) (ret : ℕ) (lines after : List Bytes)
      → putchar d s.fs.devices b'\n' ≡ ok (v, ret)
      → Answers (with_devices s v) lines s1
      → prompt d code io fuel s1 (codes "exit") ≡ ok s2
      → shell_main d code io fuel s (lines ++ (codes "exit" ∷ after)) ≡ ok (s2, after)
  unfolding shell_main
  shell_main-Answers s s1 s2 v ret lines after puts answers asks =
      rw puts (shell_loop-Answers s2 after answers asks)
