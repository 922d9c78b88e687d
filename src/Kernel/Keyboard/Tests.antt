-- ===== src/Kernel/Keyboard/Tests.antt =====
-- Runs of the input of kernel/dev/tty.c, and its theorems at short lines.
use foos.Prelude.{
  ℕ, ◌≡◌, ◌≢◌, ◌<◌, inl, inr, refl, arith, List, [], ◌∷◌, ◌++◌, length-replicate, replicate, All,
}
use foos.Machine.{ok}
use foos.Kernel.Tty.{Screen}
use foos.Kernel.Keyboard.{Input, kbd_irq, tty_read}
use foos.Kernel.Keyboard.Editor.{editor_of, respond, edit, IsKey}
use foos.Kernel.Keyboard.Editing.{Edited, kbd_irq-respond}
use foos.Kernel.Keyboard.Reading.{respond_all, tty_read-respond_all}

abbrev blank_screen : Screen
blank_screen = record {
  vga = record { high = 0; low = 0; memory = λ a. 0 };
  tty = record { color = 7; cursor = 0; last = 0 };
}

abbrev input : ℕ → Input
input n = record {
  screen = blank_screen;
  buf = replicate 512 0;
  bufptr = n;
  tmp = 0;
  kbd = record { ctrl = 0; shift = 0; alt = 0; caps = 0; irq = 0; special = 0; flush = 0 };
}

-- Shift and `h`, the shift key released, `i`, `j`, and a backspace.
abbrev typed : List ℕ
typed = 0x2A ∷ 0x23 ∷ 0xAA ∷ 0x17 ∷ 0x24 ∷ 0x0E ∷ []

typed_text : (respond_all (editor_of (input 0)) typed).text ≡ b'H' ∷ b'i' ∷ []
unfolding respond edit
typed_text = refl

pressed : (code : ℕ) → code < 60 → code ≢ 0x1C → IsKey code
pressed code lt ne = inl (lt, ne)

typed_keys : All IsKey typed
typed_keys = (
  pressed 0x2A (omega arith) (λ e. absurd (omega arith)),
  (
    pressed 0x23 (omega arith) (λ e. absurd (omega arith)),
    (
      inr (omega arith),
      (
        pressed 0x17 (omega arith) (λ e. absurd (omega arith)),
        (
          pressed 0x24 (omega arith) (λ e. absurd (omega arith)),
          (pressed 0x0E (omega arith) (λ e. absurd (omega arith)), tt),
        ),
      ),
    ),
  ),
)

tty_read-respond_all_example :
    (s' : Input) × (tty_read (input 0) (typed ++ (0x1C ∷ []))
      ≡ ok (s', (respond_all (record { shift = 0; caps = 0; text = [] }) typed).text, []))
tty_read-respond_all_example =
    tty_read-respond_all (input 0) typed [] (length-replicate {A = ℕ} 512 0) refl (omega arith)
      typed_keys

kbd_irq-respond_example : Edited 3 (respond (editor_of (input 3)) 0x1E) (kbd_irq (input 3) 0x1E)
kbd_irq-respond_example =
    kbd_irq-respond (input 3) 0x1E
      (record { size = length-replicate {A = ℕ} 512 0; within = omega arith; waiting = refl })
      (pressed 0x1E (omega arith) (λ e. absurd (omega arith)))
