-- ===== src/Kernel/Serial/Sending.antt =====
-- What kernel/dev/serial.c puts on the line, through a transmitter as the data sheet of the 16550 has it.
use foos.Prelude.{
  ℕ, zero, suc, ◌-◌, ◌<◌, ◌≤◌, ◌≡◌, ◌≢◌, refl, sym, ap, ◌∙◌, arith, true, false, Bool-cases, inl,
  inr, ◌==◌, if◌then◌else◌, [], ◌∷◌, ◌++◌, length, bit_and,
}
use mathlib.Core.List.{append_assoc, append-nil}
use foos.Machine.{Run, ok, ◌>>=◌, u8}
use foos.Libc.Str.{Bytes}
use foos.Kernel.Ports.{Ports, inb, outb}
use foos.Kernel.Serial.{
  Serial, serial_port, linestat, await, transmit, serial_send, send_all, serial_write, serial_print,
}

-- `sent` is what has gone out, and `busy` how often the status is still read as busy; a byte that is
-- written while it is not busy goes out, and keeps the transmitter busy for less than `limit` reads.
pub record IsUart {H : Type 0} (io : Ports H) (sent : H → Bytes) (busy : H → ℕ) (limit : ℕ)
    : Type 0 where
  pub bound : (h : H) → busy h < limit
  pub idle : (h : H) → busy h ≡ 0 → bit_and (inb io h linestat).1 0x20 ≢ 0
  pub waits : (h : H) → busy h ≢ 0 → bit_and (inb io h linestat).1 0x20 ≡ 0
  pub passes : (h : H) → busy (inb io h linestat).0 ≡ busy h - 1
  pub keeps : (h : H) → sent (inb io h linestat).0 ≡ sent h
  pub sends : (h : H) (c : ℕ) → busy h ≡ 0 → sent (outb io h serial_port c) ≡ sent h ++ (u8 c ∷ [])

-- On the line a newline has a carriage return before it.
abbrev pub on_line : Bytes → Bytes
on_line [] = []
on_line (c ∷ s) = let rest = on_line s in if c == b'\n' then b'\r' ∷ b'\n' ∷ rest else u8 c ∷ rest

module _ {H : Type 0} (io : Ports H) (sent : H → Bytes) (busy : H → ℕ) (limit : ℕ)
    (law : IsUart io sent busy limit) where
  await-idle :
      (fuel : ℕ) (h : H)
      → busy h < fuel
      → (out : H) × (await io fuel 0x20 h ≡ ok out) × (busy out ≡ 0) × (sent out ≡ sent h)
  unfolding await
  await-idle zero h enough = absurd (omega arith)
  await-idle (suc fuel) h enough =
      let next = (inb io h linestat).0 in
      let passes = law.passes h in
      elim (Bool-cases (busy h == 0)) [
        | inl free ↦
            let z : busy h ≡ 0 = ground arith in
            let nz = law.idle h z in
            let t : (bit_and (inb io h linestat).1 0x20 == 0) ≡ false = ground arith in
            (next, rw t refl, omega arith, law.keeps h)
        | inr taken ↦
            let nz : busy h ≢ 0 = λ e. absurd (ground arith) in
            let t : (bit_and (inb io h linestat).1 0x20 == 0) ≡ true = rw (law.waits h nz) refl in
            let pos : 0 < busy h = ground arith in
            let (out, ret, idle, same) = await-idle fuel next (omega arith) in
            (out, rw t ret, idle, same ∙ law.keeps h)
      ]

  transmit_lem :
      (fuel : ℕ) (h : H) (c : ℕ)
      → limit ≤ fuel
      → (out : H) × (transmit io fuel h c ≡ ok out) × (sent out ≡ sent h ++ (u8 c ∷ []))
  unfolding transmit
  transmit_lem fuel h c enough =
      let below = law.bound h in
      let (h', ret, idle, same) = await-idle fuel h (omega arith) in
      (
        outb io h' serial_port c,
        rw ret refl,
        law.sends h' c idle ∙ ap (λ (x : Bytes). x ++ (u8 c ∷ [])) same,
      )

  -- The port is on, and `text` goes out.
  abbrev pub Outputs : Serial H → Bytes → Run (Serial H) → Type 0
  Outputs s text r =
      (out : Serial H) × (r ≡ ok out)
      × (out.serial_enabled ≡ s.serial_enabled)
      × (sent out.hardware ≡ sent s.hardware ++ text)

  serial_send-Outputs :
      (fuel : ℕ) (s : Serial H) (c : ℕ)
      → limit ≤ fuel
      → s.serial_enabled ≢ 0
      → Outputs s (on_line (c ∷ [])) (serial_send io fuel s c)
  unfolding serial_send
  serial_send-Outputs fuel s c enough on =
      let t : (s.serial_enabled == 0) ≡ false = ground arith in
      elim (Bool-cases (c == b'\n')) [
        | inl newline ↦
            let (h1, r1, e1) = transmit_lem fuel s.hardware b'\r' enough in
            let (h2, r2, e2) = transmit_lem fuel h1 c enough in
            let is : c ≡ b'\n' = ground arith in
            rw (t, newline)
              (
                record s { hardware = h2 },
                rw (r1, r2) refl,
                refl,
                e2
                    ∙ ap (λ (x : Bytes). x ++ (u8 c ∷ [])) e1
                    ∙ append_assoc (sent s.hardware) (b'\r' ∷ []) (u8 c ∷ [])
                    ∙ ap (λ (x : ℕ). sent s.hardware ++ (b'\r' ∷ u8 x ∷ [])) is,
              )
        | inr other ↦
            let (h2, r2, e2) = transmit_lem fuel s.hardware c enough in
            rw (t, other) (record s { hardware = h2 }, rw r2 refl, refl, e2)
      ]

  on_line-cons : (c : ℕ) (s : Bytes) → on_line (c ∷ s) ≡ on_line (c ∷ []) ++ on_line s
  on_line-cons c s = elim (Bool-cases (c == b'\n')) [
    | inl newline ↦ rw newline refl
    | inr other ↦ rw other refl
  ]

  send_all-Outputs :
      (fuel : ℕ) (s : Serial H) (buf : Bytes)
      → limit ≤ fuel
      → s.serial_enabled ≢ 0
      → Outputs s (on_line buf) (send_all io fuel s buf)
  unfolding send_all
  send_all-Outputs fuel s [] enough on = (s, refl, refl, sym (append-nil (sent s.hardware)))
  send_all-Outputs fuel s (c ∷ buf) enough on =
      let (s1, r1, on1, e1) = serial_send-Outputs fuel s c enough on in
      let (s2, r2, on2, e2) = send_all-Outputs fuel s1 buf enough (λ z. on (sym on1 ∙ z)) in
      (
        s2,
        rw r1 r2,
        on2 ∙ on1,
        e2
            ∙ ap (λ (x : Bytes). x ++ on_line buf) e1
            ∙ append_assoc (sent s.hardware) (on_line (c ∷ [])) (on_line buf)
            ∙ ap (λ (x : Bytes). sent s.hardware ++ x) (sym (on_line-cons c buf)),
      )

  print-send_all :
      (fuel : ℕ) (s : Serial H) (text : Bytes) (out : Serial H)
      → send_all io fuel s text ≡ ok out
      → serial_print io fuel s text ≡ ok (out, length text)
  unfolding serial_print send_all
  print-send_all fuel s [] out ret = ap (λ (r : Run (Serial H)). r >>= λ o. ok (o, 0)) ret
  print-send_all fuel s (c ∷ rest) out ret =
      ap (λ (r : Run (Serial H)). r >>= λ o. ok (o, length (c ∷ rest))) ret

  send_all-off :
      (fuel : ℕ) (s : Serial H) (text : Bytes)
      → s.serial_enabled ≡ 0
      → send_all io fuel s text ≡ ok s
  unfolding send_all serial_send
  send_all-off fuel s [] off = refl
  send_all-off fuel s (c ∷ text) off =
      let t : (s.serial_enabled == 0) ≡ true = ground arith in rw t (send_all-off fuel s text off)

  -- With the port on and polls enough for a byte, `serial_write` and `serial_print` return, the result is
  -- the length of the text, and the text has gone out behind what was sent before, a carriage return
  -- before each newline. With the port off nothing goes out, and the result is the same.
  pub serial_write-serial_print :
      (fuel : ℕ) (s : Serial H) (text : Bytes)
      → limit ≤ fuel
      → (s.serial_enabled ≢ 0
          → (out : Serial H) × (serial_write io fuel s text ≡ ok (out, length text))
            × (serial_print io fuel s text ≡ ok (out, length text))
            × (sent out.hardware ≡ sent s.hardware ++ on_line text))
        × (s.serial_enabled ≡ 0
            → (serial_write io fuel s text ≡ ok (s, length text))
              × (serial_print io fuel s text ≡ ok (s, length text)))
  unfolding serial_write serial_print
  serial_write-serial_print fuel s text enough = (
    λ on.
        (let (out, ret, _, e) = send_all-Outputs fuel s text enough on in
          (out, rw ret refl, print-send_all fuel s text out ret, e)),
    λ off.
        (let ret = send_all-off fuel s text off in (rw ret refl, print-send_all fuel s text s ret)),
  )
