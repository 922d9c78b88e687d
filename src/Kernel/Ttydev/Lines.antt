-- ===== src/Kernel/Ttydev/Lines.antt =====
-- A line that is read through the device table from the terminal of kernel/dev/tty.c.
use foos.Prelude.{
  ℕ, ◌<◌, ◌≡◌, ◌≢◌, refl, ap, ◌∙◌, arith, false, not, ◌&&◌, List, [], ◌∷◌, ◌++◌, All, length, ◌==◌,
  some, ltb, get_or, set, Bool-cases, inl, inr, Option, ◌+◌, ◌^◌,
}
use foos.Machine.{Run, ok, ◌>>=◌, u32, null}
use foos.Libc.Str.{Bytes}
use foos.Kernel.Kmalloc.{Kmem, kmalloc}
use foos.Kernel.Ports.{Ports}
use foos.Kernel.Pic.{pic1}
use foos.Kernel.Pic.Controller.{Chip, ready, Is8259}
use foos.Kernel.Interrupt.{Handler}
use foos.Kernel.Device.{Drivers, Driver, Devices, dev_open, dev_read}
use foos.Kernel.Keyboard.{Input, tty_read}
use foos.Kernel.Keyboard.Editor.{IsKey}
use foos.Kernel.Keyboard.Reading.{respond_all, tty_read-respond_all}
use foos.Kernel.Ttydev.{
  Teletype, read_from, ttydev_read, ttydev, line_read, ttysiz, ttydev_open, gets, input_at, leave,
}
use foos.Kernel.Ttydev.Opening.{IsFresh, IsApart, ttydev_open_first}

-- The line that the codes edit, from an empty one, with no shift and no capital lock.
abbrev pub typed : List ℕ → Bytes
typed codes = (respond_all (record { shift = 0; caps = 0; text = [] }) codes).text

module _ {H F : Type 0} where
  read_from_eq :
      (w : Teletype H F) (p : ℕ) (r : Input × Bytes × List ℕ)
      → p ≢ null
      → tty_read (input_at w p) w.codes ≡ ok r
      → read_from w p ≡ line_read (record w { current_tty = p }) p r
  unfolding read_from
  read_from_eq w p r nz reads =
      let t : (p == 0) ≡ false = ground arith in
      let w1 = record w { current_tty = p } in
      rw (t, t) (ap (λ (m : Run (Input × Bytes × List ℕ)). m >>= line_read w1 p) reads)

  read_from-typed :
      (w : Teletype H F) (codes rest : List ℕ)
      → IsFresh w
      → w.codes ≡ codes ++ (0x1C ∷ rest)
      → length codes < 511
      → All IsKey codes
      → (w' : Teletype H F) × (read_from w w.dev_data ≡ ok (w', typed codes, length (typed codes)))
        × (w'.codes ≡ rest)
  read_from-typed w codes rest fresh come few keys =
      let p = w.dev_data in
      let (i, line) =
        tty_read-respond_all (input_at w p) codes rest fresh.size fresh.no_line few keys in
      (
        record (leave (record w { current_tty = p }) p i) { codes = rest },
        read_from_eq w p (i, typed codes, rest) fresh.there
            (ap (tty_read (input_at w p)) come ∙ line ∙ λ j. ok (
              i,
              (respond_all (record { shift = fresh.shift j; caps = fresh.caps j; text = [] })
                  codes).text,
              rest,
            )),
        refl,
      )

  -- A fresh terminal: `ttydev_read`, with any length, and `gets` both return the line that the codes
  -- before ENTER edit, if they are fewer than 511: keys of the tables and releases of any.
  pub ttydev_read-gets :
      (w : Teletype H F) (off len : ℕ) (codes rest : List ℕ)
      → IsFresh w
      → w.codes ≡ codes ++ (0x1C ∷ rest)
      → length codes < 511
      → All IsKey codes
      → (w' : Teletype H F) × (ttydev_read w off len ≡ ok (w', typed codes, length (typed codes)))
        × (gets w ≡ ok (w', typed codes))
        × (w'.codes ≡ rest)
  unfolding ttydev_read gets
  ttydev_read-gets w off len codes rest fresh come few keys =
      let (w', reads, left) = read_from-typed w codes rest fresh come few keys in
      let line = typed codes in
      (
        w',
        reads,
        ap (λ (p : ℕ). read_from w p >>= (λ r. ok (r.0, r.1))) fresh.last_used
            ∙ ap (λ (m : Run (Teletype H F × Bytes × ℕ)). m >>= (λ r. ok (r.0, r.1))) reads,
        left,
      )

module _ {H F : Type 0} (d : Drivers (Teletype H F)) (io : Ports H) (irq : F) (fuel : ℕ) where
  dev_open_first :
      (others : List (Driver (Teletype H F))) (s : Devices (Teletype H F)) (w' : Teletype H F)
      (flags ret : ℕ)
      → d.table ≡ ttydev io irq fuel ∷ others
      → ttydev_open io irq fuel s.world flags ≡ ok (w', ret)
      → dev_open d s 0 flags ≡ ok (record s { world = w'; offsets = set s.offsets 0 0 }, ret)
  unfolding dev_open
  dev_open_first others s w' flags ret first opens = rw (first, opens) refl

  dev_read_first :
      (others : List (Driver (Teletype H F))) (s : Devices (Teletype H F)) (w' : Teletype H F)
      (buf : Bytes) (len ret : ℕ)
      → d.table ≡ ttydev io irq fuel ∷ others
      → ttydev_read s.world (get_or s.offsets 0 0) len ≡ ok (w', buf, ret)
      → (s' : Devices (Teletype H F)) × (dev_read d s 0 len ≡ ok (s', buf, ret)) × (s'.world ≡ w')
  unfolding dev_read
  dev_read_first others s w' buf len ret first reads =
      let s1 = record s { world = w' } in
      let positive = not (ret == 0) && ltb ret (2 ^ 31) in
      let moved = record s1 { offsets = set s1.offsets 0 (u32 (get_or s1.offsets 0 0 + ret)) } in
      elim (Bool-cases positive) [
        | inl e ↦ (moved, rw (first, reads, e) refl, refl)
        | inr e ↦ (s1, rw (first, reads, e) refl, refl)
      ]

  -- With the terminal as the first device: the first `dev_open` of it, with the heap block that it asks
  -- for, returns 0, and `dev_read` behind it the line that the codes before ENTER edit, if they are
  -- fewer than 511: keys of the tables and releases of any. The codes behind ENTER are left.
  pub dev_open-dev_read :
      (chip : H → ℕ → Chip) (others : List (Driver (Teletype H F))) (s : Devices (Teletype H F))
      (flags p len : ℕ) (k : Kmem) (handlers : List (Option (Handler F))) (codes rest : List ℕ)
      → Is8259 io chip
      → IsApart io chip
      → d.table ≡ ttydev io irq fuel ∷ others
      → s.world.dev_data ≡ null
      → s.world.init ≡ false
      → s.world.idt.handlers ≡ some handlers
      → (chip s.world.idt.hardware pic1).stage ≡ ready
      → kmalloc fuel s.world.idt.kmem ttysiz ≡ ok (k, p)
      → p ≢ null
      → s.world.codes ≡ codes ++ (0x1C ∷ rest)
      → length codes < 511
      → All IsKey codes
      → (s1 : Devices (Teletype H F)) × (s2 : Devices (Teletype H F)) × (dev_open d s 0 flags
          ≡ ok (s1, 0))
        × (dev_read d s1 0 len ≡ ok (s2, typed codes, length (typed codes)))
        × (s2.world.codes ≡ rest)
  dev_open-dev_read chip others s flags p len k handlers codes rest law apart table closed first
        hook idle given nz come few keys =
      let (w1, opens, fresh, _, _, _, same) =
        ttydev_open_first io irq chip law apart fuel s.world flags p k handlers closed first hook
          idle given nz in
      let s1 = record s { world = w1; offsets = set s.offsets 0 0 } in
      let (w2, reads, _, left) =
        ttydev_read-gets w1 (get_or s1.offsets 0 0) len codes rest fresh (same ∙ come) few keys in
      let (s2, returns, at) =
        dev_read_first others s1 w2 (typed codes) len (length (typed codes)) table reads in
      (
        s1,
        s2,
        dev_open_first others s w1 flags 0 table opens,
        returns,
        ap (λ (w : Teletype H F). w.codes) at ∙ left,
      )
