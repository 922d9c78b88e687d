-- ===== src/Kernel/Acpi.antt =====
-- kernel/acpi.c, on the bytes of memory and the port instructions. What it writes to the terminal and to
-- the serial port is left out. `irqs` is the number of timer interrupts that come in during a delay.
pub mod Search
mod Tests
use foos.Prelude.{
  ℕ, zero, suc, ◌+◌, ◌-◌, ◌*◌, ◌/◌, ◌^◌, Bool, true, false, ◌&&◌, ◌||◌, not, List, [], ◌∷◌, ◌++◌,
  Option, none, some, if◌then◌else◌, ◌==◌, ltb, length, get_or, drop, bit_and, bit_or,
}
use foos.Machine.{Run, ok, fault, out_of_fuel, ◌>>=◌, u8, u16, u32, sub32, null}
use foos.Libc.Str.{Bytes, same_bytes, memmem}
use foos.Kernel.Ports.{Ports, inw, outb, outw}
use foos.Kernel.Pit.{Pit, pit_delay}
use foos.Kernel.Ramdisk.{bytes_at}
use foos.Libfs.Ramfs.{u32_at}

-- `checksum_valid`. The variable `sum` is not initialized: `sum` is what it happens to hold.
unfoldable pub checksum_loop : ℕ → Bytes → ℕ
checksum_loop sum [] = sum
checksum_loop sum (b ∷ bytes) = checksum_loop (u8 (sum + b)) bytes

unfoldable pub checksum_valid : ℕ → Bytes → Bool
checksum_valid sum bytes = checksum_loop sum bytes == 0

abbrev pub fadt_signature : Bytes
fadt_signature = b'F' ∷ b'A' ∷ b'C' ∷ b'P' ∷ []

-- The second loop of `find_fadt`: `left` more tables from the table `i` on.
unfoldable pub find_loop : (ℕ → ℕ) → ℕ → ℕ → ℕ → ℕ
find_loop memory rsdt i zero = null
find_loop memory rsdt i (suc left) =
    let sdt = u32_at memory (u32 (rsdt + 36 + i * 4)) in
    let rest = find_loop memory rsdt (suc i) left in
    if same_bytes (bytes_at memory sdt 4) fadt_signature then sdt else rest

unfoldable pub find_fadt : (ℕ → ℕ) → ℕ → ℕ
find_fadt memory rsdt = find_loop memory rsdt 0 (sub32 (u32_at memory (u32 (rsdt + 4))) 36 / 4)

abbrev pub s5_name : Bytes
s5_name = b'_' ∷ b'S' ∷ b'5' ∷ b'_' ∷ []

-- The test of `acpi_search_s5`, for the name at the index `pos` of what is left of the AML zone.
abbrev pub is_s5 : Bytes → ℕ → Bool
is_s5 aml pos =
    not (pos == 0)
    && (ltb (pos + 4) (length aml)
        && ((get_or aml (pos - 1) 0 == 0x08
              || (not (pos == 1)
                  && (get_or aml (pos - 1) 0 == b'\\' && get_or aml (pos - 2) 0 == 0x08)))
            && get_or aml (pos + 4) 0 == 0x12))

-- The loop of `acpi_search_s5`, one unit of fuel a round: `from` is the index of `aml` in the zone. The
-- result is an index of the zone.
abbrev pub next_s5 : ℕ → Bytes → (Bytes → ℕ → Run (Option ℕ)) → Option Bytes → Run (Option ℕ)
next_s5 from aml more none = ok none
next_s5 from aml more (some s5) =
    let pos = length aml - length s5 in
    let rest = more (drop 4 s5) (from + pos + 4) in
    if is_s5 aml pos then ok (some (from + pos)) else rest

unfoldable pub search_loop : ℕ → Bytes → ℕ → Run (Option ℕ)
search_loop zero aml from = out_of_fuel
search_loop (suc fuel) aml from =
    next_s5 from aml (λ aml' from'. search_loop fuel aml' from') (memmem aml s5_name)

-- Each round goes on behind the four bytes of a name.
unfoldable pub acpi_search_s5 : Bytes → Run (Option ℕ)
acpi_search_s5 aml = search_loop (suc (length aml)) aml 0

-- The global variables, with the hardware and the timer.
pub record Acpi (H : Type 0) : Type 0 where
  pub hardware : H
  pub pit : Pit
  pub no_shutdown : Bool
  pub slp_typa : ℕ
  pub slp_typb : ℕ
  pub pm1a_cnt : ℕ
  pub pm1b_cnt : ℕ

abbrev pub slp_en : ℕ
slp_en = 2 ^ 13

module _ {H : Type 0} where
  -- What `acpi_shutdown_init` takes from the package at the index that was found, if one was.
  abbrev pub take_types : (ℕ → ℕ) → Acpi H → ℕ → Option ℕ → Acpi H × Bool
  take_types memory s aml none = (s, true)
  take_types memory s aml (some s5) = (
    record s {
      slp_typa = memory (u32 (aml + s5 + 8)) * 2 ^ 10;
      slp_typb = memory (u32 (aml + s5 + 10)) * 2 ^ 10;
    },
    false,
  )

  -- The length of the table counts its header, and the zone starts behind that.
  unfoldable pub acpi_shutdown_init : (ℕ → ℕ) → Acpi H → ℕ → Run (Acpi H × Bool)
  acpi_shutdown_init memory s fadt = do
    let dsdt = u32_at memory (u32 (fadt + 40))
    let aml = u32 (dsdt + 36)
    found ← acpi_search_s5 (bytes_at memory aml (u32_at memory (u32 (dsdt + 4))))
    ok (take_types memory s aml found)

module _ {H : Type 0} (io : Ports H) (irqs : ℕ) where
  -- The loop of `acpi_enable`, with `left` rounds to go; whether the mode came on.
  unfoldable pub enable_loop : Acpi H → ℕ → ℕ → Run (Acpi H × Bool)
  enable_loop s port zero = ok (s, false)
  enable_loop s port (suc left) =
      let (h, status) = inw io s.hardware port in
      let s1 = record s { hardware = h } in
      let rest = (do
        (pit, _) ← pit_delay s.pit 10 irqs
        enable_loop (record s1 { pit = pit }) port left) in
      if bit_and status 1 == 0 then rest else ok (s1, true)

  -- `PM1a_CNT` and `PM1b_CNT` are set in any case; whether there was an error.
  unfoldable pub acpi_enable : (ℕ → ℕ) → Acpi H → ℕ → Run (Acpi H × Bool)
  acpi_enable memory s fadt =
      let port = u32_at memory (u32 (fadt + 64)) in
      let smi_cmdport = u32_at memory (u32 (fadt + 48)) in
      let command = memory (u32 (fadt + 52)) in
      let (h, status) = inw io s.hardware port in
      let s1 = record s {
        hardware = h;
        pm1a_cnt = port;
        pm1b_cnt = u32_at memory (u32 (fadt + 68));
      } in
      if not (bit_and status 1 == 0)
      then ok (s1, false)
      else if not (smi_cmdport == 0) && not (command == 0)
      then (do
        (s2, on) ← enable_loop (record s1 { hardware = outb io h smi_cmdport command }) port 300
        ok (s2, not on))
      else ok (s1, false)

  -- `sum` and `sum'` are what the variable `sum` holds at the start of the two checks. The result is
  -- whether there was an error.
  unfoldable pub acpi_init : (ℕ → ℕ) → ℕ → ℕ → Acpi H → ℕ → Run (Acpi H × Bool)
  acpi_init memory sum sum' s rsdp =
      let rsdt = u32_at memory (u32 (rsdp + 16)) in
      let fadt = find_fadt memory rsdt in
      if not (checksum_valid sum (bytes_at memory rsdp 20))
      then ok (s, true)
      else if not (checksum_valid sum' (bytes_at memory rsdt (u32_at memory (u32 (rsdt + 4)))))
      then ok (s, true)
      else if fadt == null
      then ok (s, true)
      else do
        (s1, bad) ← acpi_enable memory s fadt
        if bad then ok (s1, true) else do
          (s2, missing) ← acpi_shutdown_init memory s1 fadt
          ok (record s2 { no_shutdown = missing }, false)

-- The result is whether there was an error.
unfoldable pub acpi_shutdown : {H : Type 0} → Ports H → Acpi H → Acpi H × Bool
acpi_shutdown io s =
    if s.no_shutdown
    then (s, true)
    else (let h1 = outw io s.hardware s.pm1a_cnt (bit_or s.slp_typa slp_en) in
        let h2 = if s.pm1b_cnt == 0 then h1 else outw io h1 s.pm1b_cnt (bit_or s.slp_typb slp_en) in
        (record s { hardware = h2 }, false))
