-- ===== src/Kernel/Pci/Address.antt =====
-- The addresses that kernel/dev/pci.c makes, and what it reads there.
use foos.Prelude.{
  ℕ, ◌+◌, ◌-◌, ◌*◌, ◌/◌, ◌%◌, ◌^◌, ◌<◌, ◌≤◌, ◌≡◌, refl, sym, ap, ap₂, ◌∙◌, arith, zero, suc,
  bit_and, bit_or,
}
use foos.Prelude.Bits.{bit_or_step, bit_or_fields, bit_and-ones, bit_and-high}
use foos.Machine.{u16, u32}
use foos.Kernel.Ports.{Ports, inl, outl}
use foos.Kernel.Pci.{pci_addr, pci_read, pci_device_id, pci_vendor_id}

bit_or_comm_fuel : (n a b : ℕ) → a ≤ n → b ≤ n → bit_or a b ≡ bit_or b a
bit_or_comm_fuel zero a b ha hb =
    let ea : a ≡ 0 = omega arith in let eb : b ≡ 0 = omega arith in rw (ea, eb) refl
bit_or_comm_fuel (suc n) a b ha hb = omega (
  arith,
  bit_or_step a b,
  bit_or_step b a,
  bit_or_comm_fuel n (a / 2) (b / 2) (omega arith) (omega arith),
)

bit_or_comm : (a b : ℕ) → bit_or a b ≡ bit_or b a
bit_or_comm a b = bit_or_comm_fuel (a + b) a b (omega arith) (omega arith)

-- For a device number below 32 and a function number below 8 the fields of the address do not overlap.
pci_addr_fields :
    (bus dev func : ℕ)
    → bus < 256
    → dev < 32
    → func < 8
    → pci_addr bus dev func ≡ 2 ^ 31 + (bus * 2 ^ 16 + dev * 2 ^ 11 + func * 2 ^ 8)
unfolding pci_addr
pci_addr_fields bus dev func b d f =
    let e1 : u32 (bus * 2 ^ 16) ≡ bus * 2 ^ 16 = omega arith in
    let e2 : u32 (dev * 2 ^ 11) ≡ dev * 2 ^ 11 = omega arith in
    let e3 : u32 (func * 2 ^ 8) ≡ func * 2 ^ 8 = omega arith in
    let s1 = bit_or_fields 16 bus (dev * 2 ^ 11) (omega arith) in
    let q : bus * 2 ^ 16 + dev * 2 ^ 11 ≡ (bus * 2 ^ 5 + dev) * 2 ^ 11 = omega arith in
    let s2 = bit_or_fields 11 (bus * 2 ^ 5 + dev) (func * 2 ^ 8) (omega arith) in
    let rest = bus * 2 ^ 16 + dev * 2 ^ 11 + func * 2 ^ 8 in
    let s3 = bit_or_fields 31 1 rest (omega arith) in
    ap₂ (λ (x y : ℕ). bit_or (bit_or (bit_or x y) (u32 (func * 2 ^ 8))) 0x8000_0000) e1 e2
    ∙ ap₂ (λ (x y : ℕ). bit_or (bit_or x y) 0x8000_0000) (s1 ∙ q) e3
    ∙ ap (λ (x : ℕ). bit_or x 0x8000_0000) (s2 ∙ omega arith)
    ∙ bit_or_comm rest 0x8000_0000
    ∙ s3

-- The register `off` of the device at `addr`, whose low byte is clear: `off` is rounded down to a
-- multiple of four, and put in.
pci_register :
    (q off : ℕ) → off < 256 → bit_or (q * 2 ^ 8) (bit_and off 0xFC) ≡ q * 2 ^ 8 + (off - off % 4)
pci_register q off lt =
    bit_or_fields 8 q (bit_and off 0xFC) (omega (arith, bit_and-high 8 2 off (omega arith) lt))
    ∙ omega (arith, bit_and-high 8 2 off (omega arith) lt)

-- What kernel/dev/pci.c relies on: once an address has been put into one port, the other one reads the
-- register there.
pub record IsConfigured {H : Type 0} (io : Ports H) (config : ℕ → ℕ) : Type 0 where
  pub reads :
      (h : H) (addr : ℕ) → addr < 2 ^ 32 → (inl io (outl io h 0xCF8 addr) 0xCFC).1 ≡ config addr
  pub word : (addr : ℕ) → config addr < 2 ^ 32

module _ {H : Type 0} (io : Ports H) (config : ℕ → ℕ) (law : IsConfigured io config) where
  -- For a bus, a device below 32 and a function below 8, `pci_addr` and `pci_read` select the register
  -- of that function that holds the byte `off`, the offset rounded down to a multiple of four, with the
  -- enable bit, the bus, the device and the function each in its field. `pci_device_id` and
  -- `pci_vendor_id` are the halves of its register 0.
  pub pci_read-pci_addr :
      (h : H) (bus dev func off : ℕ)
      → bus < 256
      → dev < 32
      → func < 8
      → off < 256
      → let addr = pci_addr bus dev func in
        let base = 2 ^ 31 + (bus * 2 ^ 16 + dev * 2 ^ 11 + func * 2 ^ 8) in
        ((pci_read io h addr off).1 ≡ config (base + (off - off % 4)))
        × ((pci_device_id io h addr).1 * 2 ^ 16 + (pci_vendor_id io h addr).1 ≡ config base)
  unfolding pci_device_id pci_vendor_id pci_read
  pci_read-pci_addr h bus dev func off b d f o =
      let base = 2 ^ 31 + (bus * 2 ^ 16 + dev * 2 ^ 11 + func * 2 ^ 8) in
      let q = 2 ^ 23 + (bus * 2 ^ 8 + dev * 2 ^ 3 + func) in
      let fields = pci_addr_fields bus dev func b d f in
      let whole : base ≡ q * 2 ^ 8 = omega arith in
      let at : (n : ℕ)
          → n < 256
          → bit_or (pci_addr bus dev func) (bit_and n 0xFC) ≡ base + (n - n % 4) =
        λ n lt.
          ap (λ (a : ℕ). bit_or a (bit_and n 0xFC)) (fields ∙ whole)
          ∙ pci_register q n lt
          ∙ ap (λ (a : ℕ). a + (n - n % 4)) (sym whole) in
      let read : (n : ℕ)
          → n < 256
          → (pci_read io h (pci_addr bus dev func) n).1 ≡ config (base + (n - n % 4)) =
        λ n lt.
          ap (λ (a : ℕ). (inl io (outl io h 0xCF8 a) 0xCFC).1) (at n lt)
          ∙ law.reads h (base + (n - n % 4)) (omega arith) in
      let v = (pci_read io h (pci_addr bus dev func) 0).1 in
      let at_zero : v ≡ config base = read 0 (omega arith) ∙ ap config (omega arith) in
      (
        read off o,
        omega (arith, at_zero, law.word base, bit_and-ones 16 v, ap u16 (bit_and-ones 16 v)),
      )
