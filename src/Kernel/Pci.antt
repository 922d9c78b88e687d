-- ===== src/Kernel/Pci.antt =====
-- The PCI configuration space of kernel/dev/pci.c.
pub mod Address
mod Tests
use foos.Prelude.{ℕ, ◌+◌, ◌*◌, ◌/◌, ◌^◌, bit_and, bit_or}
use foos.Machine.{u8, u16, u32}
use foos.Kernel.Ports.{Ports, inl, outl}

-- `bus`, `dev` and `func` are bytes.
unfoldable pub pci_addr : ℕ → ℕ → ℕ → ℕ
pci_addr bus dev func =
    bit_or (bit_or (bit_or (u32 (bus * 2 ^ 16)) (u32 (dev * 2 ^ 11))) (u32 (func * 2 ^ 8)))
      0x8000_0000

module _ {H : Type 0} (io : Ports H) where
  unfoldable pub pci_read : H → ℕ → ℕ → H × ℕ
  pci_read h addr off = inl io (outl io h 0xCF8 (bit_or addr (bit_and off 0xFC))) 0xCFC

  unfoldable pub pci_headertype : H → ℕ → H × ℕ
  pci_headertype h addr = let (h, v) = pci_read h addr 0xC in (h, u8 (bit_and (v / 2 ^ 16) 0xFF))

  unfoldable pub pci_device_id : H → ℕ → H × ℕ
  pci_device_id h addr = let (h, v) = pci_read h addr 0 in (h, u16 (v / 2 ^ 16))

  unfoldable pub pci_vendor_id : H → ℕ → H × ℕ
  pci_vendor_id h addr = let (h, v) = pci_read h addr 0 in (h, u16 (bit_and v 0xFFFF))
