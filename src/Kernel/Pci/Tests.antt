-- ===== src/Kernel/Pci/Tests.antt =====
-- The theorem on kernel/dev/pci.c at a configuration space of its addresses.
use foos.Prelude.{ℕ, ◌+◌, ◌*◌, ◌^◌, ◌≡◌, arith}
use foos.Machine.{u32}
use foos.Kernel.Ports.{Ports}
use foos.Kernel.Pci.{pci_addr, pci_read, pci_device_id, pci_vendor_id}
use foos.Kernel.Pci.Address.{IsConfigured, pci_read-pci_addr}

-- The hardware is the address that was put in last.
abbrev io : Ports ℕ
io = record {
  read_byte = λ h port. (h, 0);
  write_byte = λ h port v. h;
  read_word = λ h port. (h, 0);
  write_word = λ h port v. h;
  read_long = λ h port. (h, u32 (h + 7));
  write_long = λ h port v. v;
}

abbrev config : ℕ → ℕ
config addr = u32 (addr + 7)

io-IsConfigured : IsConfigured io config
io-IsConfigured = record { reads = λ h addr lt. omega arith; word = λ addr. omega arith }

pci_read-pci_addr_example :
    ((pci_read io 0 (pci_addr 1 31 7) 14).1
      ≡ config (2 ^ 31 + (1 * 2 ^ 16 + 31 * 2 ^ 11 + 7 * 2 ^ 8) + 12))
    × ((pci_device_id io 0 (pci_addr 1 31 7)).1 * 2 ^ 16 + (pci_vendor_id io 0 (pci_addr 1 31 7)).1
        ≡ config (2 ^ 31 + (1 * 2 ^ 16 + 31 * 2 ^ 11 + 7 * 2 ^ 8)))
pci_read-pci_addr_example =
    pci_read-pci_addr io config io-IsConfigured 0 1 31 7 14 (omega arith) (omega arith)
      (omega arith) (omega arith)
