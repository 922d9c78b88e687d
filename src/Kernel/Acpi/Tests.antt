-- ===== src/Kernel/Acpi/Tests.antt =====
-- Runs of kernel/acpi.c, and its theorem at a small zone.
use foos.Prelude.{ℕ, ◌≡◌, refl, [], ◌∷◌, Option, some, true, false}
use foos.Machine.{ok}
use foos.Libc.Str.{Bytes, memmem, memmem_loop, same_bytes}
use foos.Kernel.Acpi.{acpi_search_s5, search_loop, checksum_valid, checksum_loop}
use foos.Kernel.Acpi.Search.{Searches, acpi_search_s5-Searches}

-- A name without its mark, and then a package.
abbrev zone : Bytes
zone = b'_' ∷ b'S' ∷ b'5' ∷ b'_' ∷ 8 ∷ b'_' ∷ b'S' ∷ b'5' ∷ b'_' ∷ 0x12 ∷ 6 ∷ 4 ∷ 10 ∷ 5 ∷ []

zone-search : acpi_search_s5 zone ≡ ok (some 5)
unfolding acpi_search_s5 search_loop memmem memmem_loop same_bytes
zone-search = refl

-- The same bytes pass or fail with what the variable holds at the start.
checksum_start_0 : checksum_valid 0 (0xF0 ∷ 0x10 ∷ []) ≡ true
unfolding checksum_valid checksum_loop
checksum_start_0 = refl

checksum_start_1 : checksum_valid 1 (0xF0 ∷ 0x10 ∷ []) ≡ false
unfolding checksum_valid checksum_loop
checksum_start_1 = refl

acpi_search_s5-Searches_example : (r : Option ℕ) × (acpi_search_s5 zone ≡ ok r) × Searches zone r
acpi_search_s5-Searches_example = acpi_search_s5-Searches zone
