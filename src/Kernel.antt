-- ===== src/Kernel.antt =====
-- kernel/*.c and kernel/dev/*.c.
pub mod Kmalloc
pub mod Pmem
pub mod Vmem
pub mod Device
pub mod Ramdisk
pub mod Tty
pub mod Ttydev
pub mod Ports
pub mod Pic
pub mod Interrupt
pub mod Pit
pub mod Serial
pub mod Pci
pub mod Acpi
pub mod Keyboard
pub mod Shell
