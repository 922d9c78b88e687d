-- ===== src/Lib.antt =====
-- FOOS, a small 32-bit operating system: a model of its C code, with the theorems that make the
-- parts correct.
--
-- The parts. kernel/kmalloc.c is the heap allocator, a doubly linked list of blocks from 0x400000 on;
-- kernel/pmem.c keeps one bit for each page frame and maps page table entries; kernel/vmem.c finds
-- these, in tables that it takes from the heap. kernel/dev/device.c is a table of devices, which
-- dispatches to the drivers: kernel/dev/ramdisk.c, whose open takes its struct from the heap, and
-- kernel/dev/tty.c, which writes on the screen and edits a line from the interrupts of the keyboard.
-- libfs/ramfs.c is the file system on the ram disk, with the device files of libfs/devfs.c in one of
-- its directories; libfs/wrap.c dispatches to both and walks a path, which it splits with strtok.
-- kernel/interrupt.c fills the table of interrupts, remaps them with kernel/dev/pic.c and dispatches
-- them to handlers, one of which is the timer of kernel/dev/pit.c. kernel/acpi.c looks for the way to
-- switch the machine off, and waits with that timer. kernel/shell.c reads lines from the terminal and
-- answers them, with the file systems, the heap and the clock. libc/string.c, libc/conv.c and libc/printf.c
-- serve all of them: printf uses the number conversions, and these use strrev.
--
-- The files.
--   Prelude            the names of the libraries, Boolean tests, lists and bits over ℕ
--   Machine            include/inttypes.h, include/errno.h, include/foos/system.h: 32-bit words with
--                      their wrap-around, error numbers, and Run, the outcome of a call: it returns,
--                      faults (a null pointer, an index out of an array), hangs in a failed assert
--                      or an endless wait, or runs out of the fuel of the model
--   Libc/Str           libc/string.c: a text is the list of its characters without the terminator
--   Libc/Strtok        libc/strtok.c: the static pointer is state that is passed on; Fields compares
--                      successive calls with the fields between the delimiters
--   Libc/Conv          libc/conv.c: atoi, itoa, utoa, itoh, toupper, tolower
--   Libc/Output        libc/output.c over the device layer
--   Libc/Printf        libc/printf.c: vsprintf_loop is the loop over the format, convert its switch;
--                      Pieces describes a format as a row of pieces
--   Libfs/Inode        include/foos/fs.h: an inode, whose function pointers are the names of the
--                      functions that the sources assign to them
--   Libfs/Devfs        libfs/devfs.c
--   Libfs/Ramfs        libfs/ramfs.c: ramfs_init is ramfs_fill and files_loop, the loop over the
--                      headers. Image says which image the directory was made from, Directory and
--                      Contents what a search and a read find.
--   Libfs/Wrap         libfs/wrap.c: fs_lookup is lookup_copy and lookup_loop; Lookup compares it with
--                      a walk along the fields of the path
--   Kernel/Kmalloc     kernel/kmalloc.c: merge, split, lookup, kmalloca, kmalloc and kfree keep
--                      their names; absorb, set_prev, carve, next_place, append_block and extend
--                      are runs of statements in merge, split and lookup. A heap is a map from
--                      addresses to the four words of a block header. Kmalloc/Cells describes the
--                      list as a row of cells and an allocation as first fit on it;
--                      Alloc, Free, Join and Misuse say what kmalloca and kfree do.
--   Kernel/Pmem        kernel/pmem.c: frame_set is a list of words; Free is the search for a free
--                      frame, Map the page table entries.
--   Kernel/Vmem        vmem_get of kernel/vmem.c, and pmem_mapaddr of kernel/pmem.c, on a map of words
--   Kernel/Device      kernel/dev/device.c over drivers given as handlers: dev_read, dev_write,
--                      dev_open, dev_close, dev_ioctl and dev_seek keep their names
--   Kernel/Ramdisk     kernel/dev/ramdisk.c, a driver of that table
--   Kernel/Tty         the output of kernel/dev/tty.c: tty_writechar is move (its switch), wrap_line,
--                      scroll and settle; memory is a map of 16-bit cells
--   Kernel/Keyboard    the input of kernel/dev/tty.c: kbd_irq is press and release, with a function
--                      for each longer branch; Editor describes it as a line editor, and
--                      Reading says what tty_read returns.
--   Kernel/Ttydev      the rest of kernel/dev/tty.c: its set-up and the functions of the device table;
--                      and libc/input.c. Opening is about the set-up, Lines about a line that is read
--                      through the device table.
--   Kernel/Shell       kernel/shell.c: shell_loop is the loop of shell_main, run_line and find_handler the
--                      commands in it. Requests says what a line asks for, Commands that the shell does
--                      it, Sessions joins the lines up to `exit`, Files is about `cat`.
--   Kernel/Ports       include/asm/ioports.h: the port instructions, as operations on hardware
--   Kernel/Pic         kernel/dev/pic.c
--   Kernel/Pit         kernel/dev/pit.c: pit_delay waits over the timer interrupts that come in
--   Kernel/Interrupt   kernel/interrupt.c: the descriptors, the hooks and the dispatchers
--   Kernel/Serial      kernel/dev/serial.c
--   Kernel/Pci         kernel/dev/pci.c
--   Kernel/Acpi        kernel/acpi.c: the loops of find_fadt, acpi_search_s5 and acpi_enable are
--                      functions of their own
--
-- The hardware behind the ports is a parameter. What a theorem relies on is a law about it, as the
-- data sheets of the chips say it: Is8259 of the interrupt controllers, Is8254 of the timer, IsUart of
-- the serial port, IsConfigured of the PCI configuration space. Each has a small model that keeps it.
--
-- Bounds and fuel. lookup takes one unit of fuel a block, so that one more than the length of the
-- list is enough; the search of pmem_get_free visits 4096 frames, for which 4097 units are enough;
-- ten decimal and eight hexadecimal digits are enough for 32 bits; strrev has a unit a character. The
-- loop of fs_lookup has a round for each field of the path, of which there are no more than
-- characters; that of acpi_search_s5 goes on by four bytes or more, so that one round a byte and one
-- more are enough. The wait of tty_read is over the list of scan codes that come in, that of pit_delay
-- over a number of interrupts; the wait of serial_send polls as often as its fuel says, and the law of
-- the port says how many polls are enough.
--
-- Not modelled: what callers store in their blocks, log lines on the serial port and on the terminal,
-- assembly (boot/*.s, kernel/asm.S and the instructions in C functions), and start-up (kernel/main.c);
-- vmem_init and page_fault of kernel/vmem.c, and the floppy controller, whose driver is not complete.
-- The shell is given the lines that gets reads, and the terminal it writes on as the first device of
-- the table; Kernel/Ttydev says which lines these are.
pub mod Prelude
pub mod Machine
pub mod Libc
pub mod Libfs
pub mod Kernel
