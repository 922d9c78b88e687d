-- ===== src/Kernel/Shell.antt =====
-- kernel/shell.c. Each call of `gets` reads one of the lines that are typed. `d` is the table of the
-- drivers, `code` what stands at the addresses of inodes that are called, and `fuel` bounds the
-- length of the list of blocks of the heap.
pub mod Requests
pub mod Commands
pub mod Sessions
pub mod Files
mod Tests
use foos.Prelude.{
  ℕ, zero, suc, ◌+◌, ◌*◌, ◌/◌, ◌%◌, ◌^◌, Bool, true, false, ◌&&◌, ◌||◌, not, List, [], ◌∷◌, ◌++◌,
  Option, none, some, if◌then◌else◌, ◌==◌, ltb, leb, length, get_or, take, drop, replicate, bit_and,
  bit_or, codes,
}
use foos.Machine.{Run, ok, fault, hang, out_of_fuel, ◌>>=◌, u16, null, bufsiz}
use foos.Libc.Str.{Bytes, strcmp, same_bytes}
use foos.Libc.Strtok.{Text, text_at, first_call, strtok, token_at, on_token}
use foos.Libc.Output.{_puts, putchar, puts}
use foos.Libc.Printf.{Arg, word, text, printf}
use foos.Kernel.Kmalloc.{kmalloc, kfree}
use foos.Kernel.Kmalloc.Info.{kmalloc_info}
use foos.Kernel.Ports.{Ports, inb, outb}
use foos.Kernel.Device.{Drivers, Devices}
use foos.Kernel.Ramdisk.{World}
use foos.Libfs.Inode.{Inode, Dirent, Fs, fs_dir, set_kmem}
use foos.Libfs.Wrap.{Code, fs_open, fs_close, fs_read, fs_write, fs_readdir, fs_finddir, fs_lookup}

abbrev pub floppy_type : List Bytes
floppy_type =
    codes "Not Applicable"
    ∷ codes "360 KB 5.25\""
    ∷ codes "1.2 MB 5.25\""
    ∷ codes "720 KB 3.5\""
    ∷ codes "1.44 MB 3.5\""
    ∷ codes "2.88 MB 3.5\""
    ∷ []

-- The first is the null pointer.
abbrev pub file_type : List Arg
file_type =
    word null
    ∷ text (codes "file")
    ∷ text (codes "dir")
    ∷ text (codes "chardev")
    ∷ text (codes "blkdev")
    ∷ text (codes "pipe")
    ∷ []

-- An element of an array, which is not read beyond its end.
abbrev pub element_of {ℓ} : {A : Type ℓ} → List A → ℕ → Run A
element_of [] i = fault
element_of (x ∷ xs) zero = ok x
element_of (x ∷ xs) (suc i) = element_of xs i

abbrev pub hello_world : Bytes
hello_world = codes "Hello world\n"

-- The file systems with the devices, the global variables `fs_root` and `buf` with the 512 bytes that
-- it points to, and the hardware of the ports.
pub record Shell (H : Type 0) : Type 0 where
  pub fs : Fs
  pub root : ℕ
  pub buf : Bytes
  pub hardware : H

module _ {H : Type 0} where
  abbrev pub with_devices : Shell H → Devices World → Shell H
  with_devices s v = record s { fs = record s.fs { devices = v } }

  abbrev pub with_fs : Shell H → Fs → Shell H
  with_fs s fs = record s { fs = fs }

  -- `memcpy` to the start of the buffer, after which a terminator is left in it.
  abbrev pub fill : Shell H → Bytes → Run (Shell H)
  fill s bytes =
      if ltb (length bytes) bufsiz
      then ok (record s { buf = bytes ++ drop (length bytes) s.buf })
      else fault

-- `cmos_read` of include/asm/cmos.h
unfoldable pub cmos_read : {H : Type 0} → Ports H → Shell H → ℕ → Shell H × ℕ
cmos_read io s reg =
    let (h, ret) = inb io (outb io s.hardware 0x70 reg) 0x71 in (record s { hardware = h }, ret)

module _ {H : Type 0} (d : Drivers World) where
  unfoldable pub say : Shell H → Bytes → List Arg → Run (Shell H)
  say s fmt args = do (v, _) ← printf d s.fs.devices fmt args; ok (with_devices s v)

  unfoldable pub say_line : Shell H → Bytes → Run (Shell H)
  say_line s line = do v ← puts d s.fs.devices line; ok (with_devices s v)

  unfoldable pub say_text : Shell H → Bytes → Run (Shell H)
  say_text s line = do (v, _) ← _puts d s.fs.devices line; ok (with_devices s v)

  unfoldable pub check_floppy : Ports H → Shell H → Run (Shell H)
  check_floppy io s = do
    let (s, val) = cmos_read io s 0x10
    s ← say_text s (codes "fd0: ")
    type ← element_of floppy_type (val / 2 ^ 4 % 2 ^ 4)
    s ← say_line s type
    s ← say_text s (codes "fd1: ")
    type ← element_of floppy_type (val % 2 ^ 4)
    say_line s type

  unfoldable pub check_memory : Ports H → ℕ → Shell H → Run (Shell H)
  check_memory io fuel s = do
    let (s, high) = cmos_read io s 0x16
    let (s, low) = cmos_read io s 0x15
    s ← say s (codes "low memory: 0 - 0x%x\n") (word (bit_or (high * 2 ^ 8) low * 2 ^ 10) ∷ [])
    v ← kmalloc_info d (λ w. w.kmem.heap) fuel s.fs.devices
    ok (with_devices s v)

  -- FS_DIR is one bit of the kind of an inode.
  unfoldable pub cat_file : Code → Shell H → Bytes → Run (Shell H)
  cat_file code s name =
      let (fs, file) = fs_finddir s.fs s.root name in
      let n = fs.nodes file in
      if file == null
      then say (with_fs s fs) (codes "%s: No such file or directory\n") (text name ∷ [])
      else if not (bit_and n.flags fs_dir == 0)
      then say (with_fs s fs) (codes "%s: Is a directory\n") (text name ∷ [])
      else do
        (fs, _) ← fs_open d code fs file 0
        (fs, (_, bytes), _) ← fs_read d fs file (fs.nodes file).size 0
        s ← fill (with_fs s fs) bytes
        s ← say_line s (text_at s.buf)
        (fs, _) ← fs_close d code s.fs file
        ok (with_fs s fs)

  -- The line of one element: the kind, the name and the size of what is found by its name.
  unfoldable pub list_entry : Shell H → ℕ → Option Dirent → Run (Shell H)
  list_entry s dir none = fault
  list_entry s dir (some ent) =
      let (fs, tmp) = fs_finddir s.fs dir ent.name in
      let n = fs.nodes tmp in
      if tmp == null then fault else do
        kind ← element_of file_type (n.flags % 2 ^ 4)
        say (with_fs s fs) (codes "%s\t%s\t%d bytes\n") (kind ∷ text n.name ∷ word n.size ∷ [])

  -- The loop of `list_directory`, with `left` elements to go from the element `i` on.
  unfoldable pub list_entries : Shell H → ℕ → ℕ → ℕ → Run (Shell H)
  list_entries s dir i zero = ok s
  list_entries s dir i (suc left) = do
    (fs, ent) ← fs_readdir s.fs dir i
    s ← list_entry (with_fs s fs) dir ent
    list_entries s dir (suc i) left

  unfoldable pub list_directory : Shell H → ℕ → Run (Shell H)
  list_directory s dir =
      let n = s.fs.nodes dir in
      if dir == null
      then say_line s (codes "No such file or directory")
      else if not (bit_and n.flags 7 == fs_dir)
      then say s (codes "%s: Not a directory\n") (text n.name ∷ [])
      else do
        s ← say s (codes "%d files in `%s':\n") (word n.impl ∷ text n.name ∷ [])
        list_entries s dir 0 n.impl

  -- The numbers are decimal digits, four bits each.
  unfoldable pub check_time : Ports H → Shell H → Run (Shell H)
  check_time io s = do
    let (s, century) = cmos_read io s 0x32
    let (s, year) = cmos_read io s 0x09
    let (s, month) = cmos_read io s 0x08
    let (s, day) = cmos_read io s 0x07
    let (s, hour) = cmos_read io s 0x04
    let (s, minute) = cmos_read io s 0x02
    let (s, second) = cmos_read io s 0x00
    let full_year = u16 (bit_or (century * 2 ^ 8) year)
    say s (codes "%x/%x/%x %x:%x:%x\n")
        (word full_year ∷ word month ∷ word day ∷ word hour ∷ word minute ∷ word second ∷ [])

  -- The loop of `list_devs`, one unit of fuel a round: it ends at the first index without an element.
  abbrev pub list_dev : Shell H → (Shell H → Run (Shell H)) → Option Dirent → Run (Shell H)
  list_dev s more none = ok s
  list_dev s more (some dev) = do
    s ← say s (codes "%d: %s\n") (word dev.ino ∷ text dev.name ∷ [])
    more s

  unfoldable pub devs_loop : ℕ → Shell H → ℕ → ℕ → Run (Shell H)
  devs_loop zero s devdir i = out_of_fuel
  devs_loop (suc fuel) s devdir i = do
    (fs, dev) ← fs_readdir s.fs devdir i
    list_dev (with_fs s fs) (λ s. devs_loop fuel s devdir (suc i)) dev

  -- One round for each element, and one more.
  unfoldable pub list_devs : Shell H → Run (Shell H)
  list_devs s = do
    let (fs, devdir) = fs_finddir s.fs s.root (codes "dev")
    s ← say_line (with_fs s fs) (codes "FOOS devices:")
    if devdir == null then fault else devs_loop (suc (s.fs.nodes devdir).impl) s devdir 0

  unfoldable pub test_fsdev : ℕ → Shell H → Run (Shell H)
  test_fsdev fuel s = do
    (fs, tty) ← fs_lookup fuel s.fs s.root (codes "/dev/tty")
    if tty == null
        then say_line (with_fs s fs) (codes "tty not found!")
        else do (fs, _) ← fs_write d fs tty hello_world 0; ok (with_fs s fs)

  -- The loop of `test_strtok`, one unit of fuel a round.
  unfoldable pub tokens_loop : ℕ → Shell H → Text → Run (Shell H)
  tokens_loop zero s t = out_of_fuel
  tokens_loop (suc fuel) s t =
      let (t', ptr) = strtok t (codes "/") in
      on_token (ok s) (λ p. do s ← say_line s (token_at t' p); tokens_loop fuel s t') ptr

  -- `puts` of a token that is not there would read from null.
  unfoldable pub test_strtok : Shell H → Run (Shell H)
  test_strtok s = do
    s ← say s (codes "Tokenizing `%s' by `%s'\n") (text (codes "/dev/tty") ∷ text (codes "/") ∷ [])
    let (t, ptr) = strtok (first_call (codes "/dev/tty")) (codes "/")
    s ← on_token fault (λ p. say_line s (token_at t p)) ptr
    tokens_loop 9 s t

  unfoldable pub test_malloc : ℕ → Shell H → Run (Shell H)
  test_malloc fuel s = do
    (k, a) ← kmalloc fuel s.fs.devices.world.kmem 10
    s ← say (with_fs s (set_kmem s.fs k)) (codes "kmalloc(10): 0x%x\n") (word a ∷ [])
    k ← kfree s.fs.devices.world.kmem a
    s ← say (with_fs s (set_kmem s.fs k)) (codes "kfree(0x%x)\n") (word a ∷ [])
    (k, a) ← kmalloc fuel s.fs.devices.world.kmem 10
    s ← say (with_fs s (set_kmem s.fs k)) (codes "kmalloc(10) again: 0x%x\n") (word a ∷ [])
    k ← kfree s.fs.devices.world.kmem a
    ok (with_fs s (set_kmem s.fs k))

  -- A write to the last address, which is not mapped.
  abbrev pub trigger_pf : Shell H → Run (Shell H)
  trigger_pf s = fault

-- What the field `handle` of a `struct cmd_handler` may hold.
pub data HandlerPointer : Type 0 where
  at_shell_help at_list_devs at_check_floppy at_check_time at_check_memory at_test_fsdev
        at_test_strtok at_test_malloc at_trigger_pf :
      HandlerPointer

pub record CmdHandler : Type 0 where
  pub cmd : Bytes
  pub description : Bytes
  pub handle : Option HandlerPointer

abbrev pub entry : Bytes → Bytes → Option HandlerPointer → CmdHandler
entry cmd description handle = record { cmd = cmd; description = description; handle = handle }

abbrev pub handlers : List CmdHandler
handlers =
    entry (codes "help") (codes "print this message") (some at_shell_help)
    ∷ entry (codes "ls [FILE]") (codes "list directory contents") none
    ∷ entry (codes "cat [FILE]") (codes "print out the contents of a file") none
    ∷ entry (codes "devs") (codes "list available FOOS devices") (some at_list_devs)
    ∷ entry (codes "floppy") (codes "check floppy status") (some at_check_floppy)
    ∷ entry (codes "time") (codes "get the current time") (some at_check_time)
    ∷ entry (codes "mem") (codes "print the status of kernel heap") (some at_check_memory)
    ∷ entry (codes "tty") (codes "write `Hello world' to /dev/tty") (some at_test_fsdev)
    ∷ entry (codes "tok") (codes "test tokenizing strings") (some at_test_strtok)
    ∷ entry (codes "malloc") (codes "test the efficiency of malloc()") (some at_test_malloc)
    ∷ entry (codes "fault") (codes "trigger a page fault") (some at_trigger_pf)
    ∷ entry (codes "exit") (codes "quit the shell") none
    ∷ []

module _ {H : Type 0} (d : Drivers World) where
  unfoldable pub help_loop : Shell H → List CmdHandler → Run (Shell H)
  help_loop s [] = ok s
  help_loop s (h ∷ hs) = do
    s ← say d s (codes "%s - %s\n") (text h.cmd ∷ text h.description ∷ [])
    help_loop s hs

  unfoldable pub shell_help : Shell H → Run (Shell H)
  shell_help s = help_loop s handlers

module _ {H : Type 0} (d : Drivers World) (code : Code) (io : Ports H) (fuel : ℕ) where
  -- The call through the pointer `handle`.
  unfoldable pub handle : HandlerPointer → Shell H → Run (Shell H)
  handle at_shell_help s = shell_help d s
  handle at_list_devs s = list_devs d s
  handle at_check_floppy s = check_floppy d io s
  handle at_check_time s = check_time d io s
  handle at_check_memory s = check_memory d io fuel s
  handle at_test_fsdev s = test_fsdev d fuel s
  handle at_test_strtok s = test_strtok d s
  handle at_test_malloc s = test_malloc d fuel s
  handle at_trigger_pf s = trigger_pf d s

  unfoldable pub handle_or_say : Shell H → Bytes → Option HandlerPointer → Run (Shell H)
  handle_or_say s cmd none = say d s (codes "No handler found for `%s'\n") (text cmd ∷ [])
  handle_or_say s cmd (some h) = handle h s

  -- The loop over the handlers, and what stands behind it.
  unfoldable pub find_handler : Shell H → Bytes → List CmdHandler → Run (Shell H)
  find_handler s line [] =
      if get_or line 0 0 == 0
      then ok s
      else say d s (codes "%s: Unknown command\n") (text line ∷ [])
  find_handler s line (h ∷ hs) =
      let rest = find_handler s line hs in
      if strcmp line h.cmd == 0 then handle_or_say s h.cmd h.handle else rest

  -- The commands behind `exit`, on the text in the buffer.
  unfoldable pub run_line : Shell H → Bytes → Run (Shell H)
  run_line s line =
      if same_bytes line (codes "ls")
      then (if leb (length line) 3 then list_directory d s s.root else do
        (fs, dir) ← fs_lookup fuel s.fs s.root (drop 3 line)
        list_directory d (with_fs s fs) dir)
      else if same_bytes line (codes "cat ")
      then cat_file d code s (drop 4 line)
      else find_handler s line handlers

  -- The prompt, and the line that `gets` puts into the cleared buffer.
  unfoldable pub prompt : Shell H → Bytes → Run (Shell H)
  prompt s line = do
    s ← say_text d s (codes "> ")
    fill (record s { buf = replicate bufsiz 0 }) line

  -- From the label `loop` on: with no more lines, `gets` waits. The lines that are left go with the state.
  unfoldable pub shell_loop : Shell H → List Bytes → Run (Shell H × List Bytes)
  shell_loop s [] = hang
  shell_loop s (line ∷ lines) = do
    s ← prompt s line
    let more = (do s ← run_line s (text_at s.buf); shell_loop s lines)
    if strcmp (text_at s.buf) (codes "exit") == 0 then ok (s, lines) else more

  unfoldable pub shell_main : Shell H → List Bytes → Run (Shell H × List Bytes)
  shell_main s lines = do (v, _) ← putchar d s.fs.devices b'\n'; shell_loop (with_devices s v) lines
