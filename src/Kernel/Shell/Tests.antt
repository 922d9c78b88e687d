-- ===== src/Kernel/Shell/Tests.antt =====
-- The theorems on kernel/shell.c at a small ram disk.
use foos.Prelude.{ℕ, ◌≡◌, refl, ap, arith, [], ◌∷◌, ◌++◌, length, drop, replicate, some, codes}
use foos.Machine.{ok, ◌>>=◌, bufsiz}
use foos.Libc.Str.{Bytes}
use foos.Libc.Output.{puts, putchar, _puts}
use foos.Kernel.Ports.{Ports}
use foos.Kernel.Device.{Drivers, Devices, Driver, dev_write}
use foos.Kernel.Ramdisk.{World, ramdisk, set_errno, bytes_at}
use foos.Libfs.Disk.{
  disk, world, device_names, file_header-disk, mounted, mounted-Mounted, mounted-HasNames, no_code,
}
use foos.Libfs.Ramfs.{file_header}
use foos.Kernel.Shell.{Shell, say_text, cat_file, run_line, prompt, shell_main}
use foos.Kernel.Shell.Requests.{Asks, empty, Asks-total}
use foos.Kernel.Shell.Commands.{carry_out, run_line-Asks}
use foos.Kernel.Shell.Sessions.{done, answer, shell_main-Answers}
use foos.Kernel.Shell.Files.{contents, cat_file-contents}

-- A terminal that takes everything.
abbrev sink : Driver World
sink = record (ramdisk 9) { write = some (λ w buf. ok (w, length buf)) }

abbrev drivers : Drivers World
drivers = record { set_errno = set_errno; table = sink ∷ ramdisk 9 ∷ [] }

-- Hardware without anything.
abbrev io : Ports ℕ
io = record {
  read_byte = λ h port. (h, 0);
  write_byte = λ h port v. h;
  read_word = λ h port. (h, 0);
  write_word = λ h port v. h;
  read_long = λ h port. (h, 0);
  write_long = λ h port v. h;
}

abbrev line : Bytes
line = codes "cat hi"

abbrev shell : Shell ℕ
shell = record { fs = mounted; root = 0x50_0000; buf = line ++ replicate 506 0; hardware = 0 }

-- The file is `hello`, and the line is one character longer.
contents-disk : contents mounted disk 1 0 ≡ codes "hello"
unfolding bytes_at
contents-disk = rw file_header-disk refl

cat_file-contents_example :
    let f = file_header world.memory disk 0 in
    let text = contents mounted disk 1 0 in
    (v : Devices World) × (cat_file drivers no_code shell f.name ≡ (
      puts drivers v (text ++ drop f.size line) >>= λ w.
      ok (record shell {
        fs = record mounted { devices = w };
        buf = text ++ drop f.size shell.buf;
      })))
cat_file-contents_example =
    cat_file-contents 9 drivers no_code refl shell disk 1 device_names 0x50_1000 0x50_2000 0 506
      line mounted-Mounted mounted-HasNames (λ j lt. absurd (omega arith)) (omega arith)
      (λ e. absurd (omega arith)) (λ e. absurd (omega arith)) (omega arith)
      (rw file_header-disk (omega arith)) (rw file_header-disk (omega arith)) refl (omega arith)
      (rw contents-disk (omega arith))

-- A word that is no command.
dir-Asks : Asks (codes "dir") (Asks-total (codes "dir") (omega arith)).0
dir-Asks = (Asks-total (codes "dir") (omega arith)).1

run_line-Asks_example :
    run_line drivers no_code io 9 shell (codes "dir")
    ≡ carry_out drivers no_code io 9 shell (codes "dir") (Asks-total (codes "dir") (omega arith)).0
run_line-Asks_example =
    run_line-Asks drivers no_code io 9 shell (codes "dir") (omega arith)
      (λ e. absurd (omega (arith, ap length e))) dir-Asks

-- An empty line and then `exit`; a line behind it is left.
abbrev buf_empty : Bytes
buf_empty = replicate bufsiz 0

abbrev after_prompt : Shell ℕ → Bytes → Shell ℕ
after_prompt s line = record s { buf = line ++ drop (length line) buf_empty }

prompt-lines :
    (s : Shell ℕ)
    → (prompt drivers no_code io 9 s [] ≡ ok (after_prompt s []))
      × (prompt drivers no_code io 9 s (codes "exit") ≡ ok (after_prompt s (codes "exit")))
unfolding prompt say_text _puts dev_write
prompt-lines s = (refl, refl)

puts-newline : putchar drivers mounted.devices b'\n' ≡ ok (mounted.devices, b'\n')
unfolding putchar dev_write
puts-newline = refl

shell_main-Answers_example :
    shell_main drivers no_code io 9 shell ([] ∷ codes "exit" ∷ codes "ls" ∷ [])
    ≡ ok (after_prompt (after_prompt shell []) (codes "exit"), codes "ls" ∷ [])
unfolding carry_out
shell_main-Answers_example =
    shell_main-Answers drivers no_code io 9 shell (after_prompt shell [])
      (after_prompt (after_prompt shell []) (codes "exit")) mounted.devices b'\n' ([] ∷ [])
      (codes "ls" ∷ []) puts-newline
      (answer tt (λ e. absurd (omega (arith, ap length e))) (prompt-lines shell).0 (empty refl) refl
        (done (after_prompt shell [])))
      (prompt-lines (after_prompt shell [])).1
