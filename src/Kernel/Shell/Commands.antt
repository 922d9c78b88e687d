-- ===== src/Kernel/Shell/Commands.antt =====
-- What the shell of kernel/shell.c does with a line.
use foos.Prelude.{
  ℕ, suc, ◌≤◌, ◌≡◌, ◌≢◌, inl, inr, refl, arith, Bool-cases, true, false, List, [], ◌∷◌, ◌++◌, All,
  length, leb, ◌==◌, codes,
}
use foos.Machine.{Run, ok, ◌>>=◌}
use foos.Libc.Str.{Bytes, IsText, strcmp, same_bytes}
use foos.Libc.Str.Compare.{StartsWith, strcmp_iff}
use foos.Libc.Str.Memory.{same_bytes_iff}
use foos.Libc.Printf.{text}
use foos.Kernel.Ports.{Ports}
use foos.Kernel.Device.{Drivers}
use foos.Kernel.Ramdisk.{World}
use foos.Libfs.Wrap.{Code, fs_lookup}
use foos.Kernel.Shell.{
  Shell, with_fs, say, list_directory, cat_file, HandlerPointer, at_shell_help, at_list_devs,
  at_check_floppy, at_check_time, at_check_memory, at_test_fsdev, at_test_strtok, at_test_malloc,
  at_trigger_pf, CmdHandler, handlers, handle, handle_or_say, find_handler, run_line,
}
use foos.Kernel.Shell.Requests.{
  name_of, Request, list_root, list_path, print_file, command, nothing, unknown, Asks, ls_root,
  ls_path, cat, word, empty, other,
}

module _ {H : Type 0} (d : Drivers World) (code : Code) (io : Ports H) (fuel : ℕ) where
  unfoldable pub carry_out : Shell H → Bytes → Request → Run (Shell H)
  carry_out s line list_root = list_directory d s s.root
  carry_out s line (list_path path) = do
    (fs, dir) ← fs_lookup fuel s.fs s.root path
    list_directory d (with_fs s fs) dir
  carry_out s line (print_file name) = cat_file d code s name
  carry_out s line (command h) = handle d code io fuel h s
  carry_out s line nothing = ok s
  carry_out s line unknown = say d s (codes "%s: Unknown command\n") (text line ∷ [])

  find_handler_none :
      (s : Shell H) (c : ℕ) (line : Bytes) (hs : List CmdHandler)
      → c ≢ 0
      → All (λ h. strcmp (c ∷ line) h.cmd ≢ 0) hs
      → find_handler d code io fuel s (c ∷ line) hs
        ≡ say d s (codes "%s: Unknown command\n") (text (c ∷ line) ∷ [])
  unfolding find_handler
  find_handler_none s c line [] nz others = let t : (c == 0) ≡ false = ground arith in rw t refl
  find_handler_none s c line (h ∷ hs) nz others =
      let ne = others.0 in
      let t : (strcmp (c ∷ line) h.cmd == 0) ≡ false = ground arith in
      rw t (find_handler_none s c line hs nz others.1)

  run_line_word :
      (s : Shell H) (h : HandlerPointer)
      → run_line d code io fuel s (name_of h) ≡ handle d code io fuel h s
  unfolding run_line find_handler handle_or_say strcmp same_bytes
  run_line_word s at_shell_help = refl
  run_line_word s at_list_devs = refl
  run_line_word s at_check_floppy = refl
  run_line_word s at_check_time = refl
  run_line_word s at_check_memory = refl
  run_line_word s at_test_fsdev = refl
  run_line_word s at_test_strtok = refl
  run_line_word s at_test_malloc = refl
  run_line_word s at_trigger_pf = refl

  run_line_root :
      (s : Shell H) (rest : Bytes)
      → length rest ≤ 1
      → run_line d code io fuel s (codes "ls" ++ rest) ≡ list_directory d s s.root
  unfolding run_line same_bytes
  run_line_root s rest short =
      let t : leb (suc (suc (length rest))) 3 ≡ true = ground arith in rw t refl

  run_line_path :
      (s : Shell H) (c : ℕ) (path : Bytes)
      → 1 ≤ length path
      → run_line d code io fuel s (codes "ls" ++ (c ∷ path))
        ≡ carry_out s (codes "ls" ++ (c ∷ path)) (list_path path)
  unfolding run_line same_bytes carry_out
  run_line_path s c path long =
      let t : leb (suc (suc (suc (length path)))) 3 ≡ false = ground arith in rw t refl

  run_line_empty : (s : Shell H) → run_line d code io fuel s [] ≡ ok s
  unfolding run_line find_handler handle_or_say strcmp same_bytes
  run_line_empty s = refl

  run_line_cat :
      (s : Shell H) (name : Bytes)
      → run_line d code io fuel s (codes "cat " ++ name) ≡ cat_file d code s name
  unfolding run_line same_bytes
  run_line_cat s name = refl

  -- The names in the table; those with a blank in them begin like a command, and `exit` is tested before.
  names_differ :
      (line : Bytes)
      → IsText line
      → ¬ StartsWith line (codes "ls")
      → ¬ StartsWith line (codes "cat ")
      → ((h : HandlerPointer) → line ≢ name_of h)
      → line ≢ codes "exit"
      → All (λ h. strcmp line h.cmd ≢ 0) handlers
  names_differ line chars no_ls no_cat named exits =
      let differ : (cmd : Bytes) → IsText cmd → line ≢ cmd → strcmp line cmd ≢ 0 =
        λ cmd is differs z. differs ((strcmp_iff line cmd chars is).0 z) in
      (
        differ (codes "help") (omega arith) (named at_shell_help),
        (
          differ (codes "ls [FILE]") (omega arith) (λ e. no_ls (codes " [FILE]", e)),
          (
            differ (codes "cat [FILE]") (omega arith) (λ e. no_cat (codes "[FILE]", e)),
            (
              differ (codes "devs") (omega arith) (named at_list_devs),
              (
                differ (codes "floppy") (omega arith) (named at_check_floppy),
                (
                  differ (codes "time") (omega arith) (named at_check_time),
                  (
                    differ (codes "mem") (omega arith) (named at_check_memory),
                    (
                      differ (codes "tty") (omega arith) (named at_test_fsdev),
                      (
                        differ (codes "tok") (omega arith) (named at_test_strtok),
                        (
                          differ (codes "malloc") (omega arith) (named at_test_malloc),
                          (
                            differ (codes "fault") (omega arith) (named at_trigger_pf),
                            (differ (codes "exit") (omega arith) exits, tt),
                          ),
                        ),
                      ),
                    ),
                  ),
                ),
              ),
            ),
          ),
        ),
      )

  misses : (line n : Bytes) → ¬ StartsWith line n → same_bytes line n ≡ false
  misses line n differs = elim (Bool-cases (same_bytes line n)) [
    | inl e ↦ absurd (differs ((same_bytes_iff line n).0 e))
    | inr e ↦ e
  ]

  run_line_other :
      (s : Shell H) (c : ℕ) (line : Bytes)
      → IsText (c ∷ line)
      → ¬ StartsWith (c ∷ line) (codes "ls")
      → ¬ StartsWith (c ∷ line) (codes "cat ")
      → ((h : HandlerPointer) → c ∷ line ≢ name_of h)
      → c ∷ line ≢ codes "exit"
      → run_line d code io fuel s (c ∷ line)
        ≡ say d s (codes "%s: Unknown command\n") (text (c ∷ line) ∷ [])
  unfolding run_line
  run_line_other s c line chars no_ls no_cat named exits =
      let pos = chars.0.0 in
      rw (misses (c ∷ line) (codes "ls") no_ls, misses (c ∷ line) (codes "cat ") no_cat)
        (find_handler_none s c line handlers (omega arith)
          (names_differ (c ∷ line) chars no_ls no_cat named exits))

  -- For each text other than `exit`, the shell does with the line what the line asks for: it lists the root
  -- or the directory at a path, prints a file, calls the handler of a command, does nothing, or says
  -- that the command is unknown.
  pub run_line-Asks :
      (s : Shell H) (line : Bytes) {r : Request}
      → IsText line
      → line ≢ codes "exit"
      → Asks line r
      → run_line d code io fuel s line ≡ carry_out s line r
  unfolding carry_out
  run_line-Asks s line chars exits (ls_root rest e short) = rw e (run_line_root s rest short)
  run_line-Asks s line chars exits (ls_path c path e long) = rw e (run_line_path s c path long)
  run_line-Asks s line chars exits (cat name e) = rw e (run_line_cat s name)
  run_line-Asks s line chars exits (word h e) = rw e (run_line_word s h)
  run_line-Asks s line chars exits (empty e) = rw e (run_line_empty s)
  run_line-Asks s [] chars exits (other ne no_ls no_cat named) = absurd (ne refl)
  run_line-Asks s (c ∷ line) chars exits (other ne no_ls no_cat named) =
      run_line_other s c line chars no_ls no_cat named exits
