-- ===== src/Kernel/Shell/Requests.antt =====
-- What a line of kernel/shell.c asks for.
use foos.Prelude.{
  ℕ, ◌≤◌, ◌≡◌, ◌≢◌, ◌⊎◌, inl, inr, refl, ap, arith, Bool-cases, List, [], ◌∷◌, ◌++◌, All, length,
  ◌==◌, codes,
}
use foos.Libc.Str.{Bytes, IsText, strcmp, same_bytes}
use foos.Libc.Str.Compare.{StartsWith, strcmp_iff}
use foos.Libc.Str.Memory.{same_bytes_iff}
use foos.Kernel.Shell.{
  HandlerPointer, at_shell_help, at_list_devs, at_check_floppy, at_check_time, at_check_memory,
  at_test_fsdev, at_test_strtok, at_test_malloc, at_trigger_pf,
}

-- The nine commands that are one word.
abbrev pub name_of : HandlerPointer → Bytes
name_of at_shell_help = codes "help"
name_of at_list_devs = codes "devs"
name_of at_check_floppy = codes "floppy"
name_of at_check_time = codes "time"
name_of at_check_memory = codes "mem"
name_of at_test_fsdev = codes "tty"
name_of at_test_strtok = codes "tok"
name_of at_test_malloc = codes "malloc"
name_of at_trigger_pf = codes "fault"

abbrev commands : List HandlerPointer
commands =
    at_shell_help ∷ at_list_devs ∷ at_check_floppy ∷ at_check_time ∷ at_check_memory ∷ at_test_fsdev
    ∷ at_test_strtok ∷ at_test_malloc ∷ at_trigger_pf ∷ []

-- What a line asks for: a list of the root, a list of the directory at a path, the contents of a file
-- in the root, a command, nothing, or something that there is not.
pub data Request : Type 0 where
  list_root : Request
  list_path : Bytes → Request
  print_file : Bytes → Request
  command : HandlerPointer → Request
  nothing : Request
  unknown : Request

-- A line that begins with `ls` lists, whatever follows: the root, if that is one character or none, and
-- otherwise what is behind one character.
pub data Asks (line : Bytes) : Request → Type 0 where
  ls_root : (rest : Bytes) → line ≡ codes "ls" ++ rest → length rest ≤ 1 → Asks line list_root
  ls_path :
      (c : ℕ) (path : Bytes)
      → line ≡ codes "ls" ++ (c ∷ path)
      → 1 ≤ length path
      → Asks line (list_path path)
  cat : (name : Bytes) → line ≡ codes "cat " ++ name → Asks line (print_file name)
  word : (h : HandlerPointer) → line ≡ name_of h → Asks line (command h)
  empty : line ≡ [] → Asks line nothing
  other :
      line ≢ []
      → ¬ StartsWith line (codes "ls")
      → ¬ StartsWith line (codes "cat ")
      → ((h : HandlerPointer) → line ≢ name_of h)
      → Asks line unknown

pub name_of-IsText : (h : HandlerPointer) → IsText (name_of h)
name_of-IsText at_shell_help = omega arith
name_of-IsText at_list_devs = omega arith
name_of-IsText at_check_floppy = omega arith
name_of-IsText at_check_time = omega arith
name_of-IsText at_check_memory = omega arith
name_of-IsText at_test_fsdev = omega arith
name_of-IsText at_test_strtok = omega arith
name_of-IsText at_test_malloc = omega arith
name_of-IsText at_trigger_pf = omega arith

-- The search for a command among some.
word_or :
    (line : Bytes) (hs : List HandlerPointer)
    → IsText line
    → ((h : HandlerPointer) × (line ≡ name_of h)) ⊎ All (λ h. line ≢ name_of h) hs
word_or line [] chars = inr tt
word_or line (h ∷ hs) chars =
    let same = strcmp_iff line (name_of h) chars (name_of-IsText h) in
    elim (Bool-cases (strcmp line (name_of h) == 0)) [
      | inl e ↦ inl (h, same.0 (ground arith))
      | inr e ↦ elim (word_or line hs chars) [
        | inl found ↦ inl found
        | inr none_of ↦ inr (λ q. (let z = same.1 q in absurd (ground arith)), none_of)
      ]
    ]

-- All the commands.
pick :
    (line : Bytes) → All (λ h. line ≢ name_of h) commands → (h : HandlerPointer) → line ≢ name_of h
pick line differ at_shell_help = differ.0
pick line differ at_list_devs = differ.1.0
pick line differ at_check_floppy = differ.1.1.0
pick line differ at_check_time = differ.1.1.1.0
pick line differ at_check_memory = differ.1.1.1.1.0
pick line differ at_test_fsdev = differ.1.1.1.1.1.0
pick line differ at_test_strtok = differ.1.1.1.1.1.1.0
pick line differ at_test_malloc = differ.1.1.1.1.1.1.1.0
pick line differ at_trigger_pf = differ.1.1.1.1.1.1.1.1.0

word_or_none :
    (line : Bytes)
    → IsText line
    → ((h : HandlerPointer) × (line ≡ name_of h)) ⊎ ((h : HandlerPointer) → line ≢ name_of h)
word_or_none line chars =
    let all = word_or line commands chars in
    elim all [ inl found ↦ inl found | inr differ ↦ inr (pick line differ) ]

starts-or : (line n : Bytes) → StartsWith line n ⊎ (¬ StartsWith line n)
starts-or line n =
    let (to, from) = same_bytes_iff line n in
    elim (Bool-cases (same_bytes line n)) [
      | inl e ↦ inl (to e)
      | inr e ↦ inr (λ p. let q = from p in absurd (ground arith))
    ]

-- What the rest behind `ls` asks for.
ls-Asks : (line rest : Bytes) → line ≡ codes "ls" ++ rest → (r : Request) × Asks line r
ls-Asks line [] e = (list_root, ls_root [] e (omega arith))
ls-Asks line (c ∷ []) e = (list_root, ls_root (c ∷ []) e (omega arith))
ls-Asks line (c ∷ b ∷ path) e = (list_path (b ∷ path), ls_path c (b ∷ path) e (omega arith))

-- Each line asks for something.
pub Asks-total : (line : Bytes) → IsText line → (r : Request) × Asks line r
Asks-total [] chars = (nothing, empty refl)
Asks-total (c ∷ line) chars = elim (starts-or (c ∷ line) (codes "ls")) [
  | inl (rest, e) ↦ ls-Asks (c ∷ line) rest e
  | inr no_ls ↦ elim (starts-or (c ∷ line) (codes "cat ")) [
    | inl (name, e) ↦ (print_file name, cat name e)
    | inr no_cat ↦ elim (word_or_none (c ∷ line) chars) [
      | inl (h, e) ↦ (command h, word h e)
      | inr none_of ↦
          (unknown, other (λ e. absurd (omega (arith, ap length e))) no_ls no_cat none_of)
    ]
  ]
]
