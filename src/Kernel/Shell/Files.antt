-- ===== src/Kernel/Shell/Files.antt =====
-- `cat_file` of kernel/shell.c on a file of the ram disk.
use foos.Prelude.{
  ℕ, suc, zero, ◌+◌, ◌-◌, ◌*◌, ◌<◌, ◌≡◌, ◌≢◌, refl, ap, ◌∙◌, arith, true, false, List, [], ◌∷◌,
  ◌++◌, length, drop, replicate, ltb, ◌==◌, none,
}
use foos.Machine.{Run, ok, fault, hang, out_of_fuel, ◌>>=◌, u32, null, bufsiz, neg32, enosys}
use foos.Libc.Str.{Bytes, IsText}
use foos.Libc.Strtok.{text_at}
use foos.Libc.Output.{puts}
use foos.Kernel.Device.{Drivers, Devices, driver}
use foos.Kernel.Ramdisk.{World, ramdisk, bytes_at}
use foos.Libfs.Inode.{Inode, Fs, fs_file, element}
use foos.Libfs.Ramfs.{file_header, file_node}
use foos.Libfs.Ramfs.Directory.{HasNames}
use foos.Libfs.Ramfs.Image.{Mounted}
use foos.Libfs.Ramfs.Contents.{fs_finddir-fs_read, disk_addr}
use foos.Libfs.Wrap.{Code, fs_open, fs_close, fs_read, fs_finddir}
use foos.Kernel.Shell.{Shell, with_devices, with_fs, say_line, cat_file}
use foos.Kernel.Shell.Sessions.{text_at-append, text_at-replicate, drop-replicate}

-- A plain file has no functions to open or close it.
record IsPlain (n : Inode) : Type 0 where
  flags : n.flags ≡ fs_file
  do_open : n.do_open ≡ none
  close : n.close ≡ none

module _ (d : Drivers World) (code : Code) where
  open_plain :
      (fs : Fs) (file : ℕ)
      → IsPlain (fs.nodes file)
      → fs_open d code fs file 0 ≡ ok (fs, neg32 enosys)
  unfolding fs_open
  open_plain fs file is = rw (is.flags, is.do_open) refl

  close_plain :
      (fs : Fs) (file : ℕ)
      → IsPlain (fs.nodes file)
      → fs_close d code fs file ≡ ok (fs, neg32 enosys)
  unfolding fs_close
  close_plain fs file is = rw (is.flags, is.close) refl

module _ {H : Type 0} (d : Drivers World) (code : Code) where
  -- What `cat_file` does when the line is written.
  abbrev finish : Shell H → ℕ → Run (Devices World) → Run (Shell H)
  finish s file out = do
    s ← (do v ← out; ok (with_devices s v))
    (fs, _) ← fs_close d code s.fs file
    ok (with_fs s fs)

  finish_eq :
      (s : Shell H) (file : ℕ) (out : Run (Devices World))
      → IsPlain (s.fs.nodes file)
      → finish s file out ≡ (out >>= λ v. ok (with_devices s v))
  finish_eq s file (ok v) is = rw (close_plain d code (with_devices s v).fs file is) refl
  finish_eq s file fault is = refl
  finish_eq s file hang is = refl
  finish_eq s file out_of_fuel is = refl

  cat_file_plain :
      (s : Shell H) (name bytes : Bytes) (file i ret : ℕ) (v : Devices World)
      → fs_finddir s.fs s.root name ≡ (s.fs, file)
      → file ≢ null
      → IsPlain (s.fs.nodes file)
      → fs_read d s.fs file (s.fs.nodes file).size 0
        ≡ ok (record s.fs { devices = v }, (i, bytes), ret)
      → length bytes < bufsiz
      → let buf = bytes ++ drop (length bytes) s.buf in
        cat_file d code s name ≡ (
          puts d v (text_at buf) >>= λ w.
          ok (record s { fs = record s.fs { devices = w }; buf = buf }))
  unfolding cat_file say_line
  cat_file_plain s name bytes file i ret v found nz is reads fits =
      let t : (file == 0) ≡ false = ground arith in
      let f : ltb (length bytes) bufsiz ≡ true = ground arith in
      let s1 = with_fs s (record s.fs { devices = v }) in
      let s2 = record s1 { buf = bytes ++ drop (length bytes) s.buf } in
      rw (found, t, is.flags, open_plain d code s.fs file is, reads, f)
        (finish_eq s2 file (puts d v (text_at s2.buf)) is)

length-bytes_at : (memory : ℕ → ℕ) (a n : ℕ) → length (bytes_at memory a n) ≡ n
unfolding bytes_at
length-bytes_at memory a zero = refl
length-bytes_at memory a (suc n) = ap suc (length-bytes_at memory (u32 (a + 1)) n)

text_at-drop :
    (k n : ℕ) (line : Bytes) → IsText line → text_at (drop k (line ++ replicate n 0)) ≡ drop k line
text_at-drop zero n line chars = text_at-append line (replicate n 0) chars (text_at-replicate n)
text_at-drop (suc k) n [] chars =
    ap text_at (drop-replicate (suc k) n) ∙ text_at-replicate (n - suc k)
text_at-drop (suc k) n (c ∷ line) chars = text_at-drop k n line chars.1

text_at-over : (bytes rest : Bytes) → IsText bytes → text_at (bytes ++ rest) ≡ bytes ++ text_at rest
text_at-over [] rest is = refl
text_at-over (b ∷ bytes) rest is =
    let pos = is.0.0 in
    let t : (b == 0) ≡ false = ground arith in
    rw t (ap (λ (s : Bytes). b ∷ s) (text_at-over bytes rest is.1))

-- The contents of the file `i` of a mounted image.
abbrev pub contents : Fs → ℕ → ℕ → ℕ → Bytes
contents fs a n i =
    let f = file_header fs.devices.world.memory a i in
    bytes_at fs.devices.world.memory (u32 (disk_addr fs + u32 (n * 44 + 4 + f.offset))) f.size

module _ {H : Type 0} (fuel : ℕ) (d : Drivers World) (code : Code)
    (there : driver d.table 1 ≡ ok (ramdisk fuel)) where
  -- `cat` of the file `i` in the root that `ramfs_init` has made, with texts for names, all different, and
  -- of contents that are a text of fewer than 512 characters: it writes the contents, and behind
  -- them what they leave of the command line in the buffer, which is not cleared.
  pub cat_file-contents :
      (s : Shell H) (a n : ℕ) (names : List Bytes) (p q i room : ℕ) (line : Bytes)
      → Mounted s.fs s.fs.devices.world.memory a n names s.root p q
      → HasNames s.fs.nodes s.root
      → ((j : ℕ)
          → j < i
          → (s.fs.nodes (element p j)).name ≢ (file_header s.fs.devices.world.memory a i).name)
      → i < n
      → p ≢ null
      → s.fs.devices.world.dev_data ≢ null
      → 1 < length s.fs.devices.offsets
      → 0 < (file_header s.fs.devices.world.memory a i).size
      → (file_header s.fs.devices.world.memory a i).size < 512
      → s.buf ≡ line ++ replicate room 0
      → IsText line
      → IsText (contents s.fs a n i)
      → let f = file_header s.fs.devices.world.memory a i in
        let text = contents s.fs a n i in
        (v : Devices World) × (cat_file d code s f.name ≡ (
          puts d v (text ++ drop f.size line) >>= λ w.
          ok (record s { fs = record s.fs { devices = w }; buf = text ++ drop f.size s.buf })))
  cat_file-contents s a n names p q i room line m texts distinct lt nz opened known pos small holds
        chars is =
      let f = file_header s.fs.devices.world.memory a i in
      let text = contents s.fs a n i in
      let len : length text ≡ f.size = length-bytes_at s.fs.devices.world.memory _ f.size in
      let (found, (v, reads)) =
        fs_finddir-fs_read fuel d there s.fs a n names s.root p q i f.size 0 m texts distinct lt
          opened known pos (omega arith) in
      let node : s.fs.nodes (element p i) ≡ file_node f i = m.files i lt in
      let plain : IsPlain (s.fs.nodes (element p i)) = record {
        flags = ap (λ (x : Inode). x.flags) node;
        do_open = ap (λ (x : Inode). x.do_open) node;
        close = ap (λ (x : Inode). x.close) node;
      } in
      let reads' = ap (λ (x : Inode). fs_read d s.fs (element p i) x.size 0) node ∙ reads in
      let over =
        ap (λ (b : Bytes). text_at (text ++ drop (length text) b)) holds
        ∙ text_at-over text (drop (length text) (line ++ replicate room 0)) is
        ∙ ap (λ (t : Bytes). text ++ t) (text_at-drop (length text) room line chars) in
      let out : Bytes → ℕ → Run (Shell H) = λ t k. puts d v t >>= λ w.
      ok (record s { fs = record s.fs { devices = w }; buf = text ++ drop k s.buf }) in
      (
        v,
        cat_file_plain d code s f.name text (element p i) 0 f.size v found (λ e. nz (omega arith))
              plain reads' (omega arith)
            ∙ ap (λ (t : Bytes). out t (length text)) over
            ∙ ap (λ (k : ℕ). out (text ++ drop k line) k) len,
      )
