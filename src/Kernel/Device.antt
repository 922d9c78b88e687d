-- ===== src/Kernel/Device.antt =====
-- The device table of kernel/dev/device.c, on drivers given as handlers. `S` is what the handlers
-- act on, `errno` included. A buffer that a read fills is the list of the bytes that it puts there.
pub mod Reading
pub mod Missing
mod Tests
use foos.Prelude.{
  ℕ, zero, suc, ◌+◌, List, [], ◌∷◌, Bool, true, false, ◌&&◌, not, Option, none, some, if◌then◌else◌,
  ltb, ◌==◌, length, get_or, set, ◌^◌,
}
use foos.Machine.{Run, ok, fault, ◌>>=◌, u32, neg32, enosys, einval}
use foos.Libc.Str.{Bytes}

-- The function pointers of a `struct device`; null is `none`. The argument of `ioctl` points to a
-- word: its value goes in, and its value comes out.
pub record Driver (S : Type 0) : Type 0 where
  pub write : Option (S → Bytes → Run (S × ℕ))
  pub read : Option (S → ℕ → ℕ → Run (S × Bytes × ℕ))
  pub do_open : Option (S → ℕ → Run (S × ℕ))
  pub close : Option (S → Run (S × ℕ))
  pub ioctl : Option (S → ℕ → ℕ → Run (S × ℕ × ℕ))

-- The table `devs`, less the offsets, and how `errno` is set.
pub record Drivers (S : Type 0) : Type 0 where
  pub set_errno : S → ℕ → S
  pub table : List (Driver S)

-- What changes: the offset of each device, and the rest.
pub record Devices (S : Type 0) : Type 0 where
  pub world : S
  pub offsets : List ℕ

-- `devs+no`, for the number `dev`; there is none beyond the end of the table.
abbrev pub driver : {S : Type 0} → List (Driver S) → ℕ → Run (Driver S)
driver [] dev = fault
driver (x ∷ xs) zero = ok x
driver (x ∷ xs) (suc dev) = driver xs dev

module _ {S : Type 0} (d : Drivers S) where
  -- `errno=e; return -e;`
  abbrev pub failed : Devices S → ℕ → Devices S × ℕ
  failed s e = (record s { world = d.set_errno s.world e }, neg32 e)

  abbrev pub set_offset : Devices S → ℕ → ℕ → Devices S
  set_offset s dev off = record s { offsets = set s.offsets dev off }

  unfoldable pub dev_write : Devices S → ℕ → Bytes → Run (Devices S × ℕ)
  dev_write s dev buf = do
    ptr ← driver d.table dev
    elim ptr.write [
      | some write ↦ do (w, ret) ← write s.world buf; ok (record s { world = w }, ret)
      | none ↦ ok (failed s enosys)
    ]

  -- `ret` is an `int`, so that it is positive below 2^31.
  unfoldable pub dev_read : Devices S → ℕ → ℕ → Run (Devices S × Bytes × ℕ)
  dev_read s dev len = do
    ptr ← driver d.table dev
    elim ptr.read [
      | some read ↦ do
        (w, buf, ret) ← read s.world (get_or s.offsets dev 0) len
        let s1 = record s { world = w }
        let positive = not (ret == 0) && ltb ret (2 ^ 31)
        let s2 = if positive then set_offset s1 dev (u32 (get_or s1.offsets dev 0 + ret)) else s1
        ok (s2, buf, ret)
      | none ↦ (let (s', ret) = failed s enosys in ok (s', [], ret))
    ]

  unfoldable pub dev_open : Devices S → ℕ → ℕ → Run (Devices S × ℕ)
  dev_open s dev flags = do
    ptr ← driver d.table dev
    let s1 = set_offset s dev 0
    elim ptr.do_open [
      | some do_open ↦ do (w, ret) ← do_open s1.world flags; ok (record s1 { world = w }, ret)
      | none ↦ ok (failed s1 enosys)
    ]

  unfoldable pub dev_close : Devices S → ℕ → Run (Devices S × ℕ)
  dev_close s dev = do
    ptr ← driver d.table dev
    let s1 = set_offset s dev 0
    elim ptr.close [
      | some close ↦ do (w, ret) ← close s1.world; ok (record s1 { world = w }, ret)
      | none ↦ ok (failed s1 enosys)
    ]

  unfoldable pub dev_ioctl : Devices S → ℕ → ℕ → ℕ → Run (Devices S × ℕ × ℕ)
  dev_ioctl s dev request arg = do
    ptr ← driver d.table dev
    elim ptr.ioctl [
      | some ioctl ↦ do
        (w, arg', ret) ← ioctl s.world request arg
        ok (record s { world = w }, arg', ret)
      | none ↦ (let (s', ret) = failed s enosys in ok (s', arg, ret))
    ]

  -- `SEEK_SET` is 0 and `SEEK_CUR` is 1.
  unfoldable pub dev_seek : Devices S → ℕ → ℕ → ℕ → Run (Devices S × ℕ)
  dev_seek s dev off whence = do
    ptr ← driver d.table dev
    let to_set = set_offset s dev off
    let to_cur = set_offset s dev (u32 (get_or s.offsets dev 0 + off))
    if whence == 0
        then ok (to_set, get_or to_set.offsets dev 0)
        else if whence == 1
        then ok (to_cur, get_or to_cur.offsets dev 0)
        else ok (failed s einval)
