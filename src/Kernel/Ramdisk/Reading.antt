-- ===== src/Kernel/Ramdisk/Reading.antt =====
-- Reading the ram disk of kernel/dev/ramdisk.c through kernel/dev/device.c.
use foos.Prelude.{
  ℕ, zero, suc, ◌+◌, ◌^◌, ◌<◌, ◌≡◌, ◌≢◌, refl, ap, ◌∙◌, arith, true, false, ◌==◌, length, get_or,
  get_or-set_self, ltb,
}
use foos.Machine.{ok, u32, null}
use foos.Libc.Str.{Bytes}
use foos.Kernel.Device.{Drivers, Devices, driver, dev_read, set_offset}
use foos.Kernel.Ramdisk.{World, bytes_at, ramdisk_read, ramdisk}

length-bytes_at : (m : ℕ → ℕ) (src len : ℕ) → length (bytes_at m src len) ≡ len
unfolding bytes_at
length-bytes_at m src zero = refl
length-bytes_at m src (suc len) = ap suc (length-bytes_at m (u32 (src + 1)) len)

-- Steps on 32 bits add up.
u32_step : (a b : ℕ) → u32 (u32 a + b) ≡ u32 (a + b)
u32_step a b = omega arith

get_or-bytes_at :
    (m : ℕ → ℕ) (src len i : ℕ)
    → i < len
    → get_or (bytes_at m (u32 src) len) i 0 ≡ m (u32 (src + i))
unfolding bytes_at
get_or-bytes_at m src zero i lt = absurd (omega arith)
get_or-bytes_at m src (suc len) zero lt = ap m (omega arith)
get_or-bytes_at m src (suc len) (suc i) lt =
    let e : u32 (u32 src + 1) ≡ u32 (src + 1) = omega arith in
    rw e (get_or-bytes_at m (src + 1) len i (omega arith) ∙ ap m (omega arith))

module _ (fuel : ℕ) (d : Drivers World) (dev : ℕ)
    (there : driver d.table dev ≡ ok (ramdisk fuel)) where
  -- The state once `len` bytes have been read.
  abbrev pub read_on : Devices World → ℕ → Devices World
  read_on s len = set_offset d s dev (u32 (get_or s.offsets dev 0 + len))

  pub dev_read_step :
      (s : Devices World) (len : ℕ)
      → s.world.dev_data ≢ null
      → 0 < len
      → len < 2 ^ 31
      → dev_read d s dev len
        ≡ ok (
          read_on s len,
          bytes_at s.world.memory
              (u32 ((s.world.disks s.world.dev_data).addr + get_or s.offsets dev 0))
              len,
          len,
        )
  unfolding dev_read ramdisk_read
  dev_read_step s len opened pos small =
      let t : (s.world.dev_data == 0) ≡ false = ground arith in
      let t1 : (len == 0) ≡ false = ground arith in
      let t2 : ltb len (2 ^ 31) ≡ true = ground arith in rw (there, t, t1, t2) refl

  -- A read of `len` bytes from an open ram disk returns `len`: the buffer holds the bytes of memory
  -- from the address of the disk plus the offset on, and the offset moves on by `len`.
  pub dev_read_bytes :
      (s : Devices World) (len : ℕ)
      → s.world.dev_data ≢ null
      → dev < length s.offsets
      → 0 < len
      → len < 2 ^ 31
      → (s' : Devices World) × (buf : Bytes) × (dev_read d s dev len ≡ ok (s', buf, len))
        × (length buf ≡ len)
        × ((i : ℕ)
            → i < len
            → get_or buf i 0
              ≡ s.world.memory
                  (u32 ((s.world.disks s.world.dev_data).addr + get_or s.offsets dev 0 + i)))
        × (get_or s'.offsets dev 0 ≡ u32 (get_or s.offsets dev 0 + len))
  dev_read_bytes s len opened known pos small =
      let from = (s.world.disks s.world.dev_data).addr + get_or s.offsets dev 0 in
      (
        read_on s len,
        bytes_at s.world.memory (u32 from) len,
        dev_read_step s len opened pos small,
        length-bytes_at s.world.memory (u32 from) len,
        λ i lt. get_or-bytes_at s.world.memory from len i lt,
        get_or-set_self s.offsets dev (u32 (get_or s.offsets dev 0 + len)) 0 known,
      )
