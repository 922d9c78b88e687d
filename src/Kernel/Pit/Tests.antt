-- ===== src/Kernel/Pit/Tests.antt =====
-- A run of kernel/dev/pit.c, and its theorems at a timer that satisfies the data sheet.
use foos.Prelude.{
  ℕ, ◌+◌, ◌*◌, ◌<◌, ◌≤◌, ◌≡◌, ◌≢◌, refl, ap, arith, List, Option, none, some, get_or, replicate,
  if◌then◌else◌, ◌==◌,
}
use foos.Machine.{ok, hang, u8, neg32, ebusy}
use foos.Kernel.Ports.{Ports}
use foos.Kernel.Interrupt.{Idt, Handler, hooked}
use foos.Kernel.Pit.{Pit, pit_delay, pit_init}
use foos.Kernel.Pit.Delay.{done, pit_delay_lem}
use foos.Kernel.Pit.Divisor.{Expects, count_low, count_high, Is8254, pit_init_lem}

abbrev idle : Pit
idle = record { busy = 0; ticks = 0; errno = 0 }

pit_delay_lem_example :
    (idle.busy ≡ 0 → 2 < 3 → pit_delay idle 2 3 ≡ ok (done 0, 0))
    × (idle.busy ≡ 0 → 3 ≤ 2 → pit_delay idle 2 3 ≡ hang)
    × (idle.busy ≢ 0 → pit_delay idle 2 3 ≡ ok (record idle { errno = ebusy }, neg32 ebusy))
pit_delay_lem_example = pit_delay_lem idle 2 3

-- What the data port takes next, and the value that the counter is loaded with.
abbrev Timer : Type 0
Timer = Expects × ℕ

abbrev take_count : ℕ → Expects → Timer → Timer
take_count v count_low t = (count_high v, t.1)
take_count v (count_high l) t = (count_low, l + 256 * v)

abbrev io : Ports Timer
io = record {
  read_byte = λ h port. (h, 0);
  write_byte = λ h port v. if port == 0x43 then (count_low, h.1) else take_count v h.0 h;
  read_word = λ h port. (h, 0);
  write_word = λ h port v. h;
  read_long = λ h port. (h, 0);
  write_long = λ h port v. h;
}

io-Is8254 : Is8254 io (λ h. h.0) (λ h. h.1)
io-Is8254 = record {
  command = λ h. refl;
  low = λ h v e. ap (λ (x : Expects). (take_count (u8 v) x h).0) e;
  high = λ h l v e. ap (λ (x : Expects). (take_count (u8 v) x h).1) e;
}

abbrev idt : Idt Timer (Handler ℕ)
idt = record {
  kmem = record { heap = λ a. record { used = 0; size = 0; prev = 0; next = 0 }; errno = 0 };
  hardware = (count_low, 0);
  entries = none;
  handlers = some (replicate 256 none);
  limit = 2047;
}

pit_init_lem_example :
    (out : Idt Timer (Handler ℕ)) × (hs : List (Option (Handler ℕ))) × (pit_init io 5 idt 1000
      ≡ ok (out, 0))
    × (out.handlers ≡ some hs)
    × (get_or hs 0x20 none ≡ some (hooked 5))
    × (out.hardware.1 ≡ 1193)
    × (19 ≤ 1000 → out.hardware.1 ≡ 1193)
pit_init_lem_example =
    pit_init_lem io (λ h. h.0) (λ h. h.1) io-Is8254 5 idt (replicate 256 none) 1000 refl refl
      (λ e. absurd (omega arith))
