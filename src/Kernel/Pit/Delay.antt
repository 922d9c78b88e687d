-- ===== src/Kernel/Pit/Delay.antt =====
-- `pit_delay` of kernel/dev/pit.c returns.
use foos.Prelude.{
  ℕ, zero, suc, ◌-◌, ◌<◌, ◌≤◌, ◌≡◌, ◌≢◌, refl, ap, ◌∙◌, arith, true, false, ltb, ◌==◌,
}
use foos.Machine.{Run, ok, hang, ◌>>=◌, neg32, ebusy}
use foos.Kernel.Pit.{Pit, pit_irq, wait, pit_delay}

abbrev counting : ℕ → ℕ → Pit
counting errno t = record { busy = 1; ticks = t; errno = errno }

abbrev pub done : ℕ → Pit
done errno = record { busy = 0; ticks = 0; errno = errno }

pit_irq_step : (e t : ℕ) → pit_irq (counting e (suc t)) ≡ counting e t
unfolding pit_irq
pit_irq_step e t =
    let u : ltb 0 (suc t) ≡ true = ground arith in
    let d : suc t - 1 ≡ t = omega arith in rw (u, d) refl

wait-done : (e n : ℕ) → wait (done e) n ≡ ok (done e)
unfolding wait
wait-done e zero = refl
wait-done e (suc n) = refl

wait-first : (e n : ℕ) → wait (pit_irq (counting e 0)) n ≡ ok (done e)
unfolding pit_irq
wait-first e n = wait-done e n

wait-ok : (e t n : ℕ) → t < n → wait (counting e t) n ≡ ok (done e)
unfolding wait
wait-ok e t zero lt = absurd (omega arith)
wait-ok e zero (suc n) lt = wait-first e n
wait-ok e (suc t) (suc n) lt =
    ap (λ (s : Pit). wait s n) (pit_irq_step e t) ∙ wait-ok e t n (omega arith)

wait-hang : (e t n : ℕ) → n ≤ t → wait (counting e t) n ≡ hang
unfolding wait
wait-hang e t zero le = refl
wait-hang e zero (suc n) le = absurd (omega arith)
wait-hang e (suc t) (suc n) le =
    ap (λ (s : Pit). wait s n) (pit_irq_step e t) ∙ wait-hang e t n (omega arith)

-- A delay of `ticks` ends with 0 at the interrupt number `ticks + 1` and no sooner, with the timer free for
-- the next delay. A delay within a delay is refused with EBUSY and does not disturb the one that runs.
pub pit_delay_lem :
    (s : Pit) (ticks irqs : ℕ)
    → (s.busy ≡ 0 → ticks < irqs → pit_delay s ticks irqs ≡ ok (done s.errno, 0))
      × (s.busy ≡ 0 → irqs ≤ ticks → pit_delay s ticks irqs ≡ hang)
      × (s.busy ≢ 0 → pit_delay s ticks irqs ≡ ok (record s { errno = ebusy }, neg32 ebusy))
unfolding pit_delay
pit_delay_lem s ticks irqs = (
  λ free enough.
      rw free (ap (λ (r : Run Pit). r >>= λ p. ok (p, 0)) (wait-ok s.errno ticks irqs enough)),
  λ free few.
      rw free (ap (λ (r : Run Pit). r >>= λ p. ok (p, 0)) (wait-hang s.errno ticks irqs few)),
  λ taken. (let t : (s.busy == 0) ≡ false = ground arith in rw t refl),
)
