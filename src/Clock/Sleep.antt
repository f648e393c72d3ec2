-- ===== src/Clock/Sleep.antt =====
-- Sleep and alarms (sys/task.c).
use sbunix_64_bit_operating.Prelude.{
  ℕ, zero, suc, ◌+◌, ◌<◌, ◌≡◌, refl, arith, leb, if◌then◌else◌, eq→==,
}
use sbunix_64_bit_operating.Paging.{word_mod}
use sbunix_64_bit_operating.Kernel.{Kernel, update}
use sbunix_64_bit_operating.Clock.{set_sleep, get_counter, tick_task}

-- The running task after some seconds.
abbrev pub seconds_later : ℕ → Kernel → Kernel
seconds_later zero k = k
seconds_later (suc n) k = tick_task k.running (seconds_later n k)

seconds_later-running : (n : ℕ) (k : Kernel) → (seconds_later n k).running ≡ k.running
unfolding tick_task update
seconds_later-running zero k = refl
seconds_later-running (suc n) k = seconds_later-running n k

-- What the seconds make of a task whose counter for sleep runs.
sleep_counts :
    (n : ℕ) (k : Kernel)
    → (k.tasks k.running).curr_sleep_count ≡ 1
    → n + 1 < word_mod
    → (((seconds_later n k).tasks k.running).curr_sleep_count ≡ n + 1)
      × (((seconds_later n k).tasks k.running).expected_sleep_count
          ≡ (k.tasks k.running).expected_sleep_count)
unfolding tick_task update
sleep_counts zero k h l = (h, refl)
sleep_counts (suc n) k h l =
    let (c, e) = sleep_counts n k h (omega (arith, l)) in
    (ground (arith, c, l, eq→== k.running k.running refl), rw (eq→== k.running k.running refl) e)

set_sleep-counts :
    (s : ℕ) (k : Kernel)
    → (((set_sleep s k).tasks (set_sleep s k).running).curr_sleep_count ≡ 1)
      × (((set_sleep s k).tasks (set_sleep s k).running).expected_sleep_count ≡ s)
unfolding set_sleep update
set_sleep-counts s k = rw (eq→== k.running k.running refl) (refl, refl)

-- A sleep of `s` seconds is over once `s` seconds have been counted, and not before.
pub get_counter-set_sleep :
    (s t : ℕ) (k : Kernel)
    → t + 1 < word_mod
    → (get_counter (seconds_later t (set_sleep s k))).0 ≡ (if leb s t then 1 else 0)
unfolding get_counter
get_counter-set_sleep s t k h =
    let k0 = set_sleep s k in
    let (begun, wanted) = set_sleep-counts s k in
    let (c, e) = sleep_counts t k0 begun h in
    let r : (seconds_later t k0).running ≡ k0.running = seconds_later-running t k0 in
    rw (r, c, e, wanted) (ground arith)
