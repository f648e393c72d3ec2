-- ===== src/Clock.antt =====
-- The interrupts of the timer and of the real-time clock (sys/idt.c), and the counters for sleep and
-- alarms (sys/task.c). The bars on the screen and the acknowledgements to the controller are left
-- out.
pub mod Ring
pub mod Boot
pub mod Rtc
pub mod Sleep
use sbunix_64_bit_operating.Prelude.{
  ℕ, zero, suc, ◌+◌, ◌-◌, ◌*◌, ◌/◌, ◌%◌, ◌&&◌, not, Option, none, some, ltb, leb, ◌==◌,
  if◌then◌else◌, test_bit, ◌>>=◌,
}
use sbunix_64_bit_operating.Paging.{word_mod}
use sbunix_64_bit_operating.Kernel.{Kernel, Task, Saved, Time, null, next_of, update}
use sbunix_64_bit_operating.Sched.{run_next_task}

-- `i`, `j`, `hour`, `minute` and `seconds` of the timer.
pub record Timer : Type 0 where
  pub i : ℕ
  pub j : ℕ
  pub hour : ℕ
  pub minute : ℕ
  pub seconds : ℕ

-- A counter that runs is one more.
abbrev pub bump : ℕ → ℕ
bump n = if leb 1 n then (n + 1) % word_mod else n

abbrev pub ticked : Task → Task
ticked t = record t {
  curr_alarm_count = bump t.curr_alarm_count;
  curr_sleep_count = bump t.curr_sleep_count;
}

unfoldable pub tick_task : ℕ → Kernel → Kernel
tick_task p k = update p (ticked (k.tasks p)) k

-- The `while` over the other tasks.
unfoldable pub tick_ring : (fuel : ℕ) → (temp : ℕ) → Kernel → Option Kernel
tick_ring zero temp k = none
tick_ring (suc n) temp k =
    let k1 = tick_task temp k in
    let rest = tick_ring n (next_of k1 temp) k1 in if temp == k.running then some k else rest

unfoldable pub tick_all : (fuel : ℕ) → Kernel → Option Kernel
tick_all fuel k = let k1 = tick_task k.running k in tick_ring fuel (next_of k1 k1.running) k1

-- The carry from seconds to minutes and hours.
unfoldable pub carry : Timer → Timer
carry t =
    if t.seconds % 60 == 0
    then (if (t.minute + 1) % 60 == 0
        then record t { seconds = t.seconds % 60; minute = (t.minute + 1) % 60; hour = t.hour + 1 }
        else record t { seconds = t.seconds % 60; minute = t.minute + 1 })
    else t

-- `_timer_intr_hdlr`: every 19th interrupt is a second, and of the others every third turns to the
-- next task, unless a system call holds the mutex.
unfoldable pub timer_intr : (fuel : ℕ) → Saved → Timer × Kernel → Option (Timer × Kernel)
timer_intr fuel s (t, k) =
    let t1 = record t { i = t.i + 1; j = t.j + 1 } in
    if t1.i % 19 == 0
    then (do k1 ← tick_all fuel k; some (carry (record t1 { i = 0; seconds = t1.seconds + 1 }), k1))
    else (if t1.j % 3 == 0
        then some (record t1 { j = 0 }, (if k.mutex == 1 then k else run_next_task s k))
        else some (t1, k))

-- The two halves of a byte as decimal digits, in a signed char.
unfoldable pub from_bcd : ℕ → ℕ
from_bcd b = if ltb b 128 then b / 16 * 10 + b % 16 else (2560 + b % 16 - (256 - b) / 16 * 10) % 256

-- The hour five behind, in a signed char.
unfoldable pub new_york : ℕ → ℕ
new_york h = if ltb h 128 && leb 5 h then h - 5 else (h + 19) % 256

-- `_rtc_intr_hndlr` in the interrupts in which it reads the clock: the four registers read, and
-- the time. Characters are bytes.
unfoldable pub rtc_time : (second minute hour regb : ℕ) → Time
rtc_time second minute hour regb =
    let bcd = not (test_bit regb 2) in
    let m = if bcd then from_bcd minute else minute in
    let h = if bcd then hour % 16 + hour / 16 % 8 * 10 else hour in
    let h24 = if not (test_bit regb 1) && test_bit h 7 then (h % 128 + 12) % 24 else h in
    record { hours = new_york h24; minutes = m; seconds = from_bcd second }

-- The counter `rtc_read_timeout` and the clock after an interrupt.
unfoldable pub rtc_intr : (second minute hour regb : ℕ) → ℕ × Kernel → ℕ × Kernel
rtc_intr second minute hour regb (n, k) =
    if (n + 1) % 19 == 0
    then (0, record k { clock = rtc_time second minute hour regb })
    else (n + 1, k)

unfoldable pub set_sleep : (seconds : ℕ) → Kernel → Kernel
set_sleep seconds k =
    update k.running
      (record (k.tasks k.running) { curr_sleep_count = 1; expected_sleep_count = seconds }) k

unfoldable pub get_counter : Kernel → ℕ × Kernel
get_counter k =
    let t = k.tasks k.running in
    if ltb t.expected_sleep_count t.curr_sleep_count
    then (1, update k.running (record t { curr_sleep_count = 0; expected_sleep_count = 0 }) k)
    else (0, k)

-- `setAlarmFP` takes SIGALRM only.
unfoldable pub set_alarm_fp : (sig_num function_pointer : ℕ) → Kernel → ℕ × Kernel
set_alarm_fp sig_num function_pointer k =
    if sig_num == 14
    then (
      function_pointer,
      update k.running (record (k.tasks k.running) { function_pointer = function_pointer }) k,
    )
    else (0, k)

-- `setAlarm` answers what was left of the alarm before.
unfoldable pub set_alarm : (seconds : ℕ) → Kernel → ℕ × Kernel
set_alarm seconds k =
    let t = k.tasks k.running in
    let left =
      if t.curr_alarm_count == 0
      then 0
      else (t.expected_alarm_count + word_mod - t.curr_alarm_count) % word_mod in
    if t.function_pointer == null then (0, k) else (
      left,
      update k.running (record t { curr_alarm_count = 1; expected_alarm_count = seconds }) k,
    )
