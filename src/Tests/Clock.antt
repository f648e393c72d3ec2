-- ===== src/Tests/Clock.antt =====
-- Tests of the timer, the clock and the keyboard.
use sbunix_64_bit_operating.Prelude.{
  ◌+◌, ◌%◌, ◌≡◌, refl, ◌≢◌, ◌⊎◌, Bool, true, false, ◌&&◌, not, some, [], ◌∷◌, arith, ◌==◌,
  if◌then◌else◌,
}
use sbunix_64_bit_operating.Kernel.{Kernel}
use sbunix_64_bit_operating.Sched.{run_next_task}
use sbunix_64_bit_operating.Sched.View.{View}
use sbunix_64_bit_operating.Sched.Enter.{IsEntered}
use sbunix_64_bit_operating.Clock.{Timer, timer_intr}
use sbunix_64_bit_operating.Clock.Ring.{Ticked}
use sbunix_64_bit_operating.Clock.Boot.{Counted, timer_intr-Counted}
use sbunix_64_bit_operating.Keyboard.{Keyboard, Input, key_press, plain_code, is_silent}
use sbunix_64_bit_operating.Keyboard.Keys.{AllPlain, control_c-View}
use sbunix_64_bit_operating.Tests.Tasks.{running_at, saved, registers, View-at_100, View-at_200}

abbrev last_of_second : Timer
last_of_second = record { i = 18; j = 2; hour = 0; minute = 59; seconds = 59 }

timer_intr-Counted_example :
    (t' : Timer) × (k' : Kernel) × (timer_intr 10 saved (last_of_second, running_at 200)
      ≡ some (t', k'))
    × Counted last_of_second t'
    × ((last_of_second.i ≡ 18) × Ticked (200 ∷ 300 ∷ 100 ∷ []) (running_at 200) k'
        ⊎ (last_of_second.i ≢ 18)
          × (k' ≡ (
              if (last_of_second.j + 1) % 3 == 0 && not ((running_at 200).mutex == 1)
              then run_next_task saved (running_at 200)
              else running_at 200)))
timer_intr-Counted_example =
    timer_intr-Counted 10 saved (300 ∷ 100 ∷ []) (400 ∷ []) last_of_second (running_at 200)
      View-at_200
      (record { i_range = omega arith; minute_range = omega arith; seconds_range = omega arith })
      (omega arith)

abbrev empty_input : Input
empty_input = record {
  bytes = λ p. 0;
  std_start = 0x8000;
  write_position = 0x8000;
  read_position = 0x8000;
  end_position = 0x9000;
  indicator = false;
  readline = 0;
}

abbrev pub keyboard_with : (control : Bool) → Keyboard
keyboard_with control = record { shift = false; control = control; input = empty_input }

-- The keys L and S.
pub ls-AllPlain : AllPlain (38 ∷ 31 ∷ [])
unfolding is_silent plain_code
ls-AllPlain = (
  record {
    goes_down = refl;
    not_shift = refl;
    not_control = refl;
    not_backspace = refl;
    not_enter = refl;
    not_space = refl;
    not_silent = refl;
    no_newline = refl;
  },
  (
    record {
      goes_down = refl;
      not_shift = refl;
      not_control = refl;
      not_backspace = refl;
      not_enter = refl;
      not_space = refl;
      not_silent = refl;
      no_newline = refl;
    },
    tt,
  ),
)

-- The foreground process is the one with the pid 2, the task 200.
control_c-View_example :
    (k' : Kernel) × (key_press 10 46 (keyboard_with true, running_at 100)
      ≡ some (keyboard_with true, k'))
    × View k' 300 (100 ∷ []) (400 ∷ 200 ∷ [])
    × IsEntered 300 (registers 300) k'
    × ((k'.tasks 200).state ≡ 0)
control_c-View_example =
    control_c-View 10 200 300 [] (300 ∷ []) (100 ∷ []) (400 ∷ []) (keyboard_with true)
      (running_at 100) refl refl View-at_100 refl (omega arith, omega arith) refl tt (omega arith)
      (omega arith)
