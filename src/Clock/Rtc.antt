-- ===== src/Clock/Rtc.antt =====
-- The conversion of the real-time clock's registers (sys/idt.c).
use sbunix_64_bit_operating.Prelude.{
  ℕ, ◌+◌, ◌*◌, ◌/◌, ◌%◌, ◌<◌, ◌≡◌, refl, true, false, arith, test_bit,
}
use sbunix_64_bit_operating.Clock.{rtc_time, from_bcd, new_york}

-- A number below 100 in two decimal digits.
abbrev pub to_bcd : ℕ → ℕ
to_bcd n = n / 10 * 16 + n % 10

from_bcd-to_bcd : (n : ℕ) → n < 60 → from_bcd (to_bcd n) ≡ n
unfolding from_bcd
from_bcd-to_bcd n h = ground arith

hour_digits : (h : ℕ) → h < 24 → to_bcd h % 16 + to_bcd h / 16 % 8 * 10 ≡ h
hour_digits h l = omega arith

new_york_lem : (h : ℕ) → h < 24 → new_york h ≡ (h + 19) % 24
unfolding new_york
new_york_lem h l = ground arith

-- In the clock's 24-hour mode with decimal registers the time read is the clock's, the hour five
-- behind.
pub rtc_time-bcd :
    (h m s regb : ℕ)
    → (h < 24) × (m < 60) × (s < 60)
    → (test_bit regb 1 ≡ true) × (test_bit regb 2 ≡ false)
    → rtc_time (to_bcd s) (to_bcd m) (to_bcd h) regb
      ≡ record { hours = (h + 19) % 24; minutes = m; seconds = s }
unfolding rtc_time
rtc_time-bcd h m s regb l b =
    rw
      (
        b.0,
        b.1,
        hour_digits h l.0,
        new_york_lem h l.0,
        from_bcd-to_bcd m l.1,
        from_bcd-to_bcd s l.2,
      )
      refl
