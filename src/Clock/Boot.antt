-- ===== src/Clock/Boot.antt =====
-- The time since the start, which `_timer_intr_hdlr` (sys/idt.c) counts.
use sbunix_64_bit_operating.Prelude.{
  ℕ, ◌+◌, ◌*◌, ◌%◌, ◌≤◌, ◌<◌, ◌≡◌, refl, sym, ◌∙◌, ◌≢◌, ◌⊎◌, inl, inr, Bool, true, false, ◌&&◌, not,
  some, List, ◌∷◌, arith, ◌==◌, if◌then◌else◌, ==→eq, eq→==, ne→==, Bool-cases, length,
}
use sbunix_64_bit_operating.Kernel.{Kernel, Saved}
use sbunix_64_bit_operating.Sched.{run_next_task}
use sbunix_64_bit_operating.Sched.View.{View}
use sbunix_64_bit_operating.Clock.{Timer, timer_intr, carry}
use sbunix_64_bit_operating.Clock.Ring.{Ticked, tick_all-Ticked}

-- Minutes, seconds and the count of interrupts stay in their ranges.
pub record InRange (t : Timer) : Type 0 where
  pub i_range : t.i < 19
  pub minute_range : t.minute < 60
  pub seconds_range : t.seconds < 60

abbrev pub uptime : Timer → ℕ
uptime t = t.hour * 3600 + t.minute * 60 + t.seconds

carry-uptime :
    (t : Timer)
    → (t.i < 19) × (t.minute < 60) × (0 < t.seconds) × (t.seconds ≤ 60)
    → InRange (carry t) × (uptime (carry t) ≡ uptime t)
unfolding carry
carry-uptime t h = elim (Bool-cases (t.seconds % 60 == 0)) [
  | inl q ↦ elim (Bool-cases ((t.minute + 1) % 60 == 0)) [
    | inl r ↦
        rw (q, r)
          (
            record { i_range = h.0; minute_range = omega arith; seconds_range = omega arith },
            ground (arith, ==→eq _ 0 q, ==→eq _ 0 r, h.1, h.2, h.3),
          )
    | inr r ↦
        rw (q, r)
          (
            record {
              i_range = h.0;
              minute_range = ground (arith, h.1);
              seconds_range = omega arith;
            },
            ground (arith, ==→eq _ 0 q, h.1, h.2, h.3),
          )
  ]
  | inr q ↦
      rw q (record { i_range = h.0; minute_range = h.1; seconds_range = ground (arith, h.3) }, refl)
]

carry-i : (t : Timer) → (carry t).i ≡ t.i
unfolding carry
carry-i t = ground arith

carry-j : (t : Timer) → (carry t).j ≡ t.j
unfolding carry
carry-j t = ground arith

-- What an interrupt of the timer does to its counters.
pub record Counted (t t' : Timer) : Type 0 where
  pub in_range : InRange t'
  pub count : t'.i ≡ (t.i + 1) % 19
  pub time : uptime t' ≡ (if t.i == 18 then uptime t + 1 else uptime t)
  pub turns : t'.j ≡ (if t.i == 18 then t.j + 1 else if (t.j + 1) % 3 == 0 then 0 else t.j + 1)

turn : (b : Bool) (k k' : Kernel) → (if b then k else k') ≡ (if true && not b then k' else k)
turn true k k' = refl
turn false k k' = refl

-- From counters in range the timer's interrupt returns within one round of the ring. It keeps the
-- ranges, and the time since the start grows by one second in every 19th interrupt; in it all tasks
-- are ticked. Every interrupt adds one to the count of turns; in one that is not the 19th and in which
-- this count is then a multiple of 3, it goes back to 0 and the next task gets its turn, if the mutex is
-- free; in the others the tasks stay as they are.
pub timer_intr-Counted :
    (fuel : ℕ) (s : Saved) (ring dead : List ℕ) (t : Timer) (k : Kernel)
    → View k k.running ring dead
    → InRange t
    → length ring < fuel
    → (t' : Timer) × (k' : Kernel) × (timer_intr fuel s (t, k) ≡ some (t', k'))
      × Counted t t'
      × ((t.i ≡ 18) × Ticked (k.running ∷ ring) k k'
          ⊎ (t.i ≢ 18)
            × (k' ≡ (if (t.j + 1) % 3 == 0 && not (k.mutex == 1) then run_next_task s k else k)))
unfolding timer_intr
timer_intr-Counted fuel s ring dead t k v r l = elim (Bool-cases ((t.i + 1) % 19 == 0)) [
  | inl q ↦
      let (k', run, ticks, v') = tick_all-Ticked fuel ring dead k v l in
      let e : t.i ≡ 18 = ground (arith, r.i_range) in
      let t1 = record t { i = 0; j = t.j + 1; seconds = t.seconds + 1 } in
      let (range, time) =
        carry-uptime t1
          (omega arith, r.minute_range, omega arith, omega (arith, r.seconds_range)) in
      (
        carry t1,
        k',
        rw (q, run) refl,
        record {
          in_range = range;
          count = carry-i t1 ∙ sym (==→eq _ 0 q);
          time = time ∙ ground (arith, eq→== t.i 18 e);
          turns = carry-j t1 ∙ sym (rw (eq→== t.i 18 e) refl);
        },
        inl (e, ticks),
      )
  | inr q ↦
      let other : t.i ≢ 18 = λ e. ground (arith, q, e) in
      let count : t.i + 1 ≡ (t.i + 1) % 19 = ground (arith, r.i_range) in
      elim (Bool-cases ((t.j + 1) % 3 == 0)) [
        | inl u ↦ (
          record t { i = t.i + 1; j = 0 },
          (if k.mutex == 1 then k else run_next_task s k),
          rw (q, u) refl,
          record {
            in_range = record {
              i_range = ground (arith, r.i_range);
              minute_range = r.minute_range;
              seconds_range = r.seconds_range;
            };
            count = count;
            time = rw (ne→== t.i 18 other) refl;
            turns = rw (ne→== t.i 18 other, u) refl;
          },
          inr (other, rw u (turn (k.mutex == 1) k (run_next_task s k))),
        )
        | inr u ↦ (
          record t { i = t.i + 1; j = t.j + 1 },
          k,
          rw (q, u) refl,
          record {
            in_range = record {
              i_range = ground (arith, r.i_range);
              minute_range = r.minute_range;
              seconds_range = r.seconds_range;
            };
            count = count;
            time = rw (ne→== t.i 18 other) refl;
            turns = rw (ne→== t.i 18 other, u) refl;
          },
          inr (other, rw u refl),
        )
      ]
]
