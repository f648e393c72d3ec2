-- ===== src/Sched/Enter.antt =====
-- How a task is entered: its stack, its tables and the mutex (sys/task.c, sys/task.s).
use sbunix_64_bit_operating.Prelude.{
  ℕ, ◌+◌, ◌-◌, ◌≤◌, ◌≡◌, refl, sym, ap, ◌∙◌, ◌≢◌, inl, inr, arith, ltb, ◌==◌, if◌then◌else◌,
  Bool-cases, eq→==, ne→==,
}
use sbunix_64_bit_operating.Kernel.{
  Kernel, Registers, cpu_of, set_regs, set_running, update, move_to_next_process, ready_stack,
}
use sbunix_64_bit_operating.Sched.{enter, deliver_alarm}
use sbunix_64_bit_operating.Sched.Same.{ready_stack-running, deliver_alarm-running}

-- The registers of a task when it is entered: on the first entry the prepared interrupt frame of 40 bytes
-- is taken, later the stack as it was left.
abbrev pub entered_regs : Registers → Registers
entered_regs r =
    if r.count == 0 then record r { add = 40; count = r.count + 1 } else record r { add = 0 }

-- The task `p` runs with the registers `r` that it had: the processor has its general registers, its
-- tables, and its own kernel stack, at the frame that `iretq` takes; 40 bytes above lies the stack of
-- its next interrupt. The task keeps these registers.
pub record IsEntered (p : ℕ) (r : Registers) (k : Kernel) : Type 0 where
  pub now_running : k.running ≡ p
  pub own_stack : k.cpu_rsp ≡ (if r.count == 0 then r.kernel_rsp - 40 else r.kernel_rsp)
  pub frame_below : k.tss_rsp ≡ k.cpu_rsp + 40
  pub own_tables : k.cpu_cr3 ≡ r.cr3
  pub own_registers : k.cpu ≡ cpu_of r
  pub kept : (k.tasks p).regs ≡ entered_regs r
  pub unlocked : k.mutex ≡ 0

-- What `ready_stack` has arranged for the task `p` with the registers `r`.
pub record IsReady (p : ℕ) (r : Registers) (k : Kernel) : Type 0 where
  pub frame_ready : k.tss_rsp ≡ (entered_regs r).kernel_rsp - (entered_regs r).add + 40
  pub regs_ready : (k.tasks p).regs ≡ entered_regs r

pub ready_stack-IsReady :
    (p : ℕ) (k : Kernel)
    → 40 ≤ (k.tasks p).regs.kernel_rsp
    → IsReady p ((k.tasks p).regs) (ready_stack p k)
unfolding ready_stack set_regs update
ready_stack-IsReady p k h = elim (Bool-cases ((k.tasks p).regs.count == 0)) [
  | inl q ↦ record { frame_ready = rw q (omega arith); regs_ready = rw (q, eq→== p p refl) refl }
  | inr q ↦ record { frame_ready = rw q (omega arith); regs_ready = rw (q, eq→== p p refl) refl }
]

deliver_alarm-regs :
    (p : ℕ) (k : Kernel) → k.running ≡ p → ((deliver_alarm k).tasks p).regs ≡ (k.tasks p).regs
unfolding deliver_alarm update
deliver_alarm-regs p k e =
    elim (Bool-cases
      (ltb (k.tasks k.running).expected_alarm_count (k.tasks k.running).curr_alarm_count)) [
        | inl q ↦ rw (q, e, eq→== p p refl) refl
        | inr q ↦ rw q refl
      ]

pub deliver_alarm-IsReady :
    (p : ℕ) (r : Registers) (k : Kernel)
    → k.running ≡ p
    → IsReady p r k
    → IsReady p r (deliver_alarm k)
unfolding deliver_alarm update
deliver_alarm-IsReady p r k e h = record {
  frame_ready = ground (arith, h.frame_ready);
  regs_ready = deliver_alarm-regs p k e ∙ h.regs_ready;
}

entered_stack :
    (r : Registers)
    → (entered_regs r).kernel_rsp - (entered_regs r).add
      ≡ (if r.count == 0 then r.kernel_rsp - 40 else r.kernel_rsp)
entered_stack r = elim (Bool-cases (r.count == 0)) [
  | inl q ↦ rw q refl
  | inr q ↦ rw q (omega arith)
]

entered_tables : (r : Registers) → (entered_regs r).cr3 ≡ r.cr3
entered_tables r = elim (Bool-cases (r.count == 0)) [ inl q ↦ rw q refl | inr q ↦ rw q refl ]

entered_cpu : (r : Registers) → cpu_of (entered_regs r) ≡ cpu_of r
entered_cpu r = elim (Bool-cases (r.count == 0)) [ inl q ↦ rw q refl | inr q ↦ rw q refl ]

pub enter-IsEntered :
    (p : ℕ) (r : Registers) (k : Kernel) → k.running ≡ p → IsReady p r k → IsEntered p r (enter k)
unfolding enter move_to_next_process
enter-IsEntered p r k e h =
    let same : (k.tasks k.running).regs ≡ entered_regs r =
      ap (λ q. (k.tasks q).regs) e ∙ h.regs_ready in
    record {
      now_running = e;
      own_stack = ap (λ s. s.kernel_rsp - s.add) same ∙ entered_stack r;
      frame_below = h.frame_ready ∙ ap (λ s. s.kernel_rsp - s.add + 40) (sym same);
      own_tables = ap (λ s. s.cr3) same ∙ entered_tables r;
      own_registers = ap cpu_of same ∙ entered_cpu r;
      kept = h.regs_ready;
      unlocked = refl;
    }

-- The end of `exit` and of `deleteRunningThreadAndJump`.
pub enter_ready :
    (p : ℕ) (k : Kernel)
    → 40 ≤ (k.tasks p).regs.kernel_rsp
    → IsEntered p ((k.tasks p).regs) (enter (set_running p (ready_stack p k)))
unfolding set_running
enter_ready p k h =
    let r = ready_stack-IsReady p k h in
    enter-IsEntered p ((k.tasks p).regs) (set_running p (ready_stack p k)) refl
      (record { frame_ready = r.frame_ready; regs_ready = r.regs_ready })

pub enter_following :
    (p : ℕ) (k : Kernel)
    → 40 ≤ (k.tasks p).regs.kernel_rsp
    → k.running ≡ p
    → IsEntered p ((k.tasks p).regs) (enter (deliver_alarm (ready_stack p k)))
enter_following p k h e =
    let kr = ready_stack p k in
    let er = ready_stack-running p k ∙ e in
    enter-IsEntered p ((k.tasks p).regs) (deliver_alarm kr) (deliver_alarm-running kr ∙ er)
      (deliver_alarm-IsReady p ((k.tasks p).regs) kr er (ready_stack-IsReady p k h))

-- The registers of a task that is not entered stay.
pub other_regs :
    (p x : ℕ) (k : Kernel)
    → x ≢ p
    → k.running ≡ p
    → ((enter (deliver_alarm (ready_stack p k))).tasks x).regs ≡ (k.tasks x).regs
unfolding enter deliver_alarm ready_stack move_to_next_process set_regs update
other_regs p x k h e = ground (arith, ne→== x p h)
