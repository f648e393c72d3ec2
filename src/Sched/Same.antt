-- ===== src/Sched/Same.antt =====
-- Which steps of the scheduler (sys/task.c) leave the links of the tasks alone.
use sbunix_64_bit_operating.Prelude.{
  ℕ, ◌+◌, ◌≡◌, refl, ◌∙◌, ◌≢◌, inl, inr, List, arith, ltb, ◌==◌, ==→eq, eq→==, ne→==, Bool-cases,
}
use sbunix_64_bit_operating.Kernel.{
  Kernel, Task, Saved, null, next_of, set_regs, set_running, update, move_to_next_process,
  ready_stack, change_to_alarm_function,
}
use sbunix_64_bit_operating.Sched.{enter, save_running, deliver_alarm}
use sbunix_64_bit_operating.Sched.View.{View, View-same}

-- Links and the queue, the fields that a view reads.
pub record SameLinks (k k' : Kernel) : Type 0 where
  pub links : (x : ℕ) → next_of k' x ≡ next_of k x
  pub queue : k'.delete_queue ≡ k.delete_queue
  pub pids : (x : ℕ) → (k'.tasks x).pid ≡ (k.tasks x).pid

-- A write that keeps a field of the task keeps it of all tasks.
pub update-keeps :
    (field : Task → ℕ) (p : ℕ) (t : Task) (k : Kernel)
    → field t ≡ field (k.tasks p)
    → (x : ℕ) → field ((update p t k).tasks x) ≡ field (k.tasks x)
unfolding update
update-keeps field p t k e x = elim (Bool-cases (x == p)) [
  | inl q ↦ rw (q, ==→eq x p q) e
  | inr q ↦ rw q refl
]

pub update-SameLinks :
    (p : ℕ) (t : Task) (k : Kernel)
    → t.next ≡ next_of k p
    → t.pid ≡ (k.tasks p).pid
    → SameLinks k (update p t k)
update-SameLinks p t k e d = record {
  links = update-keeps (λ t. t.next) p t k e;
  queue = update-queue;
  pids = update-keeps (λ t. t.pid) p t k d;
}
  where
    update-queue : (update p t k).delete_queue ≡ k.delete_queue
    update-queue = unfold update in refl

pub SameLinks-trans : {k k' k'' : Kernel} → SameLinks k k' → SameLinks k' k'' → SameLinks k k''
SameLinks-trans a b = record {
  links = λ x. b.links x ∙ a.links x;
  queue = b.queue ∙ a.queue;
  pids = λ x. b.pids x ∙ a.pids x;
}

pub View-SameLinks :
    {k k' : Kernel} {start : ℕ} {ring dead : List ℕ}
    → SameLinks k k'
    → View k start ring dead
    → View k' start ring dead
View-SameLinks s v = View-same s.links s.queue v

pub ready_stack-SameLinks : (p : ℕ) (k : Kernel) → SameLinks k (ready_stack p k)
unfolding ready_stack set_regs
ready_stack-SameLinks p k = elim (Bool-cases ((k.tasks p).regs.count == 0)) [
  | inl q ↦
      let r = (k.tasks p).regs in
      let t = record (k.tasks p) { regs = record r { add = 40; count = r.count + 1 } } in
      let u = update-SameLinks p t k refl refl in
      rw q (record { links = u.links; queue = u.queue; pids = u.pids })
  | inr q ↦
      let r = (k.tasks p).regs in
      let t = record (k.tasks p) { regs = record r { add = 0 } } in
      let u = update-SameLinks p t k refl refl in
      rw q (record { links = u.links; queue = u.queue; pids = u.pids })
]

pub enter-SameLinks : (k : Kernel) → SameLinks k (enter k)
unfolding enter move_to_next_process
enter-SameLinks k = record { links = λ x. refl; queue = refl; pids = λ x. refl }

pub set_running-SameLinks : (p : ℕ) (k : Kernel) → SameLinks k (set_running p k)
unfolding set_running
set_running-SameLinks p k = record { links = λ x. refl; queue = refl; pids = λ x. refl }

pub deliver_alarm-SameLinks : (k : Kernel) → SameLinks k (deliver_alarm k)
unfolding deliver_alarm
deliver_alarm-SameLinks k =
    elim (Bool-cases
      (ltb (k.tasks k.running).expected_alarm_count (k.tasks k.running).curr_alarm_count)) [
        | inl q ↦
            let t = k.tasks k.running in
            let t' = record t {
              function_pointer = null;
              curr_alarm_count = 0;
              expected_alarm_count = 0;
            } in
            let m = change_to_alarm_function t.function_pointer t.regs k.mmu in
            let u = update-SameLinks k.running t' (record k { mmu = m }) refl refl in
            rw q (record { links = u.links; queue = u.queue; pids = u.pids })
        | inr q ↦ rw q (record { links = λ x. refl; queue = refl; pids = λ x. refl })
      ]

pub save_running-SameLinks : (s : Saved) (k : Kernel) → SameLinks k (save_running s k)
unfolding save_running set_regs
save_running-SameLinks s k = update-SameLinks k.running _ k refl refl

pub set_running-regs : (p x : ℕ) (k : Kernel) → ((set_running p k).tasks x).regs ≡ (k.tasks x).regs
unfolding set_running
set_running-regs p x k = refl

pub set_running-running : (p : ℕ) (k : Kernel) → (set_running p k).running ≡ p
unfolding set_running
set_running-running p k = refl

pub ready_stack-running : (p : ℕ) (k : Kernel) → (ready_stack p k).running ≡ k.running
unfolding ready_stack set_regs update
ready_stack-running p k = ground arith

pub save_running-others :
    (s : Saved) (k : Kernel) (x : ℕ)
    → x ≢ k.running
    → ((save_running s k).tasks x).regs ≡ (k.tasks x).regs
unfolding save_running set_regs update
save_running-others s k x h = rw (ne→== x k.running h) refl

pub save_running-running : (s : Saved) (k : Kernel) → (save_running s k).running ≡ k.running
unfolding save_running set_regs update
save_running-running s k = refl

pub save_running_self :
    (s : Saved) (k : Kernel)
    → ((save_running s k).tasks k.running).regs ≡ record ((k.tasks k.running).regs) {
      kernel_rsp = s.rsp;
      rax = s.rax;
      rbx = s.rbx;
      rcx = s.rcx;
      rdx = s.rdx;
      rsi = s.rsi;
      rdi = s.rdi;
      rbp = s.rbp;
    }
unfolding save_running set_regs update
save_running_self s k = rw (eq→== k.running k.running refl) refl

pub deliver_alarm-running : (k : Kernel) → (deliver_alarm k).running ≡ k.running
unfolding deliver_alarm update
deliver_alarm-running k = ground arith
