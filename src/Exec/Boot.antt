-- ===== src/Exec/Boot.antt =====
-- The state in which the first task starts (sys/task.c).
use sbunix_64_bit_operating.Prelude.{
  ℕ, ◌+◌, ◌≤◌, ◌≡◌, refl, sym, ap, ◌∙◌, subst, ◌≢◌, List, [], arith, eq→==, ne→==,
}
use sbunix_64_bit_operating.Kernel.{
  Kernel, Task, Time, null, next_of, set_next, set_regs, set_running, update, get_next_page_num,
}
use sbunix_64_bit_operating.Areas.{stack_for_user}
use sbunix_64_bit_operating.Sched.View.{View}
use sbunix_64_bit_operating.Exec.{put_arguments, push_params}
use sbunix_64_bit_operating.Exec.Ring.{bare, IsStarted, IsStarted-bare}
use sbunix_64_bit_operating.Exec.First.{
  sbush_path, push_initial_params, create_new_task, switch_to_ring_three, switch_to_user_mode,
  start_first,
}

module _ (task function rflags cr3 : ℕ) (k : Kernel) where
  abbrev made : Kernel
  made = (create_new_task task function rflags cr3 k).1

  create_new_task-rest : (made.running ≡ k.running) × (made.delete_queue ≡ k.delete_queue)
  unfolding create_new_task stack_for_user push_initial_params push_params put_arguments update
      get_next_page_num
  create_new_task-rest = (refl, refl)

  create_new_task-IsStarted :
      IsStarted (k.pid_count + 1) function cr3 ((k.tasks task).exe_name) (made.tasks task)
  unfolding create_new_task stack_for_user push_initial_params push_params put_arguments update
      get_next_page_num
  create_new_task-IsStarted =
      rw (eq→== task task refl)
        (record { same_pid = refl; entry = refl; tables = refl; alive = refl; named = refl })

  create_new_task-stack :
      ((made.tasks task).regs.count ≡ 0) × (40 ≤ (made.tasks task).regs.kernel_rsp)
  unfolding create_new_task stack_for_user push_initial_params push_params put_arguments update
      get_next_page_num
  create_new_task-stack = rw (eq→== task task refl) (refl, omega arith)

-- The task `p` is entered, and of the tasks it alone is written.
switch_to_user_mode_lem :
    (p : ℕ) (k : Kernel)
    → next_of k k.running ≡ p
    → (k.tasks p).regs.count ≡ 0
    → 40 ≤ (k.tasks p).regs.kernel_rsp
    → let k' = switch_to_user_mode k in
      (k'.running ≡ p)
      × (k'.delete_queue ≡ k.delete_queue)
      × (bare (k'.tasks p) ≡ bare (k.tasks p))
      × ((k'.tasks p).next ≡ (k.tasks p).next)
      × (k'.cpu_cr3 ≡ (k.tasks p).regs.cr3)
      × (k'.tss_rsp ≡ k'.cpu_rsp + 40)
unfolding switch_to_user_mode switch_to_ring_three set_regs set_running update
switch_to_user_mode_lem p k e c h =
    rw (e, c, eq→== p p refl) (refl, refl, refl, refl, refl, omega arith)

IsStarted-linked :
    {pid function cr3 : ℕ} {path : List ℕ} {t : Task} (next : ℕ) (start : Time)
    → IsStarted pid function cr3 path t
    → IsStarted pid function cr3 path (record t { next = next; start = start })
IsStarted-linked next start i = record {
  same_pid = i.same_pid;
  entry = i.entry;
  tables = i.tables;
  alive = i.alive;
  named = i.named;
}

abbrev linked : (task : ℕ) → Kernel → Kernel
linked task k =
    let k2 = set_next task task (set_next k.running task k) in
    update task (record (k2.tasks task) { start = k2.clock }) k2

linked_lem :
    (task : ℕ) (k : Kernel)
    → k.running ≢ task
    → ((linked task k).running ≡ k.running)
      × ((linked task k).delete_queue ≡ k.delete_queue)
      × (((linked task k).tasks k.running).next ≡ task)
      × ((linked task k).tasks task ≡ record (k.tasks task) { next = task; start = k.clock })
unfolding set_next update
linked_lem task k apart =
    rw
      (
        eq→== task task refl,
        eq→== k.running k.running refl,
        ne→== k.running task apart,
        ne→== task k.running (λ e. apart (sym e)),
      )
      (refl, refl, refl, refl)

-- A ring of one task, and no ended ones.
View-alone :
    (k : Kernel) (task : ℕ)
    → next_of k task ≡ task
    → k.delete_queue ≡ null
    → task ≢ null
    → View k task [] []
View-alone k task e empty n = record {
  links = e;
  queue = empty;
  distinct = λ p. ground arith;
  nonnull = ground (arith, ne→== null task (λ e. n (sym e)));
}

-- From a task that is made to the task that runs.
first_runs :
    (task pid function cr3 : ℕ) (path : List ℕ) (k : Kernel)
    → k.running ≢ task
    → task ≢ null
    → k.delete_queue ≡ null
    → ((k.tasks task).regs.count ≡ 0) × (40 ≤ (k.tasks task).regs.kernel_rsp)
    → IsStarted pid function cr3 path (k.tasks task)
    → let k' = switch_to_user_mode (linked task k) in
      View k' task [] []
      × IsStarted pid function cr3 path (k'.tasks task)
      × (k'.running ≡ task)
      × (k'.cpu_cr3 ≡ cr3)
      × (k'.tss_rsp ≡ k'.cpu_rsp + 40)
first_runs task pid function cr3 path k apart n empty (count, stack) started =
    let (same, queue, to_task, is) = linked_lem task k apart in
    let k3 = linked task k in
    let to : next_of k3 k3.running ≡ task = ap (next_of k3) same ∙ to_task in
    let regs : (k3.tasks task).regs ≡ (k.tasks task).regs = ap (λ t. t.regs) is in
    let (runs, queue', kept, link, tables, below) =
      switch_to_user_mode_lem task k3 to (ap (λ r. r.count) regs ∙ count)
        (subst (λ r. 40 ≤ r.kernel_rsp) (sym regs) stack) in
    (
      View-alone (switch_to_user_mode k3) task (link ∙ ap (λ t. t.next) is) (queue' ∙ queue ∙ empty)
          n,
      IsStarted-bare kept (
          subst (IsStarted pid function cr3 path) (sym is) (IsStarted-linked task k.clock started)),
      runs,
      tables ∙ ap (λ r. r.cr3) regs ∙ started.tables,
      below,
    )

named_lem :
    (task : ℕ) (k : Kernel)
    → let named = update task (record (k.tasks task) { exe_name = sbush_path }) k in
      (named.running ≡ k.running)
      × (named.delete_queue ≡ k.delete_queue)
      × (named.pid_count ≡ k.pid_count)
      × ((named.tasks task).exe_name ≡ sbush_path)
unfolding update
named_lem task k = rw (eq→== task task refl) (refl, refl, refl, refl)

-- With the page of the new task elsewhere than `mainThread` and not at NULL, and no ended tasks: the
-- first task is alone in the ring, alive, with the next pid, the entry point of the shell, its own tables
-- and the shell's path as its name; it runs on these tables, with the stack of its next interrupt an
-- interrupt frame above.
pub start_first-View :
    (task function cr3 : ℕ) (k : Kernel)
    → k.running ≢ task
    → task ≢ null
    → k.delete_queue ≡ null
    → let k' = (start_first task function cr3 k).1 in
      View k' task [] []
      × IsStarted (k.pid_count + 1) function cr3 sbush_path (k'.tasks task)
      × (k'.running ≡ task)
      × (k'.cpu_cr3 ≡ cr3)
      × (k'.tss_rsp ≡ k'.cpu_rsp + 40)
unfolding start_first
start_first-View task function cr3 k apart n empty =
    let named = update task (record (k.tasks task) { exe_name = sbush_path }) k in
    let rflags = (named.tasks named.running).regs.rflags in
    let k1 = made task function rflags cr3 named in
    let (named_runs, named_queue, pids, names) = named_lem task k in
    let (runs, queue) = create_new_task-rest task function rflags cr3 named in
    first_runs task (k.pid_count + 1) function cr3 sbush_path k1
      (λ e. apart (sym (runs ∙ named_runs) ∙ e)) n (queue ∙ named_queue ∙ empty)
      (create_new_task-stack task function rflags cr3 named)
      (subst (λ path. IsStarted (k.pid_count + 1) function cr3 path (k1.tasks task)) names
        (subst (λ n. IsStarted (n + 1) function cr3 ((named.tasks task).exe_name) (k1.tasks task))
          pids (create_new_task-IsStarted task function rflags cr3 named)))
