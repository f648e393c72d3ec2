-- ===== src/Exec/Ring.antt =====
-- The place of a new program in the ring: the end of `exec` (sys/task.c).
use sbunix_64_bit_operating.Prelude.{
  ℕ, ◌+◌, ◌≤◌, ◌<◌, ◌≡◌, refl, sym, ap, ◌∙◌, subst, ◌≢◌, inl, inr, true, Option, none, some, List,
  ◌∷◌, arith, leb, ◌==◌, lt→ltb, eq→==, ne→==, Bool-cases, length, ◌>>=◌,
}
use mathlib.Core.Option.{some-injective, none-ne-some}
use sbunix_64_bit_operating.Kernel.{
  Kernel, Task, null, next_of, set_next, set_running, set_regs, update, ready_stack,
  move_to_next_process, set_foreground_pid, get_next_page_num,
}
use sbunix_64_bit_operating.Links.{find_prev, count}
use sbunix_64_bit_operating.Sched.{enter, delete_running_thread_and_jump}
use sbunix_64_bit_operating.Sched.View.{View, set_next-SameButLinks}
use sbunix_64_bit_operating.Sched.Steps.{delete_running_thread_and_jump-View}
use sbunix_64_bit_operating.Fork.Child.{View-others}
use sbunix_64_bit_operating.Exec.Start.{laid_out, push_params-length}
use sbunix_64_bit_operating.Exec.{put_arguments, push_params, create_new_exec_task, start_exec}

-- A task with its link and the state of its kernel stack left out.
abbrev pub bare : Task → Task
bare t = record t { next = null; regs = record (t.regs) { count = 0; add = 0 } }

pub ready_stack-bare : (p : ℕ) (k : Kernel) → bare ((ready_stack p k).tasks p) ≡ bare (k.tasks p)
unfolding ready_stack set_regs update
ready_stack-bare p k = elim (Bool-cases ((k.tasks p).regs.count == 0)) [
  | inl q ↦ rw (q, eq→== p p refl) refl
  | inr q ↦ rw (q, eq→== p p refl) refl
]

pub set_next-bare :
    (p q : ℕ) (k : Kernel) (x : ℕ) → bare ((set_next p q k).tasks x) ≡ bare (k.tasks x)
set_next-bare p q k x = ap bare (set_next-SameButLinks p q k x)

bind-some {ℓ κ} :
    {A : Type ℓ} {B : Type κ} (o : Option A) (f : A → Option B) (b : B)
    → (o >>= f) ≡ some b
    → (a : A) × (o ≡ some a) × (f a ≡ some b)
bind-some none f b e = absurd (none-ne-some b e)
bind-some (some a) f b e = (a, refl, e)

jump-bare :
    (fuel task : ℕ) (k k' : Kernel)
    → delete_running_thread_and_jump fuel task k ≡ some k'
    → bare (k'.tasks task) ≡ bare (k.tasks task)
unfolding delete_running_thread_and_jump enter move_to_next_process set_running
jump-bare fuel task k k' e =
    let k1 = set_next task (next_of k k.running) k in
    let (prev, f, g) = bind-some (find_prev fuel (next_of k1) k1.running k1.running) _ k' e in
    sym (ap {A = Kernel} (λ o. bare (o.tasks task)) (some-injective _ _ g))
    ∙ ready_stack-bare task (set_running task (set_next prev task k1))
    ∙ set_next-bare prev task k1 task
    ∙ set_next-bare task (next_of k k.running) k task

-- The task of a new program: its pid, the entry point, its tables, and the path.
pub record IsStarted (pid function cr3 : ℕ) (path : List ℕ) (t : Task) : Type 0 where
  pub same_pid : t.pid ≡ pid
  pub entry : t.regs.rip ≡ function
  pub tables : t.regs.cr3 ≡ cr3
  pub alive : t.state ≡ 1
  pub named : t.exe_name ≡ path

module _ (task function cr3 : ℕ) (path : List ℕ) (args envp : List (List ℕ)) (k : Kernel) where
  abbrev laid : Kernel
  laid = (push_params 0x32_1000 task args envp k).1

  abbrev made : Kernel
  made = create_new_exec_task task function ((laid.tasks laid.running).regs.rflags) cr3 laid

  abbrev new_task : Kernel
  new_task = update task (record (made.tasks task) { exe_name = path; start = made.clock }) made

  new_task-others : (x : ℕ) → x ≢ task → new_task.tasks x ≡ k.tasks x
  unfolding push_params put_arguments create_new_exec_task update set_foreground_pid
      get_next_page_num
  new_task-others x h = rw (ne→== x task h) refl

  new_task-rest : (new_task.running ≡ k.running) × (new_task.delete_queue ≡ k.delete_queue)
  unfolding push_params put_arguments create_new_exec_task update set_foreground_pid
      get_next_page_num
  new_task-rest = (refl, refl)

  new_task-stack : 40 ≤ (new_task.tasks task).regs.kernel_rsp
  unfolding push_params put_arguments create_new_exec_task update set_foreground_pid
      get_next_page_num
  new_task-stack = rw (eq→== task task refl) (omega arith)

  new_task-IsStarted :
      k.running ≢ task
      → IsStarted
          ((k.tasks k.running).pid)
          function
          ((k.tasks task).regs.cr3)
          path
          (new_task.tasks task)
  unfolding push_params put_arguments create_new_exec_task update set_foreground_pid
      get_next_page_num
  new_task-IsStarted h = rw (eq→== task task refl) (record {
    same_pid = rw (ne→== k.running task h) refl;
    entry = refl;
    tables = refl;
    alive = refl;
    named = refl;
  })

pub IsStarted-bare :
    {pid function cr3 : ℕ} {path : List ℕ} {t t' : Task}
    → bare t' ≡ bare t
    → IsStarted pid function cr3 path t
    → IsStarted pid function cr3 path t'
IsStarted-bare e i = record {
  same_pid = ap (λ t. t.pid) e ∙ i.same_pid;
  entry = ap (λ t. t.regs.rip) e ∙ i.entry;
  tables = ap (λ t. t.regs.cr3) e ∙ i.tables;
  alive = ap (λ t. t.state) e ∙ i.alive;
  named = ap (λ t. t.exe_name) e ∙ i.named;
}

le→leb : (a b : ℕ) → a ≤ b → leb a b ≡ true
le→leb a b h = ground arith

-- The end of `exec` for a program that is found, with another task in the ring and the new task, not
-- NULL, outside the ring and the queue, a path of at most 14 bytes, at most 475 arguments and at most
-- 32 strings of the environment, and more fuel than the other tasks of the ring: it answers the
-- arguments that it laid out; the new task has the caller's place in the ring and its pid, is alive,
-- and has the path as its name, the entry point, and the tables that it had; it runs on these tables.
pub start_exec-View :
    (fuel task function cr3 y : ℕ) (ys dead path : List ℕ) (args envp : List (List ℕ)) (k : Kernel)
    → View k k.running (y ∷ ys) dead
    → task ≢ null
    → count task (k.running ∷ y ∷ ys) + count task dead ≡ 0
    → length ys + 1 < fuel
    → length path < 15
    → length args ≤ 475
    → length envp ≤ 32
    → (k' : Kernel) × (start_exec fuel task function cr3 path args envp k
        ≡ some (k', some (laid_out 0x32_1000 task args envp k)))
      × View k' task (y ∷ ys) dead
      × IsStarted ((k.tasks k.running).pid) function ((k.tasks task).regs.cr3) path (k'.tasks task)
      × (k'.running ≡ task)
      × (k'.cpu_cr3 ≡ (k.tasks task).regs.cr3)
unfolding start_exec
start_exec-View fuel task function cr3 y ys dead path args envp k v n c l short some_words
      some_strings =
    let other : k.running ≢ task = λ e. ground (arith, c, eq→== task k.running (sym e)) in
    let k1 = new_task task function cr3 path args envp k in
    let (runs, queue) = new_task-rest task function cr3 path args envp k in
    let started = new_task-IsStarted task function cr3 path args envp k other in
    let v1 : View k1 k1.running (y ∷ ys) dead =
      subst (λ r. View k1 r (y ∷ ys) dead) (sym runs)
        (View-others task k k1 (new_task-others task function cr3 path args envp k) queue c v) in
    let (k', found, view, entered) =
      delete_running_thread_and_jump-View fuel task y ys dead k1 v1 n
        (subst (λ r. count task (r ∷ y ∷ ys) + count task dead ≡ 0) (sym runs) c)
        (new_task-stack task function cr3 path args envp k) l in
    let fits : leb (length ((laid_out 0x32_1000 task args envp k).vector)) 512 ≡ true =
      rw (push_params-length 0x32_1000 task args envp k some_words some_strings)
        (le→leb (36 + length args) 512 (omega arith)) in
    (
      k',
      rw (lt→ltb (length path) 15 short, fits, found) refl,
      view,
      IsStarted-bare (jump-bare fuel task k1 k' found) started,
      entered.now_running,
      entered.own_tables ∙ started.tables,
    )
