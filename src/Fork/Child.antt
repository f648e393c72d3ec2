-- ===== src/Fork/Child.antt =====
-- The child that `fork` (sys/task.c) makes, and its place in the ring.
use sbunix_64_bit_operating.Prelude.{
  ℕ, ◌+◌, ◌≡◌, refl, sym, ap, ◌∙◌, subst, ◌≢◌, List, ◌∷◌, map, arith, eq→==, ne→==,
}
use sbunix_64_bit_operating.Paging.{Mmu, kmalloc}
use sbunix_64_bit_operating.Kernel.{Kernel, Task, Saved, cpu_of, null, next_of, update, set_next}
use sbunix_64_bit_operating.Links.{Chain-on, AgreeOn-count, count}
use sbunix_64_bit_operating.Sched.{add_to_queue}
use sbunix_64_bit_operating.Sched.View.{
  View, View-same, SameButLinks, unlinked, set_next-SameButLinks,
}
use sbunix_64_bit_operating.Sched.Steps.{add_to_queue-View, queue-on, counted-ne}
use sbunix_64_bit_operating.Areas.Copy.{contents, copy_areas-contents}
use sbunix_64_bit_operating.Fork.{fork, create_child_task, make_parent_read_only}
use sbunix_64_bit_operating.Fork.Frame.{IsFramed, create_child_task-IsFramed}

-- The child of the running task `parent` at its start, before it is linked.
pub record IsChild (parent : Task) (pid : ℕ) (s : Saved) (t : Task) : Type 0 where
  pub own_pid : t.pid ≡ pid
  pub parent_pid : t.ppid ≡ parent.pid
  pub returns_zero : t.regs.rax ≡ 0
  pub resumes : (t.regs.rip ≡ s.rip) × (t.regs.user_rsp ≡ s.rsp) × (t.regs.rflags ≡ s.rflags)
  pub saved :
      cpu_of t.regs
      ≡ record { rax = 0; rbx = s.rbx; rcx = s.rcx; rdx = s.rdx; rdi = s.rdi; rbp = 0 }
  pub fresh_stack : t.regs.count ≡ 0
  pub alive : t.state ≡ 1
  pub areas : map contents t.mmap ≡ map contents parent.mmap
  pub files : t.fd_pointers ≡ parent.fd_pointers

create_child_task-IsChild :
    (task : ℕ) (s : Saved) (k : Kernel)
    → IsChild (k.tasks k.running) (k.pid_count + 1) s ((create_child_task task s k).tasks task)
unfolding create_child_task update
create_child_task-IsChild task s k = rw (eq→== task task refl) (record {
  own_pid = refl;
  parent_pid = refl;
  returns_zero = refl;
  resumes = (refl, refl, refl);
  saved = refl;
  fresh_stack = refl;
  alive = refl;
  areas = copy_areas-contents (k.tasks k.running).mmap _;
  files = refl;
})

-- Of the tasks the creation of a child writes the child alone.
create_child_task-others :
    (task : ℕ) (s : Saved) (k : Kernel) (x : ℕ)
    → x ≢ task
    → (create_child_task task s k).tasks x ≡ k.tasks x
unfolding create_child_task update
create_child_task-others task s k x h = rw (ne→== x task h) refl

create_child_task-rest :
    (task : ℕ) (s : Saved) (k : Kernel)
    → ((create_child_task task s k).running ≡ k.running)
      × ((create_child_task task s k).delete_queue ≡ k.delete_queue)
      × ((create_child_task task s k).pid_count ≡ k.pid_count + 1)
unfolding create_child_task update
create_child_task-rest task s k = (refl, refl, refl)

-- A task that is in neither list may be written.
pub View-others :
    (task : ℕ) (k k' : Kernel) {start : ℕ} {ring dead : List ℕ}
    → ((x : ℕ) → x ≢ task → k'.tasks x ≡ k.tasks x)
    → k'.delete_queue ≡ k.delete_queue
    → count task (start ∷ ring) + count task dead ≡ 0
    → View k start ring dead
    → View k' start ring dead
View-others task k k' {start} {ring} {dead} h q c v = record {
  links =
      Chain-on (next_of k) (next_of k') start ring start
        (AgreeOn-count (start ∷ ring) _ _
          (λ x i. ap (λ t. t.next) (h x (counted-ne x task (start ∷ ring) i (omega (arith, c))))))
        v.links;
  queue =
      queue-on k k' dead q
        (λ x i. ap (λ t. t.next) (h x (counted-ne x task dead i (omega (arith, c))))) v.queue;
  distinct = v.distinct;
  nonnull = v.nonnull;
}

add_to_queue-SameButLinks : (task : ℕ) (k : Kernel) → SameButLinks k (add_to_queue task k)
unfolding add_to_queue
add_to_queue-SameButLinks task k x =
    set_next-SameButLinks _ task (set_next task (next_of k k.running) k) x
    ∙ set_next-SameButLinks task (next_of k k.running) k x

add_to_queue-rest :
    (task : ℕ) (k : Kernel)
    → ((add_to_queue task k).running ≡ k.running)
      × ((add_to_queue task k).pid_count ≡ k.pid_count)
      × ((add_to_queue task k).mmu ≡ k.mmu)
unfolding add_to_queue set_next update
add_to_queue-rest task k = (refl, refl, refl)

IsChild-unlinked :
    {parent t t' : Task} {pid : ℕ} {s : Saved}
    → unlinked t' ≡ unlinked t
    → IsChild parent pid s t
    → IsChild parent pid s t'
IsChild-unlinked {parent} {t} {t'} {pid} {s} e c = record {
  own_pid = ap (λ u. u.pid) e ∙ c.own_pid;
  parent_pid = ap (λ u. u.ppid) e ∙ c.parent_pid;
  returns_zero = ap (λ u. u.regs.rax) e ∙ c.returns_zero;
  resumes = (
    ap (λ u. u.regs.rip) e ∙ c.resumes.0,
    ap (λ u. u.regs.user_rsp) e ∙ c.resumes.1,
    ap (λ u. u.regs.rflags) e ∙ c.resumes.2,
  );
  saved = ap (λ u. cpu_of u.regs) e ∙ c.saved;
  fresh_stack = ap (λ u. u.regs.count) e ∙ c.fresh_stack;
  alive = ap (λ u. u.state) e ∙ c.alive;
  areas = ap (λ u. map contents u.mmap) e ∙ c.areas;
  files = ap (λ u. u.fd_pointers) e ∙ c.files;
}

-- Where the new page is in neither list and not at NULL, `fork` puts a child there, first behind the
-- running task, and answers its pid, which is the next one. The child has the parent's areas and open
-- files. It has the general registers of the call, with the result 0 in rax and 0 in rbp; and when the
-- pages of the parent's areas are made read only, the frame on its kernel stack leads behind the call,
-- with the flags and the stack of the call.
pub fork-View :
    (s : Saved) (ring dead : List ℕ) (k : Kernel)
    → View k k.running ring dead
    → (kmalloc k.mmu).0 ≢ null
    → count (kmalloc k.mmu).0 (k.running ∷ ring) + count (kmalloc k.mmu).0 dead ≡ 0
    → View (fork s k).1 k.running ((kmalloc k.mmu).0 ∷ ring) dead
      × ((fork s k).0 ≡ k.pid_count + 1)
      × ((fork s k).1.pid_count ≡ k.pid_count + 1)
      × IsChild (k.tasks k.running) (k.pid_count + 1) s ((fork s k).1.tasks (kmalloc k.mmu).0)
      × ((m : Mmu) × ((fork s k).1.mmu
            ≡ make_parent_read_only (k.tasks k.running).regs.cr3 (k.tasks k.running).mmap m)
          × IsFramed ((fork s k).1.tasks (kmalloc k.mmu).0).regs m)
unfolding fork
fork-View s ring dead k v n c =
    let child = (kmalloc k.mmu).0 in
    let k0 = record k { mmu = (kmalloc k.mmu).1 } in
    let k1 = create_child_task child s k0 in
    let (runs, queue, pids) = create_child_task-rest child s k0 in
    let v1 : View k1 k1.running ring dead =
      subst (λ r. View k1 r ring dead) (sym runs)
        (View-others child k k1 (create_child_task-others child s k0) queue c v) in
    let v2 =
      add_to_queue-View child ring dead k1 v1 n
        (subst (λ r. count child (r ∷ ring) + count child dead ≡ 0) (sym runs) c) in
    let rest = add_to_queue-rest child k1 in
    let k2 = add_to_queue child k1 in
    let other : k.running ≢ child = λ e. ground (arith, c, eq→== k.running child e) in
    let parent : unlinked (k2.tasks k2.running) ≡ unlinked (k.tasks k.running) =
      ap (λ r. unlinked (k2.tasks r)) (rest.0 ∙ runs)
      ∙ add_to_queue-SameButLinks child k1 k.running
      ∙ ap unlinked (create_child_task-others child s k0 k.running other) in
    let made =
      IsChild-unlinked (add_to_queue-SameButLinks child k1 child)
        (create_child_task-IsChild child s k0) in
    (
      View-same (λ x. refl) refl
          (subst (λ r. View (add_to_queue child k1) r (child ∷ ring) dead) runs v2),
      made.own_pid,
      rest.1 ∙ pids,
      made,
      (
        k1.mmu,
        ap (λ u. make_parent_read_only u.regs.cr3 u.mmap k2.mmu) parent
            ∙ ap (make_parent_read_only (k.tasks k.running).regs.cr3 (k.tasks k.running).mmap)
                rest.2,
        subst (λ r. IsFramed r k1.mmu)
            (sym (ap (λ t. t.regs) (add_to_queue-SameButLinks child k1 child)))
            (create_child_task-IsFramed child s k0),
      ),
    )
