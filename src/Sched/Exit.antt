-- ===== src/Sched/Exit.antt =====
-- The end of a task: `exit` and `exitpid` (sys/task.c).
use sbunix_64_bit_operating.Prelude.{
  ℕ, zero, suc, ◌+◌, ◌≤◌, ◌<◌, ◌≡◌, refl, sym, ap, ◌∙◌, subst, ◌≢◌, ◌⊎◌, inl, inr, true, false,
  ◌||◌, some, List, [], ◌∷◌, ◌++◌, arith, ◌==◌, ==→eq, eq→==, ne→==, Bool-cases, length,
  length-append,
}
use sbunix_64_bit_operating.Kernel.{
  Kernel, Task, next_of, set_next, set_running, set_regs, update, ready_stack, move_to_next_process,
}
use sbunix_64_bit_operating.Links.{
  Chain, count, count-append, last_of, Chain-split, Chain-last, find_prev, find_prev-last_of,
  NotIn-count,
}
use sbunix_64_bit_operating.Sched.{
  end_task, leave_ring, exit, exit_pid, find_pid, enter, remove_after,
}
use sbunix_64_bit_operating.Sched.View.{View, View-same, View-rotate}
use sbunix_64_bit_operating.Sched.Remove.{remove_after-View, link_at}
use sbunix_64_bit_operating.Sched.Same.{
  SameLinks, SameLinks-trans, update-SameLinks, View-SameLinks, ready_stack-SameLinks,
  set_running-SameLinks, enter-SameLinks,
}
use sbunix_64_bit_operating.Sched.Enter.{enter_ready, IsEntered}
use sbunix_64_bit_operating.Sched.Kill.{NoPid}
use sbunix_64_bit_operating.Sched.Frame.{
  with_mmu, free_page_entries-OnlyMemory, free_page_tables-OnlyMemory,
}

updated : (p : ℕ) (t : Task) (k : Kernel) → (update p t k).tasks p ≡ t
unfolding update
updated p t k = rw (eq→== p p refl) refl

updated_regs :
    (p x : ℕ) (t : Task) (k : Kernel)
    → t.regs ≡ (k.tasks p).regs
    → ((update p t k).tasks x).regs ≡ (k.tasks x).regs
unfolding update
updated_regs p x t k e = elim (Bool-cases (x == p)) [
  | inl q ↦ rw (q, ==→eq x p q) e
  | inr q ↦ rw q refl
]

append_nil : (xs : List ℕ) → xs ++ [] ≡ xs
append_nil [] = refl
append_nil (x ∷ xs) = ap (x ∷◌) (append_nil xs)

-- Entering a task keeps what its end has recorded.
entered-state :
    (p x : ℕ) (k : Kernel)
    → ((enter (set_running p (ready_stack p k))).tasks x).state ≡ (k.tasks x).state
unfolding enter set_running ready_stack move_to_next_process set_regs update
entered-state p x k = ground arith

entered-end_time :
    (p x : ℕ) (k : Kernel)
    → ((enter (set_running p (ready_stack p k))).tasks x).end_time ≡ (k.tasks x).end_time
unfolding enter set_running ready_stack move_to_next_process set_regs update
entered-end_time p x k = ground arith

-- A task of the ring, seen from itself, moves to the end of the queue, and the task `y` behind it is
-- entered.
leave_ring-View :
    (fuel task y : ℕ) (ys dead : List ℕ) (k : Kernel)
    → View k task (y ∷ ys) dead
    → 40 ≤ (k.tasks y).regs.kernel_rsp
    → length ys + length dead + 2 < fuel
    → (k' : Kernel) × (leave_ring fuel task k ≡ some k')
      × View k' y ys (dead ++ task ∷ [])
      × IsEntered y ((k.tasks y).regs) k'
      × ((k'.tasks task).state ≡ (k.tasks task).state)
      × ((k'.tasks task).end_time ≡ (k.tasks task).end_time)
unfolding leave_ring remove_after
leave_ring-View fuel task y ys dead k v h l =
    let rotated : View k y (ys ++ task ∷ []) dead = View-rotate [] y ys v in
    let found : find_prev fuel (next_of k) task task ≡ some (last_of y ys) =
      find_prev-last_of fuel (next_of k) task (y ∷ ys) task v.links
        (NotIn-count task (y ∷ ys) not_in) (omega (arith, l)) in
    let (k2, gone, v2, runs, same) =
      remove_after-View fuel task ys [] dead k y rotated (omega (arith, l)) in
    let at_task : next_of k (last_of y ys) ≡ task = Chain-last (next_of k) y ys task v.links.1 in
    let following : next_of (set_next (last_of y ys) (next_of k (next_of k (last_of y ys))) k)
          (last_of y ys)
        ≡ y =
      link_at (last_of y ys) (next_of k (next_of k (last_of y ys))) k
      ∙ ap (next_of k) at_task
      ∙ v.links.0 in
    let regs : (k2.tasks y).regs ≡ (k.tasks y).regs = ap (λ t. t.regs) (same y) in
    let k3 = ready_stack y k2 in
    let kept : SameLinks k2 (enter (set_running y k3)) =
      SameLinks-trans (ready_stack-SameLinks y k2)
        (SameLinks-trans (set_running-SameLinks y k3) (enter-SameLinks (set_running y k3))) in
    (
      enter (set_running y k3),
      rw (found, gone, following) refl,
      View-SameLinks kept (subst (λ zs. View k2 y zs (dead ++ task ∷ [])) (append_nil ys) v2),
      subst (λ r. IsEntered y r (enter (set_running y k3))) regs
          (enter_ready y k2 (subst (λ r. 40 ≤ r.kernel_rsp) (sym regs) h)),
      entered-state y task k2 ∙ ap (λ t. t.state) (same task),
      entered-end_time y task k2 ∙ ap (λ t. t.end_time) (same task),
    )
  where
    not_in : count task (y ∷ ys) ≡ 0
    not_in = ground (arith, v.distinct task, eq→== task task refl)

-- A task of the ring, seen from itself, ends within the fuel: its end is recorded, it moves to the end
-- of the queue, and the task `y` behind it is entered.
pub end_task-View :
    (fuel task y : ℕ) (ys dead : List ℕ) (k : Kernel)
    → View k task (y ∷ ys) dead
    → 40 ≤ (k.tasks y).regs.kernel_rsp
    → length ys + length dead + 2 < fuel
    → (k' : Kernel) × (end_task fuel task k ≡ some k')
      × View k' y ys (dead ++ task ∷ [])
      × IsEntered y ((k.tasks y).regs) k'
      × ((k'.tasks task).state ≡ 0)
      × ((k'.tasks task).end_time ≡ k.clock)
unfolding end_task
end_task-View fuel task y ys dead k v h l =
    let t' = record (k.tasks task) { state = 0; end_time = k.clock } in
    let k1 = update task t' k in
    let v1 : View k1 task (y ∷ ys) dead = View-SameLinks (update-SameLinks task t' k refl refl) v in
    let free = free_page_entries-OnlyMemory fuel task (y ∷ ys) (omega (arith, l)) k1 v1.links in
    let tables = free_page_tables-OnlyMemory task (with_mmu k1 free.0) in
    let k3 = with_mmu k1 tables.0 in
    let regs : (k1.tasks y).regs ≡ (k.tasks y).regs = updated_regs task y t' k refl in
    let (k', run, v', entered, state, end_time) =
      leave_ring-View fuel task y ys dead k3 (View-same (λ x. refl) refl v1)
        (subst (λ r. 40 ≤ r.kernel_rsp) (sym regs) h) l in
    (
      k',
      rw (free.1, tables.1) run,
      v',
      subst (λ r. IsEntered y r k') regs entered,
      state ∙ ap (λ t. t.state) (updated task t' k),
      end_time ∙ ap (λ t. t.end_time) (updated task t' k),
    )

-- The search of `exitpid` stops at the first task with the pid, or at the running one.
find_pid-first :
    (fuel pid a : ℕ) (before : List ℕ) (d : ℕ) (k : Kernel)
    → Chain (next_of k) a before d
    → count k.running before ≡ 0
    → NoPid k pid before
    → ((k.tasks d).pid == pid || d == k.running) ≡ true
    → length before < fuel
    → find_pid fuel (next_of k a) pid k ≡ some d
unfolding find_pid
find_pid-first zero pid a before d k c n p t l = absurd (omega arith)
find_pid-first (suc f) pid a [] d k c n p t l = rw (c, t) refl
find_pid-first (suc f) pid a (x ∷ xs) d k c n p t l =
    let other : (x == k.running) ≡ false = ground arith in
    rw (c.0, ne→== _ pid p.0, other)
      (find_pid-first f pid x xs d k c.1 (omega arith) p.1 t (omega arith))

-- Pid 1 cannot exit, and the other tasks end as `end_task` ends them.
pub exit-View :
    (fuel y : ℕ) (ys dead : List ℕ) (k : Kernel)
    → View k k.running (y ∷ ys) dead
    → 40 ≤ (k.tasks y).regs.kernel_rsp
    → length ys + length dead + 2 < fuel
    → (k' : Kernel) × (exit fuel k ≡ some k')
      × (((k.tasks k.running).pid ≡ 1) × (k' ≡ k)
          ⊎ ((k.tasks k.running).pid ≢ 1)
            × View k' y ys (dead ++ k.running ∷ [])
            × IsEntered y ((k.tasks y).regs) k'
            × ((k'.tasks k.running).state ≡ 0))
unfolding exit
exit-View fuel y ys dead k v h l = elim (Bool-cases ((k.tasks k.running).pid == 1)) [
  | inl e ↦ (k, rw e refl, inl (==→eq _ 1 e, refl))
  | inr e ↦
      let (k', run, v', entered, state, ended) = end_task-View fuel k.running y ys dead k v h l in
      (k', rw e run, inr (λ q. absurd (ground (arith, eq→== _ 1 q)), v', entered, state))
]

-- With the pid at the task `d` of the ring, behind which `y ∷ ys` stand, `exitpid` ends that task
-- and enters `y`.
pub exit_pid-View :
    (fuel pid d y : ℕ) (before after ys dead : List ℕ) (k : Kernel)
    → View k k.running (before ++ d ∷ after) dead
    → after ++ k.running ∷ before ≡ y ∷ ys
    → pid ≢ 1
    → (k.tasks d).pid ≡ pid
    → NoPid k pid before
    → 40 ≤ (k.tasks y).regs.kernel_rsp
    → length ys + length dead + 2 < fuel
    → (k' : Kernel) × (exit_pid fuel pid k ≡ some k')
      × View k' y ys (dead ++ d ∷ [])
      × IsEntered y ((k.tasks y).regs) k'
      × ((k'.tasks d).state ≡ 0)
unfolding exit_pid
exit_pid-View fuel pid d y before after ys dead k v r n e p h l =
    let c = Chain-split (next_of k) k.running before d after k.running v.links in
    let w : View k d (y ∷ ys) dead =
      subst (λ zs. View k d zs dead) r (View-rotate before d after v) in
    let found =
      find_pid-first fuel pid k.running before d k c.0 not_before p
        (rw (e, eq→== pid pid refl) refl) (omega (arith, sizes, l)) in
    let (k', run, v', entered, state, ended) = end_task-View fuel d y ys dead k w h l in
    (k', rw (ne→== pid 1 n, found, e, eq→== pid pid refl) run, v', entered, state)
  where
    not_before : count k.running before ≡ 0
    not_before = ground (
      arith,
      v.distinct k.running,
      count-append k.running before (d ∷ after),
      eq→== k.running k.running refl,
    )

    sizes : length before ≤ length ys
    sizes = omega (arith, length-append after (k.running ∷ before), ap length r)

-- With no such pid among the tasks, and for pid 1, `exitpid` changes nothing.
pub exit_pid-missing :
    (fuel pid : ℕ) (ring dead : List ℕ) (k : Kernel)
    → View k k.running ring dead
    → (pid ≡ 1) ⊎ NoPid k pid (k.running ∷ ring)
    → length ring < fuel
    → exit_pid fuel pid k ≡ some k
unfolding exit_pid
exit_pid-missing fuel pid ring dead k v (inl h) l = rw (eq→== pid 1 h) refl
exit_pid-missing fuel pid ring dead k v (inr n) l = elim (Bool-cases (pid == 1)) [
  | inl q ↦ rw q refl
  | inr q ↦ rw (q, found, ne→== _ pid n.0) refl
]
  where
    not_in : count k.running ring ≡ 0
    not_in = ground (arith, v.distinct k.running, eq→== k.running k.running refl)

    found : find_pid fuel (next_of k k.running) pid k ≡ some k.running
    found =
        find_pid-first fuel pid k.running ring k.running k v.links not_in n.1
          (rw (eq→== k.running k.running refl, ne→== _ pid n.0) refl) l
