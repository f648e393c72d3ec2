-- ===== src/Sched/Steps.antt =====
-- The round robin of `runNextTask`, the insertion of `addToQueue` and the exchange of
-- `deleteRunningThreadAndJump` (sys/task.c).
use sbunix_64_bit_operating.Prelude.{
  ℕ, ◌+◌, ◌≤◌, ◌<◌, ◌≡◌, refl, sym, ap, ◌∙◌, subst, ◌≢◌, inl, inr, some, List, [], ◌∷◌, ◌++◌, arith,
  ◌==◌, ==→eq, eq→==, ne→==, Bool-cases, length,
}
use sbunix_64_bit_operating.Kernel.{
  Kernel, Saved, null, next_of, set_next, set_running, ready_stack,
}
use sbunix_64_bit_operating.Links.{
  Chain, count, Chain-on, AgreeOn-count, last_of, find_prev, find_prev-last_of, Chain-from,
  Chain-relink, Distinct-count, count-last_of, NotIn-count,
}
use sbunix_64_bit_operating.Sched.{
  enter, run_next_task, save_running, deliver_alarm, add_to_queue, delete_running_thread_and_jump,
}
use sbunix_64_bit_operating.Sched.View.{View, QueueOf, View-rotate, set_next-SameButLinks}
use sbunix_64_bit_operating.Sched.Remove.{link_at, link_off, set_next-queue, set_next-running}
use sbunix_64_bit_operating.Sched.Same.{
  SameLinks, SameLinks-trans, View-SameLinks, ready_stack-SameLinks, enter-SameLinks,
  set_running-SameLinks, deliver_alarm-SameLinks, save_running-SameLinks, set_running-regs,
  set_running-running, ready_stack-running, save_running-others, save_running-running,
  save_running_self,
}
use sbunix_64_bit_operating.Sched.Enter.{
  IsEntered, ready_stack-IsReady, enter-IsEntered, enter_following, other_regs,
}

-- The round robin: the task behind the running one, whose kernel stack lies at 40 at least, is entered
-- with its own general registers other than rsi, its own tables and its own kernel stack, and the one
-- that ran goes to the end of the ring with the registers that the interrupt stub saved.
pub run_next_task-View :
    (s : Saved) (k : Kernel) (y : ℕ) (ys dead : List ℕ)
    → View k k.running (y ∷ ys) dead
    → 40 ≤ (k.tasks y).regs.kernel_rsp
    → View (run_next_task s k) y (ys ++ k.running ∷ []) dead
      × IsEntered y ((k.tasks y).regs) (run_next_task s k)
      × (((run_next_task s k).tasks k.running).regs ≡ record ((k.tasks k.running).regs) {
        kernel_rsp = s.rsp;
        rax = s.rax;
        rbx = s.rbx;
        rcx = s.rcx;
        rdx = s.rdx;
        rsi = s.rsi;
        rdi = s.rdi;
        rbp = s.rbp;
      })
unfolding run_next_task set_running
run_next_task-View s k y ys dead v h =
    let k1 = save_running s k in
    let saved = save_running-SameLinks s k in
    let first : next_of k1 k1.running ≡ y =
      ap (next_of k1) (save_running-running s k) ∙ saved.links k.running ∙ v.links.0 in
    let k2 = set_running y k1 in
    let k3 = ready_stack y k2 in
    let k4 = deliver_alarm k3 in
    let same : SameLinks k (enter k4) = SameLinks-trans saved (
      SameLinks-trans (set_running-SameLinks y k1) (
        SameLinks-trans (ready_stack-SameLinks y k2)
          (SameLinks-trans (deliver_alarm-SameLinks k3) (enter-SameLinks k4)))) in
    let regs_kept : (k2.tasks y).regs ≡ (k.tasks y).regs =
      save_running-others s k y second_not_running in
    rw first (
      View-rotate [] y ys (View-SameLinks same v),
      subst (λ r. IsEntered y r (enter k4)) regs_kept
          (enter_following y k2 (subst (λ r. 40 ≤ r.kernel_rsp) (sym regs_kept) h) refl),
      other_regs y k.running k2 (λ e. second_not_running (sym e)) refl ∙ save_running_self s k,
    )
  where
    second_not_running : y ≢ k.running
    second_not_running e =
        let d = v.distinct k.running in
        ground (arith, eq→== y k.running e, eq→== k.running k.running refl)

-- The queue does not depend on the links of tasks that are not in it.
pub queue-on :
    (k k' : Kernel) (ds : List ℕ)
    → k'.delete_queue ≡ k.delete_queue
    → ((x : ℕ) → 0 < count x ds → next_of k' x ≡ next_of k x)
    → QueueOf k ds
    → QueueOf k' ds
queue-on k k' [] e h q = e ∙ q
queue-on k k' (d ∷ ds) e h q =
    (e ∙ q.0, Chain-on (next_of k) (next_of k') d ds null (AgreeOn-count (d ∷ ds) _ _ h) q.1)

-- A number counted in one place and not in the other is a different one.
pub counted-ne : (x p : ℕ) (xs : List ℕ) → 0 < count x xs → count p xs ≡ 0 → x ≢ p
counted-ne x p xs c z e = let c' = subst (λ y. 0 < count y xs) e c in omega arith

-- A task that is in neither list is inserted behind the running one.
pub add_to_queue-View :
    (task : ℕ) (ring dead : List ℕ) (k : Kernel)
    → View k k.running ring dead
    → task ≢ null
    → count task (k.running ∷ ring) + count task dead ≡ 0
    → View (add_to_queue task k) k.running (task ∷ ring) dead
unfolding add_to_queue
add_to_queue-View task ring dead k v n c =
    let k1 = set_next task (next_of k k.running) k in
    let k2 = set_next k1.running task k1 in
    let keeps : (x : ℕ) → x ≢ task → x ≢ k.running → next_of k2 x ≡ next_of k x = λ x h r.
      link_off k1.running task k1 x (λ e. r (e ∙ set_next-running task _ k))
      ∙ link_off task _ k x h in
    record {
      links = (
        subst (λ y. next_of k2 y ≡ task) (set_next-running task _ k) (link_at k1.running task k1),
        Chain-from (next_of k) (next_of k2) k.running task ring k.running
            (link_off k1.running task k1 task
                (λ e. task_not_running (e ∙ set_next-running task _ k))
              ∙ link_at task _ k)
            (AgreeOn-count ring _ _ (λ x h.
              keeps x (counted-ne x task ring h (omega (arith, c)))
                (counted-ne x k.running ring h running_not_in)))
            v.links,
      );
      queue =
          queue-on k k2 dead (set_next-queue k1.running task k1 ∙ set_next-queue task _ k)
            (λ x h.
              keeps x (counted-ne x task dead h (omega (arith, c)))
                (counted-ne x k.running dead h running_not_dead))
            v.queue;
      distinct = λ p. elim (Bool-cases (p == task)) [
        | inl q ↦
            (let z =
                subst (λ y. count y (k.running ∷ ring) + count y dead ≡ 0) (sym (==→eq p task q))
                  c in
              ground (arith, z))
        | inr q ↦ ground (arith, v.distinct p)
      ];
      nonnull = ground (arith, v.nonnull, ne→== null task (λ e. n (sym e)));
    }
  where
    task_not_running : task ≢ k.running
    task_not_running e = ground (arith, c, eq→== task k.running e)

    running_not_in : count k.running ring ≡ 0
    running_not_in = ground (arith, v.distinct k.running, eq→== k.running k.running refl)

    running_not_dead : count k.running dead ≡ 0
    running_not_dead = ground (arith, v.distinct k.running, eq→== k.running k.running refl)

-- With another task in the ring, `task` takes the place of the running one and is entered.
pub delete_running_thread_and_jump-View :
    (fuel task y : ℕ) (ys dead : List ℕ) (k : Kernel)
    → View k k.running (y ∷ ys) dead
    → task ≢ null
    → count task (k.running ∷ y ∷ ys) + count task dead ≡ 0
    → 40 ≤ (k.tasks task).regs.kernel_rsp
    → length ys + 1 < fuel
    → (k' : Kernel) × (delete_running_thread_and_jump fuel task k ≡ some k')
      × View k' task (y ∷ ys) dead
      × IsEntered task ((k.tasks task).regs) k'
unfolding delete_running_thread_and_jump
delete_running_thread_and_jump-View fuel task y ys dead k v n c h l =
    let k1 = set_next task (next_of k k.running) k in
    let runs : k1.running ≡ k.running = set_next-running task _ k in
    let ring1 : Chain (next_of k1) k.running (y ∷ ys) k.running =
      Chain-on (next_of k) (next_of k1) k.running (y ∷ ys) k.running
        (AgreeOn-count (k.running ∷ y ∷ ys) _ _ (λ x i.
          link_off task _ k x (counted-ne x task (k.running ∷ y ∷ ys) i (omega (arith, c)))))
        v.links in
    let found : find_prev fuel (next_of k1) k1.running k1.running ≡ some (last_of y ys) = rw runs (
      find_prev-last_of fuel (next_of k1) k.running (y ∷ ys) k.running ring1
        (NotIn-count _ (y ∷ ys) running_not_in) (omega (arith, l))) in
    let k2 = set_next (last_of y ys) task k1 in
    let prev_counts = count-last_of y ys in
    let k3 = ready_stack task (set_running task k2) in
    let same : SameLinks k2 (enter k3) =
      SameLinks-trans (set_running-SameLinks task k2)
        (SameLinks-trans (ready_stack-SameLinks task (set_running task k2)) (enter-SameLinks k3)) in
    let keeps : (x : ℕ) → x ≢ task → x ≢ last_of y ys → next_of k2 x ≡ next_of k x =
      λ x a b. link_off (last_of y ys) task k1 x b ∙ link_off task _ k x a in
    let kept : ((set_running task k2).tasks task).regs ≡ (k.tasks task).regs =
      set_running-regs task task k2
      ∙ ap (λ t. t.regs) (set_next-SameButLinks (last_of y ys) task k1 task)
      ∙ ap (λ t. t.regs) (set_next-SameButLinks task (next_of k k.running) k task) in
    let k2r = set_running task k2 in
    (
      enter k3,
      rw found refl,
      View-SameLinks same (record {
        links =
            Chain-relink (next_of k1) (next_of k2) task (y ∷ ys) k.running task
              (link_off (last_of y ys) task k1) (link_at (last_of y ys) task k1)
              (Distinct-count (task ∷ y ∷ ys) (λ p. omega (arith, distinct_replaced p)))
              (Chain-from (next_of k1) (next_of k1) k.running task (y ∷ ys) k.running
                (link_at task (next_of k k.running) k
                  ∙ sym (link_off task (next_of k k.running) k k.running running_not_task))
                (AgreeOn-count (y ∷ ys) (next_of k1) (next_of k1) (λ x i. refl)) ring1);
        queue =
            queue-on k k2 dead (set_next-queue (last_of y ys) task k1 ∙ set_next-queue task _ k)
              (λ x i.
                keeps x (counted-ne x task dead i (omega (arith, c)))
                  (λ e. last_not_dead (subst (λ w. 0 < count w dead) e i)))
              v.queue;
        distinct = distinct_replaced;
        nonnull = ground (arith, v.nonnull, ne→== null task (λ e. n (sym e)));
      }),
      subst (λ r. IsEntered task r (enter k3)) kept
          (enter-IsEntered task ((k2r.tasks task).regs) k3
            (ready_stack-running task k2r ∙ set_running-running task k2)
            (ready_stack-IsReady task k2r (subst (λ r. 40 ≤ r.kernel_rsp) (sym kept) h))),
    )
  where
    running_not_in : count k.running (y ∷ ys) ≡ 0
    running_not_in = ground (arith, v.distinct k.running, eq→== k.running k.running refl)

    running_not_task : k.running ≢ task
    running_not_task e = ground (arith, c, eq→== task k.running (sym e))

    distinct_replaced : (p : ℕ) → count p (task ∷ y ∷ ys) + count p dead ≤ 1
    distinct_replaced p = elim (Bool-cases (p == task)) [
      | inl q ↦
          let z =
            subst (λ x. count x (k.running ∷ y ∷ ys) + count x dead ≡ 0) (sym (==→eq p task q)) c in
          ground (arith, z)
      | inr q ↦ ground (arith, v.distinct p)
    ]

    last_not_dead : ¬ (0 < count (last_of y ys) dead)
    last_not_dead i = omega (arith, count-last_of y ys, v.distinct (last_of y ys))
