-- ===== src/Sched/Turns.antt =====
-- Calls of `runNextTask` (sys/task.c), one at each tick of the timer.
use sbunix_64_bit_operating.Prelude.{
  ℕ, ◌+◌, ◌≤◌, ◌<◌, ◌≡◌, refl, sym, ap, ◌∙◌, subst, ◌≢◌, List, [], ◌∷◌, ◌++◌, arith, eq→==, length,
}
use mathlib.Core.List.{append_assoc}
use sbunix_64_bit_operating.Kernel.{Kernel, Saved, next_of, set_running}
use sbunix_64_bit_operating.Links.{count, count-append}
use sbunix_64_bit_operating.Sched.{run_next_task, save_running}
use sbunix_64_bit_operating.Sched.View.{View}
use sbunix_64_bit_operating.Sched.Same.{
  save_running-SameLinks, save_running-running, save_running-others, set_running-regs,
}
use sbunix_64_bit_operating.Sched.Enter.{IsEntered, other_regs}
use sbunix_64_bit_operating.Sched.Steps.{run_next_task-View, counted-ne}

-- The calls, each with the registers that the interrupt stub has saved.
abbrev pub run_turns : List Saved → Kernel → Kernel
run_turns [] k = k
run_turns (s ∷ saved) k = run_turns saved (run_next_task s k)

abbrev pub AllStacked : Kernel → List ℕ → Type 0
AllStacked k [] = Unit {0}
AllStacked k (x ∷ xs) = (40 ≤ (k.tasks x).regs.kernel_rsp) × AllStacked k xs

-- The registers of the tasks that neither run nor come next stay.
run_next_task-others :
    (s : Saved) (k : Kernel) (y x : ℕ) (ys dead : List ℕ)
    → View k k.running (y ∷ ys) dead
    → x ≢ y
    → x ≢ k.running
    → ((run_next_task s k).tasks x).regs ≡ (k.tasks x).regs
unfolding run_next_task set_running
run_next_task-others s k y x ys dead v other waiting =
    let k1 = save_running s k in
    let first : next_of k1 k1.running ≡ y =
      ap (next_of k1) (save_running-running s k)
      ∙ (save_running-SameLinks s k).links k.running
      ∙ v.links.0 in
    rw first (
      other_regs y x (set_running y k1) other refl
      ∙ set_running-regs y x k1
      ∙ save_running-others s k x waiting)

AllStacked-same :
    (k k' : Kernel) (xs : List ℕ)
    → ((x : ℕ) → 0 < count x xs → (k'.tasks x).regs ≡ (k.tasks x).regs)
    → AllStacked k xs
    → AllStacked k' xs
AllStacked-same k k' [] same a = tt
AllStacked-same k k' (x ∷ xs) same (h, a) =
    let own = same x (ground (arith, eq→== x x refl)) in
    (rw own h, AllStacked-same k k' xs (λ z c. same z (ground arith)) a)

-- A task of the ring runs at its turn: after as many calls of `runNextTask` as there are tasks up to it
-- behind the running one, whatever registers the interrupts save, it is entered with the registers
-- that it has now: the processor has its general registers other than rsi, its tables and its own kernel
-- stack at the frame that `iretq` takes, and the task keeps its registers. The kernel stacks of these
-- tasks lie at 40 at least.
pub run_turns-IsEntered :
    (before : List ℕ) (y : ℕ) (after dead : List ℕ) (saved : List Saved) (k : Kernel)
    → View k k.running (before ++ y ∷ after) dead
    → AllStacked k (before ++ y ∷ [])
    → length saved ≡ length before + 1
    → IsEntered y ((k.tasks y).regs) (run_turns saved k)
run_turns-IsEntered [] y after dead [] k v a e = absurd (omega arith)
run_turns-IsEntered [] y after dead (s ∷ []) k v a e = (run_next_task-View s k y after dead v a.0).1
run_turns-IsEntered [] y after dead (s ∷ r ∷ saved) k v a e = absurd (omega arith)
run_turns-IsEntered (b ∷ before) y after dead [] k v a e = absurd (omega arith)
run_turns-IsEntered (b ∷ before) y after dead (s ∷ saved) k v a e =
    let k1 = run_next_task s k in
    let (v1, entered, _) = run_next_task-View s k b (before ++ y ∷ after) dead v a.0 in
    let ring = append_assoc before (y ∷ after) (k.running ∷ []) in
    let v2 : View k1 k1.running (before ++ y ∷ (after ++ k.running ∷ [])) dead =
      subst (λ r. View k1 k1.running r dead) ring
        (subst (λ p. View k1 p ((before ++ y ∷ after) ++ k.running ∷ []) dead)
          (sym entered.now_running) v1) in
    let kept : (x : ℕ) → 0 < count x (before ++ y ∷ []) → (k1.tasks x).regs ≡ (k.tasks x).regs =
      λ x c.
        run_next_task-others s k b x (before ++ y ∷ after) dead v (once x b c next_once)
          (once x k.running c running_once) in
    let own = kept y (ground (arith, count-append y before (y ∷ []), eq→== y y refl)) in
    subst (λ r. IsEntered y r (run_turns saved k1)) own
      (run_turns-IsEntered before y (after ++ k.running ∷ []) dead saved k1 v2
        (AllStacked-same k k1 (before ++ y ∷ []) kept a.1) (omega arith))
  where
    next_once : count b (before ++ y ∷ []) ≡ 0
    next_once = ground (
      arith,
      v.distinct b,
      eq→== b b refl,
      count-append b before (y ∷ []),
      count-append b before (y ∷ after),
    )

    running_once : count k.running (before ++ y ∷ []) ≡ 0
    running_once = ground (
      arith,
      v.distinct k.running,
      eq→== k.running k.running refl,
      count-append k.running before (y ∷ []),
      count-append k.running before (y ∷ after),
    )

    once : (x p : ℕ) → 0 < count x (before ++ y ∷ []) → count p (before ++ y ∷ []) ≡ 0 → x ≢ p
    once x p c z = counted-ne x p (before ++ y ∷ []) c z
