-- ===== src/Sched/Wait.antt =====
-- `waitpid` (sys/task.c), by itself and after a `kill`.
use sbunix_64_bit_operating.Prelude.{
  ℕ, zero, suc, ◌+◌, ◌<◌, ◌≡◌, refl, sym, ap, ◌∙◌, subst, ◌≢◌, ◌⊎◌, inl, inr, false, ◌&&◌, some,
  List, [], ◌∷◌, ◌++◌, arith, ◌==◌, eq→==, ne→==, Bool-cases, length, length-append,
}
use sbunix_64_bit_operating.Paging.{minus_one}
use sbunix_64_bit_operating.Kernel.{Kernel, next_of}
use sbunix_64_bit_operating.Links.{Chain, count}
use sbunix_64_bit_operating.Sched.{waitpid, wait_loop, wait_match, kill}
use sbunix_64_bit_operating.Sched.View.{View, SameButLinks}
use sbunix_64_bit_operating.Sched.Kill.{NoPid, kill-View}

-- A task of the list has the pid and is alive, or none has.
abbrev pub SomeLive : Kernel → ℕ → List ℕ → Type 0
SomeLive k pid [] = ⊥
SomeLive k pid (x ∷ xs) = ((k.tasks x).pid ≡ pid) × ((k.tasks x).state ≡ 1) ⊎ SomeLive k pid xs

abbrev pub NoneLive : Kernel → ℕ → List ℕ → Type 0
NoneLive k pid [] = Unit {0}
NoneLive k pid (x ∷ xs) = (((k.tasks x).pid ≡ pid) → ((k.tasks x).state ≢ 1)) × NoneLive k pid xs

wait_match-pid :
    (pid x : ℕ) (k : Kernel)
    → pid ≢ minus_one
    → wait_match pid x k ≡ (((k.tasks x).pid == pid) && ((k.tasks x).state == 1))
unfolding wait_match
wait_match-pid pid x k h = rw (ne→== pid minus_one h) refl

wait_loop-live :
    (fuel pid a : ℕ) (xs : List ℕ) (k : Kernel)
    → Chain (next_of k) a xs k.running
    → count k.running xs ≡ 0
    → pid ≢ minus_one
    → length xs < fuel
    → (wait_loop fuel pid (next_of k a) k ≡ some (pid, 1)) × SomeLive k pid xs
      ⊎ (wait_loop fuel pid (next_of k a) k ≡ some (minus_one, 0)) × NoneLive k pid xs
unfolding wait_loop
wait_loop-live zero pid a xs k c n h l = absurd (omega arith)
wait_loop-live (suc f) pid a [] k c n h l = inr (rw (c, eq→== k.running k.running refl) refl, tt)
wait_loop-live (suc f) pid a (x ∷ xs) k c n h l =
    elim (Bool-cases (((k.tasks x).pid == pid) && ((k.tasks x).state == 1))) [
      | inl q ↦ inl (
        rw (c.0, other, wait_match-pid pid x k h, q, ne→== pid minus_one h) refl,
        inl (ground arith, ground arith),
      )
      | inr q ↦ elim (wait_loop-live f pid x xs k c.1 (omega arith) h (omega arith)) [
        | inl r ↦ inl (rw (c.0, other, wait_match-pid pid x k h, q) r.0, inr r.1)
        | inr r ↦ inr (
          rw (c.0, other, wait_match-pid pid x k h, q) r.0,
          (λ e s. ground (arith, eq→== _ pid e, eq→== _ 1 s), r.1),
        )
      ]
    ]
  where
    other : (x == k.running) ≡ false
    other = ground arith

-- For a pid, `waitpid` ends within one round of the ring: it answers the pid and stores 1 if another
-- task of the ring has the pid and is alive, and answers -1 and stores 0 if none has.
pub waitpid-live :
    (fuel pid : ℕ) (ring dead : List ℕ) (k : Kernel)
    → View k k.running ring dead
    → pid ≢ minus_one
    → length ring < fuel
    → (waitpid fuel pid k ≡ some (pid, 1)) × SomeLive k pid ring
      ⊎ (waitpid fuel pid k ≡ some (minus_one, 0)) × NoneLive k pid ring
unfolding waitpid
waitpid-live fuel pid ring dead k v h l =
    wait_loop-live fuel pid k.running ring k v.links
      (ground (arith, v.distinct k.running, eq→== k.running k.running refl)) h l

-- Without the pid, no task is alive under it.
SomeLive-NoPid : (k : Kernel) (pid : ℕ) (xs : List ℕ) → NoPid k pid xs → ¬ SomeLive k pid xs
SomeLive-NoPid k pid [] n s = s
SomeLive-NoPid k pid (x ∷ xs) n (inl s) = n.0 s.0
SomeLive-NoPid k pid (x ∷ xs) n (inr s) = SomeLive-NoPid k pid xs n.1 s

NoPid-same :
    (k k' : Kernel) (pid : ℕ) (xs : List ℕ) → SameButLinks k k' → NoPid k pid xs → NoPid k' pid xs
NoPid-same k k' pid [] s n = tt
NoPid-same k k' pid (x ∷ xs) s n =
    (λ e. n.0 (sym (ap (λ t. t.pid) (s x)) ∙ e), NoPid-same k k' pid xs s n.1)

-- Where exactly one task behind the running one has the pid, which is neither 1 nor -1, and the fuel
-- exceeds the number of the tasks behind the running one and in the queue by more than one: `kill` of
-- the pid returns, and `waitpid` for it then answers -1 and stores 0.
pub waitpid-kill :
    (fuel pid task : ℕ) (before after dead : List ℕ) (k : Kernel)
    → View k k.running (before ++ task ∷ after) dead
    → pid ≢ 1
    → pid ≢ minus_one
    → (k.tasks task).pid ≡ pid
    → NoPid k pid before
    → NoPid k pid (before ++ after)
    → length before + length after + length dead + 2 < fuel
    → (k' : Kernel) × (kill fuel pid k ≡ some k') × (waitpid fuel pid k' ≡ some (minus_one, 0))
waitpid-kill fuel pid task before after dead k v h m e n o l =
    let (k', run, v', runs, same) = kill-View fuel pid task before after dead k v h e n l in
    let w : View k' k'.running (before ++ after) (dead ++ task ∷ []) =
      subst (λ r. View k' r (before ++ after) (dead ++ task ∷ [])) (sym runs) v' in
    elim (waitpid-live fuel pid (before ++ after) (dead ++ task ∷ []) k' w m
      (omega (arith, length-append before after, l))) [
        | inl r ↦
            absurd (SomeLive-NoPid k' pid (before ++ after) (NoPid-same k k' pid _ same o) r.1)
        | inr r ↦ (k', run, r.0)
      ]
