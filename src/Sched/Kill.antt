-- ===== src/Sched/Kill.antt =====
-- `kill` (sys/task.c): the first task behind the running one that has the pid leaves the ring.
use sbunix_64_bit_operating.Prelude.{
  ℕ, zero, suc, ◌+◌, ◌<◌, ◌≡◌, refl, ◌≢◌, ◌⊎◌, inl, inr, true, false, ◌||◌, some, List, [], ◌∷◌,
  ◌++◌, arith, ◌==◌, eq→==, ne→==, Bool-cases, length, length-append,
}
use sbunix_64_bit_operating.Paging.{Mmu}
use sbunix_64_bit_operating.Kernel.{Kernel, next_of}
use sbunix_64_bit_operating.Links.{Chain, count, count-append, last_of, Chain-split, Chain-last}
use sbunix_64_bit_operating.Teardown.{free_page_entries, free_page_tables}
use sbunix_64_bit_operating.Sched.{kill, find_before}
use sbunix_64_bit_operating.Sched.View.{View, View-same, View-rotate, SameButLinks}
use sbunix_64_bit_operating.Sched.Remove.{remove_after-View}
use sbunix_64_bit_operating.Sched.Frame.{
  with_mmu, free_page_entries-OnlyMemory, free_page_tables-OnlyMemory,
}

-- No task of the list has the pid.
abbrev pub NoPid : Kernel → ℕ → List ℕ → Type 0
NoPid k pid [] = Unit {0}
NoPid k pid (x ∷ xs) = ((k.tasks x).pid ≢ pid) × NoPid k pid xs

module _ (pid : ℕ) (k : Kernel) where
  -- The search passes tasks that have another pid and stops before `d`.
  find_before-last_of :
      (fuel a : ℕ) (before : List ℕ) (d : ℕ)
      → Chain (next_of k) a before d
      → count k.running before ≡ 0
      → NoPid k pid before
      → ((d == k.running) || ((k.tasks d).pid == pid)) ≡ true
      → length before < fuel
      → find_before fuel a pid k ≡ some (last_of a before)
  unfolding find_before
  find_before-last_of zero a before d c n p t l = absurd (omega arith)
  find_before-last_of (suc f) a [] d c n p t l = rw (c, t) refl
  find_before-last_of (suc f) a (x ∷ xs) d c n p t l =
      let other : (x == k.running) ≡ false = ground arith in
      rw (c.0, other, ne→== _ pid p.0)
        (find_before-last_of f x xs d c.1 (omega arith) p.1 t (omega arith))

-- The memory of a member of the ring is taken apart within the fuel.
pub free_member :
    (fuel task start : ℕ) (before after dead : List ℕ) (k : Kernel)
    → View k start (before ++ task ∷ after) dead
    → length before + length after + 2 < fuel
    → (m1 : Mmu) × (m2 : Mmu) × (free_page_entries fuel task k ≡ some (with_mmu k m1))
      × (free_page_tables task (with_mmu k m1) ≡ with_mmu k m2)
free_member fuel task start before after dead k v l =
    let r = View-rotate before task after v in
    let e =
      free_page_entries-OnlyMemory fuel task (after ++ start ∷ before)
        (omega (arith, length-append after (start ∷ before))) k r.links in
    let t = free_page_tables-OnlyMemory task (with_mmu k e.0) in (e.0, t.0, e.1, t.1)

-- With the pid in the ring, `kill` ends, moves that task to the end of the queue, goes on running
-- the same task and changes no other field of a task than links.
pub kill-View :
    (fuel pid task : ℕ) (before after dead : List ℕ) (k : Kernel)
    → View k k.running (before ++ task ∷ after) dead
    → pid ≢ 1
    → (k.tasks task).pid ≡ pid
    → NoPid k pid before
    → length before + length after + length dead + 2 < fuel
    → (k' : Kernel) × (kill fuel pid k ≡ some k')
      × View k' k.running (before ++ after) (dead ++ task ∷ [])
      × (k'.running ≡ k.running)
      × SameButLinks k k'
unfolding kill
kill-View fuel pid task before after dead k v h e n l =
    let c = Chain-split (next_of k) k.running before task after k.running v.links in
    let found =
      find_before-last_of pid k fuel k.running before task c.0 not_before n pid_matches
        (omega arith) in
    let at = Chain-last (next_of k) k.running before task c.0 in
    let free = free_member fuel task k.running before after dead k v (omega arith) in
    let done =
      remove_after-View fuel task before after dead (with_mmu k free.1) k.running
        (View-same (λ x. refl) refl v) (omega arith) in
    (
      done.0,
      rw (ne→== pid 1 h, found, at, not_running, pid_ne_one, free.2, free.3) done.1,
      done.2,
      done.3,
      done.4,
    )
  where
    counted : count k.running before + count k.running (task ∷ after) ≡ 0
    counted = ground (
      arith,
      v.distinct k.running,
      count-append k.running before (task ∷ after),
      eq→== k.running k.running refl,
    )

    not_before : count k.running before ≡ 0
    not_before = omega (arith, counted)

    not_running : (task == k.running) ≡ false
    not_running = ground (arith, counted)

    pid_matches : ((task == k.running) || ((k.tasks task).pid == pid)) ≡ true
    pid_matches = rw (not_running, e, eq→== pid pid refl) refl

    pid_ne_one : ((k.tasks task).pid == 1) ≡ false
    pid_ne_one = rw e (ne→== pid 1 h)

-- With no such pid in the ring, and for pid 1, `kill` changes nothing.
pub kill-missing :
    (fuel pid : ℕ) (ring dead : List ℕ) (k : Kernel)
    → View k k.running ring dead
    → (pid ≡ 1) ⊎ NoPid k pid ring
    → length ring < fuel
    → kill fuel pid k ≡ some k
unfolding kill
kill-missing fuel pid ring dead k v (inl h) l = rw (eq→== pid 1 h) refl
kill-missing fuel pid ring dead k v (inr n) l = elim (Bool-cases (pid == 1)) [
  | inl q ↦ rw q refl
  | inr q ↦
      rw
        (
          q,
          found,
          Chain-last (next_of k) k.running ring k.running v.links,
          eq→== k.running k.running refl,
        )
        refl
]
  where
    not_in : count k.running ring ≡ 0
    not_in = ground (arith, v.distinct k.running, eq→== k.running k.running refl)

    found : find_before fuel k.running pid k ≡ some (last_of k.running ring)
    found =
        find_before-last_of pid k fuel k.running ring k.running v.links not_in n
          (rw (eq→== k.running k.running refl) refl) l
