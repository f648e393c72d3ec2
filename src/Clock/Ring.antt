-- ===== src/Clock/Ring.antt =====
-- The seconds that `_timer_intr_hdlr` (sys/idt.c) counts for every task of the ring.
use sbunix_64_bit_operating.Prelude.{
  ℕ, zero, suc, ◌≤◌, ◌<◌, ◌≡◌, refl, sym, ap, ◌∙◌, subst, inl, inr, Bool, true, false, ◌||◌, some,
  List, [], ◌∷◌, arith, ◌==◌, if◌then◌else◌, ==→eq, eq→==, Bool-cases, length,
}
use sbunix_64_bit_operating.Kernel.{Kernel, Task, next_of, update}
use sbunix_64_bit_operating.Links.{Chain, Chain-on, AgreeOn-count, count}
use sbunix_64_bit_operating.Sched.View.{View, View-same}
use sbunix_64_bit_operating.Clock.{tick_all, tick_ring, tick_task, ticked}

abbrev pub among : ℕ → List ℕ → Bool
among x [] = false
among x (p ∷ xs) = (x == p) || among x xs

among-count : (x : ℕ) (xs : List ℕ) → count x xs ≡ 0 → among x xs ≡ false
among-count x [] h = refl
among-count x (p ∷ xs) h =
    let other : (x == p) ≡ false = ground arith in rw other (among-count x xs (omega arith))

abbrev pub ticked_if : Bool → Task → Task
ticked_if b t = if b then ticked t else t

-- What changes from `k` to `k'` is that the tasks of the list have been ticked.
pub record Ticked (xs : List ℕ) (k k' : Kernel) : Type 0 where
  pub tasks : (x : ℕ) → k'.tasks x ≡ ticked_if (among x xs) (k.tasks x)
  pub rest : k' ≡ record k { tasks = k'.tasks }

tick_task-Ticked : (p : ℕ) (k : Kernel) → Ticked (p ∷ []) k (tick_task p k)
unfolding tick_task update
tick_task-Ticked p k = record {
  tasks = λ x. elim (Bool-cases (x == p)) [
    | inl q ↦ rw q (ap (λ y. ticked (k.tasks y)) (sym (==→eq x p q)))
    | inr q ↦ rw q refl
  ];
  rest = refl;
}

ticked_if-next : (b : Bool) (t : Task) → (ticked_if b t).next ≡ t.next
ticked_if-next true t = refl
ticked_if-next false t = refl

Ticked-next : {xs : List ℕ} {k k' : Kernel} → Ticked xs k k' → (x : ℕ) → next_of k' x ≡ next_of k x
Ticked-next {xs} {k} {k'} t x =
    ap (λ u. u.next) (t.tasks x) ∙ ticked_if-next (among x xs) (k.tasks x)

with_tasks : (ℕ → Task) → Kernel → Kernel
with_tasks ts k = record k { tasks = ts }

Ticked-cons :
    (p : ℕ) {xs : List ℕ} {k k1 k2 : Kernel}
    → count p xs ≡ 0
    → Ticked (p ∷ []) k k1
    → Ticked xs k1 k2
    → Ticked (p ∷ xs) k k2
unfolding with_tasks
Ticked-cons p {xs} {k} {k1} {k2} c a b = record {
  tasks = λ x. elim (Bool-cases (x == p)) [
    | inl q ↦
        let later : among x xs ≡ false = ap (λ y. among y xs) (==→eq x p q) ∙ among-count p xs c in
        b.tasks x ∙ rw (later, q) (a.tasks x ∙ ap (λ d. ticked_if (d || false) (k.tasks x)) q)
    | inr q ↦
        let same : k1.tasks x ≡ k.tasks x =
          a.tasks x ∙ ap (λ d. ticked_if (d || false) (k.tasks x)) q in
        b.tasks x
        ∙ ap (ticked_if (among x xs)) same
        ∙ ap (λ d. ticked_if (d || among x xs) (k.tasks x)) (sym q)
  ];
  rest = b.rest ∙ ap (with_tasks k2.tasks) a.rest;
}

tick_ring_step :
    (f x : ℕ) (k : Kernel) (a : ℕ)
    → next_of k a ≡ x
    → (x == k.running) ≡ false
    → tick_ring (suc f) (next_of k a) k ≡ tick_ring f (next_of (tick_task x k) x) (tick_task x k)
unfolding tick_ring
tick_ring_step f x k a e o = rw (e, o) refl

tick_ring-Ticked :
    (fuel a : ℕ) (xs : List ℕ) (k : Kernel)
    → Chain (next_of k) a xs k.running
    → count k.running xs ≡ 0
    → ((p : ℕ) → count p xs ≤ 1)
    → length xs < fuel
    → (k' : Kernel) × (tick_ring fuel (next_of k a) k ≡ some k') × Ticked xs k k'
unfolding tick_ring
tick_ring-Ticked zero a xs k c n d l = absurd (omega arith)
tick_ring-Ticked (suc f) a [] k c n d l =
    (k, rw (c, eq→== k.running k.running refl) refl, record { tasks = λ x. refl; rest = refl })
tick_ring-Ticked (suc f) a (x ∷ xs) k c n d l =
    let k1 = tick_task x k in
    let t = tick_task-Ticked x k in
    let runs : k1.running ≡ k.running = ap (λ h. h.running) t.rest in
    let other : (x == k.running) ≡ false = ground arith in
    let chain : Chain (next_of k1) x xs k1.running =
      subst (λ r. Chain (next_of k1) x xs r) (sym runs)
        (Chain-on (next_of k) (next_of k1) x xs k.running
          (AgreeOn-count (x ∷ xs) _ _ (λ y h. Ticked-next t y)) c.1) in
    let (k', run, t') =
      tick_ring-Ticked f x xs k1 chain (rw runs (omega (arith, n))) (λ p. omega (arith, d p))
        (omega (arith, l)) in
    (
      k',
      tick_ring_step f x k a c.0 other ∙ run,
      Ticked-cons x (ground (arith, d x, eq→== x x refl)) t t',
    )

-- One second later the counters that run of all tasks, and of no other, are one higher, and nothing
-- else of the state has changed.
pub tick_all-Ticked :
    (fuel : ℕ) (ring dead : List ℕ) (k : Kernel)
    → View k k.running ring dead
    → length ring < fuel
    → (k' : Kernel) × (tick_all fuel k ≡ some k')
      × Ticked (k.running ∷ ring) k k'
      × View k' k'.running ring dead
unfolding tick_all
tick_all-Ticked fuel ring dead k v l =
    let k1 = tick_task k.running k in
    let t = tick_task-Ticked k.running k in
    let runs : k1.running ≡ k.running = ap (λ h. h.running) t.rest in
    let v1 : View k1 k1.running ring dead =
      subst (λ r. View k1 r ring dead) (sym runs)
        (View-same (Ticked-next t) (ap (λ h. h.delete_queue) t.rest) v) in
    let not_in : count k.running ring ≡ 0 =
      ground (arith, v.distinct k.running, eq→== k.running k.running refl) in
    let (k', run, t') =
      tick_ring-Ticked fuel k1.running ring k1 v1.links (rw runs not_in)
        (λ p. omega (arith, v.distinct p)) l in
    let runs' : k'.running ≡ k1.running = ap (λ h. h.running) t'.rest in
    (
      k',
      run,
      Ticked-cons k.running not_in t t',
      subst (λ r. View k' r ring dead) (sym runs')
          (View-same (Ticked-next t') (ap (λ h. h.delete_queue) t'.rest) v1),
    )
