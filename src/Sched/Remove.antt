-- ===== src/Sched/Remove.antt =====
-- A task leaves the ring for the queue of ended tasks (`addToDeleteQueue` and the unlinking in
-- `kill` and `exit`, sys/task.c).
use sbunix_64_bit_operating.Prelude.{
  ℕ, ◌+◌, ◌≤◌, ◌<◌, ◌≡◌, refl, ap, ◌∙◌, subst, ◌≢◌, some, List, [], ◌∷◌, ◌++◌, arith, eq→==, ne→==,
  length,
}
use sbunix_64_bit_operating.Kernel.{Kernel, null, next_of, set_next, update}
use sbunix_64_bit_operating.Links.{
  Chain, count, count-append, NotIn-count, Distinct-count, count-last_of, AgreeOn, AgreeOn-count,
  Chain-on, Chain-last, Chain-split, Chain-append, Chain-relink, Chain-unlink, last_of,
  find_prev-last_of,
}
use sbunix_64_bit_operating.Sched.{add_to_delete_queue, remove_after}
use sbunix_64_bit_operating.Sched.View.{
  View, QueueOf, SameButLinks, set_next-next_of, set_next-SameButLinks,
}

-- `task` stands at the end of the queue; links off the queue and `task` are as before.
pub record Enqueued (k : Kernel) (dead : List ℕ) (task : ℕ) (k' : Kernel) : Type 0 where
  pub queue : QueueOf k' (dead ++ task ∷ [])
  pub running : k'.running ≡ k.running
  pub others : (x : ℕ) → x ≢ task → count x dead ≡ 0 → next_of k' x ≡ next_of k x
  pub same : SameButLinks k k'

pub set_next-queue : (p q : ℕ) (k : Kernel) → (set_next p q k).delete_queue ≡ k.delete_queue
unfolding set_next update
set_next-queue p q k = refl

pub set_next-running : (p q : ℕ) (k : Kernel) → (set_next p q k).running ≡ k.running
unfolding set_next update
set_next-running p q k = refl

pub link_at : (p q : ℕ) (k : Kernel) → next_of (set_next p q k) p ≡ q
link_at p q k = set_next-next_of p q k p ∙ rw (eq→== p p refl) refl

pub link_off : (p q : ℕ) (k : Kernel) (x : ℕ) → x ≢ p → next_of (set_next p q k) x ≡ next_of k x
link_off p q k x h = set_next-next_of p q k x ∙ rw (ne→== x p h) refl

module _ (fuel task : ℕ) where
  pub add_to_delete_queue-Enqueued :
      (dead : List ℕ) (k : Kernel)
      → QueueOf k dead
      → ((p : ℕ) → count p (task ∷ dead) ≤ 1)
      → count null (task ∷ dead) ≡ 0
      → length dead < fuel
      → (k' : Kernel) × (add_to_delete_queue fuel task k ≡ some k') × Enqueued k dead task k'
  unfolding add_to_delete_queue
  add_to_delete_queue-Enqueued [] k q d z l =
      let k1 = record k { delete_queue = task } in
      let k' = set_next task null k1 in
      (
        k',
        rw (eq→== _ null q) refl,
        record {
          queue = (
            set_next-queue task null k1,
            set_next-next_of task null k1 task ∙ rw (eq→== task task refl) refl,
          );
          running = set_next-running task null k1;
          others = λ x h c. set_next-next_of task null k1 x ∙ rw (ne→== x task h) refl;
          same = set_next-SameButLinks task null k1;
        },
      )
  add_to_delete_queue-Enqueued (a ∷ rest) k q d z l =
      let prev = last_of a rest in
      let k1 = set_next prev task k in
      let k' = set_next task null k1 in
      let found =
        find_prev-last_of fuel (next_of k) a rest null q.1
          (NotIn-count null rest (omega (arith, z))) (omega arith) in
      let rewired : Chain (next_of k1) a rest task =
        Chain-relink (next_of k) (next_of k1) a rest null task (link_off prev task k)
          (link_at prev task k) (Distinct-count (a ∷ rest) (λ p. omega (arith, d p))) q.1 in
      let kept : AgreeOn (a ∷ rest) (next_of k1) (next_of k') =
        AgreeOn-count (a ∷ rest) (next_of k1) (next_of k')
          (λ x c. link_off task null k1 x (λ e. not_task x c e)) in
      (
        k',
        rw (q.0, ne→== a null a_nonnull, found) refl,
        record {
          queue = (
            set_next-queue task null k1 ∙ set_next-queue prev task k ∙ q.0,
            Chain-append (next_of k') a rest task [] null
                (Chain-on (next_of k1) (next_of k') a rest task kept rewired)
                (link_at task null k1),
          );
          running = set_next-running task null k1 ∙ set_next-running prev task k;
          others =
              λ x h c. link_off task null k1 x h ∙ link_off prev task k x (λ e. not_prev x c e);
          same = λ p. set_next-SameButLinks task null k1 p ∙ set_next-SameButLinks prev task k p;
        },
      )
    where
      a_nonnull : a ≢ null
      a_nonnull e = ground (arith, z, eq→== a null e)

      not_task : (x : ℕ) → 0 < count x (a ∷ rest) → x ≢ task
      not_task x c e =
          let c' = subst (λ y. 0 < count y (a ∷ rest)) e c in
          ground (arith, d task, eq→== task task refl)

      not_prev : (x : ℕ) → count x (a ∷ rest) ≡ 0 → x ≢ last_of a rest
      not_prev x c e =
          let c' = subst (λ y. count y (a ∷ rest) ≡ 0) e c in omega (arith, count-last_of a rest)

-- The ring's member `task`, with `before` in front of it and `after` behind it, moves to the end of
-- the queue.
module _ (fuel task : ℕ) (before after dead : List ℕ) (k : Kernel) (start : ℕ)
    (v : View k start (before ++ task ∷ after) dead) where
  split : Chain (next_of k) start before task × Chain (next_of k) task after start
  split = Chain-split (next_of k) start before task after start v.links

  counts : (p : ℕ) → count p (start ∷ before) + count p (task ∷ after) + count p dead ≤ 1
  counts p = omega (arith, v.distinct p, count-append p before (task ∷ after))

  no_null : count null (start ∷ before) + count null (task ∷ after) + count null dead ≡ 0
  no_null = omega (arith, v.nonnull, count-append null before (task ∷ after))

  -- The state with the link passing `task` by.
  abbrev bypassed : Kernel
  bypassed = set_next (last_of start before) (next_of k (next_of k (last_of start before))) k

  prev_counts : 0 < count (last_of start before) (start ∷ before)
  prev_counts = count-last_of start before

  -- A number counted elsewhere is not the link before `task`.
  not_prev : (x : ℕ) → count x (start ∷ before) ≡ 0 → x ≢ last_of start before
  not_prev x c e =
      let c' = subst (λ y. count y (start ∷ before) ≡ 0) e c in omega (arith, prev_counts)

  bypassed-queue :
      (ds : List ℕ)
      → ((p : ℕ) → 0 < count p ds → count p (start ∷ before) ≡ 0)
      → QueueOf k ds
      → QueueOf bypassed ds
  bypassed-queue [] h q = set_next-queue _ _ k ∙ q
  bypassed-queue (d ∷ ds) h q = (
    set_next-queue _ _ k ∙ q.0,
    Chain-on (next_of k) (next_of bypassed) d ds null
        (AgreeOn-count (d ∷ ds) _ _ (λ x c. link_off _ _ k x (not_prev x (h x c)))) q.1,
  )

  bypassed-links : Chain (next_of bypassed) start (before ++ after) start
  bypassed-links =
      Chain-unlink (next_of k) (next_of bypassed) start before task after start
        (link_off (last_of start before) _ k)
        (link_at (last_of start before) _ k
          ∙ ap (next_of k) (Chain-last (next_of k) start before task split.0))
        (Distinct-count (start ∷ before) (λ p. omega (arith, counts p)))
        (NotIn-count _ after (omega (arith, counts (last_of start before), prev_counts))) v.links

  not_task : (x : ℕ) → 0 < count x (start ∷ (before ++ after)) → x ≢ task
  not_task x c e =
      let c' = subst (λ y. 0 < count y (start ∷ (before ++ after))) e c in
      ground (arith, counts task, count-append task before after, eq→== task task refl)

  -- The state that `kill` and `exit` reach has the task at the end of the queue.
  pub remove_after-View :
      length dead < fuel
      → (k' : Kernel) × (remove_after fuel (last_of start before) task k ≡ some k')
        × View k' start (before ++ after) (dead ++ task ∷ [])
        × (k'.running ≡ k.running)
        × SameButLinks k k'
  unfolding remove_after
  remove_after-View l =
      let e =
        add_to_delete_queue-Enqueued fuel task dead bypassed
          (bypassed-queue dead (λ p c. omega (arith, counts p)) v.queue)
          (λ p. omega (arith, counts p)) (omega (arith, no_null)) l in
      (
        e.0,
        e.1,
        record {
          links =
              Chain-on (next_of bypassed) (next_of e.0) start (before ++ after) start
                (AgreeOn-count (start ∷ (before ++ after)) _ _ (λ x c.
                  e.2.others x (not_task x c)
                    (omega (arith, counts x, count-append x before after))))
                bypassed-links;
          queue = e.2.queue;
          distinct = λ p.
              omega (arith, counts p, count-append p before after, count-append p dead (task ∷ []));
          nonnull =
              omega (
                arith,
                no_null,
                count-append null before after,
                count-append null dead (task ∷ []),
              );
        },
        e.2.running ∙ set_next-running _ _ k,
        λ p. e.2.same p ∙ set_next-SameButLinks _ _ k p,
      )
