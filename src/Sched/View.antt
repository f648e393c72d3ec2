-- ===== src/Sched/View.antt =====
-- The view of the scheduler's pointers as two lists: the ring behind a task, and the
-- queue of ended tasks. All of them are distinct, and none is NULL.
use sbunix_64_bit_operating.Prelude.{
  ℕ, ◌+◌, ◌≤◌, ◌≡◌, refl, sym, ◌∙◌, subst, fun_ext, inl, inr, List, [], ◌∷◌, ◌++◌, arith, ◌==◌,
  if◌then◌else◌, ==→eq, Bool-cases,
}
use sbunix_64_bit_operating.Kernel.{Kernel, Task, null, next_of, set_next, update}
use sbunix_64_bit_operating.Links.{Chain, count, count-append, Chain-split, Chain-append}

abbrev pub QueueOf : Kernel → List ℕ → Type 0
QueueOf k [] = k.delete_queue ≡ null
QueueOf k (q ∷ qs) = (k.delete_queue ≡ q) × Chain (next_of k) q qs null

-- The ring, from `start` on, and the queue.
pub record View (k : Kernel) (start : ℕ) (ring dead : List ℕ) : Type 0 where
  pub links : Chain (next_of k) start ring start
  pub queue : QueueOf k dead
  pub distinct : (p : ℕ) → count p (start ∷ ring) + count p dead ≤ 1
  pub nonnull : count null (start ∷ ring) + count null dead ≡ 0

-- The ring may be read from any member.
pub View-rotate :
    {k : Kernel} {start : ℕ} (before : List ℕ) (d : ℕ) (after : List ℕ) {dead : List ℕ}
    → View k start (before ++ d ∷ after) dead
    → View k d (after ++ start ∷ before) dead
View-rotate {k} {start} before d after v =
    let r = Chain-split (next_of k) start before d after start v.links in
    record {
      links = Chain-append (next_of k) d after start before d r.1 r.0;
      queue = v.queue;
      distinct = λ p. omega (
        arith,
        v.distinct p,
        count-append p before (d ∷ after),
        count-append p after (start ∷ before),
      );
      nonnull = omega (
        arith,
        v.nonnull,
        count-append null before (d ∷ after),
        count-append null after (start ∷ before),
      );
    }

-- A task with its link left out.
abbrev pub unlinked : Task → Task
unlinked t = record t { next = null }

-- The tasks of the two states differ in their links at most.
abbrev pub SameButLinks : Kernel → Kernel → Type 0
SameButLinks k k' = (p : ℕ) → unlinked (k'.tasks p) ≡ unlinked (k.tasks p)

pub set_next-next_of :
    (p q : ℕ) (k : Kernel) (x : ℕ)
    → next_of (set_next p q k) x ≡ (if x == p then q else next_of k x)
unfolding set_next update
set_next-next_of p q k x = ground arith

pub set_next-SameButLinks : (p q : ℕ) (k : Kernel) → SameButLinks k (set_next p q k)
unfolding set_next update
set_next-SameButLinks p q k x = elim (Bool-cases (x == p)) [
  | inl e ↦ (let e' : x ≡ p = ==→eq x p e in rw (e, e') refl)
  | inr e ↦ rw e refl
]

-- A state with the same links has the same view.
pub View-same :
    {k k' : Kernel} {start : ℕ} {ring dead : List ℕ}
    → ((x : ℕ) → next_of k' x ≡ next_of k x)
    → k'.delete_queue ≡ k.delete_queue
    → View k start ring dead
    → View k' start ring dead
View-same {k} {k'} {start} {ring} {dead} same_links same_queue v = record {
  links = subst (λ f. Chain f start ring start) (sym (fun_ext same_links)) v.links;
  queue = queue_same dead v.queue;
  distinct = v.distinct;
  nonnull = v.nonnull;
}
  where
    queue_same : (ds : List ℕ) → QueueOf k ds → QueueOf k' ds
    queue_same [] q = same_queue ∙ q
    queue_same (d ∷ ds) q =
        (same_queue ∙ q.0, subst (λ f. Chain f d ds null) (sym (fun_ext same_links)) q.1)
