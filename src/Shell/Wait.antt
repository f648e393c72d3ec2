-- ===== src/Shell/Wait.antt =====
-- How the shell waits for a command: the parent's part of `fork_execution` (bin/sbush/sbush.c). Between
-- two calls of waitpid other tasks run; the states in which the calls are made are a list. The child's
-- part is the system call execve.
use sbunix_64_bit_operating.Prelude.{
  ℕ, ◌%◌, ◌<◌, ◌≡◌, refl, ◌≢◌, inl, inr, Bool, true, false, Option, none, some, List, [], ◌∷◌, ◌++◌,
  ◌==◌, if◌then◌else◌, length, ◌>>=◌,
}
use sbunix_64_bit_operating.Paging.{minus_one}
use sbunix_64_bit_operating.Kernel.{Kernel}
use sbunix_64_bit_operating.Sched.{waitpid}
use sbunix_64_bit_operating.Sched.View.{View}
use sbunix_64_bit_operating.Sched.Wait.{SomeLive, NoneLive, waitpid-live}

-- `WIFEXITED`.
abbrev pub has_exited : (status : ℕ) → Bool
has_exited status = status % 128 == 0

-- The loop over waitpid: the states behind the call at which it ends.
unfoldable pub wait_for : (fuel pid : ℕ) → (states : List Kernel) → Option (List Kernel)
wait_for fuel pid [] = none
wait_for fuel pid (k ∷ states) = do
  (wait_pid, status) ← waitpid fuel pid k
  let again = wait_for fuel pid states
  if has_exited status then some states else again

-- For the answer `pid` of fork in the parent: one call in the background, the loop otherwise.
unfoldable pub fork_execution :
    (fuel pid : ℕ) → (background : Bool) → (states : List Kernel) → Option (List Kernel)
fork_execution fuel pid background [] = none
fork_execution fuel pid background (k ∷ states) =
    let once : Option (List Kernel) = (do (wait_pid, status) ← waitpid fuel pid k; some states) in
    let loop = wait_for fuel pid (k ∷ states) in if background then once else loop

-- Another task of the state's ring with the pid is alive, or none is.
abbrev pub Alive : (fuel pid : ℕ) → Kernel → Type 0
Alive fuel pid k =
    (ring : List ℕ) × (dead : List ℕ) × View k k.running ring dead
    × (length ring < fuel)
    × SomeLive k pid ring

abbrev pub Ended : (fuel pid : ℕ) → Kernel → Type 0
Ended fuel pid k =
    (ring : List ℕ) × (dead : List ℕ) × View k k.running ring dead
    × (length ring < fuel)
    × NoneLive k pid ring

abbrev pub AllAlive : (fuel pid : ℕ) → List Kernel → Type 0
AllAlive fuel pid [] = Unit {0}
AllAlive fuel pid (k ∷ states) = Alive fuel pid k × AllAlive fuel pid states

not_both : (k : Kernel) (pid : ℕ) (ring : List ℕ) → SomeLive k pid ring → NoneLive k pid ring → ⊥
not_both k pid [] s n = s
not_both k pid (x ∷ ring) (inl s) n = n.0 s.0 s.1
not_both k pid (x ∷ ring) (inr s) n = not_both k pid ring s n.1

waitpid-Alive :
    (fuel pid : ℕ) (k : Kernel)
    → pid ≢ minus_one
    → Alive fuel pid k
    → waitpid fuel pid k ≡ some (pid, 1)
waitpid-Alive fuel pid k h (ring, dead, v, l, s) = elim (waitpid-live fuel pid ring dead k v h l) [
  | inl r ↦ r.0
  | inr r ↦ absurd (not_both k pid ring s r.1)
]

waitpid-Ended :
    (fuel pid : ℕ) (k : Kernel)
    → pid ≢ minus_one
    → Ended fuel pid k
    → waitpid fuel pid k ≡ some (minus_one, 0)
waitpid-Ended fuel pid k h (ring, dead, v, l, s) = elim (waitpid-live fuel pid ring dead k v h l) [
  | inl r ↦ absurd (not_both k pid ring r.1 s)
  | inr r ↦ r.0
]

wait_for-Alive :
    (fuel pid : ℕ) (before : List Kernel) (k : Kernel) (more : List Kernel)
    → pid ≢ minus_one
    → AllAlive fuel pid before
    → Ended fuel pid k
    → wait_for fuel pid (before ++ k ∷ more) ≡ some more
unfolding wait_for
wait_for-Alive fuel pid [] k more h a e = rw (waitpid-Ended fuel pid k h e) refl
wait_for-Alive fuel pid (b ∷ before) k more h (s, a) e =
    rw (waitpid-Alive fuel pid b h s) (wait_for-Alive fuel pid before k more h a e)

-- The shell waits for a command in the foreground exactly as long as a task of the ring with the pid
-- of the child, which is not -1, is alive: where it is at the first calls of waitpid and is not at the
-- next one, the shell goes on behind that call. For a command in the background it goes on behind the
-- first call. In each state the tasks form a ring, which the fuel exceeds.
pub fork_execution-Alive :
    (fuel pid : ℕ) (background : Bool) (first : Kernel) (before : List Kernel) (k : Kernel)
    (more : List Kernel)
    → pid ≢ minus_one
    → AllAlive fuel pid (first ∷ before)
    → Ended fuel pid k
    → fork_execution fuel pid background (first ∷ (before ++ k ∷ more))
      ≡ some (if background then before ++ k ∷ more else more)
unfolding fork_execution
fork_execution-Alive fuel pid true first before k more h (s, a) e =
    rw (waitpid-Alive fuel pid first h s) refl
fork_execution-Alive fuel pid false first before k more h a e =
    wait_for-Alive fuel pid (first ∷ before) k more h a e
