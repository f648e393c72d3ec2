-- ===== src/Sched/Frame.antt =====
-- What of the state the functions change that take a task's memory apart (`FreePageEntries` and
-- `FreePageTables`, sys/task.c), and the fuel that they need.
use sbunix_64_bit_operating.Prelude.{
  ℕ, zero, suc, ◌+◌, ◌<◌, ◌≡◌, refl, inl, inr, ◌||◌, Option, some, List, [], ◌∷◌, arith, ◌==◌,
  if◌then◌else◌, eq→==, Bool-cases, length,
}
use sbunix_64_bit_operating.Paging.{Mmu, get_physical_page_addr, minus_one, frame, kdealloc}
use sbunix_64_bit_operating.Kernel.{Kernel, Vma, next_of}
use sbunix_64_bit_operating.Links.{Chain}
use sbunix_64_bit_operating.Teardown.{
  share_count, shares, free_page, free_area, free_areas, free_page_entries, free_page_tables,
  pages_of,
}

-- The two states differ in the memory at most.
abbrev pub with_mmu : Kernel → Mmu → Kernel
with_mmu k m = record k { mmu = m }

-- The computation ends, in the same state but for the memory.
abbrev pub OnlyMemory : Kernel → Option Kernel → Type 0
OnlyMemory k r = (m : Mmu) × (r ≡ some (with_mmu k m))

share_count_stop :
    (n phy task count : ℕ) (k : Kernel) → 0 < n → share_count n phy task task count k ≡ some count
unfolding share_count
share_count_stop zero phy task count k l = absurd (omega arith)
share_count_stop (suc n) phy task count k l = rw (eq→== task task refl) refl

-- The count from `temp` on ends within one round.
share_count-total :
    (fuel phy task temp count : ℕ) (xs : List ℕ) (k : Kernel)
    → Chain (next_of k) temp xs task
    → length xs + 1 < fuel
    → (n : ℕ) × (share_count fuel phy task temp count k ≡ some n)
unfolding share_count
share_count-total zero phy task temp count xs k c l = absurd (omega arith)
share_count-total (suc f) phy task temp count [] k c l = elim (Bool-cases (temp == task)) [
  | inl e ↦ (count, rw e refl)
  | inr e ↦
      let n : ℕ = if shares phy temp k then count + 1 else count in
      (n, rw (e, c) (share_count_stop f phy task n k (omega arith)))
]
share_count-total (suc f) phy task temp count (x ∷ xs) k c l = elim (Bool-cases (temp == task)) [
  | inl e ↦ (count, rw e refl)
  | inr e ↦
      let r =
        share_count-total f phy task x (if shares phy temp k then count + 1 else count) xs k c.1
          (omega arith) in
      (r.0, rw (e, c.0) r.1)
]

-- The count of the other members of a ring.
pub count_others :
    (fuel phy task count : ℕ) (xs : List ℕ) (k : Kernel)
    → Chain (next_of k) task xs task
    → length xs + 1 < fuel
    → (n : ℕ) × (share_count fuel phy task (next_of k task) count k ≡ some n)
count_others fuel phy task count [] k c l =
    (count, rw c (share_count_stop fuel phy task count k (omega arith)))
count_others fuel phy task count (x ∷ xs) k c l =
    let r = share_count-total fuel phy task x count xs k c.1 (omega arith) in (r.0, rw (c.0) (r.1))

module _ (fuel task : ℕ) (xs : List ℕ) (l : length xs + 1 < fuel) where
  free_page-OnlyMemory :
      (start : ℕ) (k : Kernel)
      → Chain (next_of k) task xs task
      → OnlyMemory k (free_page fuel task start k)
  unfolding free_page
  free_page-OnlyMemory start k c =
      let phy = get_physical_page_addr start (k.tasks task).regs.cr3 k.mmu in
      let r = count_others fuel (frame phy) task 1 xs k c l in
      elim (Bool-cases (phy == minus_one || phy == 0)) [
        | inl e ↦ (k.mmu, rw e refl)
        | inr e ↦ elim (Bool-cases (r.0 == 1)) [
          | inl q ↦ (kdealloc (frame phy + k.mmu.kernbase) k.mmu, rw (e, r.1, q) refl)
          | inr q ↦ (k.mmu, rw (e, r.1, q) refl)
        ]
      ]

  free_area-OnlyMemory :
      (rounds start : ℕ) (k : Kernel)
      → Chain (next_of k) task xs task
      → OnlyMemory k (free_area rounds fuel task start k)
  unfolding free_area
  free_area-OnlyMemory zero start k c = (k.mmu, refl)
  free_area-OnlyMemory (suc n) start k c =
      let (m, e) = free_page-OnlyMemory start k c in
      let (m', e') = free_area-OnlyMemory n (start + 0x1000) (with_mmu k m) c in
      (m', rw (e, e') refl)

  free_areas-OnlyMemory :
      (vmas : List Vma) (k : Kernel)
      → Chain (next_of k) task xs task
      → OnlyMemory k (free_areas fuel task vmas k)
  unfolding free_areas
  free_areas-OnlyMemory [] k c = (k.mmu, refl)
  free_areas-OnlyMemory (v ∷ vs) k c =
      let (m, e) = free_area-OnlyMemory (pages_of v) v.v_start k c in
      let (m', e') = free_areas-OnlyMemory vs (with_mmu k m) c in (m', rw (e, e') refl)

  -- Freeing the pages of a task of the ring ends, and changes the memory only.
  pub free_page_entries-OnlyMemory :
      (k : Kernel) → Chain (next_of k) task xs task → OnlyMemory k (free_page_entries fuel task k)
  unfolding free_page_entries
  free_page_entries-OnlyMemory k c = free_areas-OnlyMemory (k.tasks task).mmap k c

pub free_page_tables-OnlyMemory :
    (task : ℕ) (k : Kernel) → (m : Mmu) × (free_page_tables task k ≡ with_mmu k m)
unfolding free_page_tables
free_page_tables-OnlyMemory task k = (_, refl)
