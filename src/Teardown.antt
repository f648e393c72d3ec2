-- ===== src/Teardown.antt =====
-- Taking a task's memory apart: `FreePageEntries` and `FreePageTables` of sys/task.c. A walk of the
-- ring of tasks takes fuel, and `none` says that it ran out.
pub mod Share
pub mod Tables
use sbunix_64_bit_operating.Prelude.{
  ℕ, zero, suc, ◌+◌, ◌-◌, ◌*◌, ◌/◌, ◌%◌, ◌^◌, Bool, ◌&&◌, ◌||◌, not, Option, none, some, List, [],
  ◌∷◌, ◌==◌, if◌then◌else◌, ◌>>=◌,
}
use sbunix_64_bit_operating.Frames.{page_deallocator}
use sbunix_64_bit_operating.Paging.{
  Mmu, present, frame, get_physical_page_addr, minus_one, kdealloc, word_mod,
}
use sbunix_64_bit_operating.Kernel.{Kernel, Vma, next_of}

-- `tempPhy != -1 && tempPhy != 0 && (tempPhy & FRAME) == phyAddr`, with `phyAddr` looked up as an
-- address of the other task.
unfoldable pub shares : (phy : ℕ) → ℕ → Kernel → Bool
shares phy temp k =
    let e = get_physical_page_addr phy (k.tasks temp).regs.cr3 k.mmu in
    not (e == minus_one) && not (e == 0) && (frame e == phy)

-- The loop that counts the tasks that share a page.
unfoldable pub share_count : (fuel : ℕ) → (phy task temp count : ℕ) → Kernel → Option ℕ
share_count zero phy task temp count k = none
share_count (suc n) phy task temp count k =
    let rest =
      share_count n phy task (next_of k temp) (if shares phy temp k then count + 1 else count) k in
    if temp == task then some count else rest

unfoldable pub free_page : (fuel : ℕ) → (task start : ℕ) → Kernel → Option Kernel
free_page fuel task start k =
    let phy = get_physical_page_addr start (k.tasks task).regs.cr3 k.mmu in
    let dealloc = record k { mmu = kdealloc (frame phy + k.mmu.kernbase) k.mmu } in
    if phy == minus_one || phy == 0 then some k else (do
      count ← share_count fuel (frame phy) task (next_of k task) 1 k
      some (if count == 1 then dealloc else k))

-- The pages of one area, by the rounds left.
unfoldable pub free_area : (rounds fuel : ℕ) → (task start : ℕ) → Kernel → Option Kernel
free_area zero fuel task start k = some k
free_area (suc n) fuel task start k = do
  k1 ← free_page fuel task start k
  free_area n fuel task (start + 0x1000) k1

-- The rounds of `while (start < v_end)`.
abbrev pub pages_of : Vma → ℕ
pages_of a = (a.v_end + 4095 - a.v_start) / 4096

unfoldable pub free_areas : (fuel : ℕ) → (task : ℕ) → List Vma → Kernel → Option Kernel
free_areas fuel task [] k = some k
free_areas fuel task (a ∷ rest) k = do
  k1 ← free_area (pages_of a) fuel task a.v_start k
  free_areas fuel task rest k1

unfoldable pub free_page_entries : (fuel : ℕ) → (task : ℕ) → Kernel → Option Kernel
free_page_entries fuel task k = free_areas fuel task (k.tasks task).mmap k

-- A 64-bit read at any byte address: the tails of two words where the address is not aligned.
unfoldable pub load : (ℕ → ℕ) → ℕ → ℕ
load mem a =
    let shift = 8 * (a % 8) in
    (mem (a / 8) / 2 ^ shift + mem (a / 8 + 1) % 2 ^ shift * 2 ^ (64 - shift)) % word_mod

unfoldable pub dealloc_page : ℕ → Mmu → Mmu
dealloc_page e m = record m { frames = page_deallocator (frame e) m.frames }

-- The three loops of `FreePageTables`, each by the rounds left. A table is read at the entry that
-- names it, its flag bits included.
unfoldable pub free_pdt : (rounds k : ℕ) → (pdt : ℕ) → Mmu → Mmu
free_pdt zero k pdt m = m
free_pdt (suc n) k pdt m =
    let e = load m.mem (pdt + 8 * k) in
    free_pdt n (k + 1) pdt (if present e then dealloc_page e m else m)

unfoldable pub free_pdpt : (rounds j : ℕ) → (pdpt : ℕ) → Mmu → Mmu
free_pdpt zero j pdpt m = m
free_pdpt (suc n) j pdpt m =
    let e = load m.mem (pdpt + 8 * j) in
    free_pdpt n (j + 1) pdpt (if present e then dealloc_page e (free_pdt 512 0 e m) else m)

unfoldable pub free_pml4 : (rounds i : ℕ) → (pml4 : ℕ) → Mmu → Mmu
free_pml4 zero i pml4 m = m
free_pml4 (suc n) i pml4 m =
    let e = load m.mem (pml4 + 8 * i) in
    free_pml4 n (i + 1) pml4 (if present e then dealloc_page e (free_pdpt 512 0 e m) else m)

unfoldable pub free_page_tables : (task : ℕ) → Kernel → Kernel
free_page_tables task k = record k { mmu = free_pml4 511 0 (k.tasks task).regs.cr3 k.mmu }
