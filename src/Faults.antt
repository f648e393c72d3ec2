-- ===== src/Faults.antt =====
-- The page fault handler (`_hndlr_isr14`, sys/idt.c). Messages are left out; `exit` returns to the
-- handler for the shell only, and the loops without an end are the result `hangs`.
pub mod Write
pub mod Tables
pub mod Copied
use sbunix_64_bit_operating.Prelude.{
  ℕ, zero, suc, ◌+◌, ◌/◌, Bool, false, ◌&&◌, not, Option, none, some, ◌==◌, if◌then◌else◌, test_bit,
  ◌>>=◌,
}
use sbunix_64_bit_operating.Paging.{
  Mmu, alloc_page, frame, kmalloc, memset, map_page_for_user, get_physical_page_addr, minus_one,
  mark_page_as_rw, direct,
}
use sbunix_64_bit_operating.Kernel.{Kernel, next_of}
use sbunix_64_bit_operating.Sched.{exit}
use sbunix_64_bit_operating.Areas.{is_part_of_current_vma}

-- How the handler ends: it returns to the task, another task has been entered, or it loops.
pub data Outcome : Type 0 where
  returns : Kernel → Outcome
  left : Kernel → Outcome
  hangs : Outcome

abbrev pub run_cr3 : Kernel → ℕ
run_cr3 k = (k.tasks k.running).regs.cr3

-- `memcpy` of a page that is aligned, by words.
unfoldable pub copy_words : (rounds src dest : ℕ) → (ℕ → ℕ) → ℕ → ℕ
copy_words zero src dest mem = mem
copy_words (suc n) src dest mem =
    copy_words n (src + 1) (dest + 1) (λ b. if b == dest then mem src else mem b)

unfoldable pub copy_page : (src dest : ℕ) → Mmu → Mmu
copy_page src dest m = record m { mem = copy_words 512 (src / 8) (dest / 8) m.mem }

-- The tasks that have the page `phy` at the address `v`, the running one included.
unfoldable pub owners : (fuel : ℕ) → (v phy temp count : ℕ) → Kernel → Option ℕ
owners zero v phy temp count k = none
owners (suc n) v phy temp count k =
    let e = get_physical_page_addr v (k.tasks temp).regs.cr3 k.mmu in
    let shared = not (e == minus_one) && not (e == 0) && (frame e == phy) in
    let rest = owners n v phy (next_of k temp) (if shared then count + 1 else count) k in
    if temp == k.running then some count else rest

-- A page of its own for the running task, with the contents of `phy`.
unfoldable pub copy_on_write : (v phy : ℕ) → Kernel → Kernel
copy_on_write v phy k =
    let (new_page, m1) = kmalloc k.mmu in
    let m2 = map_page_for_user v (direct m1 new_page) (run_cr3 k + m1.kernbase) m1 in
    record k { mmu = copy_page phy (frame (get_physical_page_addr v (run_cr3 k) m2)) m2 }

-- A write to a page that is present.
unfoldable pub write_fault : (fuel : ℕ) → (v : ℕ) → Kernel → Option Outcome
write_fault fuel v k = do
  let phy = frame (get_physical_page_addr v (run_cr3 k) k.mmu)
  count ← owners fuel v phy (next_of k k.running) 1 k
  let writeable = (mark_page_as_rw v (run_cr3 k + k.mmu.kernbase) false k.mmu).1
  some (returns (if count == 1 then record k { mmu = writeable } else copy_on_write v phy k))

-- A page for an area that is written for the first time.
unfoldable pub fill_page : (v : ℕ) → Kernel → Kernel
fill_page v k =
    let (page, m1) = alloc_page k.mmu in
    record k { mmu = memset page (map_page_for_user v page (run_cr3 k + m1.kernbase) m1) }

-- A call of `exit` that ends the handler's work unless the shell runs.
unfoldable pub exit_fault : (fuel : ℕ) → Kernel → Option Outcome
exit_fault fuel k = do
  k1 ← exit fuel k
  some (if (k.tasks k.running).pid == 1 then returns k1 else left k1)

-- The branches on the error code's bits: present, write, user.
unfoldable pub fault_branches :
    (fuel : ℕ) → (v : ℕ) → (p rw_bit us : Bool) → Kernel → Option Outcome
fault_branches fuel v p rw_bit us k =
    if rw_bit && not p
    then (if is_part_of_current_vma v k
        then some (returns (fill_page v k))
        else (if us then exit_fault fuel k else some hangs))
    else (if us && rw_bit && p
        then write_fault fuel v k
        else (if us && not rw_bit && not p
            then exit_fault fuel k
            else (if not us && not rw_bit && not p then some hangs else exit_fault fuel k)))

-- One of the first two tests: where `exit` returns, for the shell, the handler goes on.
unfoldable pub exit_first : (fuel : ℕ) → Bool → Kernel → Option Outcome → Option Outcome
exit_first fuel test k further =
    if test && not ((k.tasks k.running).pid == 1) then exit_fault fuel k else further

-- The page below which the stack does not grow.
abbrev pub stack_border : ℕ
stack_border = 0xFFFF_FF7E_FFFF_5000

unfoldable pub page_fault : (fuel : ℕ) → (addr error_code : ℕ) → Kernel → Option Outcome
page_fault fuel addr error_code k =
    let v = frame addr in
    exit_first fuel (v == stack_border) k (
      exit_first fuel (not (error_code / 8 == 0)) k (
        fault_branches fuel v (test_bit error_code 0) (test_bit error_code 1)
          (test_bit error_code 2) k))
