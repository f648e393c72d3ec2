-- ===== src/Fork/Frame.antt =====
-- The interrupt frame on the kernel stack of a new task: `_prepareInitialKernelStack` (sys/task.s) and its
-- call in `createChildTask` (sys/task.c).
use sbunix_64_bit_operating.Prelude.{
  ℕ, ◌+◌, ◌-◌, ◌/◌, ◌≤◌, ◌≡◌, refl, List, [], ◌∷◌, arith, set_bit, eq→==,
}
use sbunix_64_bit_operating.Paging.{
  Mmu, direct, store, kmalloc, alloc_page, memset, get_new_pml4_for_user,
}
use sbunix_64_bit_operating.Kernel.{
  Kernel, Vma, Registers, Saved, update, push_at, prepare_initial_kernel_stack,
}
use sbunix_64_bit_operating.Areas.{copy_areas}
use sbunix_64_bit_operating.Fork.{create_child_task, copy_parent_cr3_entries}

-- The word `below` bytes below the end of the kernel stack.
abbrev pub stack_word : Registers → (below : ℕ) → Mmu → ℕ
stack_word r below m = m.mem (direct m (r.kernel_rsp - below) / 8)

-- The five words that `iretq` takes: where to go on, with which flags, and on which stack.
pub record IsFramed (r : Registers) (m : Mmu) : Type 0 where
  pub ip : stack_word r 40 m ≡ r.rip
  pub cs : stack_word r 32 m ≡ 0x2B
  pub flags : stack_word r 24 m ≡ set_bit r.rflags 9
  pub sp : stack_word r 16 m ≡ r.user_rsp
  pub ss : stack_word r 8 m ≡ 0x23

pub prepare_initial_kernel_stack-IsFramed :
    (r : Registers) (m : Mmu)
    → m.kernbase + 40 ≤ r.kernel_rsp
    → IsFramed r (prepare_initial_kernel_stack r m)
unfolding prepare_initial_kernel_stack push_at store
prepare_initial_kernel_stack-IsFramed r m h = record {
  ip = ground arith;
  cs = ground arith;
  flags = ground arith;
  sp = ground arith;
  ss = ground arith;
}

kmalloc-above : (m : Mmu) → (kmalloc m).1.kernbase ≤ (kmalloc m).0
unfolding kmalloc alloc_page memset
kmalloc-above m = omega arith

copy_areas-kernbase : (areas : List Vma) (m : Mmu) → (copy_areas areas m).1.kernbase ≡ m.kernbase
unfolding copy_areas kmalloc alloc_page memset
copy_areas-kernbase [] m = refl
copy_areas-kernbase (a ∷ areas) m = copy_areas-kernbase areas (kmalloc m).1

pub create_child_task-IsFramed :
    (task : ℕ) (s : Saved) (k : Kernel)
    → IsFramed (((create_child_task task s k).tasks task).regs) (create_child_task task s k).mmu
unfolding create_child_task update
create_child_task-IsFramed task s k =
    let parent = k.tasks k.running in
    let (cr3, m1) = get_new_pml4_for_user k.cpu_cr3 k.mmu in
    let m2 = copy_parent_cr3_entries parent.regs.cr3 cr3 parent.mmap m1 in
    rw (eq→== task task refl) (
      prepare_initial_kernel_stack-IsFramed _ _
        (omega (arith, copy_areas-kernbase parent.mmap ((kmalloc m2).1), kmalloc-above m2)))
