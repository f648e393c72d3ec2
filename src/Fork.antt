-- ===== src/Fork.antt =====
-- `fork` (sys/task.c): the tables, the areas and the registers of a child. The words of the page that
-- the child's structure lies in are not modelled.
pub mod Frame
pub mod Child
use sbunix_64_bit_operating.Prelude.{
  ℕ, zero, suc, ◌+◌, Bool, true, ◌||◌, List, [], ◌∷◌, ◌==◌, if◌then◌else◌, length,
}
use sbunix_64_bit_operating.Paging.{
  Mmu, frame, kmalloc, direct, map_page_for_user, get_physical_page_addr, minus_one,
  mark_page_as_rw, get_new_pml4_for_user,
}
use sbunix_64_bit_operating.Kernel.{
  Kernel, Task, Vma, Registers, Saved, Time, null, update, prepare_initial_kernel_stack,
}
use sbunix_64_bit_operating.Teardown.{pages_of}
use sbunix_64_bit_operating.Areas.{copy_areas, stack_top}
use sbunix_64_bit_operating.Faults.{copy_page}
use sbunix_64_bit_operating.Sched.{add_to_queue}

-- A page of an area that is not the stack: the child gets the parent's page, to read.
unfoldable pub share_page : (start parent child : ℕ) → Mmu → Mmu
share_page start parent child m =
    let phy = get_physical_page_addr start parent m in
    let m1 = map_page_for_user (frame start) (frame phy) (child + m.kernbase) m in
    if phy == minus_one || phy == 0
    then m
    else (mark_page_as_rw (frame start) (child + m1.kernbase) true m1).1

-- A page of the stack: the child gets a copy.
unfoldable pub clone_page : (start parent child : ℕ) → Mmu → Mmu
clone_page start parent child m =
    let (page, m1) = kmalloc m in
    let phy_child_stack = direct m1 page in
    let m2 = map_page_for_user (frame start) phy_child_stack (child + m1.kernbase) m1 in
    copy_page (frame (get_physical_page_addr (frame start) parent m2)) phy_child_stack m2

-- The inner `while` of `copyParentCr3Entries`, by the rounds left.
unfoldable pub copy_entries :
    (rounds : ℕ) → (is_stack : Bool) → (start parent child : ℕ) → Mmu → Mmu
copy_entries zero is_stack start parent child m = m
copy_entries (suc n) is_stack start parent child m =
    copy_entries n is_stack (start + 0x1000) parent child
      (if is_stack then clone_page start parent child m else share_page start parent child m)

unfoldable pub copy_parent_cr3_entries : (parent child : ℕ) → List Vma → Mmu → Mmu
copy_parent_cr3_entries parent child [] m = m
copy_parent_cr3_entries parent child (a ∷ rest) m =
    copy_parent_cr3_entries parent child rest
      (copy_entries (pages_of a) (a.v_end == stack_top) a.v_start parent child m)

-- The inner `while` of `makeParentCr3asReadOnly`, by the rounds left.
unfoldable pub protect_entries : (rounds start cr3 : ℕ) → Mmu → Mmu
protect_entries zero start cr3 m = m
protect_entries (suc n) start cr3 m =
    protect_entries n (start + 0x1000) cr3
      (mark_page_as_rw (frame start) (cr3 + m.kernbase) true m).1

unfoldable pub make_parent_read_only : (cr3 : ℕ) → List Vma → Mmu → Mmu
make_parent_read_only cr3 [] m = m
make_parent_read_only cr3 (a ∷ rest) m =
    make_parent_read_only cr3 rest
      (if a.v_end == stack_top then m else protect_entries (pages_of a) a.v_start cr3 m)

abbrev pub no_time : Time
no_time = record { hours = 0; minutes = 0; seconds = 0 }

-- The registers of a child, with the tables `cr3` and the end `kernel_rsp` of its kernel stack.
abbrev pub child_registers : Saved → (cr3 kernel_rsp : ℕ) → Registers
child_registers s cr3 kernel_rsp = record {
  rax = 0;
  rbx = s.rbx;
  rcx = s.rcx;
  rdx = s.rdx;
  rsi = s.rsi;
  rdi = s.rdi;
  user_rsp = s.rsp;
  rbp = 0;
  rip = s.rip;
  rflags = s.rflags;
  cr3 = cr3;
  kernel_rsp = kernel_rsp;
  count = 0;
  add = 0;
}

-- `createChildTask` in the zeroed page `task`. What it does not set is 0.
unfoldable pub create_child_task : (task : ℕ) → Saved → Kernel → Kernel
create_child_task task s k =
    let parent = k.tasks k.running in
    let (cr3, m1) = get_new_pml4_for_user k.cpu_cr3 k.mmu in
    let m2 = copy_parent_cr3_entries parent.regs.cr3 cr3 parent.mmap m1 in
    let (stack, m3) = kmalloc m2 in
    let regs = child_registers s cr3 (stack + 0x1000) in
    let (areas, m4) = copy_areas parent.mmap m3 in
    let child : Task = record {
      pid = k.pid_count + 1;
      ppid = parent.pid;
      start = k.clock;
      end_time = no_time;
      curr_alarm_count = 0;
      expected_alarm_count = 0;
      curr_sleep_count = 0;
      expected_sleep_count = 0;
      exe_name = parent.exe_name;
      regs = regs;
      next = null;
      state = 1;
      mmap = areas;
      mm_count = length parent.mmap;
      fd_pointers = parent.fd_pointers;
      fd_count = parent.fd_count;
      function_pointer = null;
    } in
    update task child
      (record k { mmu = prepare_initial_kernel_stack regs m4; pid_count = k.pid_count + 1 })

unfoldable pub fork : Saved → Kernel → ℕ × Kernel
fork s k =
    let (child, m) = kmalloc k.mmu in
    let k1 = create_child_task child s (record k { mmu = m }) in
    let k2 = add_to_queue child k1 in
    let parent = k2.tasks k2.running in
    (
      (k2.tasks child).pid,
      record k2 { mmu = make_parent_read_only parent.regs.cr3 parent.mmap k2.mmu },
    )
