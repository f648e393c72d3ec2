-- ===== src/Kernel.antt =====
-- The state of the kernel: sys/task.c with include/sys/task.h, and what it shares with sys/idt.c
-- and sys/syscall.c. A `Task *` is a number, and `tasks` gives the structure behind it; the list
-- of areas that a task's `memMap.mmap` starts is a list, each area with the address of its page.
-- Fields that no C code reads back (the links `v_mm`, the sizes that `mm_struct` only declares) are
-- left out. Console output is left out as well.
use sbunix_64_bit_operating.Prelude.{
  ℕ, ◌+◌, ◌-◌, ◌/◌, ◌%◌, Bool, List, ◌==◌, if◌then◌else◌, set_bit,
}
use sbunix_64_bit_operating.Paging.{Mmu, store, direct, frame, get_physical_page_addr}

-- `Registers`; `rsp_count` and `add` are its fields `count` and `add`.
pub record Registers : Type 0 where
  pub rax : ℕ
  pub rbx : ℕ
  pub rcx : ℕ
  pub rdx : ℕ
  pub rsi : ℕ
  pub rdi : ℕ
  pub user_rsp : ℕ
  pub rbp : ℕ
  pub rip : ℕ
  pub rflags : ℕ
  pub cr3 : ℕ
  pub kernel_rsp : ℕ
  pub count : ℕ
  pub add : ℕ

-- `VMA`, with the address `at` of its structure.
pub record Vma : Type 0 where
  pub at : ℕ
  pub v_start : ℕ
  pub v_end : ℕ
  pub mmsz : ℕ
  pub v_flags : ℕ
  pub grows_down : Bool
  pub v_file : ℕ
  pub v_offset : ℕ
  pub is_next_freed : Bool
  pub page_number : ℕ

pub record Time : Type 0 where
  pub hours : ℕ
  pub minutes : ℕ
  pub seconds : ℕ

-- `Task`; `state` is 1 for a live task and 0 for one that has ended.
pub record Task : Type 0 where
  pub pid : ℕ
  pub ppid : ℕ
  pub start : Time
  pub end_time : Time
  pub curr_alarm_count : ℕ
  pub expected_alarm_count : ℕ
  pub curr_sleep_count : ℕ
  pub expected_sleep_count : ℕ
  pub exe_name : List ℕ
  pub regs : Registers
  pub next : ℕ
  pub state : ℕ
  pub mmap : List Vma
  pub mm_count : ℕ
  pub fd_pointers : List ℕ
  pub fd_count : ℕ
  pub function_pointer : ℕ

-- The registers that the interrupt and system call stubs save.
pub record Saved : Type 0 where
  pub rsp : ℕ
  pub rax : ℕ
  pub rbx : ℕ
  pub rcx : ℕ
  pub rdx : ℕ
  pub rsi : ℕ
  pub rdi : ℕ
  pub rbp : ℕ
  pub rip : ℕ
  pub rflags : ℕ

-- The general registers of the processor that the stubs load before `iretq`; `rsi` is left with the
-- address of the structure.
pub record Cpu : Type 0 where
  pub rax : ℕ
  pub rbx : ℕ
  pub rcx : ℕ
  pub rdx : ℕ
  pub rdi : ℕ
  pub rbp : ℕ

pub record Kernel : Type 0 where
  pub mmu : Mmu
  pub tasks : ℕ → Task
  pub running : ℕ
  pub delete_queue : ℕ
  pub pid_count : ℕ
  pub page_num : ℕ
  pub foreground_pid : ℕ
  pub clock : Time
  pub tss_rsp : ℕ
  pub cpu_rsp : ℕ
  pub cpu_cr3 : ℕ
  pub cpu : Cpu
  pub mutex : ℕ

abbrev pub null : ℕ
null = 0

-- A write through a `Task *`.
unfoldable pub update : ℕ → Task → Kernel → Kernel
update p t k = record k { tasks = λ q. if q == p then t else k.tasks q }

abbrev pub next_of : Kernel → ℕ → ℕ
next_of k p = (k.tasks p).next

unfoldable pub set_next : ℕ → ℕ → Kernel → Kernel
set_next p q k = update p (record (k.tasks p) { next = q }) k

unfoldable pub set_regs : ℕ → Registers → Kernel → Kernel
set_regs p r k = update p (record (k.tasks p) { regs = r }) k

unfoldable pub set_running : ℕ → Kernel → Kernel
set_running p k = record k { running = p }

unfoldable pub get_next_page_num : Kernel → ℕ × Kernel
get_next_page_num k = (k.page_num + 1, record k { page_num = k.page_num + 1 })

unfoldable pub set_foreground_pid : ℕ → Kernel → Kernel
set_foreground_pid pid k = record k { foreground_pid = pid }

unfoldable pub get_pid : Kernel → ℕ
get_pid k = (k.tasks k.running).pid

unfoldable pub get_ppid : Kernel → ℕ
get_ppid k = (k.tasks k.running).ppid

abbrev pub cpu_of : Registers → Cpu
cpu_of r = record { rax = r.rax; rbx = r.rbx; rcx = r.rcx; rdx = r.rdx; rdi = r.rdi; rbp = r.rbp }

-- The stub `_moveToNextProcess` (sys/task.s): the tables, the stack and the general registers of the next
-- process, and the mutex released.
unfoldable pub move_to_next_process : Registers → Kernel → Kernel
move_to_next_process r k = record k {
  cpu_rsp = r.kernel_rsp - r.add;
  cpu_cr3 = r.cr3;
  cpu = cpu_of r;
  mutex = 0;
}

-- The block that `runNextTask`, `exit` and their like run before they enter a task: on the first
-- entry the stack lies below the prepared interrupt frame of 40 bytes.
unfoldable pub ready_stack : ℕ → Kernel → Kernel
ready_stack p k =
    let r = (k.tasks p).regs in
    if r.count == 0
    then record (set_regs p (record r { add = 40; count = r.count + 1 }) k) {
      tss_rsp = r.kernel_rsp;
    }
    else record (set_regs p (record r { add = 0 }) k) { tss_rsp = r.kernel_rsp + 40 }

-- A word of the kernel's stack, by its address in the direct map.
unfoldable pub push_at : ℕ → ℕ → Mmu → Mmu
push_at v x m = store (direct m v / 8) x m

-- The stub `_prepareInitialKernelStack` (sys/task.s): the five words that `iretq` takes.
unfoldable pub prepare_initial_kernel_stack : Registers → Mmu → Mmu
prepare_initial_kernel_stack r m =
    let m1 = push_at (r.kernel_rsp - 8) 0x23 m in
    let m2 = push_at (r.kernel_rsp - 16) r.user_rsp m1 in
    let m3 = push_at (r.kernel_rsp - 24) (set_bit r.rflags 9) m2 in
    let m4 = push_at (r.kernel_rsp - 32) 0x2B m3 in push_at (r.kernel_rsp - 40) r.rip m4

-- The word behind a user address under the tables `cr3`.
abbrev pub user_word : ℕ → ℕ → Mmu → ℕ
user_word cr3 v m = (frame (get_physical_page_addr v cr3 m) + v % 4096) / 8

-- The stub `_changeToAlarmFunction` (sys/task.s): the saved interrupt frame returns to the handler,
-- with the interrupted address pushed on the user's stack.
unfoldable pub change_to_alarm_function : (fp : ℕ) → Registers → Mmu → Mmu
change_to_alarm_function fp r m =
    let old_rip = m.mem (direct m r.kernel_rsp / 8) in
    let old_rsp = m.mem (direct m (r.kernel_rsp + 24) / 8) in
    let m1 = push_at (r.kernel_rsp + 24) (old_rsp - 8) m in
    let m2 = push_at r.kernel_rsp fp m1 in store (user_word r.cr3 (old_rsp - 8) m2) old_rip m2
