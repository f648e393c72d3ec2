-- ===== src/Exec.antt =====
-- New programs: `exec` and `createNewExecTask` (sys/task.c). The contents of the pages of a program's
-- arguments are kept beside the memory of words: the words pushed from 0x301000 down, the strings from
-- 0x301000 on, and the environment's pages from 0x302000 on. A path that does not fit in the 15 bytes
-- of `exeName`, and a vector longer than its page, have no result; the message of a program that is
-- not found is left out.
pub mod Entry
pub mod Slots
pub mod Vector
pub mod Start
pub mod Ring
pub mod First
pub mod Boot
use sbunix_64_bit_operating.Prelude.{
  ℕ, zero, suc, ◌+◌, ◌-◌, ◌*◌, ◌%◌, false, ◌&&◌, Option, none, some, List, [], ◌∷◌, ◌++◌, ltb, leb,
  ◌==◌, if◌then◌else◌, length, replicate, ◌>>=◌, take,
}
use sbunix_64_bit_operating.Frames.{page_deallocator, max_frames, page_size}
use sbunix_64_bit_operating.Paging.{
  Mmu, kmalloc, direct, store, map_page_for_user, get_new_pml4_for_user, word_mod,
}
use sbunix_64_bit_operating.Kernel.{
  Kernel, Task, Registers, null, next_of, set_next, set_regs, set_running, update,
  get_next_page_num, set_foreground_pid, ready_stack, prepare_initial_kernel_stack, user_word,
}
use sbunix_64_bit_operating.Links.{find_prev}
use sbunix_64_bit_operating.Areas.{new_area, stack_for_user}
use sbunix_64_bit_operating.Sched.{enter, delete_running_thread_and_jump}
use sbunix_64_bit_operating.Fork.{no_time}
use sbunix_64_bit_operating.Tar.{Tarfs}
use sbunix_64_bit_operating.Environ.{Environ}
use sbunix_64_bit_operating.Loader.{Image, load_file}

-- The pages of a program's arguments.
pub record Arguments : Type 0 where
  pub vector : List ℕ
  pub strings : List ℕ
  pub environment : Environ

-- The loop over the environment: 512 characters of each string in a page, and an empty page behind.
unfoldable pub copy_environment : (envp : List (List ℕ)) → Environ
copy_environment [] = [] ∷ []
copy_environment (s ∷ envp) = take 512 s ∷ copy_environment envp

-- Its pages, from `v` on.
unfoldable pub map_environment : (v cr3 : ℕ) → (envp : List (List ℕ)) → Mmu → ℕ × Mmu
map_environment v cr3 [] m =
    let (page, m1) = kmalloc m in
    (v + 0x1000, map_page_for_user v (direct m1 page) (cr3 + m1.kernbase) m1)
map_environment v cr3 (s ∷ envp) m =
    let (page, m1) = kmalloc m in
    map_environment (v + 0x1000) cr3 envp
      (map_page_for_user v (direct m1 page) (cr3 + m1.kernbase) m1)

-- The loop from `z` = 0x322000 down to 0x302000, by the rounds left: the words of the pointers to the
-- environment's pages up to the one at `i`. A word that is passed over is 0 in the new page.
unfoldable pub environment_words : (left z i : ℕ) → List ℕ
environment_words zero z i = []
environment_words (suc left) z i =
    let pushed = environment_words left (z - 0x1000) (i - 0x1000) in
    let passed = environment_words left (z - 0x1000) i in if z == i then i ∷ pushed else 0 ∷ passed

-- The loop over the arguments from the last one to the first, with `k` bytes of the strings written:
-- the pointers pushed, and the strings.
unfoldable pub argument_words : (k : ℕ) → (args : List (List ℕ)) → List ℕ × List ℕ
argument_words k [] = ([], [])
argument_words k (s ∷ args) =
    let copied = take (511 - k) s in
    let (words, strings) = argument_words (k + length copied + 1) args in
    ((k + 0x30_1000) ∷ words, copied ++ 0 ∷ strings)

-- The arguments from the last one to the first.
unfoldable pub reversed : (args behind : List (List ℕ)) → List (List ℕ)
reversed [] behind = behind
reversed (s ∷ args) behind = reversed args (s ∷ behind)

-- All words in the order in which they are pushed, with the environment's pages ending in front of
-- `env_end`.
unfoldable pub push_vector : (env_end : ℕ) → (args : List (List ℕ)) → List ℕ × List ℕ
push_vector env_end args =
    let (words, strings) = argument_words 0 (reversed args []) in
    (
      0 ∷ (environment_words 33 0x32_2000 (env_end - 0x1000) ++ 0 ∷ (words ++ length args ∷ [])),
      strings,
    )

-- The word for `_start`: eight bytes below the last word pushed.
unfoldable pub vector_base : (words : ℕ) → ℕ
vector_base words = 0x30_1000 - 8 * words - 8

-- The pages of the arguments, of the environment and of the strings: the end of the environment's pages.
unfoldable pub map_arguments : (cr3 : ℕ) → (envp : List (List ℕ)) → Mmu → ℕ × Mmu
map_arguments cr3 envp m =
    let (main_args, m1) = kmalloc m in
    let m2 = map_page_for_user 0x30_0000 (direct m1 main_args) (cr3 + m1.kernbase) m1 in
    let (env_end, m3) = map_environment 0x30_2000 cr3 envp m2 in
    let (page, m4) = kmalloc m3 in
    (env_end, map_page_for_user 0x30_1000 (direct m4 page) (cr3 + m4.kernbase) m4)

-- The contents of these pages, the word on the user's stack, and the area of the pages in front of the
-- task's areas.
unfoldable pub put_arguments :
    (v_end task env_end : ℕ) → (args envp : List (List ℕ)) → Kernel → Arguments × Kernel
put_arguments v_end task env_end args envp k =
    let r = (k.tasks task).regs in
    let (vector, strings) = push_vector env_end args in
    let m1 = store (user_word r.cr3 (r.user_rsp - 8) k.mmu) (vector_base (length vector)) k.mmu in
    let r1 = record r { user_rsp = r.user_rsp - 8 } in
    let (at, m2) = kmalloc m1 in
    let (page_number, k1) = get_next_page_num (record k { mmu = m2 }) in
    let t = k.tasks task in
    let area = new_area at page_number 0x30_0000 (v_end - 0x30_0000) false in
    (
      record { vector = vector; strings = strings; environment = copy_environment envp },
      update task (record t { regs = r1; mmap = area ∷ t.mmap }) k1,
    )

-- The part of `exec` that lays out the arguments.
unfoldable pub push_params :
    (v_end task : ℕ) → (args envp : List (List ℕ)) → Kernel → Arguments × Kernel
push_params v_end task args envp k =
    let (env_end, m) = map_arguments ((k.tasks task).regs.cr3) envp k.mmu in
    put_arguments v_end task env_end args envp (record k { mmu = m })

-- The registers of a new program, with the end `kernel_rsp` of its kernel stack.
abbrev pub new_registers : (function rflags cr3 user_rsp kernel_rsp : ℕ) → Registers
new_registers function rflags cr3 user_rsp kernel_rsp = record {
  rax = 0;
  rbx = 0;
  rcx = 0;
  rdx = 0;
  rsi = 0;
  rdi = 0;
  user_rsp = user_rsp;
  rbp = user_rsp;
  rip = function;
  rflags = rflags;
  cr3 = cr3;
  kernel_rsp = kernel_rsp;
  count = 0;
  add = 0;
}

-- The registers that it does not set stay: the tables and the user's stack. Its parameter `cr3` is not
-- used.
unfoldable pub create_new_exec_task : (task function rflags cr3 : ℕ) → Kernel → Kernel
create_new_exec_task task function rflags cr3 k =
    let pid = (k.tasks k.running).pid in
    let (stack, m1) = kmalloc k.mmu in
    let (fds, m2) = kmalloc m1 in
    let t = k.tasks task in
    let r = new_registers function rflags t.regs.cr3 t.regs.user_rsp (stack + 0x1000) in
    update task
      (record t {
        pid = pid;
        ppid = 0;
        end_time = no_time;
        regs = r;
        next = null;
        state = 1;
        fd_pointers = fds ∷ replicate 19 0;
        fd_count = 5;
      })
      (record (set_foreground_pid pid k) {
        mmu = prepare_initial_kernel_stack r m2;
        pid_count = k.pid_count + 1;
      })

-- A zeroed page as a task.
abbrev pub zero_task : Task
zero_task = record {
  pid = 0;
  ppid = 0;
  start = no_time;
  end_time = no_time;
  curr_alarm_count = 0;
  expected_alarm_count = 0;
  curr_sleep_count = 0;
  expected_sleep_count = 0;
  exe_name = [];
  regs = new_registers 0 0 0 0 0;
  next = null;
  state = 0;
  mmap = [];
  mm_count = 0;
  fd_pointers = replicate 20 0;
  fd_count = 0;
  function_pointer = null;
}

abbrev pub size_of_task : ℕ
size_of_task = 552

-- `task - get_kernbase()`, which counts tasks and not bytes.
abbrev pub task_minus_kernbase : (task kernbase : ℕ) → ℕ
task_minus_kernbase task kernbase =
    (task + word_mod - kernbase * size_of_task % word_mod) % word_mod

-- The branch of `exec` for a program that is not found: the running task leaves the ring, and the task
-- behind it starts anew. Where the page that is freed lies outside of the bitmap, the mark is written
-- behind the array, and there is no result: with the kernel's own kernbase this is always so.
unfoldable pub fail_exec : (fuel task : ℕ) → Kernel → Option Kernel
fail_exec fuel task k = do
  let m = k.mmu
  let fs = page_deallocator (task_minus_kernbase task m.kernbase) m.frames
  let ended =
      update k.running (record (k.tasks k.running) { state = 0 })
        (record k { mmu = record m { frames = fs } })
  prev ← find_prev fuel (next_of ended) k.running k.running
  let following = next_of ended k.running
  let k1 = set_running following (set_next prev following ended)
  let r = record ((k1.tasks following).regs) { count = 0 }
  let k2 = set_regs following r k1
  let entered =
      enter (ready_stack following (record k2 { mmu = prepare_initial_kernel_stack r k2.mmu }))
  if ltb (task_minus_kernbase task m.kernbase) (max_frames * page_size) then some entered else none

-- The branch for a program with the entry point `function`.
unfoldable pub start_exec :
    (fuel task function cr3 : ℕ)
    → (path : List ℕ) → (args envp : List (List ℕ)) → Kernel
    → Option (Kernel × Option Arguments)
start_exec fuel task function cr3 path args envp k =
    let (arguments, k1) = push_params 0x32_1000 task args envp k in
    let k2 = create_new_exec_task task function ((k1.tasks k1.running).regs.rflags) cr3 k1 in
    let t = record (k2.tasks task) { exe_name = path; start = k2.clock } in
    let jumped : Option (Kernel × Option Arguments) = (do
      k3 ← delete_running_thread_and_jump fuel task (update task t k2)
      some (k3, some arguments)) in
    if ltb (length path) 15 && leb (length arguments.vector) 512 then jumped else none

unfoldable pub exec :
    (fuel : ℕ)
    → Tarfs
    → (pages : Environ) → (unset : List ℕ) → Image
    → (path : List ℕ) → (args envp : List (List ℕ)) → Kernel
    → Option (Kernel × Option Arguments)
exec fuel tar pages unset im path args envp k =
    let (task, m1) = kmalloc k.mmu in
    let (cr3, m2) = get_new_pml4_for_user k.cpu_cr3 m1 in
    let fresh = record zero_task { regs = new_registers 0 0 cr3 0 0 } in
    let (stack, k1) = stack_for_user task (update task fresh (record k { mmu = m2 })) in
    let t = k1.tasks task in
    let k2 = set_regs task (record (t.regs) { user_rsp = stack + 0x1000 }) k1 in
    let base = k2.mmu.kernbase in
    do
      (entry, k3) ← load_file fuel tar pages unset im path (cr3 + base) task k2
      let failed : Option (Kernel × Option Arguments) = (do
        k4 ← fail_exec fuel task k3
        some (k4, none))
      let started = start_exec fuel task entry cr3 path args envp k3
      if entry == 0 then failed else started
