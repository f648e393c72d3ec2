-- ===== src/Exec/First.antt =====
-- The first task: `pushInitialParamstoStack`, `createNewTask`, `initUserProcess` and `switchToUserMode`
-- (sys/task.c) with the stub `_switchToRingThree` (sys/task.s). The task that runs before is `mainThread`.
-- The clearing of the screen and the terminal's buffer are left out.
use sbunix_64_bit_operating.Prelude.{
  ℕ, ◌+◌, ◌-◌, Option, none, some, List, [], ◌∷◌, ◌==◌, if◌then◌else◌, ◌>>=◌,
}
use sbunix_64_bit_operating.Paging.{kmalloc, get_new_pml4_for_user}
use sbunix_64_bit_operating.Kernel.{
  Kernel, Registers, cpu_of, null, next_of, set_next, set_regs, set_running, update,
  prepare_initial_kernel_stack,
}
use sbunix_64_bit_operating.Areas.{stack_for_user}
use sbunix_64_bit_operating.Fork.{no_time}
use sbunix_64_bit_operating.Tar.{Tarfs}
use sbunix_64_bit_operating.Environ.{Environ}
use sbunix_64_bit_operating.Loader.{Image, load_file}
use sbunix_64_bit_operating.Exec.{Arguments, push_params, zero_task}

abbrev pub sbush : List ℕ
sbush = b's' ∷ b'b' ∷ b'u' ∷ b's' ∷ b'h' ∷ []

abbrev pub sbush_path : List ℕ
sbush_path = b'/' ∷ b'b' ∷ b'i' ∷ b'n' ∷ b'/' ∷ sbush

-- "PWD=/" and "PATH=/:/bin:/usr".
abbrev pub first_environment : List (List ℕ)
first_environment =
    (b'P' ∷ b'W' ∷ b'D' ∷ b'=' ∷ b'/' ∷ [])
    ∷ (b'P' ∷ b'A' ∷ b'T' ∷ b'H' ∷ b'=' ∷ b'/' ∷ b':' ∷ b'/' ∷ b'b' ∷ b'i' ∷ b'n' ∷ b':' ∷ b'/'
        ∷ b'u' ∷ b's' ∷ b'r' ∷ [])
    ∷ []

-- `pushInitialParamstoStack`, with a page for the pointers `envp` and one for `args`.
unfoldable pub push_initial_params : (task : ℕ) → Kernel → Arguments × Kernel
push_initial_params task k =
    let (envp, m1) = kmalloc k.mmu in
    let (args, m2) = kmalloc m1 in
    push_params 0x32_2000 task (sbush ∷ []) first_environment (record k { mmu = m2 })

unfoldable pub create_new_task : (task function rflags cr3 : ℕ) → Kernel → Arguments × Kernel
create_new_task task function rflags cr3 k =
    let t = k.tasks task in
    let r = record (t.regs) {
      rax = 0;
      rbx = 0;
      rcx = 0;
      rdx = 0;
      rsi = 0;
      rdi = 0;
      rflags = rflags;
      rip = function;
      cr3 = cr3;
    } in
    let (stack, k1) = stack_for_user task (
      update task (record t { pid = k.pid_count + 1; ppid = 0; regs = r })
        (record k { pid_count = k.pid_count + 1 })) in
    let t1 = k1.tasks task in
    let r1 = record (t1.regs) { user_rsp = stack + 0x1000 } in
    let (arguments, k2) =
      push_initial_params task
        (update task (record t1 { regs = r1; state = 1; end_time = no_time }) k1) in
    let (page, m) = kmalloc k2.mmu in
    let t2 = k2.tasks task in
    let r2 = record (t2.regs) {
      kernel_rsp = page + 0x1000;
      rbp = t2.regs.user_rsp;
      count = 0;
      add = 0;
    } in
    (
      arguments,
      update task (record t2 { regs = r2; next = null })
          (record k2 { mmu = prepare_initial_kernel_stack r2 m }),
    )

-- `_switchToRingThree` leaves the mutex alone.
unfoldable pub switch_to_ring_three : Registers → Kernel → Kernel
switch_to_ring_three r k = record k {
  cpu_rsp = r.kernel_rsp - r.add;
  cpu_cr3 = r.cr3;
  cpu = cpu_of r;
}

unfoldable pub switch_to_user_mode : Kernel → Kernel
switch_to_user_mode k =
    let p = next_of k k.running in
    let r = (k.tasks p).regs in
    let first = record r { add = 40; count = r.count + 1 } in
    let again = record r { add = 0 } in
    let k1 = set_regs p (if r.count == 0 then first else again) (set_running p k) in
    switch_to_ring_three ((k1.tasks p).regs) (record k1 { tss_rsp = r.kernel_rsp })

-- `initUserProcess` behind `loadFile`, for the entry point `function`.
unfoldable pub start_first : (task function cr3 : ℕ) → Kernel → Arguments × Kernel
start_first task function cr3 k =
    let named = update task (record (k.tasks task) { exe_name = sbush_path }) k in
    let (arguments, k1) =
      create_new_task task function ((named.tasks named.running).regs.rflags) cr3 named in
    let k2 = set_next task task (set_next k1.running task k1) in
    let k3 = update task (record (k2.tasks task) { start = k2.clock }) k2 in
    (arguments, switch_to_user_mode k3)

unfoldable pub init_user_process :
    (fuel : ℕ)
    → Tarfs
    → (pages : Environ) → (unset : List ℕ) → Image
    → Kernel
    → Option (Kernel × Option Arguments)
init_user_process fuel tar pages unset im k = do
  let (cr3, m1) = get_new_pml4_for_user k.cpu_cr3 k.mmu
  let (task, m2) = kmalloc m1
  let k1 = update task zero_task (record k { mmu = m2 })
  (entry, k2) ← load_file fuel tar pages unset im sbush_path (cr3 + m2.kernbase) task k1
  let (arguments, k3) = start_first task entry cr3 k2
  some (if entry == 0 then (k2, none) else (k3, some arguments))
