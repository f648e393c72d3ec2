-- ===== src/Sched.antt =====
-- The ring of tasks and the queue of ended ones: the scheduling functions of sys/task.c. Walks of
-- the ring take fuel, and `none` says that it ran out.
pub mod View
pub mod Same
pub mod Enter
pub mod Steps
pub mod Turns
pub mod Remove
pub mod Kill
pub mod Exit
pub mod Wait
pub mod Frame
use sbunix_64_bit_operating.Prelude.{
  ℕ, zero, suc, Bool, ◌&&◌, ◌||◌, Option, none, some, ltb, ◌==◌, if◌then◌else◌, ◌>>=◌,
}
use sbunix_64_bit_operating.Paging.{minus_one}
use sbunix_64_bit_operating.Kernel.{
  Kernel, Saved, null, next_of, set_next, set_regs, set_running, update, move_to_next_process,
  ready_stack, change_to_alarm_function,
}
use sbunix_64_bit_operating.Links.{find_prev}
use sbunix_64_bit_operating.Teardown.{free_page_entries, free_page_tables}

-- `yield`, up to the switch of the registers.
unfoldable pub yield : Kernel → Kernel
yield k = set_running (next_of k k.running) k

unfoldable pub add_to_queue : (task : ℕ) → Kernel → Kernel
add_to_queue task k = let k1 = set_next task (next_of k k.running) k in set_next k1.running task k1

-- The start of `runNextTask`: the stub's registers go to the running task.
unfoldable pub save_running : Saved → Kernel → Kernel
save_running s k =
    set_regs k.running
      (record ((k.tasks k.running).regs) {
        kernel_rsp = s.rsp;
        rax = s.rax;
        rbx = s.rbx;
        rcx = s.rcx;
        rdx = s.rdx;
        rsi = s.rsi;
        rdi = s.rdi;
        rbp = s.rbp;
      })
      k

-- An alarm that has run out is delivered once, before the task runs.
unfoldable pub deliver_alarm : Kernel → Kernel
deliver_alarm k =
    let t = k.tasks k.running in
    if ltb t.expected_alarm_count t.curr_alarm_count
    then update k.running
        (record t { function_pointer = null; curr_alarm_count = 0; expected_alarm_count = 0 })
        (record k { mmu = change_to_alarm_function t.function_pointer t.regs k.mmu })
    else k

-- The end of `runNextTask`, `exit` and their like.
unfoldable pub enter : Kernel → Kernel
enter k = move_to_next_process (k.tasks k.running).regs k

unfoldable pub run_next_task : Saved → Kernel → Kernel
run_next_task s k =
    let k1 = save_running s k in
    let k2 = set_running (next_of k1 k1.running) k1 in
    enter (deliver_alarm (ready_stack k2.running k2))

-- `deleteRunningThreadAndJump`: `task` takes the place of the running task in the ring.
unfoldable pub delete_running_thread_and_jump : (fuel : ℕ) → (task : ℕ) → Kernel → Option Kernel
delete_running_thread_and_jump fuel task k = do
  let k1 = set_next task (next_of k k.running) k
  prev ← find_prev fuel (next_of k1) k1.running k1.running
  some (enter (ready_stack task (set_running task (set_next prev task k1))))

unfoldable pub add_to_delete_queue : (fuel : ℕ) → (task : ℕ) → Kernel → Option Kernel
add_to_delete_queue fuel task k =
    if k.delete_queue == null
    then some (set_next task null (record k { delete_queue = task }))
    else (do
      last ← find_prev fuel (next_of k) k.delete_queue null
      some (set_next task null (set_next last task k)))

-- The search of `kill`: the task before the first one with the pid, or before the running one.
unfoldable pub find_before : (fuel : ℕ) → (task pid : ℕ) → Kernel → Option ℕ
find_before zero task pid k = none
find_before (suc n) task pid k =
    let rest = find_before n (next_of k task) pid k in
    if (next_of k task == k.running) || ((k.tasks (next_of k task)).pid == pid)
    then some task
    else rest

-- The end of `kill`: the task behind `prev` leaves the ring for the queue.
unfoldable pub remove_after : (fuel : ℕ) → (prev task : ℕ) → Kernel → Option Kernel
remove_after fuel prev task k =
    add_to_delete_queue fuel task (set_next prev (next_of k (next_of k prev)) k)

unfoldable pub kill : (fuel : ℕ) → (pid : ℕ) → Kernel → Option Kernel
kill fuel pid k = if pid == 1 then some k else (do
  prev ← find_before fuel k.running pid k
  let found = next_of k prev
  if (found == k.running) || ((k.tasks found).pid == 1) then some k else (do
    k1 ← free_page_entries fuel found k
    remove_after fuel prev found (free_page_tables found k1)))

-- The end of `exit` and of `exitpid`: the task leaves the ring for the queue, and the task behind it
-- runs.
unfoldable pub leave_ring : (fuel : ℕ) → (task : ℕ) → Kernel → Option Kernel
leave_ring fuel task k = do
  prev ← find_prev fuel (next_of k) task task
  let k1 = set_next prev (next_of k (next_of k prev)) k
  let following = next_of k1 prev
  k2 ← add_to_delete_queue fuel task k1
  some (enter (set_running following (ready_stack following k2)))

-- The lines that `exit` and `exitpid` share, from `task->state = 0` on.
unfoldable pub end_task : (fuel : ℕ) → (task : ℕ) → Kernel → Option Kernel
end_task fuel task k = do
  k1 ←
      free_page_entries fuel task
        (update task (record (k.tasks task) { state = 0; end_time = k.clock }) k)
  leave_ring fuel task (free_page_tables task k1)

unfoldable pub exit : (fuel : ℕ) → Kernel → Option Kernel
exit fuel k = if (k.tasks k.running).pid == 1 then some k else end_task fuel k.running k

-- The search of `exitpid`, from the task behind the running one.
unfoldable pub find_pid : (fuel : ℕ) → (temp pid : ℕ) → Kernel → Option ℕ
find_pid zero temp pid k = none
find_pid (suc n) temp pid k =
    let rest = find_pid n (next_of k temp) pid k in
    if ((k.tasks temp).pid == pid) || (temp == k.running) then some temp else rest

unfoldable pub exit_pid : (fuel : ℕ) → (pid : ℕ) → Kernel → Option Kernel
exit_pid fuel pid k = if pid == 1 then some k else (do
  found ← find_pid fuel (next_of k k.running) pid k
  if (k.tasks found).pid == pid then end_task fuel found k else some k)

-- `waitpid` answers a result and the status that it stores. The pid -1 asks for any task with the
-- running task's parent.
unfoldable pub wait_match : (pid : ℕ) → (temp : ℕ) → Kernel → Bool
wait_match pid temp k =
    if pid == minus_one
    then ((k.tasks temp).ppid == (k.tasks k.running).ppid) && ((k.tasks temp).state == 1)
    else ((k.tasks temp).pid == pid) && ((k.tasks temp).state == 1)

unfoldable pub wait_loop : (fuel : ℕ) → (pid temp : ℕ) → Kernel → Option (ℕ × ℕ)
wait_loop zero pid temp k = none
wait_loop (suc n) pid temp k =
    let rest = wait_loop n pid (next_of k temp) k in
    if temp == k.running
    then some (minus_one, 0)
    else (if wait_match pid temp k
        then some ((if pid == minus_one then (k.tasks temp).ppid else pid), 1)
        else rest)

unfoldable pub waitpid : (fuel : ℕ) → (pid : ℕ) → Kernel → Option (ℕ × ℕ)
waitpid fuel pid k = wait_loop fuel pid (next_of k k.running) k
