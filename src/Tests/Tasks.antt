-- ===== src/Tests/Tasks.antt =====
-- Tests of the scheduler and of taking a task's memory apart.
use sbunix_64_bit_operating.Prelude.{
  ℕ, ◌+◌, ◌*◌, ◌/◌, ◌≡◌, refl, ap, ◌∙◌, subst, true, false, ◌||◌, some, [], ◌∷◌, arith, ◌==◌,
  if◌then◌else◌,
}
use sbunix_64_bit_operating.Tests.{four_free, four_free-IsValid, empty_mmu, base}
use sbunix_64_bit_operating.Frames.{is_free}
use sbunix_64_bit_operating.Paging.{Mmu, minus_one, get_physical_page_addr, present}
use sbunix_64_bit_operating.Kernel.{Kernel, Task, Registers, Time, Vma, Saved}
use sbunix_64_bit_operating.Teardown.{free_page, free_page_tables, load, shares}
use sbunix_64_bit_operating.Teardown.Share.{free_page-frees, NoneShares}
use sbunix_64_bit_operating.Teardown.Tables.{
  free_page_tables-is_free, named, TopFlags, load_aligned,
}
use sbunix_64_bit_operating.Sched.{run_next_task, kill, end_task, waitpid}
use sbunix_64_bit_operating.Sched.View.{View, SameButLinks}
use sbunix_64_bit_operating.Sched.Enter.{IsEntered}
use sbunix_64_bit_operating.Sched.Steps.{run_next_task-View}
use sbunix_64_bit_operating.Sched.Turns.{run_turns, run_turns-IsEntered}
use sbunix_64_bit_operating.Sched.Kill.{kill-View}
use sbunix_64_bit_operating.Sched.Wait.{waitpid-kill}
use sbunix_64_bit_operating.Sched.Exit.{end_task-View}

abbrev pub registers : ℕ → Registers
registers p = record {
  rax = 0;
  rbx = 0;
  rcx = 0;
  rdx = 0;
  rsi = 0;
  rdi = 0;
  user_rsp = 0;
  rbp = 0;
  rip = 0x40_0000;
  rflags = 2;
  cr3 = 0x1000;
  kernel_rsp = base + p + 4096;
  count = 0;
  add = 0;
}

abbrev midnight : Time
midnight = record { hours = 0; minutes = 0; seconds = 0 }

-- The area of two pages that every task of the example has.
abbrev area : Vma
area = record {
  at = 0x9000;
  v_start = 0x40_0000;
  v_end = 0x40_2000;
  mmsz = 0x2000;
  v_flags = 0;
  grows_down = false;
  v_file = 0;
  v_offset = 0;
  is_next_freed = false;
  page_number = 0;
}

abbrev pub task_at : (p pid next : ℕ) → Task
task_at p pid next = record {
  pid = pid;
  ppid = 1;
  start = midnight;
  end_time = midnight;
  curr_alarm_count = 0;
  expected_alarm_count = 0;
  curr_sleep_count = 0;
  expected_sleep_count = 0;
  exe_name = [];
  regs = registers p;
  next = next;
  state = 1;
  mmap = area ∷ [];
  mm_count = 1;
  fd_pointers = [];
  fd_count = 0;
  function_pointer = 0;
}

-- The tasks 100, 200 and 300 are in the ring, with the pids 1, 2 and 3; 400 has ended; 500 is new.
abbrev example_tasks : ℕ → Task
example_tasks p =
    if p == 100
    then task_at 100 1 200
    else (if p == 200
        then task_at 200 2 300
        else (if p == 300
            then task_at 300 3 100
            else (if p == 400 then task_at 400 4 0 else task_at p 5 0)))

-- The task `p` runs.
abbrev pub running_at : ℕ → Kernel
running_at p = record {
  mmu = empty_mmu;
  tasks = example_tasks;
  running = p;
  delete_queue = 400;
  pid_count = 6;
  page_num = 20;
  foreground_pid = 2;
  clock = record { hours = 1; minutes = 2; seconds = 3 };
  tss_rsp = 0;
  cpu_rsp = 0;
  cpu_cr3 = 0x1000;
  cpu = record { rax = 0; rbx = 0; rcx = 0; rdx = 0; rdi = 0; rbp = 0 };
  mutex = 0;
}

abbrev pub saved : Saved
saved = record {
  rsp = 5000;
  rax = 1;
  rbx = 2;
  rcx = 3;
  rdx = 4;
  rsi = 5;
  rdi = 6;
  rbp = 7;
  rip = 8;
  rflags = 9;
}

pub View-at_100 : View (running_at 100) 100 (200 ∷ 300 ∷ []) (400 ∷ [])
View-at_100 = record {
  links = (refl, (refl, refl));
  queue = (refl, refl);
  distinct = λ p. ground arith;
  nonnull = refl;
}

pub View-at_200 : View (running_at 200) 200 (300 ∷ 100 ∷ []) (400 ∷ [])
View-at_200 = record {
  links = (refl, (refl, refl));
  queue = (refl, refl);
  distinct = λ p. ground arith;
  nonnull = refl;
}

run_next_task-View_example :
    View (run_next_task saved (running_at 200)) 300 (100 ∷ 200 ∷ []) (400 ∷ [])
    × IsEntered 300 (registers 300) (run_next_task saved (running_at 200))
    × (((run_next_task saved (running_at 200)).tasks 200).regs ≡ record (registers 200) {
      kernel_rsp = 5000;
      rax = 1;
      rbx = 2;
      rcx = 3;
      rdx = 4;
      rsi = 5;
      rdi = 6;
      rbp = 7;
    })
run_next_task-View_example =
    run_next_task-View saved (running_at 200) 300 (100 ∷ []) (400 ∷ []) View-at_200 (omega arith)

kill-View_example :
    (k' : Kernel) × (kill 10 3 (running_at 100) ≡ some k')
    × View k' 100 (200 ∷ []) (400 ∷ 300 ∷ [])
    × (k'.running ≡ 100)
    × SameButLinks (running_at 100) k'
kill-View_example =
    kill-View 10 3 300 (200 ∷ []) [] (400 ∷ []) (running_at 100) View-at_100 (omega arith) refl
      (omega arith, tt) (omega arith)

waitpid-kill_example :
    (k' : Kernel) × (kill 10 3 (running_at 100) ≡ some k') × (waitpid 10 3 k' ≡ some (minus_one, 0))
waitpid-kill_example =
    waitpid-kill 10 3 300 (200 ∷ []) [] (400 ∷ []) (running_at 100) View-at_100 (omega arith)
      (omega arith) refl (omega arith, tt) (omega arith, tt) (omega arith)

end_task-View_example :
    (k' : Kernel) × (end_task 10 200 (running_at 200) ≡ some k')
    × View k' 300 (100 ∷ []) (400 ∷ 200 ∷ [])
    × IsEntered 300 (registers 300) k'
    × ((k'.tasks 200).state ≡ 0)
    × ((k'.tasks 200).end_time ≡ record { hours = 1; minutes = 2; seconds = 3 })
end_task-View_example =
    end_task-View 10 200 300 (100 ∷ []) (400 ∷ []) (running_at 200) View-at_200 (omega arith)
      (omega arith)

-- The page 0x7000 stands at 0x400000.
abbrev pub one_page : ℕ → ℕ
one_page w =
    if w == 512
    then 0x2007
    else (if w == 1024
        then 0x3007
        else (if w == 1538 then 0x4007 else (if w == 2048 then 0x7007 else 0)))

abbrev with_page : Kernel
with_page = record (running_at 200) {
  mmu = record { frames = four_free; mem = one_page; kernbase = base; pml4 = 0x1000 };
}

one_page-lookup : get_physical_page_addr 0x40_0000 0x1000 with_page.mmu ≡ 0x7007
unfolding get_physical_page_addr
one_page-lookup = refl

one_page-NoneShares : NoneShares 0x7000 with_page (300 ∷ 100 ∷ [])
unfolding shares get_physical_page_addr
one_page-NoneShares = (refl, (refl, tt))

-- All the tasks of this example have the same tables, the page among them.
free_page-frees_example :
    (m : Mmu) × (free_page 10 200 0x40_0000 with_page ≡ some (record with_page { mmu = m }))
    × ((g : ℕ) → is_free m.frames g ≡ (if 7 == g then true else is_free four_free g))
    × ((b : ℕ) → m.mem b ≡ (if b / 512 == 7 then 0 else one_page b))
free_page-frees_example =
    free_page-frees 10 200 0x40_0000 0x7007 (300 ∷ 100 ∷ []) with_page (refl, (refl, refl)) refl
      one_page-lookup (omega arith, omega arith) one_page-NoneShares four_free-IsValid (omega arith)
      (omega arith)

one_page-TopFlags : TopFlags with_page.mmu 0x1000
one_page-TopFlags i l p =
    let e : load one_page (0x1000 + 8 * i) ≡ one_page ((0x1000 + 8 * i) / 8) =
      load_aligned (0x1000 + 8 * i) one_page (omega arith) (ground arith) in
    let a : (0x1000 + 8 * i) / 8 ≡ 512 + i = omega arith in
    let f : load one_page (0x1000 + 8 * i) ≡ one_page (512 + i) = e ∙ ap one_page a in
    rw f (ground (arith, subst (λ x. present x ≡ true) f p))

free_page_tables-is_free_example :
    (is_free (free_page_tables 200 with_page).mmu.frames 3
      ≡ (named 511 0 one_page 0x1000 3 || is_free four_free 3))
    × ((free_page_tables 200 with_page).mmu.mem ≡ one_page)
free_page_tables-is_free_example =
    free_page_tables-is_free 200 3 with_page (λ i l p j h. ground arith) one_page-TopFlags
      four_free-IsValid

run_turns-IsEntered_example :
    IsEntered 100 (registers 100) (run_turns (saved ∷ saved ∷ []) (running_at 200))
run_turns-IsEntered_example =
    run_turns-IsEntered (300 ∷ []) 100 [] (400 ∷ []) (saved ∷ saved ∷ []) (running_at 200)
      View-at_200 (omega arith, (omega arith, tt)) refl
