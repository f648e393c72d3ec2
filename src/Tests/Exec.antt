-- ===== src/Tests/Exec.antt =====
-- Tests of new programs.
use sbunix_64_bit_operating.Prelude.{
  ℕ, ◌+◌, ◌*◌, ◌≡◌, refl, some, List, [], ◌∷◌, arith, get_or, test_bit,
}
use sbunix_64_bit_operating.Exec.Entry.{vector_word}
use sbunix_64_bit_operating.Exec.Vector.{argv_strings}
use sbunix_64_bit_operating.Exec.Start.{laid_out, pushed_word, stack_page, start_main-put_arguments}
use sbunix_64_bit_operating.Exec.Entry.{start_main}
use sbunix_64_bit_operating.Sched.View.{View}
use sbunix_64_bit_operating.Exec.{start_exec, put_arguments}
use sbunix_64_bit_operating.Frames.{is_free}
use sbunix_64_bit_operating.Paging.{get_physical_page_addr}
use sbunix_64_bit_operating.Paging.Descend.{IsTable}
use sbunix_64_bit_operating.Tests.{high_free, base}
use sbunix_64_bit_operating.Exec.Ring.{IsStarted, start_exec-View}
use sbunix_64_bit_operating.Kernel.{Kernel, null}
use sbunix_64_bit_operating.Exec.First.{sbush_path, start_first}
use sbunix_64_bit_operating.Exec.Boot.{start_first-View}
use sbunix_64_bit_operating.Tests.Tasks.{running_at, View-at_100, one_page}
use sbunix_64_bit_operating.Tests.Areas.{frame_8}

abbrev two_words : List (List ℕ)
two_words = (b'l' ∷ b's' ∷ []) ∷ (b'a' ∷ []) ∷ []

abbrev one_variable : List (List ℕ)
one_variable = (b'A' ∷ b'=' ∷ b'/' ∷ []) ∷ []

-- The frames 8 to 11 are free, and the page 0x7000 of the user's stack stands at 0x400000.
abbrev stacked : Kernel
stacked = record (running_at 200) {
  mmu = record { frames = high_free; mem = one_page; kernbase = base; pml4 = 0x1000 };
  tasks = λ q. record ((running_at 200).tasks 500) {
    regs = record ((running_at 200).tasks 500).regs { user_rsp = 0x40_1000 };
  };
}

stack-IsTable : IsTable stacked.mmu (stack_page 500 stacked)
unfolding get_physical_page_addr is_free test_bit
stack-IsTable = record { aligned = refl; within = omega arith; taken = refl }

-- `ls a` with one variable.
start_main-put_arguments_example :
    let (g, k') = put_arguments 0x32_1000 500 0x30_4000 two_words one_variable stacked in
    let main = start_main g (k'.mmu.mem (pushed_word 500 stacked)) in
    ((k'.tasks 500).regs.user_rsp ≡ 0x40_0FF8)
    × (main.argc ≡ 2)
    × (argv_strings g main.argv main.argc ≡ some (b'l' ∷ b's' ∷ []) ∷ some (b'a' ∷ []) ∷ [])
    × (vector_word g (main.argv + 8 * main.argc) ≡ 0)
    × (vector_word g (main.envp + 8 * 0) ≡ 0x30_2000)
    × (get_or g.environment 0 [] ≡ b'A' ∷ b'=' ∷ b'/' ∷ [])
start_main-put_arguments_example =
    start_main-put_arguments 0x32_1000 500 0x30_4000 8 two_words one_variable stacked 0
      ((omega arith, (omega arith, tt)), ((omega arith, tt), tt)) (omega arith) (omega arith)
      (omega arith) (omega arith) refl stack-IsTable frame_8

-- The task at 100 runs `ls a` in the new task at 500.
start_exec-View_example :
    (k' : Kernel) × (start_exec 10 500 0x40_0000 0x3000
        (b'l' ∷ b's' ∷ [])
        two_words
        one_variable
        (running_at 100)
      ≡ some (k', some (laid_out 0x32_1000 500 two_words one_variable (running_at 100))))
    × View k' 500 (200 ∷ 300 ∷ []) (400 ∷ [])
    × IsStarted 1 0x40_0000 0x1000 (b'l' ∷ b's' ∷ []) (k'.tasks 500)
    × (k'.running ≡ 500)
    × (k'.cpu_cr3 ≡ 0x1000)
start_exec-View_example =
    start_exec-View 10 500 0x40_0000 0x3000 200 (300 ∷ []) (400 ∷ []) (b'l' ∷ b's' ∷ []) two_words
      one_variable (running_at 100) View-at_100 (omega arith) refl (omega arith) (omega arith)
      (omega arith) (omega arith)

-- `mainThread` at 100, and no ended tasks.
abbrev none_ended : Kernel
none_ended = record (running_at 100) { delete_queue = null }

start_first-View_example :
    let k' = (start_first 500 0x40_0000 0x3000 none_ended).1 in
    View k' 500 [] []
    × IsStarted (none_ended.pid_count + 1) 0x40_0000 0x3000 sbush_path (k'.tasks 500)
    × (k'.running ≡ 500)
    × (k'.cpu_cr3 ≡ 0x3000)
    × (k'.tss_rsp ≡ k'.cpu_rsp + 40)
start_first-View_example =
    start_first-View 500 0x40_0000 0x3000 none_ended (omega arith) (omega arith) refl
