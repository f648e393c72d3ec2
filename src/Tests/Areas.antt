-- ===== src/Tests/Areas.antt =====
-- Tests of the areas and of the page fault handler.
use sbunix_64_bit_operating.Prelude.{
  ℕ, ◌-◌, ◌*◌, ◌/◌, ◌<◌, ◌≡◌, refl, subst, Bool, true, false, some, List, [], ◌∷◌, arith, test_bit,
}
use sbunix_64_bit_operating.Frames.{
  is_free, page_allocator, take_frame, get_first_frame, first_row, first_col, max_frames,
}
use sbunix_64_bit_operating.Frames.Alloc.{IsGrant, page_allocator-grants}
use sbunix_64_bit_operating.Paging.{Mmu, kmalloc, get_physical_page_addr}
use sbunix_64_bit_operating.Paging.Descend.{IsTable}
use sbunix_64_bit_operating.Paging.Walk.{walk}
use sbunix_64_bit_operating.Paging.Translate.{Names}
use sbunix_64_bit_operating.Paging.Protect.{Leads}
use sbunix_64_bit_operating.Kernel.{Kernel, Vma}
use sbunix_64_bit_operating.Sched.View.{View}
use sbunix_64_bit_operating.Areas.{malloc, new_area}
use sbunix_64_bit_operating.Areas.Malloc.{malloc-appends, EndBy}
use sbunix_64_bit_operating.Faults.{page_fault, returns}
use sbunix_64_bit_operating.Faults.Write.{page_fault-sole, sharers}
use sbunix_64_bit_operating.Faults.Tables.{OwnPages}
use sbunix_64_bit_operating.Faults.Copied.{page_fault-shared, Copied}
use sbunix_64_bit_operating.Tests.{high_free, high_free-IsValid, empty_mmu, base}
use sbunix_64_bit_operating.Tests.Tasks.{running_at, task_at, one_page}

abbrev area_at : (at v_start v_end : ℕ) → (is_next_freed : Bool) → Vma
area_at at v_start v_end is_next_freed = record {
  at = at;
  v_start = v_start;
  v_end = v_end;
  mmsz = v_end - v_start;
  v_flags = 0;
  grows_down = false;
  v_file = 0;
  v_offset = 0;
  is_next_freed = is_next_freed;
  page_number = 0;
}

-- The running task has the two areas 0x300000 to 0x322000 and `second`.
abbrev with_areas : List Vma → Kernel
with_areas areas = record (running_at 200) { tasks = λ p. record (task_at p 2 p) { mmap = areas } }

abbrev first_area : Vma
first_area = area_at 0x9000 0x30_0000 0x32_2000 false

abbrev second_area : Vma
second_area = area_at 0xA000 0x40_0000 0x40_2000 false

malloc-appends_example :
    (((malloc 100 (with_areas (first_area ∷ second_area ∷ []))).1.tasks 200).mmap
      ≡ first_area
        ∷ second_area
        ∷ new_area
            (kmalloc empty_mmu).0
            21
            (malloc 100 (with_areas (first_area ∷ second_area ∷ []))).0
            100
            false
        ∷ [])
    × EndBy (malloc 100 (with_areas (first_area ∷ second_area ∷ []))).0 (second_area ∷ [])
    × ((malloc 100 (with_areas (first_area ∷ second_area ∷ []))).1.running ≡ 200)
malloc-appends_example =
    malloc-appends 100 first_area (second_area ∷ []) (with_areas (first_area ∷ second_area ∷ []))
      refl (refl, (refl, tt))

abbrev gap_areas : List Vma
gap_areas = area_at 0x9000 0x30_0000 0x32_2000 true ∷ second_area ∷ second_area ∷ []

abbrev pub page_mmu : Mmu
page_mmu = record { frames = high_free; mem = one_page; kernbase = base; pml4 = 0x1000 }

-- The task 200 alone in the ring, and the three tasks that share their tables.
abbrev alone : Kernel
alone = record (running_at 200) { mmu = page_mmu; tasks = λ p. task_at p 2 p; delete_queue = 0 }

abbrev pub together : Kernel
together = record (running_at 200) { mmu = page_mmu }

View-alone : View alone 200 [] []
View-alone = record { links = refl; queue = refl; distinct = λ p. ground arith; nonnull = refl }

pub View-together : View together 200 (300 ∷ 100 ∷ []) (400 ∷ [])
View-together = record {
  links = (refl, (refl, refl));
  queue = (refl, refl);
  distinct = λ p. ground arith;
  nonnull = refl;
}

taken-IsTable : (f : ℕ) → f < max_frames → is_free high_free f ≡ false → IsTable page_mmu (f * 4096)
taken-IsTable f l h = record {
  aligned = omega arith;
  within = omega arith;
  taken = (let e : f * 4096 / 4096 ≡ f = omega arith in rw e h);
}

page-Leads : Leads page_mmu 0x1000 0x40_0000 0x4000
unfolding is_free test_bit walk
page-Leads = record {
  table = taken-IsTable 4 (omega arith) refl;
  reaches = λ g s. rw (s 512 (omega arith), s 1024 (omega arith), s 1538 (omega arith)) refl;
}

page-Names : Names (get_physical_page_addr 0x40_0000 0x1000 page_mmu) 0x7000 true true
unfolding get_physical_page_addr test_bit
page-Names = record { is_present = refl; page = refl; write_bit = refl; user_bit = refl }

page_fault-sole_example :
    (m : Mmu) × (page_fault 10 0x40_0123 7 alone ≡ some (returns (record alone { mmu = m })))
    × Names (get_physical_page_addr 0x40_0000 0x1000 m) 0x7000 true true
page_fault-sole_example =
    page_fault-sole 10 0x40_0123 0x7000 [] [] alone (omega arith) View-alone page-Leads page-Names
      refl (omega arith)

high_free-first : ((page_allocator high_free).0 ≡ 32768) × (is_free high_free 8 ≡ true)
unfolding page_allocator take_frame get_first_frame first_row first_col test_bit is_free
high_free-first = (refl, refl)

pub frame_8 : IsGrant high_free (page_allocator high_free) 8
frame_8 =
    let (f, l, g) = page_allocator-grants high_free-IsValid 8 (omega arith) high_free-first.1 in
    let e : f ≡ 8 = omega (arith, g.address, high_free-first.0) in
    subst (IsGrant high_free (page_allocator high_free)) e g

page-OwnPages : OwnPages page_mmu 0x40_0000 0x1000 0x2000 0x3000 0x4000 0x7000
unfolding is_free test_bit
page-OwnPages = record {
  path = record {
    top_present = refl;
    to_pdpt = refl;
    pdpt_present = refl;
    to_pdt = refl;
    pdt_present = refl;
    to_pt = refl;
  };
  top = taken-IsTable 1 (omega arith) refl;
  second = taken-IsTable 2 (omega arith) refl;
  third = taken-IsTable 3 (omega arith) refl;
  last = taken-IsTable 4 (omega arith) refl;
  held = taken-IsTable 7 (omega arith) refl;
  apart = (omega arith, omega arith, omega arith, omega arith);
}

page-sharers : sharers 0x40_0000 0x7000 (300 ∷ 100 ∷ []) together ≡ 2
unfolding get_physical_page_addr
page-sharers = refl

page_fault-shared_example :
    (m : Mmu) × (page_fault 10 0x40_0123 7 together ≡ some (returns (record together { mmu = m })))
    × Copied 0x40_0000 0x1000 0x7000 8 page_mmu m
page_fault-shared_example =
    page_fault-shared 10 0x40_0123 0x2000 0x3000 0x4000 0x7000 8 (300 ∷ 100 ∷ []) (400 ∷ [])
      together (omega arith) View-together page-Names.page page-OwnPages frame_8
      (omega (arith, page-sharers)) (omega arith)
