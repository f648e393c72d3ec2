-- ===== src/Tests/Fork.antt =====
-- Tests of `fork`.
use sbunix_64_bit_operating.Prelude.{ℕ, ◌+◌, ◌*◌, ◌≡◌, [], ◌∷◌, arith}
use sbunix_64_bit_operating.Paging.{Mmu, kmalloc}
use sbunix_64_bit_operating.Paging.Fresh.{kmalloc-zeroed}
use sbunix_64_bit_operating.Links.{count}
use sbunix_64_bit_operating.Sched.View.{View}
use sbunix_64_bit_operating.Fork.{fork, make_parent_read_only}
use sbunix_64_bit_operating.Fork.Frame.{IsFramed}
use sbunix_64_bit_operating.Fork.Child.{IsChild, fork-View}
use sbunix_64_bit_operating.Tests.{base}
use sbunix_64_bit_operating.Tests.Tasks.{saved}
use sbunix_64_bit_operating.Tests.Areas.{page_mmu, together, View-together, frame_8}

new_page : (kmalloc page_mmu).0 ≡ 8 * 4096 + base
new_page = (kmalloc-zeroed page_mmu 8 frame_8).0

elsewhere : (p : ℕ) → p ≡ 8 * 4096 + base → count p (200 ∷ 300 ∷ 100 ∷ []) + count p (400 ∷ []) ≡ 0
elsewhere p e = ground (arith, e)

fork-View_example :
    View (fork saved together).1 200 ((kmalloc page_mmu).0 ∷ 300 ∷ 100 ∷ []) (400 ∷ [])
    × ((fork saved together).0 ≡ 7)
    × ((fork saved together).1.pid_count ≡ 7)
    × IsChild (together.tasks 200) 7 saved ((fork saved together).1.tasks (kmalloc page_mmu).0)
    × ((m : Mmu) × ((fork saved together).1.mmu
          ≡ make_parent_read_only (together.tasks 200).regs.cr3 (together.tasks 200).mmap m)
        × IsFramed ((fork saved together).1.tasks (kmalloc page_mmu).0).regs m)
fork-View_example =
    fork-View saved (300 ∷ 100 ∷ []) (400 ∷ []) together View-together (omega (arith, new_page))
      (elsewhere _ new_page)
