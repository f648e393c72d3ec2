-- ===== src/Areas/Copy.antt =====
-- The copy of a parent's areas (`copyVMA`, sys/task.c).
use sbunix_64_bit_operating.Prelude.{
  ℕ, ◌+◌, ◌≡◌, refl, sym, ap, ◌∙◌, false, ◌||◌, List, [], ◌∷◌, map, ◌==◌, if◌then◌else◌, eq→==,
  length,
}
use sbunix_64_bit_operating.Paging.{Mmu, frame}
use sbunix_64_bit_operating.Kernel.{Kernel, Vma, update}
use sbunix_64_bit_operating.Areas.{copy_areas, copy_vma, starts_at, page_num_at}

-- An area without the address of its structure and the mark of a gap.
abbrev pub contents : Vma → Vma
contents a = record a { at = 0; is_next_freed = false }

pub copy_areas-contents :
    (vmas : List Vma) (m : Mmu) → map contents (copy_areas vmas m).0 ≡ map contents vmas
unfolding copy_areas
copy_areas-contents [] m = refl
copy_areas-contents (a ∷ rest) m = ap (contents a ∷◌) (copy_areas-contents rest _)

starts_at-contents :
    (addr : ℕ) (vmas : List Vma) → starts_at addr (map contents vmas) ≡ starts_at addr vmas
unfolding starts_at
starts_at-contents addr [] = refl
starts_at-contents addr (a ∷ rest) =
    ap (λ b. (frame a.v_start == addr) || b) (starts_at-contents addr rest)

page_num_at-contents :
    (addr : ℕ) (vmas : List Vma) → page_num_at addr (map contents vmas) ≡ page_num_at addr vmas
unfolding page_num_at
page_num_at-contents addr [] = refl
page_num_at-contents addr (a ∷ rest) =
    ap (λ n. if frame a.v_start == addr then a.page_number else n) (page_num_at-contents addr rest)

-- A child has the areas of its parent in their order, and the lookups by address answer for it what
-- they answer for the parent; the count of its areas grows by theirs.
pub copy_vma-contents :
    (task : ℕ) (vmas : List Vma) (k : Kernel)
    → (map contents ((copy_vma task vmas k).tasks task).mmap ≡ map contents vmas)
      × ((addr : ℕ) → starts_at addr ((copy_vma task vmas k).tasks task).mmap ≡ starts_at addr vmas)
      × ((addr : ℕ)
          → page_num_at addr ((copy_vma task vmas k).tasks task).mmap ≡ page_num_at addr vmas)
      × (((copy_vma task vmas k).tasks task).mm_count ≡ (k.tasks task).mm_count + length vmas)
unfolding copy_vma update
copy_vma-contents task vmas k =
    let same = copy_areas-contents vmas k.mmu in
    let copies = (copy_areas vmas k.mmu).0 in
    rw (eq→== task task refl) (
      same,
      (λ addr.
          sym (starts_at-contents addr copies)
          ∙ ap (starts_at addr) same
          ∙ starts_at-contents addr vmas),
      (λ addr.
          sym (page_num_at-contents addr copies)
          ∙ ap (page_num_at addr) same
          ∙ page_num_at-contents addr vmas),
      refl,
    )
