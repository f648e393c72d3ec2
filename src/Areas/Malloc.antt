-- ===== src/Areas/Malloc.antt =====
-- `malloc` (sys/task.c) on the list of areas.
use sbunix_64_bit_operating.Prelude.{
  ℕ, ◌+◌, ◌-◌, ◌%◌, ◌≤◌, ◌≡◌, refl, sym, ap, ◌∙◌, subst, inl, inr, Bool, true, false, ◌&&◌, not,
  List, [], ◌∷◌, ◌++◌, arith, leb, ◌==◌, if◌then◌else◌, eq→==, Bool-cases,
}
use sbunix_64_bit_operating.Paging.{kmalloc, word_mod}
use sbunix_64_bit_operating.Kernel.{Kernel, Vma, get_next_page_num, update}
use sbunix_64_bit_operating.Areas.{
  Place, find_place, place_area, later_end, new_area, malloc, set_mmap,
}

-- No gap behind an area is marked.
abbrev pub NoneFreed : List Vma → Type 0
NoneFreed [] = Unit {0}
NoneFreed (a ∷ rest) = (a.is_next_freed ≡ false) × NoneFreed rest

-- The areas that do not grow down end by `e`.
abbrev pub EndBy : ℕ → List Vma → Type 0
EndBy e [] = Unit {0}
EndBy e (a ∷ rest) = (a.grows_down ≡ false → a.v_end ≤ e) × EndBy e rest

later_end_lem :
    (e : ℕ) (a : Vma) → (e ≤ later_end e a) × (a.grows_down ≡ false → a.v_end ≤ later_end e a)
later_end_lem e a = elim (Bool-cases a.grows_down) [
  | inl q ↦ rw q (omega arith, λ h. absurd (ground arith))
  | inr q ↦ rw q (ground arith, λ h. ground arith)
]

-- The loop goes on past an area with no gap behind it, and stops at one with a gap that is marked
-- and large enough.
abbrev pub gap_of : Vma → Vma → ℕ
gap_of temp next = (next.v_start + word_mod - temp.v_end) % word_mod

module _ (size e : ℕ) (temp next : Vma) (rest : List Vma) where
  abbrev further : Place
  further = find_place size (later_end e next) next rest

  abbrev filled : Place
  filled = record {
    end = later_end e next;
    set_next_freed = not (gap_of temp next == size);
    kept = record temp { is_next_freed = false } ∷ [];
  }

  find_place_step :
      (b : Bool)
      → (temp.is_next_freed && leb size (gap_of temp next)) ≡ b
      → find_place size e temp (next ∷ rest)
        ≡ (if b then filled else record further { kept = temp ∷ further.kept })
  unfolding find_place
  find_place_step b h =
      ap (λ c. if c then filled else record further { kept = temp ∷ further.kept }) h

find_place-appends :
    (size e : ℕ) (temp : Vma) (rest : List Vma)
    → NoneFreed (temp ∷ rest)
    → ((find_place size e temp rest).kept ≡ temp ∷ rest)
      × ((find_place size e temp rest).set_next_freed ≡ false)
      × (e ≤ (find_place size e temp rest).end)
      × EndBy (find_place size e temp rest).end rest
find_place-appends size e temp [] n = unfold find_place in (refl, refl, omega arith, tt)
find_place-appends size e temp (next ∷ rest) n =
    let (kept, freed, above, below) = find_place-appends size (later_end e next) next rest n.1 in
    let (up, covers) = later_end_lem e next in
    let step =
      find_place_step size e temp next rest false
        (ap (λ b. b && leb size (gap_of temp next)) n.0) in
    (
      ap (λ p. p.kept) step ∙ ap (temp ∷◌) kept,
      ap (λ p. p.set_next_freed) step ∙ freed,
      rw step (omega (arith, above, up)),
      subst (λ x. EndBy x (next ∷ rest)) (sym (ap (λ p. p.end) step))
          (λ h. omega (arith, above, covers h), below),
    )

-- With no gap marked, `malloc` adds an area of the size at the end of the list, with the next page
-- number. It starts behind all areas that do not grow down, the first area of the list excepted.
pub malloc-appends :
    (size : ℕ) (head : Vma) (rest : List Vma) (k : Kernel)
    → (k.tasks k.running).mmap ≡ head ∷ rest
    → NoneFreed (head ∷ rest)
    → (((malloc size k).1.tasks k.running).mmap
        ≡ head ∷ rest
          ++ new_area (kmalloc k.mmu).0 (k.page_num + 1) (malloc size k).0 size false ∷ [])
      × EndBy (malloc size k).0 rest
      × ((malloc size k).1.running ≡ k.running)
unfolding malloc set_mmap update get_next_page_num place_area
malloc-appends size head rest k e n =
    let (kept, freed, above, below) = find_place-appends size 0 head rest n in
    rw (e, eq→== k.running k.running refl) (rw (kept, freed) refl, below, refl)

-- With a marked gap behind the first area that is large enough, the new area follows the first one
-- and every other area leaves the list. It starts where the second area ends, not in the gap.
pub malloc-gap :
    (size : ℕ) (head next : Vma) (rest : List Vma) (k : Kernel)
    → (k.tasks k.running).mmap ≡ head ∷ next ∷ rest
    → head.is_next_freed ≡ true
    → size ≤ gap_of head next
    → next.grows_down ≡ false
    → ((malloc size k).0 ≡ next.v_end)
      × (((malloc size k).1.tasks k.running).mmap
          ≡ record head { is_next_freed = false }
            ∷ new_area
                (kmalloc k.mmu).0
                (k.page_num + 1)
                next.v_end
                size
                (not (gap_of head next == size))
            ∷ [])
unfolding malloc set_mmap update get_next_page_num place_area
malloc-gap size head next rest k e f l g =
    let b : (head.is_next_freed && leb size (gap_of head next)) ≡ true = ground (arith, f, l) in
    let step = find_place_step size 0 head next rest true b in
    let start : later_end 0 next ≡ next.v_end = ground (arith, g) in
    rw (e, eq→== k.running k.running refl, step, start) (refl, refl)
