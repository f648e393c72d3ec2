-- ===== src/Areas/Release.antt =====
-- `free` (sys/task.c) on the list of areas.
use sbunix_64_bit_operating.Prelude.{
  ℕ, zero, suc, ◌/◌, ◌≤◌, ◌≡◌, refl, ap, ◌∙◌, ◌≢◌, true, some, List, [], ◌∷◌, ◌++◌, arith, eq→==,
  ne→==, length, set,
}
use sbunix_64_bit_operating.Frames.{
  Frames, page_deallocator, mark_as_free, page_size, max_frames, IsValid,
}
use sbunix_64_bit_operating.Kernel.{Kernel, Vma, update}
use sbunix_64_bit_operating.Areas.{
  unlink_area, free_areas_of, free, release, freed_address, address_of, set_mmap,
}

-- No area starts at the address.
abbrev pub NoStart : ℕ → List Vma → Type 0
NoStart ptr [] = Unit {0}
NoStart ptr (a ∷ rest) = (a.v_start ≢ ptr) × NoStart ptr rest

-- The last of the areas with the gap behind it marked.
abbrev pub mark_last : Vma → List Vma → List Vma
mark_last head [] = record head { is_next_freed = true } ∷ []
mark_last head (a ∷ rest) = head ∷ mark_last a rest

unlink_area-found :
    (ptr : ℕ) (head : Vma) (before : List Vma) (a : Vma) (after : List Vma)
    → NoStart ptr before
    → a.v_start ≡ ptr
    → unlink_area ptr head (before ++ a ∷ after)
      ≡ some (mark_last head before ++ after, address_of after)
unfolding unlink_area
unlink_area-found ptr head [] a after n e = rw (eq→== a.v_start ptr e) refl
unlink_area-found ptr head (b ∷ before) a after n e =
    rw (ne→== b.v_start ptr n.0, unlink_area-found ptr b before a after n.1 e) refl

-- A mark outside the bitmap changes no row.
set_outside : (rows : List ℕ) (i v : ℕ) → length rows ≤ i → set rows i v ≡ rows
set_outside [] i v l = refl
set_outside (w ∷ rows) zero v l = absurd (omega arith)
set_outside (w ∷ rows) (suc i) v l = ap (w ∷◌) (set_outside rows i v (omega arith))

page_deallocator_outside :
    (addr : ℕ) (s : Frames)
    → IsValid s
    → max_frames ≤ addr / page_size
    → page_deallocator addr s ≡ s
unfolding page_deallocator mark_as_free
page_deallocator_outside addr s v h =
    ap (λ rows. record s { rows = rows })
      (set_outside s.rows _ _ (omega (arith, v.bitmap_length, h)))

-- The running task's areas behind the first are searched for the address. The first that starts
-- there leaves the list and the gap is marked at the area before it. Where the address that the
-- source computes for the freed page lies outside the bitmap, no page is freed.
pub free-areas :
    (ptr : ℕ) (head : Vma) (before : List Vma) (a : Vma) (after : List Vma) (k : Kernel)
    → (k.tasks k.running).mmap ≡ head ∷ before ++ a ∷ after
    → NoStart ptr before
    → a.v_start ≡ ptr
    → IsValid k.mmu.frames
    → max_frames ≤ freed_address (address_of after) k.mmu.kernbase / page_size
    → (((free ptr k).tasks k.running).mmap ≡ mark_last head before ++ after)
      × ((free ptr k).mmu ≡ k.mmu)
      × ((free ptr k).running ≡ k.running)
unfolding free release set_mmap update
free-areas ptr head before a after k e n s v h =
    let found = unlink_area-found ptr head before a after n s in
    let outside =
      page_deallocator_outside (freed_address (address_of after) k.mmu.kernbase) k.mmu.frames v h in
    let searched : free_areas_of ptr (k.tasks k.running).mmap
        ≡ some (mark_last head before ++ after, address_of after) =
      ap (free_areas_of ptr) e ∙ unfold free_areas_of in found in
    let result = ap (λ r. release r k) searched in
    (
      ap (λ k'. (k'.tasks k.running).mmap) result ∙ rw (eq→== k.running k.running refl) refl,
      ap (λ k'. k'.mmu) result ∙ ap (λ fs. record k.mmu { frames = fs }) outside,
      ap (λ k'. k'.running) result,
    )
