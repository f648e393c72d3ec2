-- ===== src/Teardown/Tables.antt =====
-- Freeing the tables of an ending task (`FreePageTables`, sys/task.c).
use sbunix_64_bit_operating.Prelude.{
  ℕ, zero, suc, ◌+◌, ◌*◌, ◌/◌, ◌%◌, ◌^◌, ◌≤◌, ◌<◌, ◌≡◌, refl, sym, ap, ◌∙◌, subst, inl, inr, Bool,
  true, false, ◌&&◌, ◌||◌, arith, ◌==◌, if◌then◌else◌, Bool-cases,
}
use sbunix_64_bit_operating.Frames.{page_deallocator, is_free, IsValid, max_frames, page_size}
use sbunix_64_bit_operating.Frames.Marks.{is_free-mark_as_free, mark_as_free-IsValid}
use sbunix_64_bit_operating.Paging.{Mmu, frame, present, word_mod}
use sbunix_64_bit_operating.Kernel.{Kernel}
use sbunix_64_bit_operating.Teardown.{load, dealloc_page, free_pdpt, free_pml4, free_page_tables}
use sbunix_64_bit_operating.Teardown.Share.{frame_number}

abbrev pub top_entry : Mmu → ℕ → ℕ → ℕ
top_entry m pml4 i = load m.mem (pml4 + 8 * i)

-- A present top entry has the three flags that the kernel sets, and names a frame of the bitmap.
abbrev pub TopFlags : Mmu → ℕ → Type 0
TopFlags m pml4 =
    (i : ℕ)
    → i < 511
    → present (top_entry m pml4 i) ≡ true
    → (top_entry m pml4 i % 8 ≡ 7) × (frame_number (top_entry m pml4 i) < max_frames)

-- In the page that a present top entry names, from the word of its flags on, the entries are below
-- 2 ^ 56, as entries for physical memory are.
abbrev pub SmallEntries : (ℕ → ℕ) → ℕ → Type 0
SmallEntries mem e = present e ≡ true → (j : ℕ) → j < 512 → mem (e / 8 + j) < 2 ^ 56

abbrev pub SmallTables : Mmu → ℕ → Type 0
SmallTables m pml4 = (i : ℕ) → i < 511 → SmallEntries m.mem (top_entry m pml4 i)

-- An aligned read is a read of the word.
pub load_aligned :
    (a : ℕ) (mem : ℕ → ℕ) → a % 8 ≡ 0 → mem (a / 8) < word_mod → load mem a ≡ mem (a / 8)
unfolding load
load_aligned a mem h l = rw h (ground arith)

-- A read at the last byte of a word below 2 ^ 56 finds an even number.
load_misaligned :
    (a : ℕ) (m : Mmu) → m.mem (a / 8) < 2 ^ 56 → a % 8 ≡ 7 → present (load m.mem a) ≡ false
unfolding load
load_misaligned a m small e = rw e (ground arith)

free_pdpt_idle :
    (n j e : ℕ) (m : Mmu)
    → ((i : ℕ) → i < 512 → m.mem (e / 8 + i) < 2 ^ 56)
    → j + n ≤ 512
    → e % 8 ≡ 7
    → free_pdpt n j e m ≡ m
unfolding free_pdpt
free_pdpt_idle zero j e m h l q = refl
free_pdpt_idle (suc n) j e m h l q =
    let place : e / 8 + j ≡ (e + 8 * j) / 8 = omega arith in
    let small : m.mem ((e + 8 * j) / 8) < 2 ^ 56 =
      subst (λ w. m.mem w < 2 ^ 56) place (h j (omega (arith, l))) in
    rw (load_misaligned (e + 8 * j) m small (omega arith))
      (free_pdpt_idle n (j + 1) e m h (omega (arith, l)) q)

-- One of the `rounds` entries from `i` on is present and names the frame.
abbrev pub named : (rounds i : ℕ) → (ℕ → ℕ) → ℕ → ℕ → Bool
named zero i mem pml4 g = false
named (suc n) i mem pml4 g =
    let e = load mem (pml4 + 8 * i) in
    (present e && (frame_number e == g)) || named n (i + 1) mem pml4 g

-- One entry of the top table: its frame is freed, and nothing under it.
freed_entry : ℕ → Mmu → Mmu
freed_entry e m = if present e then dealloc_page e m else m

free_pml4_step :
    (n i pml4 : ℕ) (m : Mmu)
    → SmallTables m pml4
    → TopFlags m pml4
    → i < 511
    → free_pml4 (suc n) i pml4 m ≡ free_pml4 n (i + 1) pml4 (freed_entry (top_entry m pml4 i) m)
unfolding free_pml4 freed_entry
free_pml4_step n i pml4 m h t l = elim (Bool-cases (present (top_entry m pml4 i))) [
  | inl q ↦
      rw (q, free_pdpt_idle 512 0 (top_entry m pml4 i) m (h i l q) (omega arith) (t i l q).0) refl
  | inr q ↦ rw q refl
]

freed_entry-mem : (e : ℕ) (m : Mmu) → (freed_entry e m).mem ≡ m.mem
unfolding freed_entry dealloc_page
freed_entry-mem e m = elim (Bool-cases (present e)) [ inl q ↦ rw q refl | inr q ↦ rw q refl ]

freed_entry-frames :
    (e g : ℕ) (m : Mmu)
    → IsValid m.frames
    → (present e ≡ true → frame_number e < max_frames)
    → IsValid (freed_entry e m).frames
      × (is_free (freed_entry e m).frames g
          ≡ ((present e && (frame_number e == g)) || is_free m.frames g))
unfolding freed_entry dealloc_page page_deallocator
freed_entry-frames e g m v l = elim (Bool-cases (present e)) [
  | inl q ↦
      let at : frame e / page_size ≡ frame_number e = omega arith in
      rw (q, at)
        (
          mark_as_free-IsValid (frame_number e) v,
          is_free-mark_as_free (frame_number e) v (l q) g ∙ ground arith,
        )
  | inr q ↦ rw q (v, refl)
]

free_pml4-is_free :
    (n i pml4 g : ℕ) (m : Mmu)
    → SmallTables m pml4
    → TopFlags m pml4
    → IsValid m.frames
    → i + n ≤ 511
    → (is_free (free_pml4 n i pml4 m).frames g ≡ (named n i m.mem pml4 g || is_free m.frames g))
      × ((free_pml4 n i pml4 m).mem ≡ m.mem)
free_pml4-is_free zero i pml4 g m h t v l = unfold free_pml4 in (refl, refl)
free_pml4-is_free (suc n) i pml4 g m h t v l =
    let e = top_entry m pml4 i in
    let m1 = freed_entry e m in
    let same : m1.mem ≡ m.mem = freed_entry-mem e m in
    let (v1, f1) = freed_entry-frames e g m v (λ q. (t i (omega arith) q).1) in
    let (f, kept) =
      free_pml4-is_free n (i + 1) pml4 g m1
        (subst (λ mem. (j : ℕ) → j < 511 → SmallEntries mem (load mem (pml4 + 8 * j))) (sym same) h)
        (subst
          (λ mem.
            (j : ℕ)
            → j < 511
            → present (load mem (pml4 + 8 * j)) ≡ true
            → (load mem (pml4 + 8 * j) % 8 ≡ 7)
              × (frame_number (load mem (pml4 + 8 * j)) < max_frames))
          (sym same) t)
        v1 (omega arith) in
    rw (free_pml4_step n i pml4 m h t (omega arith)) (
      f ∙ ap (λ mem. named n (i + 1) mem pml4 g || is_free m1.frames g) same ∙ ground (arith, f1),
      kept ∙ same,
    )

-- Where each present entry among the first 511 of the top table has the three flags of the kernel and
-- names a frame of the bitmap, the bitmap is valid, and the entries of the tables named are below 2 ^ 56:
-- of a task's tables, the frames that the first 511 entries of the top table name become free, and no
-- other: the lower tables stay allocated. The memory is as before.
pub free_page_tables-is_free :
    (task g : ℕ) (k : Kernel)
    → SmallTables k.mmu (k.tasks task).regs.cr3
    → TopFlags k.mmu (k.tasks task).regs.cr3
    → IsValid k.mmu.frames
    → (is_free (free_page_tables task k).mmu.frames g
        ≡ (named 511 0 k.mmu.mem (k.tasks task).regs.cr3 g || is_free k.mmu.frames g))
      × ((free_page_tables task k).mmu.mem ≡ k.mmu.mem)
unfolding free_page_tables
free_page_tables-is_free task g k h t v =
    free_pml4-is_free 511 0 (k.tasks task).regs.cr3 g k.mmu h t v (omega arith)
