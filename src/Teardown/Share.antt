-- ===== src/Teardown/Share.antt =====
-- Freeing one page of an ending task (`FreePageEntries`, sys/task.c).
use sbunix_64_bit_operating.Prelude.{
  ℕ, zero, suc, ◌+◌, ◌/◌, ◌<◌, ◌≡◌, refl, ◌∙◌, ◌≢◌, true, false, some, List, [], ◌∷◌, arith, ◌==◌,
  if◌then◌else◌, eq→==, ne→==, length,
}
use sbunix_64_bit_operating.Frames.{page_deallocator, is_free, IsValid, max_frames, page_size}
use sbunix_64_bit_operating.Frames.Marks.{is_free-mark_as_free}
use sbunix_64_bit_operating.Paging.{
  Mmu, frame, get_physical_page_addr, minus_one, kdealloc, memset, direct,
}
use sbunix_64_bit_operating.Paging.Memset.{memset-mem}
use sbunix_64_bit_operating.Kernel.{Kernel, next_of}
use sbunix_64_bit_operating.Links.{Chain, count}
use sbunix_64_bit_operating.Teardown.{shares, share_count, free_page}

-- No task of the list passes the test for sharing a page.
abbrev pub NoneShares : ℕ → Kernel → List ℕ → Type 0
NoneShares phy k [] = Unit {0}
NoneShares phy k (x ∷ xs) = (shares phy x k ≡ false) × NoneShares phy k xs

share_count-none :
    (fuel phy task a n : ℕ) (xs : List ℕ) (k : Kernel)
    → Chain (next_of k) a xs task
    → count task xs ≡ 0
    → NoneShares phy k xs
    → length xs < fuel
    → share_count fuel phy task (next_of k a) n k ≡ some n
unfolding share_count
share_count-none zero phy task a n xs k c d h l = absurd (omega arith)
share_count-none (suc f) phy task a n [] k c d h l = rw (c, eq→== task task refl) refl
share_count-none (suc f) phy task a n (x ∷ xs) k c d h l =
    let other : (x == task) ≡ false = ground arith in
    rw (c.0, other, h.0) (share_count-none f phy task x n xs k c.1 (omega arith) h.1 (omega arith))

-- The frame that a page table entry names.
abbrev pub frame_number : ℕ → ℕ
frame_number e = e / 4096

kdealloc-is_free :
    (e g : ℕ) (m : Mmu)
    → IsValid m.frames
    → frame_number e < max_frames
    → is_free (kdealloc (frame e + m.kernbase) m).frames g
      ≡ (if frame_number e == g then true else is_free m.frames g)
unfolding kdealloc page_deallocator memset
kdealloc-is_free e g m v l =
    let at : direct m (frame e + m.kernbase) / page_size ≡ frame_number e = omega arith in
    rw at (is_free-mark_as_free (frame_number e) v l g)

kdealloc-mem :
    (e b : ℕ) (m : Mmu)
    → (kdealloc (frame e + m.kernbase) m).mem b ≡ (if b / 512 == frame_number e then 0 else m.mem b)
unfolding kdealloc
kdealloc-mem e b m = memset-mem (direct m (frame e + m.kernbase)) m b ∙ ground arith

-- With `NoneShares`, which looks at the physical address of the page and not at `start`, the page
-- that the task has at `start` is zeroed and becomes free, whatever the other tasks have at
-- `start`; no other frame changes.
pub free_page-frees :
    (fuel task start e : ℕ) (xs : List ℕ) (k : Kernel)
    → Chain (next_of k) task xs task
    → count task xs ≡ 0
    → get_physical_page_addr start (k.tasks task).regs.cr3 k.mmu ≡ e
    → (e ≢ minus_one) × (e ≢ 0)
    → NoneShares (frame e) k xs
    → IsValid k.mmu.frames
    → frame_number e < max_frames
    → length xs < fuel
    → (m : Mmu) × (free_page fuel task start k ≡ some (record k { mmu = m }))
      × ((g : ℕ)
          → is_free m.frames g ≡ (if frame_number e == g then true else is_free k.mmu.frames g))
      × ((b : ℕ) → m.mem b ≡ (if b / 512 == frame_number e then 0 else k.mmu.mem b))
unfolding free_page
free_page-frees fuel task start e xs k c d t n h v b l =
    let counted = share_count-none fuel (frame e) task task 1 xs k c d h l in
    (
      kdealloc (frame e + k.mmu.kernbase) k.mmu,
      rw (t, ne→== e minus_one n.0, ne→== e 0 n.1, counted) refl,
      λ g. kdealloc-is_free e g k.mmu v b,
      λ w. kdealloc-mem e w k.mmu,
    )
