-- ===== src/Faults/Copied.antt =====
-- Copy on write (`_hndlr_isr14`, sys/idt.c) of a page that tasks share.
use sbunix_64_bit_operating.Prelude.{
  ℕ, ◌+◌, ◌-◌, ◌*◌, ◌/◌, ◌≤◌, ◌<◌, ◌≡◌, refl, sym, ap, ◌∙◌, subst, ◌≢◌, ◌⊎◌, true, false, ◌&&◌,
  some, List, arith, ltb, leb, ◌==◌, if◌then◌else◌, eq→==, ne→==, length,
}
use sbunix_64_bit_operating.Frames.{page_allocator, is_free}
use sbunix_64_bit_operating.Frames.Alloc.{IsGrant}
use sbunix_64_bit_operating.Paging.{
  Mmu, entry, frame, store, set_flags, map_page_for_user, kmalloc, get_physical_page_addr,
  alloc_page, memset, pt_index, direct,
}
use sbunix_64_bit_operating.Paging.Memset.{store-mem}
use sbunix_64_bit_operating.Paging.Descend.{IsTable, set_flags_entry}
use sbunix_64_bit_operating.Paging.Translate.{Names, set_flags-Names}
use sbunix_64_bit_operating.Paging.Fresh.{kmalloc-zeroed}
use sbunix_64_bit_operating.Kernel.{Kernel}
use sbunix_64_bit_operating.Sched.View.{View}
use sbunix_64_bit_operating.Faults.{
  returns, run_cr3, copy_page, copy_on_write, write_fault, page_fault, stack_border,
}
use sbunix_64_bit_operating.Faults.Write.{sharers, owners-sharers, page_fault-write}
use sbunix_64_bit_operating.Faults.Tables.{
  copy_words_lem, TablePath, read_path, map_path, OwnPages, TablePath-same,
}

-- A page that is handed out is not the one that the allocator hands out next.
taken_ne :
    (m : Mmu) (f t : ℕ) → IsGrant m.frames (page_allocator m.frames) f → IsTable m t → t ≢ f * 4096
taken_ne m f t g h e =
    let q : t / 4096 ≡ f = omega arith in
    ground (arith, g.was_free, subst (λ x. is_free m.frames x ≡ false) q h.taken)

-- The copy: the address `v` has the new page, with the words of the old one, which keeps its own.
pub record Copied (v cr3 page f : ℕ) (m m' : Mmu) : Type 0 where
  pub names : Names (get_physical_page_addr v cr3 m') (f * 4096) true true
  pub same_words : (i : ℕ) → i < 512 → m'.mem (entry (f * 4096) i) ≡ m.mem (entry page i)
  pub old_words : (i : ℕ) → i < 512 → m'.mem (entry page i) ≡ m.mem (entry page i)

module _ (m : Mmu) (v cr3 pdpt pdt pt page f : ℕ) (o : OwnPages m v cr3 pdpt pdt pt page)
    (g : IsGrant m.frames (page_allocator m.frames) f) where
  abbrev zeroed : Mmu
  zeroed = (kmalloc m).1

  abbrev remapped : Mmu
  remapped = store (entry pt (pt_index v)) (set_flags true (f * 4096)) zeroed

  zeroed-mem : (t i : ℕ) → IsTable m t → i < 512 → zeroed.mem (entry t i) ≡ m.mem (entry t i)
  zeroed-mem t i h l =
      let ne = taken_ne m f t g h in
      let z = kmalloc-zeroed m f g in z.2 (entry t i) (λ e. ne (omega (arith, h.aligned, e)))

  remapped-mem :
      (t i : ℕ) → IsTable m t → i < 512 → t ≢ pt → remapped.mem (entry t i) ≡ m.mem (entry t i)
  remapped-mem t i h l n =
      store-mem (entry pt (pt_index v)) (set_flags true (f * 4096)) zeroed (entry t i)
      ∙ rw
          (ne→== (entry t i) (entry pt (pt_index v))
            (λ e. n (omega (arith, h.aligned, o.last.aligned, e))))
          (zeroed-mem t i h l)

  zeroed-path : TablePath zeroed.mem v cr3 pdpt pdt pt
  zeroed-path =
      TablePath-same m.mem zeroed.mem v cr3 pdpt pdt pt (zeroed-mem cr3 _ o.top (omega arith))
        (zeroed-mem pdpt _ o.second (omega arith)) (zeroed-mem pdt _ o.third (omega arith)) o.path

  copied-mem :
      (b : ℕ)
      → (copy_page page (f * 4096) remapped).mem b ≡ (
          if leb (f * 4096 / 8) b && ltb b (f * 4096 / 8 + 512)
          then remapped.mem (page / 8 + (b - f * 4096 / 8))
          else remapped.mem b)
  unfolding copy_page
  copied-mem b =
      copy_words_lem 512 (page / 8) (f * 4096 / 8) remapped.mem b
        (ranges (taken_ne m f page g o.held))
    where
      ranges : page ≢ f * 4096 → (page / 8 + 512 ≤ f * 4096 / 8) ⊎ (f * 4096 / 8 + 512 ≤ page / 8)
      ranges n = ground (arith, o.held.aligned, n)

  outside :
      (t i : ℕ)
      → IsTable m t
      → i < 512
      → (copy_page page (f * 4096) remapped).mem (entry t i) ≡ remapped.mem (entry t i)
  outside t i h l = copied-mem (entry t i) ∙ ground (arith, taken_ne m f t g h, h.aligned)

  copied-path : TablePath (copy_page page (f * 4096) remapped).mem v cr3 pdpt pdt pt
  copied-path =
      TablePath-same m.mem _ v cr3 pdpt pdt pt
        (outside cr3 _ o.top (omega arith) ∙ remapped-mem cr3 _ o.top (omega arith) o.apart.0)
        (outside pdpt _ o.second (omega arith)
          ∙ remapped-mem pdpt _ o.second (omega arith) o.apart.1)
        (outside pdt _ o.third (omega arith) ∙ remapped-mem pdt _ o.third (omega arith) o.apart.2)
        o.path

  copied : Copied v cr3 page f m (copy_page page (f * 4096) remapped)
  copied = record {
    names =
        subst (λ e. Names e (f * 4096) true true)
          (sym (
            read_path (copy_page page (f * 4096) remapped) v cr3 pdpt pdt pt copied-path
            ∙ outside pt _ o.last (omega arith)
            ∙ store-mem (entry pt (pt_index v)) (set_flags true (f * 4096)) zeroed _
            ∙ rw (eq→== (entry pt (pt_index v)) (entry pt (pt_index v)) refl) refl))
          (set_flags-Names true (f * 4096) (omega arith));
    same_words = λ i l. copied-mem (entry (f * 4096) i) ∙ new_word i l;
    old_words = λ i l. outside page i o.held l ∙ remapped-mem page i o.held l o.apart.3;
  }
    where
      new_word :
          (i : ℕ)
          → i < 512
          → (if leb (f * 4096 / 8) (entry (f * 4096) i)
                && ltb (entry (f * 4096) i) (f * 4096 / 8 + 512)
              then remapped.mem (page / 8 + (entry (f * 4096) i - f * 4096 / 8))
              else remapped.mem (entry (f * 4096) i))
            ≡ m.mem (entry page i)
      new_word i l =
          let at : entry (f * 4096) i - f * 4096 / 8 ≡ i = omega arith in
          let here : (leb (f * 4096 / 8) (entry (f * 4096) i)
                && ltb (entry (f * 4096) i) (f * 4096 / 8 + 512))
              ≡ true =
            ground (arith, l) in
          rw (here, at) (remapped-mem page i o.held l o.apart.3)

  mapped_page : frame (get_physical_page_addr v cr3 remapped) ≡ f * 4096
  mapped_page =
      ap (λ e. frame e)
        (read_path remapped v cr3 pdpt pdt pt (
            TablePath-same m.mem _ v cr3 pdpt pdt pt
              (remapped-mem cr3 _ o.top (omega arith) o.apart.0)
              (remapped-mem pdpt _ o.second (omega arith) o.apart.1)
              (remapped-mem pdt _ o.third (omega arith) o.apart.2) o.path)
          ∙ store-mem (entry pt (pt_index v)) (set_flags true (f * 4096)) zeroed _
          ∙ rw (eq→== (entry pt (pt_index v)) (entry pt (pt_index v)) refl) refl)
      ∙ (set_flags_entry true (f * 4096) (omega arith)).1

kmalloc-kernbase : (m : Mmu) → (kmalloc m).1.kernbase ≡ m.kernbase
unfolding kmalloc alloc_page memset
kmalloc-kernbase m = refl

copy_on_write-copy_page :
    (v pdpt pdt pt page f : ℕ) (k : Kernel)
    → (o : OwnPages k.mmu v (run_cr3 k) pdpt pdt pt page)
    → (g : IsGrant k.mmu.frames (page_allocator k.mmu.frames) f)
    → (copy_on_write v page k).mmu
      ≡ copy_page page (f * 4096) (remapped k.mmu v (run_cr3 k) pdpt pdt pt page f o g)
unfolding copy_on_write
copy_on_write-copy_page v pdpt pdt pt page f k o g =
    let m = k.mmu in
    let m1 = (kmalloc m).1 in
    let at : direct m1 (kmalloc m).0 ≡ f * 4096 =
      omega (arith, (kmalloc-zeroed m f g).0, kmalloc-kernbase m) in
    let mapped =
      map_path m1 v (run_cr3 k) pdpt pdt pt (f * 4096)
        (zeroed-path m v (run_cr3 k) pdpt pdt pt page f o g) in
    let copy : Mmu → Mmu =
      λ m2. copy_page page (frame (get_physical_page_addr v (run_cr3 k) m2)) m2 in
    ap (λ p. copy (map_page_for_user v p (run_cr3 k + m1.kernbase) m1)) at
    ∙ ap copy mapped
    ∙ ap (λ p. copy_page page p (remapped m v (run_cr3 k) pdpt pdt pt page f o g))
        (mapped_page m v (run_cr3 k) pdpt pdt pt page f o g)

-- Where other tasks have the page too and the allocator hands out a frame, the running task gets a
-- copy of its own, writeable, and the page that was shared keeps its words.
pub page_fault-shared :
    (fuel addr pdpt pdt pt page f : ℕ) (ring dead : List ℕ) (k : Kernel)
    → frame addr ≢ stack_border
    → View k k.running ring dead
    → frame (get_physical_page_addr (frame addr) (run_cr3 k) k.mmu) ≡ page
    → OwnPages k.mmu (frame addr) (run_cr3 k) pdpt pdt pt page
    → IsGrant k.mmu.frames (page_allocator k.mmu.frames) f
    → 0 < sharers (frame addr) page ring k
    → length ring < fuel
    → (m : Mmu) × (page_fault fuel addr 7 k ≡ some (returns (record k { mmu = m })))
      × Copied (frame addr) (run_cr3 k) page f k.mmu m
unfolding write_fault
page_fault-shared fuel addr pdpt pdt pt page f ring dead k b v e o g s l =
    let counted =
      owners-sharers fuel (frame addr) page k.running 1 ring k v.links
        (ground (arith, v.distinct k.running, eq→== k.running k.running refl)) l in
    let more : (1 + sharers (frame addr) page ring k == 1) ≡ false =
      ne→== _ 1 (λ q. omega (arith, s, q)) in
    (
      (copy_on_write (frame addr) page k).mmu,
      page_fault-write fuel addr k b ∙ rw (e, counted, more) (unfold copy_on_write in refl),
      subst (Copied (frame addr) (run_cr3 k) page f k.mmu)
          (sym (copy_on_write-copy_page (frame addr) pdpt pdt pt page f k o g))
          (copied k.mmu (frame addr) (run_cr3 k) pdpt pdt pt page f o g),
    )
