-- ===== src/Paging/Fresh.antt =====
-- New pages: `kmalloc` and `getNewPML4ForUser` of sys/virtualMemory.c.
use sbunix_64_bit_operating.Prelude.{
  ℕ, ◌+◌, ◌*◌, ◌/◌, ◌<◌, ◌≡◌, refl, ◌∙◌, ◌≢◌, ◌&&◌, arith, ltb, leb, ◌==◌, if◌then◌else◌, eq→==,
}
use sbunix_64_bit_operating.Frames.{page_allocator}
use sbunix_64_bit_operating.Frames.Alloc.{IsGrant}
use sbunix_64_bit_operating.Paging.{
  Mmu, entry, store, get_physical_page_addr, pml4_index, get_new_pml4_for_user, alloc_page, memset,
  kmalloc, minus_one,
}
use sbunix_64_bit_operating.Paging.Memset.{memset-mem}
use sbunix_64_bit_operating.Paging.Descend.{IsTable, page_of}

module _ (m : Mmu) (f : ℕ) (k : IsGrant m.frames (page_allocator m.frames) f) where
  -- `kmalloc` answers a pointer to the page of the granted frame, zeroes its words and no other, and
  -- leaves the base of the direct map.
  pub kmalloc-zeroed :
      ((kmalloc m).0 ≡ f * 4096 + m.kernbase)
      × ((b : ℕ) → page_of b ≡ f * 4096 → (kmalloc m).1.mem b ≡ 0)
      × ((b : ℕ) → page_of b ≢ f * 4096 → (kmalloc m).1.mem b ≡ m.mem b)
      × ((kmalloc m).1.frames ≡ (page_allocator m.frames).1)
  unfolding kmalloc alloc_page memset
  kmalloc-zeroed = (
    omega (arith, k.address),
    λ b h. mem_eq b ∙ ground (arith, k.address),
    λ b h. mem_eq b ∙ ground (arith, k.address),
    refl,
  )
    where
      mem_eq :
          (b : ℕ)
          → (kmalloc m).1.mem b ≡ (
              if leb ((page_allocator m.frames).0 / 8) b
                && ltb b ((page_allocator m.frames).0 / 8 + 512)
              then 0
              else m.mem b)
      mem_eq b =
          memset-mem (page_allocator m.frames).0 (record m { frames = (page_allocator m.frames).1 })
            b

  module _ (cr3 : ℕ) (h : IsTable m cr3) where
    pub other_page : cr3 ≢ f * 4096
    other_page e =
        let q : cr3 / 4096 ≡ f = omega arith in ground (arith, k.was_free, (rw q at (h.taken)))

    new_pml4-mem :
        (b : ℕ)
        → (get_new_pml4_for_user cr3 m).1.mem b ≡ (
            if b == entry (f * 4096) 511
            then m.mem (entry cr3 511)
            else if page_of b == f * 4096
            then 0
            else m.mem b)
    unfolding get_new_pml4_for_user alloc_page store
    new_pml4-mem b =
        let fresh = record m { frames = (page_allocator m.frames).1 } in
        ground (
          arith,
          k.address,
          memset-mem (page_allocator m.frames).0 fresh b,
          memset-mem (page_allocator m.frames).0 fresh (entry cr3 511),
          h.aligned,
          other_page,
        )

    pub get_new_pml4_for_user-address : (get_new_pml4_for_user cr3 m).0 ≡ f * 4096
    unfolding get_new_pml4_for_user alloc_page
    get_new_pml4_for_user-address = k.address

    -- `getNewPML4ForUser` answers the page of the granted frame. Its table translates no address
    -- below the last 512 GB, translates those above as the current table does, and no word of
    -- another page has changed.
    pub get_new_pml4_for_user_lem :
        ((get_new_pml4_for_user cr3 m).0 ≡ f * 4096)
        × ((v : ℕ)
            → pml4_index v < 511
            → get_physical_page_addr v (f * 4096) (get_new_pml4_for_user cr3 m).1 ≡ minus_one)
        × ((v : ℕ)
            → pml4_index v ≡ 511
            → get_physical_page_addr v (f * 4096) (get_new_pml4_for_user cr3 m).1
              ≡ get_physical_page_addr v cr3 (get_new_pml4_for_user cr3 m).1)
        × ((b : ℕ) → page_of b ≢ f * 4096 → (get_new_pml4_for_user cr3 m).1.mem b ≡ m.mem b)
    unfolding get_physical_page_addr
    get_new_pml4_for_user_lem = (
      get_new_pml4_for_user-address,
      λ v l. ground (arith, lower_entry v l),
      λ v e. rw (e, last_entry) refl,
      λ b h. new_pml4-mem b ∙ ground arith,
    )
      where
        lower_entry :
            (v : ℕ)
            → pml4_index v < 511
            → (get_new_pml4_for_user cr3 m).1.mem (entry (f * 4096) (pml4_index v)) ≡ 0
        lower_entry v l = new_pml4-mem (entry (f * 4096) (pml4_index v)) ∙ ground arith

        last_entry :
            (get_new_pml4_for_user cr3 m).1.mem (entry (f * 4096) 511)
            ≡ (get_new_pml4_for_user cr3 m).1.mem (entry cr3 511)
        last_entry =
            rw
              (
                new_pml4-mem (entry (f * 4096) 511),
                eq→== (entry (f * 4096) 511) (entry (f * 4096) 511) refl,
                new_pml4-mem (entry cr3 511),
              )
              (ground (arith, h.aligned, other_page))
