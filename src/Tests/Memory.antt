-- ===== src/Tests/Memory.antt =====
-- Tests of the memory modules.
use sbunix_64_bit_operating.Prelude.{
  ℕ, ◌+◌, ◌*◌, ◌/◌, ◌≤◌, ◌<◌, ◌≡◌, refl, subst, ◌≢◌, true, ◌&&◌, arith, ltb, leb, test_bit,
}
use sbunix_64_bit_operating.Tests.{
  four_free, four_free-IsValid, none_free, none_free-IsValid, none_free-is_free, Grants-is_free,
  empty_mmu, base,
}
use sbunix_64_bit_operating.Frames.{
  is_free, page_allocator, take_frame, get_first_frame, first_row, first_col, init_bitmap, IsValid,
  page_size,
}
use sbunix_64_bit_operating.Frames.Alloc.{IsGrant, page_allocator-grants}
use sbunix_64_bit_operating.Frames.Setup.{init_bitmap-is_free}
use sbunix_64_bit_operating.Paging.{
  Mmu, get_physical_page_addr, map_page_for_user, get_new_pml4_for_user, pml4_index, minus_one,
}
use sbunix_64_bit_operating.Paging.Descend.{IsTable, page_of}
use sbunix_64_bit_operating.Paging.Translate.{
  CanMap, Names, map_page_for_user-get_physical_page_addr,
}
use sbunix_64_bit_operating.Paging.Fresh.{get_new_pml4_for_user_lem}

four_free-free :
    (is_free four_free 4 ≡ true) × (is_free four_free 5 ≡ true) × (is_free four_free 6 ≡ true)
unfolding is_free test_bit
four_free-free = (refl, refl, refl)

empty-IsTable : IsTable empty_mmu 0x1000
unfolding is_free test_bit
empty-IsTable = record { aligned = refl; within = omega arith; taken = refl }

empty-CanMap : (v : ℕ) → CanMap empty_mmu 0x1000 v
empty-CanMap v = record {
  top = empty-IsTable;
  path = λ h. absurd (ground arith);
  pages =
      Grants-is_free 4 5 6 four_free-IsValid (omega arith, omega arith, omega arith) four_free-free;
}

first_free : (page_allocator four_free).0 ≡ 16384
unfolding page_allocator take_frame get_first_frame first_row first_col test_bit
first_free = refl

frame_4 : IsGrant four_free (page_allocator four_free) 4
frame_4 =
    let (f, l, g) = page_allocator-grants four_free-IsValid 5 (omega arith) four_free-free.1 in
    let e : f ≡ 4 = omega (arith, g.address, first_free) in
    subst (IsGrant four_free (page_allocator four_free)) e g

page_allocator-grants_example : (f : ℕ) × (f ≤ 5) × IsGrant four_free (page_allocator four_free) f
page_allocator-grants_example =
    page_allocator-grants four_free-IsValid 5 (omega arith) four_free-free.1

init_bitmap-is_free_example :
    IsValid (init_bitmap 0x10_0000 0x7FF_E000 none_free)
    × ((g : ℕ)
        → is_free (init_bitmap 0x10_0000 0x7FF_E000 none_free) g ≡ (
            leb (0x10_0000 / page_size) g
            && leb g (0x7FF_E000 / page_size)
            && ltb (0x30_0000 / page_size) g
            && leb 256 g))
init_bitmap-is_free_example =
    init_bitmap-is_free 0x10_0000 0x7FF_E000 none_free-IsValid none_free-is_free (omega arith)
      (omega arith)

get_new_pml4_for_user_lem_example :
    ((get_new_pml4_for_user 0x1000 empty_mmu).0 ≡ 4 * 4096)
    × ((v : ℕ)
        → pml4_index v < 511
        → get_physical_page_addr v (4 * 4096) (get_new_pml4_for_user 0x1000 empty_mmu).1
          ≡ minus_one)
    × ((v : ℕ)
        → pml4_index v ≡ 511
        → get_physical_page_addr v (4 * 4096) (get_new_pml4_for_user 0x1000 empty_mmu).1
          ≡ get_physical_page_addr v 0x1000 (get_new_pml4_for_user 0x1000 empty_mmu).1)
    × ((b : ℕ)
        → page_of b ≢ 4 * 4096
        → (get_new_pml4_for_user 0x1000 empty_mmu).1.mem b ≡ empty_mmu.mem b)
get_new_pml4_for_user_lem_example =
    get_new_pml4_for_user_lem empty_mmu 4 frame_4 0x1000 empty-IsTable

map_page_for_user-get_physical_page_addr_example :
    Names
      (get_physical_page_addr 0x40_0000 0x1000
        (map_page_for_user 0x40_0000 0x7000 (0x1000 + base) empty_mmu))
      0x7000
      true
      true
map_page_for_user-get_physical_page_addr_example =
    map_page_for_user-get_physical_page_addr 0x1000 0x40_0000 0x7000 (empty-CanMap 0x40_0000) refl

-- The empty memory with one page mapped for the user.
abbrev mapped : Mmu
mapped = map_page_for_user 0x40_0000 0x7000 (0x1000 + base) empty_mmu
