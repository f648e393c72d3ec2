-- ===== src/Paging/Walk.antt =====
-- The walk of sys/virtualMemory.c level by level: `descend` is the walk that makes the tables it
-- misses, `walk` the one that only looks. The unrolled functions of the source are these on the
-- three upper indices of an address.
use sbunix_64_bit_operating.Prelude.{
  ℕ, ◌≡◌, refl, Bool, Option, none, some, List, [], ◌∷◌, arith, if◌then◌else◌, set_bit, clear_bit,
}
use sbunix_64_bit_operating.Paging.{
  Mmu, entry, present, frame, next_table, map_levels, store, set_flags, pml4_index, pdpt_index,
  pdt_index, pt_index, get_physical_page_addr, minus_one, mark_page_as_rw, direct,
}

unfoldable pub descend : Bool → List ℕ → ℕ → Mmu → ℕ × Mmu
descend user [] t m = (t, m)
descend user (i ∷ is) t m = let (t1, m1) = next_table user (entry t i) m in descend user is t1 m1

unfoldable pub walk : List ℕ → ℕ → (ℕ → ℕ) → Option ℕ
walk [] t mem = some t
walk (i ∷ is) t mem = let e = mem (entry t i) in if present e then walk is (frame e) mem else none

abbrev pub upper : ℕ → List ℕ
upper v = pml4_index v ∷ pdpt_index v ∷ pdt_index v ∷ []

pub map_levels-descend :
    (user : Bool) (t v p : ℕ) (m : Mmu)
    → map_levels user t v p m ≡ (
        let (pt, m') = descend user (upper v) t m in
        store (entry pt (pt_index v)) (set_flags user p) m')
unfolding map_levels descend
map_levels-descend user t v p m = refl

-- What `getPhysicalPageAddr` makes of the walk.
abbrev pub entry_of : ℕ → (ℕ → ℕ) → Option ℕ → ℕ
entry_of v mem none = minus_one
entry_of v mem (some pt) = mem (entry pt (pt_index v))

pub get_physical_page_addr-walk :
    (v cr3 : ℕ) (m : Mmu)
    → get_physical_page_addr v cr3 m ≡ entry_of v m.mem (walk (upper v) cr3 m.mem)
unfolding get_physical_page_addr walk
get_physical_page_addr-walk v cr3 m = ground arith

abbrev pub mark_of : ℕ → Bool → Mmu → Option ℕ → ℕ × Mmu
mark_of v read_only m none = (minus_one, m)
mark_of v read_only m (some pt) =
    let w = entry pt (pt_index v) in
    (0, store w (if read_only then clear_bit (m.mem w) 1 else set_bit (m.mem w) 1) m)

pub mark_page_as_rw-walk :
    (v cr3 : ℕ) (read_only : Bool) (m : Mmu)
    → mark_page_as_rw v cr3 read_only m
      ≡ mark_of v read_only m (walk (upper v) (direct m cr3) m.mem)
unfolding mark_page_as_rw walk
mark_page_as_rw-walk v cr3 read_only m = ground arith
