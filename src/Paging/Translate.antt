-- ===== src/Paging/Translate.antt =====
-- What the page tables say of an address after `mapPage`, `forceMapPage` and `mapPageForUser`
-- (sys/virtualMemory.c), read by `getPhysicalPageAddr` (sys/task.c).
use sbunix_64_bit_operating.Prelude.{
  ℕ, ◌+◌, ◌%◌, ◌<◌, ◌≡◌, refl, ap, ◌∙◌, Bool, true, false, some, [], arith, eq→==, test_bit,
  set_bit,
}
use sbunix_64_bit_operating.Paging.{
  Mmu, entry, present, frame, store, set_flags, map_levels, map_page, map_page_for_user,
  force_map_page, get_physical_page_addr, pt_index, direct,
}
use sbunix_64_bit_operating.Paging.Memset.{store-mem}
use sbunix_64_bit_operating.Paging.Walk.{
  descend, walk, upper, map_levels-descend, get_physical_page_addr-walk, entry_of,
}
use sbunix_64_bit_operating.Paging.Descend.{
  IsTable, OkBelow, Grants, Descended, descend-Descended, SameOff, AllIndex,
}

-- A walk from the top table `t` may be made for the address `v`: the tables that exist on its path
-- are distinct pages handed out by the allocator, and the allocator has pages for the rest.
pub record CanMap (m : Mmu) (t v : ℕ) : Type 0 where
  pub top : IsTable m t
  pub path : OkBelow m [] (upper v) t
  pub pages : Grants 3 m.frames

upper-AllIndex : (v : ℕ) → AllIndex (upper v)
upper-AllIndex v = omega arith

pub descended :
    (user : Bool) {m : Mmu} (t v : ℕ)
    → CanMap m t v
    → Descended (upper v) [] t m (descend user (upper v) t m)
descended user {m} t v c =
    descend-Descended user (upper v) [] t m c.top tt tt (upper-AllIndex v) c.path c.pages

-- A store into the page of the last table leaves the walk alone.
pub SameOff-store :
    (pt i x : ℕ) (m : Mmu) → pt % 4096 ≡ 0 → i < 512 → SameOff pt (store (entry pt i) x m).mem m.mem
SameOff-store pt i x m al l b h = store-mem (entry pt i) x m b ∙ ground arith

pub read_last :
    (v t pt x : ℕ) (m : Mmu)
    → IsTable m pt
    → ((g : ℕ → ℕ) → SameOff pt g m.mem → walk (upper v) t g ≡ some pt)
    → get_physical_page_addr v t (store (entry pt (pt_index v)) x m) ≡ x
read_last v t pt x m al reach =
    get_physical_page_addr-walk v t (store (entry pt (pt_index v)) x m)
    ∙ ap (entry_of v (store (entry pt (pt_index v)) x m).mem)
        (reach _ (SameOff-store pt (pt_index v) x m al.aligned (omega arith)))
    ∙ store-mem (entry pt (pt_index v)) x m (entry pt (pt_index v))
    ∙ rw (eq→== (entry pt (pt_index v)) (entry pt (pt_index v)) refl) refl

pub map_levels-get_physical_page_addr :
    (user : Bool) {m : Mmu} (t v p : ℕ)
    → CanMap m t v
    → get_physical_page_addr v t (map_levels user t v p m) ≡ set_flags user p
map_levels-get_physical_page_addr user {m} t v p c =
    let d = descended user t v c in
    let r = descend user (upper v) t m in
    rw (map_levels-descend user t v p m)
      (read_last v t r.0 (set_flags user p) r.1 d.table d.reaches)

-- An entry that names the page `p` with the given rights.
pub record Names (e p : ℕ) (writeable user : Bool) : Type 0 where
  pub is_present : present e ≡ true
  pub page : frame e ≡ p
  pub write_bit : test_bit e 1 ≡ writeable
  pub user_bit : test_bit e 2 ≡ user

pub set_flags-Names : (user : Bool) (p : ℕ) → p % 4096 ≡ 0 → Names (set_flags user p) p true user
unfolding set_flags set_bit test_bit
set_flags-Names user p h = ground arith

-- After `forceMapPage` the address translates to the page, which user code may reach exactly if the
-- flag `user` was given.
pub force_map_page-get_physical_page_addr :
    (user : Bool) {m : Mmu} (cr3 v p : ℕ)
    → CanMap m cr3 v
    → p % 4096 ≡ 0
    → Names
        (get_physical_page_addr v cr3 (force_map_page v p (cr3 + m.kernbase) user m))
        p
        true
        user
unfolding force_map_page
force_map_page-get_physical_page_addr user {m} cr3 v p c al =
    let e : direct m (cr3 + m.kernbase) ≡ cr3 = omega arith in
    rw (e, map_levels-get_physical_page_addr user cr3 v p c) (set_flags-Names user p al)

-- After `mapPageForUser` the address translates to the page, present, writeable and open to user
-- code.
pub map_page_for_user-get_physical_page_addr :
    {m : Mmu} (cr3 v p : ℕ)
    → CanMap m cr3 v
    → p % 4096 ≡ 0
    → Names (get_physical_page_addr v cr3 (map_page_for_user v p (cr3 + m.kernbase) m)) p true true
unfolding map_page_for_user
map_page_for_user-get_physical_page_addr {m} cr3 v p c al =
    let e : direct m (cr3 + m.kernbase) ≡ cr3 = omega arith in
    rw (e, map_levels-get_physical_page_addr true cr3 v p c) (set_flags-Names true p al)

-- After `mapPage` the kernel's table translates the address to the page, closed to user code.
pub map_page-get_physical_page_addr :
    {m : Mmu} (v p : ℕ)
    → CanMap m m.pml4 v
    → p % 4096 ≡ 0
    → Names (get_physical_page_addr v m.pml4 (map_page v p m)) p true false
unfolding map_page
map_page-get_physical_page_addr {m} v p c al =
    rw (map_levels-get_physical_page_addr false m.pml4 v p c) (set_flags-Names false p al)
