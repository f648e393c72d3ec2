-- ===== src/Paging.antt =====
-- sys/virtualMemory.c, and the two page-table walks of sys/task.c. Physical memory is read and
-- written by 64-bit words: `mem w` is the word at physical address `8 * w`, so the page at address
-- `p` is the 512 words from `p / 8` on. A pointer into the kernel's direct map is a virtual address
-- `p + kernbase`, and `direct` takes it back to `p`. NULL, which `pageAllocator` answers when no
-- frame is free, is not checked by these functions, and is not checked here.
pub mod Memset
pub mod Walk
pub mod Descend
pub mod Translate
pub mod Protect
pub mod Fresh
use sbunix_64_bit_operating.Prelude.{
  ℕ, zero, suc, ◌+◌, ◌-◌, ◌*◌, ◌/◌, ◌%◌, Bool, true, false, ltb, ◌==◌, if◌then◌else◌, set_bit,
  clear_bit,
}
use sbunix_64_bit_operating.Frames.{Frames, page_allocator, page_deallocator}

pub record Mmu : Type 0 where
  pub frames : Frames
  pub mem : ℕ → ℕ
  pub kernbase : ℕ
  pub pml4 : ℕ

abbrev pub word_mod : ℕ
word_mod = 18_446_744_073_709_551_616

-- `get_PML4_INDEX` and the other index macros: nine bits of the address each.
abbrev pub pml4_index : ℕ → ℕ
pml4_index v = v / 549_755_813_888 % 512

abbrev pub pdpt_index : ℕ → ℕ
pdpt_index v = v / 1_073_741_824 % 512

abbrev pub pdt_index : ℕ → ℕ
pdt_index v = v / 2_097_152 % 512

abbrev pub pt_index : ℕ → ℕ
pt_index v = v / 4096 % 512

-- `e & PRESENT` and `e & FRAME`.
abbrev pub present : ℕ → Bool
present e = e % 2 == 1

abbrev pub frame : ℕ → ℕ
frame e = e / 4096 * 4096

-- `| PRESENT`, `| WRITEABLE` and, with `user`, `| USER`.
unfoldable pub set_flags : Bool → ℕ → ℕ
set_flags user e =
    let kernel_entry = set_bit (set_bit e 0) 1 in
    if user then set_bit kernel_entry 2 else kernel_entry

-- The word of entry `i` of the table at `t`.
abbrev pub entry : ℕ → ℕ → ℕ
entry t i = t / 8 + i

-- The physical address behind a pointer of the direct map.
abbrev pub direct : Mmu → ℕ → ℕ
direct m v = v - m.kernbase

unfoldable pub store : ℕ → ℕ → Mmu → Mmu
store w v m = record m { mem = λ b. if b == w then v else m.mem b }

-- The `while` of `memset`, by the rounds left, from word `w` on.
unfoldable pub memset_words : (rounds w : ℕ) → (ℕ → ℕ) → ℕ → ℕ
memset_words zero w mem = mem
memset_words (suc n) w mem = memset_words n (w + 1) (λ b. if b == w then 0 else mem b)

unfoldable pub memset : ℕ → Mmu → Mmu
memset addr m = record m { mem = memset_words 512 (addr / 8) m.mem }

unfoldable pub alloc_page : Mmu → ℕ × Mmu
alloc_page m = let (p, fs) = page_allocator m.frames in (p, record m { frames = fs })

-- `kmalloc`: a zeroed page, as a pointer of the direct map.
unfoldable pub kmalloc : Mmu → ℕ × Mmu
kmalloc m = let (p, m1) = alloc_page m in (p + m.kernbase, memset p m1)

unfoldable pub kdealloc : ℕ → Mmu → Mmu
kdealloc v m =
    let m1 = memset (direct m v) m in record m1 { frames = page_deallocator (direct m v) m1.frames }

-- One level of the walk in `mapPage`, `forceMapPage` and `mapPageForUser`: the table behind the
-- entry at word `w`, or a new zeroed one that the entry is made to name.
unfoldable pub new_table : Bool → ℕ → Mmu → ℕ × Mmu
new_table user w m = let (p, m1) = alloc_page m in (p, store w (set_flags user p) (memset p m1))

unfoldable pub next_table : Bool → ℕ → Mmu → ℕ × Mmu
next_table user w m = let e = m.mem w in if present e then (frame e, m) else new_table user w m

unfoldable pub map_levels : Bool → (table v p : ℕ) → Mmu → Mmu
map_levels user table v p m =
    let (pdpt, m1) = next_table user (entry table (pml4_index v)) m in
    let (pdt, m2) = next_table user (entry pdpt (pdpt_index v)) m1 in
    let (pt, m3) = next_table user (entry pdt (pdt_index v)) m2 in
    store (entry pt (pt_index v)) (set_flags user p) m3

-- `mapPage` runs before paging is enabled, on the physical address of the kernel's top table.
unfoldable pub map_page : (v p : ℕ) → Mmu → Mmu
map_page v p m = map_levels false m.pml4 v p m

unfoldable pub force_map_page : (v p temp : ℕ) → Bool → Mmu → Mmu
force_map_page v p temp user m = map_levels user (direct m temp) v p m

unfoldable pub map_page_for_user : (v p temp : ℕ) → Mmu → Mmu
map_page_for_user v p temp m = map_levels true (direct m temp) v p m

-- `enablePaging`: from here on `pml4` is a pointer of the direct map.
unfoldable pub enable_paging : Mmu → Mmu
enable_paging m = record m { pml4 = m.pml4 + m.kernbase }

-- The `while` of `identityMapping`, by the rounds left.
unfoldable pub identity_loop : (rounds vir_start phys_start : ℕ) → Mmu → Mmu
identity_loop zero v p m = m
identity_loop (suc n) v p m = identity_loop n (v + 4096) (p + 4096) (map_page v p m)

-- The end that `identityMapping` maps up to, and the rounds from `kernbase + 0x100000` to it.
abbrev pub identity_end : Mmu → ℕ
identity_end m =
    if ltb (0xFFFF_FFFF_FFFF_F000 - m.kernbase) m.frames.physend
    then 0xFFFF_FFFF_9000_0000
    else m.kernbase + m.frames.physend

abbrev pub identity_rounds : Mmu → ℕ
identity_rounds m = (identity_end m + 4096 - (m.kernbase + 0x100000)) / 4096

-- `identityMapping`, with the addresses of the linker's symbols `kernmem` and `physbase`.
unfoldable pub identity_mapping : (kernmem physbase : ℕ) → Mmu → Mmu
identity_mapping kernmem physbase m =
    let m1 = record m { kernbase = kernmem - physbase } in
    identity_loop (identity_rounds m1) (m1.kernbase + 0x100000) 0x100000 m1

unfoldable pub zeroed_page : Mmu → ℕ × Mmu
zeroed_page m = let (p, m1) = alloc_page m in (p, memset p m1)

-- `mapKernelMemory`, which ends with the page of the screen (`mapVideoMemory`).
unfoldable pub map_kernel_memory : (kernmem physbase : ℕ) → Mmu → Mmu
map_kernel_memory kernmem physbase m =
    let (pml4, m1) = zeroed_page m in
    let (pdpt, m2) = zeroed_page m1 in
    let (pdt, m3) = zeroed_page m2 in
    let (pt, m4) = zeroed_page m3 in
    let m5 = store (entry pml4 (pml4_index kernmem)) (set_flags false pdpt) m4 in
    let m6 = store (entry pdpt (pdpt_index kernmem)) (set_flags false pdt) m5 in
    let m7 = store (entry pdt (pdt_index kernmem)) (set_flags false pt) m6 in
    let m8 = identity_mapping kernmem physbase (record m7 { pml4 = pml4 }) in
    map_page (m8.kernbase + 0xb8000) 0xb8000 m8

-- `return -1` as an int64_t, in 64 bits.
abbrev pub minus_one : ℕ
minus_one = 18_446_744_073_709_551_615

unfoldable pub get_physical_page_addr : (v cr3 : ℕ) → Mmu → ℕ
get_physical_page_addr v cr3 m =
    let pml_entry = m.mem (entry cr3 (pml4_index v)) in
    let pdpt_entry = m.mem (entry (frame pml_entry) (pdpt_index v)) in
    let pdt_entry = m.mem (entry (frame pdpt_entry) (pdt_index v)) in
    if present pml_entry
    then (if present pdpt_entry
        then (if present pdt_entry then m.mem (entry (frame pdt_entry) (pt_index v)) else minus_one)
        else minus_one)
    else minus_one

-- `markPageAsRW`, on a pointer of the direct map; `read_only` is its flag `rw`. The status is 0, or
-- -1 where a table is missing.
unfoldable pub mark_page_as_rw : (v cr3 : ℕ) → (read_only : Bool) → Mmu → ℕ × Mmu
mark_page_as_rw v cr3 read_only m =
    let pml_entry = m.mem (entry (direct m cr3) (pml4_index v)) in
    let pdpt_entry = m.mem (entry (frame pml_entry) (pdpt_index v)) in
    let pdt_entry = m.mem (entry (frame pdpt_entry) (pdt_index v)) in
    let w = entry (frame pdt_entry) (pt_index v) in
    let marked : ℕ × Mmu =
      (0, store w (if read_only then clear_bit (m.mem w) 1 else set_bit (m.mem w) 1) m) in
    if present pml_entry
    then (if present pdpt_entry
        then (if present pdt_entry then marked else (minus_one, m))
        else (minus_one, m))
    else (minus_one, m)

-- `getNewPML4ForUser`, with the current CR3: a zeroed table that shares the kernel's last entry.
unfoldable pub get_new_pml4_for_user : (cr3 : ℕ) → Mmu → ℕ × Mmu
get_new_pml4_for_user cr3 m =
    let (p, m1) = alloc_page m in
    let m2 = memset p m1 in (p, store (entry p 511) (m2.mem (entry cr3 511)) m2)
