-- ===== src/Areas.antt =====
-- The areas of a task: `malloc`, `free`, `copyVMA` and the lookups of sys/task.c, and `stackForUser` of
-- sys/virtualMemory.c. A task's list `mmap` stands for the links of its areas. An area lies in a
-- page of its own, from `kmalloc`; the words of that page are not modelled.
pub mod Malloc
pub mod Release
pub mod Copy
use sbunix_64_bit_operating.Prelude.{
  ℕ, ◌+◌, ◌-◌, ◌*◌, ◌%◌, Bool, true, false, ◌&&◌, ◌||◌, not, Option, none, some, List, [], ◌∷◌,
  ◌++◌, ltb, leb, ◌==◌, if◌then◌else◌, length, ◌>>=◌,
}
use sbunix_64_bit_operating.Frames.{page_deallocator}
use sbunix_64_bit_operating.Paging.{
  Mmu, alloc_page, frame, word_mod, kmalloc, memset, map_page_for_user, force_map_page,
}
use sbunix_64_bit_operating.Kernel.{Kernel, Vma, get_next_page_num, update}

-- An area as `malloc` fills it in.
abbrev pub new_area : (at page_number v_start size : ℕ) → (is_next_freed : Bool) → Vma
new_area at page_number v_start size is_next_freed = record {
  at = at;
  v_start = v_start;
  v_end = (v_start + size) % word_mod;
  mmsz = size;
  v_flags = 0;
  grows_down = false;
  v_file = 0;
  v_offset = 0;
  is_next_freed = is_next_freed;
  page_number = page_number;
}

-- `end = (v_end > end ? v_end : end)`, for an area that does not grow down.
abbrev pub later_end : ℕ → Vma → ℕ
later_end end next =
    if next.grows_down then end else (if ltb end next.v_end then next.v_end else end)

-- What the `while` of `malloc` comes to: the end that it has found, whether the gap behind it stays
-- marked, and the areas up to the one that the new area is linked behind.
pub record Place : Type 0 where
  pub end : ℕ
  pub set_next_freed : Bool
  pub kept : List Vma

unfoldable pub find_place : (size end : ℕ) → (temp : Vma) → List Vma → Place
find_place size end temp [] = record { end = end; set_next_freed = false; kept = temp ∷ [] }
find_place size end temp (next ∷ rest) =
    let end1 = later_end end next in
    let gap = (next.v_start + word_mod - temp.v_end) % word_mod in
    let further = find_place size end1 next rest in
    if temp.is_next_freed && leb size gap
    then record {
      end = end1;
      set_next_freed = not (gap == size);
      kept = record temp { is_next_freed = false } ∷ [];
    }
    else record further { kept = temp ∷ further.kept }

-- The areas and the start of the new one. The link of the new area is NULL before it is linked.
unfoldable pub place_area : (at page_number size : ℕ) → List Vma → ℕ × List Vma
place_area at page_number size [] = (0, new_area at page_number 0 size false ∷ [])
place_area at page_number size (head ∷ rest) =
    let p = find_place size 0 head rest in
    (p.end, p.kept ++ new_area at page_number p.end size p.set_next_freed ∷ [])

unfoldable pub set_mmap : ℕ → List Vma → Kernel → Kernel
set_mmap p areas k = update p (record (k.tasks p) { mmap = areas }) k

unfoldable pub malloc : (size : ℕ) → Kernel → ℕ × Kernel
malloc size k =
    let (at, m) = kmalloc k.mmu in
    let (page_number, k1) = get_next_page_num (record k { mmu = m }) in
    let (v_start, areas) = place_area at page_number size (k.tasks k.running).mmap in
    (v_start, set_mmap k1.running areas k1)

-- The size of the structure `VMA`: eleven fields of eight bytes.
abbrev pub vma_size : ℕ
vma_size = 88

-- `(vmaTemp->next - get_kernbase()) & FRAME`: a difference of a pointer to areas and a number.
abbrev pub freed_address : (next kernbase : ℕ) → ℕ
freed_address next kernbase = frame ((next + word_mod * vma_size - vma_size * kernbase) % word_mod)

abbrev pub address_of : List Vma → ℕ
address_of [] = 0
address_of (a ∷ rest) = a.at

-- The `while` of `free`: the areas that are left, and the address that follows the one taken out.
unfoldable pub unlink_area : (ptr : ℕ) → (temp : Vma) → List Vma → Option (List Vma × ℕ)
unlink_area ptr temp [] = none
unlink_area ptr temp (next ∷ rest) =
    let further = unlink_area ptr next rest in
    if next.v_start == ptr
    then some (record temp { is_next_freed = true } ∷ rest, address_of rest)
    else (do found ← further; some (temp ∷ found.0, found.1))

-- `free`. With no areas the source reads through NULL, and nothing happens here.
unfoldable pub free_areas_of : (ptr : ℕ) → List Vma → Option (List Vma × ℕ)
free_areas_of ptr [] = none
free_areas_of ptr (head ∷ rest) = unlink_area ptr head rest

-- The body of that loop's `if`, on what the search found.
unfoldable pub release : Option (List Vma × ℕ) → Kernel → Kernel
release none k = k
release (some found) k =
    let fs = page_deallocator (freed_address found.1 k.mmu.kernbase) k.mmu.frames in
    set_mmap k.running found.0 (record k { mmu = record k.mmu { frames = fs } })

unfoldable pub free : (ptr : ℕ) → Kernel → Kernel
free ptr k = release (free_areas_of ptr (k.tasks k.running).mmap) k

-- The loop of `copyVMA`. The field `isNextFreed` is not copied, and is 0 in the new page.
unfoldable pub copy_areas : List Vma → Mmu → List Vma × Mmu
copy_areas [] m = ([], m)
copy_areas (old ∷ rest) m =
    let (at, m1) = kmalloc m in
    let (copies, m2) = copy_areas rest m1 in
    (record old { at = at; is_next_freed = false } ∷ copies, m2)

unfoldable pub copy_vma : (task : ℕ) → List Vma → Kernel → Kernel
copy_vma task vmas k =
    let (copies, m) = copy_areas vmas k.mmu in
    let t = k.tasks task in
    update task (record t { mmap = copies; mm_count = t.mm_count + length vmas })
      (record k { mmu = m })

-- `isPartofCurrentVma`, which looks at the first page of each area.
unfoldable pub starts_at : (addr : ℕ) → List Vma → Bool
starts_at addr [] = false
starts_at addr (a ∷ rest) = (frame a.v_start == addr) || starts_at addr rest

unfoldable pub is_part_of_current_vma : (addr : ℕ) → Kernel → Bool
is_part_of_current_vma addr k = starts_at addr (k.tasks k.running).mmap

unfoldable pub page_num_at : (addr : ℕ) → List Vma → ℕ
page_num_at addr [] = word_mod - 1
page_num_at addr (a ∷ rest) =
    let further = page_num_at addr rest in
    if frame a.v_start == addr then a.page_number else further

unfoldable pub get_page_num_from_addr : (addr : ℕ) → Kernel → ℕ
get_page_num_from_addr addr k = page_num_at addr (k.tasks k.running).mmap

-- USER_VIRTUAL_STACK_TOP.
abbrev pub stack_top : ℕ
stack_top = 0xFFFF_FF7F_0000_0000

-- `stackForUser`: a page for the stack, mapped for the task and for the kernel, and its area.
unfoldable pub stack_for_user : (task : ℕ) → Kernel → ℕ × Kernel
stack_for_user task k =
    let t = k.tasks task in
    let (page, m1) = alloc_page k.mmu in
    let m2 = map_page_for_user (stack_top - 0x1000) page (t.regs.cr3 + m1.kernbase) m1 in
    let m3 = force_map_page (stack_top - 0x1000) page m2.pml4 false m2 in
    let (at, m4) = kmalloc (memset page m3) in
    let (page_number, k1) = get_next_page_num (record k { mmu = m4 }) in
    let area = record (new_area at page_number (stack_top - 0x1000) 0x1000 false) {
      grows_down = true;
    } in
    (
      stack_top - 0x1000,
      update task (record t { mmap = t.mmap ++ area ∷ []; mm_count = t.mm_count + 1 }) k1,
    )
