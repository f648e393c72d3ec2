-- ===== src/Loader.antt =====
-- The loader (`validate_elf_file`, `map_elf_file` and `loadFile`, sys/tarfs.c). The headers of the file
-- and its bytes are read by their addresses; the archive does not lie in the pages that are handed out.
-- A page is written through its physical address, and the messages are left out.
pub mod Segments
pub mod Whole
use sbunix_64_bit_operating.Prelude.{
  ℕ, zero, suc, ◌+◌, ◌-◌, ◌*◌, ◌/◌, ◌%◌, ◌^◌, Bool, true, false, ◌&&◌, not, Option, none, some,
  List, [], ◌∷◌, ◌++◌, ltb, leb, ◌==◌, if◌then◌else◌, get_or, ◌>>=◌,
}
use sbunix_64_bit_operating.Strings.{to_integer}
use sbunix_64_bit_operating.Paging.{
  Mmu, alloc_page, frame, word_mod, kmalloc, memset, store, map_page_for_user,
}
use sbunix_64_bit_operating.Kernel.{Kernel, Vma, get_next_page_num, update}
use sbunix_64_bit_operating.Tar.{Tarfs, add_int, search_from}
use sbunix_64_bit_operating.Environ.{Environ}
use sbunix_64_bit_operating.Programs.{get_executable_path}

pub record Elf64Ehdr : Type 0 where
  pub e_ident : List ℕ
  pub e_type : ℕ
  pub e_entry : ℕ
  pub e_phoff : ℕ
  pub e_phnum : ℕ

pub record Elf64Phdr : Type 0 where
  pub p_type : ℕ
  pub p_flags : ℕ
  pub p_offset : ℕ
  pub p_vaddr : ℕ
  pub p_filesz : ℕ
  pub p_memsz : ℕ

-- What the archive's memory holds at an address.
pub record Image : Type 0 where
  pub ehdr : ℕ → Elf64Ehdr
  pub phdr : ℕ → Elf64Phdr
  pub byte : ℕ → ℕ

abbrev pub size_of_ehdr : ℕ
size_of_ehdr = 64

abbrev pub size_of_phdr : ℕ
size_of_phdr = 56

-- A byte of a word of the memory.
unfoldable pub store_byte : (a c : ℕ) → Mmu → Mmu
store_byte a c m =
    let old = m.mem (a / 8) in
    let low = 256 ^ (a % 8) in
    store (a / 8) (old / (low * 256) * (low * 256) + c % 256 * low + old % low) m

unfoldable pub copy_bytes : (n : ℕ) → (byte : ℕ → ℕ) → (src dest : ℕ) → Mmu → Mmu
copy_bytes zero byte src dest m = m
copy_bytes (suc n) byte src dest m =
    copy_bytes n byte (src + 1) (dest + 1) (store_byte dest (byte src) m)

-- `memset_file` with 0.
unfoldable pub zero_bytes : (n dest : ℕ) → Mmu → Mmu
zero_bytes zero dest m = m
zero_bytes (suc n) dest m = zero_bytes n (dest + 1) (store_byte dest 0 m)

-- A zeroed page at the address of the user.
unfoldable pub fresh_page : (v pml4 : ℕ) → Mmu → ℕ × Mmu
fresh_page v pml4 m =
    let (page, m1) = alloc_page m in (page, map_page_for_user v page pml4 (memset page m1))

-- The loop over the pages, on fuel: where it ends, and the memory. The offset is added to a pointer to
-- the file's header, so that it counts headers and not bytes.
unfoldable pub map_pages :
    (fuel : ℕ) → Image → (elf_file pml4 temp temp2 temp3 page : ℕ) → Mmu → Option (ℕ × Mmu)
map_pages zero im elf_file pml4 temp temp2 temp3 page m = none
map_pages (suc fuel) im elf_file pml4 temp temp2 temp3 page m =
    let src = (elf_file + size_of_ehdr * temp3) % word_mod in
    let v = (temp2 + 0x1000) % word_mod in
    let (page1, m1) = fresh_page v pml4 (copy_bytes 0x1000 im.byte src page m) in
    let further =
      map_pages fuel im elf_file pml4 (temp - 0x1000) v ((temp3 + 0x1000) % word_mod) page1 m1 in
    if temp == 0
    then some (page, m)
    else if ltb 0x1000 temp
    then further
    else some (page + temp, copy_bytes temp im.byte src page m)

-- The area of a segment, behind the others.
abbrev pub segment_area : (at page_number elf_file : ℕ) → Elf64Phdr → Vma
segment_area at page_number elf_file h = record {
  at = at;
  v_start = h.p_vaddr;
  v_end = (frame ((h.p_vaddr + h.p_memsz) % word_mod) + 0x1000) % word_mod;
  mmsz = 0;
  v_flags = h.p_flags;
  grows_down = false;
  v_file = elf_file;
  v_offset = 0;
  is_next_freed = false;
  page_number = page_number;
}

unfoldable pub add_area : (elf_file : ℕ) → Elf64Phdr → (uthread : ℕ) → Kernel → Kernel
add_area elf_file h uthread k =
    let (at, m) = kmalloc k.mmu in
    let (page_number, k1) = get_next_page_num (record k { mmu = m }) in
    let t = k.tasks uthread in
    update uthread
      (record t {
        mmap = t.mmap ++ segment_area at page_number elf_file h ∷ [];
        mm_count = t.mm_count + 1;
      })
      k1

-- Whether the segment is mapped, and the kernel.
unfoldable pub map_elf_file :
    (fuel : ℕ)
    → Image
    → (elf_file : ℕ) → Elf64Phdr
    → (pml4 uthread : ℕ) → Kernel
    → Option (Bool × Kernel)
map_elf_file fuel im elf_file h pml4 uthread k =
    let mapped : Option (Bool × Kernel) = (do
      let k1 = add_area elf_file h uthread k
      let (page, m1) = fresh_page h.p_vaddr pml4 k1.mmu
      (end, m2) ← map_pages fuel im elf_file pml4 h.p_filesz h.p_vaddr h.p_offset page m1
      some (true, record k1 { mmu = zero_bytes (h.p_memsz - h.p_filesz) (end + h.p_filesz) m2 })) in
    if ltb h.p_memsz h.p_filesz then some (false, k) else mapped

unfoldable pub validate_elf_file : (elf_file : ℕ) → Elf64Ehdr → Bool
validate_elf_file elf_file h =
    not (elf_file == 0)
    && (get_or h.e_ident 0 0 == 0x7F)
    && (get_or h.e_ident 1 0 == b'E')
    && (get_or h.e_ident 2 0 == b'L')
    && (get_or h.e_ident 3 0 == b'F')
    && (h.e_type == 2)

-- The loop over the program headers, by the rounds left, from the one at `p` on.
unfoldable pub load_segments :
    (left fuel : ℕ)
    → Image
    → (elf_file p counter pml4 uthread : ℕ) → Kernel
    → Option (Bool × Kernel)
load_segments zero fuel im elf_file p counter pml4 uthread k = some (true, k)
load_segments (suc left) fuel im elf_file p counter pml4 uthread k =
    let h = im.phdr p in
    let p1 = (p + size_of_phdr) % word_mod in
    let passed = load_segments left fuel im elf_file p1 counter pml4 uthread k in
    let loaded : Option (Bool × Kernel) = (do
      (done, k1) ← map_elf_file fuel im elf_file h pml4 uthread k
      let further = load_segments left fuel im elf_file p1 (counter + 1) pml4 uthread k1
      if done then further else some (false, k1)) in
    if ltb 100 counter then some (false, k) else if h.p_type == 1 then loaded else passed

-- The part behind the search: the address to start at, or 0.
unfoldable pub load_at :
    (fuel : ℕ) → Image → (elf_file size pml4 uthread : ℕ) → Kernel → Option (ℕ × Kernel)
load_at fuel im elf_file size pml4 uthread k =
    let h = im.ehdr elf_file in
    let inside = leb ((h.e_phoff + h.e_phnum * size_of_phdr) % word_mod) (add_int 0 size) in
    let loaded : Option (ℕ × Kernel) = (do
      (done, k1) ←
          load_segments h.e_phnum fuel im elf_file ((elf_file + h.e_phoff) % word_mod) 0 pml4
            uthread k
      some (if done then h.e_entry else 0, k1)) in
    if validate_elf_file elf_file h && inside then loaded else some (0, k)

unfoldable pub load_file :
    (fuel : ℕ)
    → Tarfs
    → Environ
    → (unset : List ℕ) → Image
    → (filename : List ℕ) → (pml4 uthread : ℕ) → Kernel
    → Option (ℕ × Kernel)
load_file fuel t pages unset im filename pml4 uthread k = do
  file ← get_executable_path fuel t pages unset filename
  elim file [
    | none ↦ some (0, k)
    | some name ↦ (do
      (file_found, p) ← search_from fuel t name t.binary_tarfs_start
      let loaded = load_at fuel im (p + 512) (to_integer (t.header p).size) pml4 uthread k
      if file_found then loaded else some (0, k))
  ]
