-- ===== src/Loader/Segments.antt =====
-- The areas that `map_elf_file` (sys/tarfs.c) adds for the segments of a file.
use sbunix_64_bit_operating.Prelude.{
  ℕ, zero, suc, ◌+◌, ◌-◌, ◌*◌, ◌%◌, ◌≤◌, ◌<◌, ◌≡◌, refl, sym, ap, ◌∙◌, inl, inr, true, false, some,
  List, [], ◌∷◌, ◌++◌, map, arith, ltb, ◌==◌, if◌then◌else◌, ltb→lt, eq→==, Bool-cases,
}
use mathlib.Core.List.{append_assoc, append-nil}
use sbunix_64_bit_operating.Paging.{Mmu, word_mod}
use sbunix_64_bit_operating.Kernel.{Kernel, Vma, get_next_page_num, update}
use sbunix_64_bit_operating.Areas.Copy.{contents}
use sbunix_64_bit_operating.Loader.{
  Elf64Phdr, Image, size_of_ehdr, size_of_phdr, copy_bytes, zero_bytes, fresh_page, map_pages,
  segment_area, add_area, map_elf_file, load_segments,
}

-- The program headers of the file.
abbrev pub headers : Image → (left p : ℕ) → List Elf64Phdr
headers im zero p = []
headers im (suc left) p = im.phdr p ∷ headers im left ((p + size_of_phdr) % word_mod)

-- The areas of the segments to load, with the page numbers behind `page_num`.
abbrev pub areas_of : (elf_file page_num : ℕ) → List Elf64Phdr → List Vma
areas_of elf_file page_num [] = []
areas_of elf_file page_num (h ∷ hs) =
    if h.p_type == 1
    then segment_area 0 (page_num + 1) elf_file h ∷ areas_of elf_file (page_num + 1) hs
    else areas_of elf_file page_num hs

-- No segment has more bytes in the file than in memory, and the fuel is enough for its pages.
abbrev pub AllLoadable : (fuel : ℕ) → List Elf64Phdr → Type 0
AllLoadable fuel [] = Unit {0}
AllLoadable fuel (h ∷ hs) =
    (h.p_filesz ≤ h.p_memsz) × (h.p_filesz < 0x1000 * fuel) × AllLoadable fuel hs

map_pages-some :
    (fuel : ℕ) (im : Image) (elf_file pml4 temp temp2 temp3 page : ℕ) (m : Mmu)
    → temp < 0x1000 * fuel
    → (r : ℕ × Mmu) × (map_pages fuel im elf_file pml4 temp temp2 temp3 page m ≡ some r)
unfolding map_pages
map_pages-some zero im elf_file pml4 temp temp2 temp3 page m h = absurd (omega arith)
map_pages-some (suc fuel) im elf_file pml4 temp temp2 temp3 page m h =
    elim (Bool-cases (temp == 0)) [
      | inl y ↦ ((page, m), rw y refl)
      | inr n ↦ elim (Bool-cases (ltb 0x1000 temp)) [
        | inl large ↦
            let more = ltb→lt _ _ large in
            let v = (temp2 + 0x1000) % word_mod in
            let src = (elf_file + size_of_ehdr * temp3) % word_mod in
            let next = fresh_page v pml4 (copy_bytes 0x1000 im.byte src page m) in
            let (r, run) =
              map_pages-some fuel im elf_file pml4 (temp - 0x1000) v ((temp3 + 0x1000) % word_mod)
                next.0 next.1 (omega arith) in
            (r, rw (n, large) run)
        | inr small ↦
            let src = (elf_file + size_of_ehdr * temp3) % word_mod in
            ((page + temp, copy_bytes temp im.byte src page m), rw (n, small) refl)
      ]
    ]

-- The areas of a task but for the addresses of their structures.
abbrev pub areas_at : (uthread : ℕ) → Kernel → List Vma
areas_at uthread k = map contents (k.tasks uthread).mmap

map_append : (xs ys : List Vma) → map contents (xs ++ ys) ≡ map contents xs ++ map contents ys
map_append [] ys = refl
map_append (x ∷ xs) ys = ap (contents x ∷◌) (map_append xs ys)

add_area-areas :
    (elf_file : ℕ) (h : Elf64Phdr) (uthread : ℕ) (k : Kernel)
    → (areas_at uthread (add_area elf_file h uthread k)
        ≡ areas_at uthread k ++ segment_area 0 (k.page_num + 1) elf_file h ∷ [])
      × ((add_area elf_file h uthread k).page_num ≡ k.page_num + 1)
unfolding add_area update get_next_page_num
add_area-areas elf_file h uthread k =
    (rw (eq→== uthread uthread refl) (map_append (k.tasks uthread).mmap _), refl)

map_elf_file-areas :
    (fuel : ℕ) (im : Image) (elf_file : ℕ) (h : Elf64Phdr) (pml4 uthread : ℕ) (k : Kernel)
    → h.p_filesz ≤ h.p_memsz
    → h.p_filesz < 0x1000 * fuel
    → (k' : Kernel) × (map_elf_file fuel im elf_file h pml4 uthread k ≡ some (true, k'))
      × (areas_at uthread k'
          ≡ areas_at uthread k ++ segment_area 0 (k.page_num + 1) elf_file h ∷ [])
      × (k'.page_num ≡ k.page_num + 1)
unfolding map_elf_file
map_elf_file-areas fuel im elf_file h pml4 uthread k sizes enough =
    let fits : ltb h.p_memsz h.p_filesz ≡ false = ground arith in
    let k1 = add_area elf_file h uthread k in
    let (r, run) =
      map_pages-some fuel im elf_file pml4 h.p_filesz h.p_vaddr h.p_offset
        (fresh_page h.p_vaddr pml4 k1.mmu).0 (fresh_page h.p_vaddr pml4 k1.mmu).1 enough in
    let (areas, number) = add_area-areas elf_file h uthread k in
    (
      record k1 { mmu = zero_bytes (h.p_memsz - h.p_filesz) (r.0 + h.p_filesz) r.1 },
      rw (fits, run) refl,
      areas,
      number,
    )

-- Of at most a hundred headers, each segment to load gets an area behind the others.
pub load_segments-areas :
    (left fuel : ℕ) (im : Image) (elf_file p counter pml4 uthread : ℕ) (k : Kernel)
    → AllLoadable fuel (headers im left p)
    → counter + left ≤ 101
    → (k' : Kernel) × (load_segments left fuel im elf_file p counter pml4 uthread k
        ≡ some (true, k'))
      × (areas_at uthread k'
          ≡ areas_at uthread k ++ areas_of elf_file k.page_num (headers im left p))
unfolding load_segments
load_segments-areas zero fuel im elf_file p counter pml4 uthread k a few =
    (k, refl, sym (append-nil (areas_at uthread k)))
load_segments-areas (suc left) fuel im elf_file p counter pml4 uthread k (sizes, enough, a) few =
    let h = im.phdr p in
    let p1 = (p + size_of_phdr) % word_mod in
    let go_on : ltb 100 counter ≡ false = ground arith in
    elim (Bool-cases (h.p_type == 1)) [
      | inr n ↦
          let (k', run, areas) =
            load_segments-areas left fuel im elf_file p1 counter pml4 uthread k a (omega arith) in
          (k', rw (go_on, n) run, rw n areas)
      | inl y ↦
          let (k1, first, added, number) =
            map_elf_file-areas fuel im elf_file h pml4 uthread k sizes enough in
          let (k', run, areas) =
            load_segments-areas left fuel im elf_file p1 (counter + 1) pml4 uthread k1 a
              (omega arith) in
          (
            k',
            rw (go_on, y, first) run,
            rw y (
                areas
                ∙ rw (added, number)
                    (append_assoc (areas_at uthread k)
                      (segment_area 0 (k.page_num + 1) elf_file h ∷ [])
                      (areas_of elf_file (k.page_num + 1) (headers im left p1)))),
          )
    ]
