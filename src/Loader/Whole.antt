-- ===== src/Loader/Whole.antt =====
-- `loadFile` (sys/tarfs.c) on a file of the archive.
use sbunix_64_bit_operating.Prelude.{
  ℕ, ◌+◌, ◌*◌, ◌%◌, ◌^◌, ◌≤◌, ◌<◌, ◌≡◌, refl, true, false, some, List, ◌∷◌, ◌++◌, arith, leb, ◌==◌,
  length,
}
use sbunix_64_bit_operating.Paging.{word_mod}
use sbunix_64_bit_operating.Kernel.{Kernel}
use sbunix_64_bit_operating.Tar.{Tarfs, add_int}
use sbunix_64_bit_operating.Tar.Lookup.{Entry, LaidOut, NoneNamed, span_of, search_from-Found}
use sbunix_64_bit_operating.Environ.{Environ}
use sbunix_64_bit_operating.Programs.{get_executable_path}
use sbunix_64_bit_operating.Loader.{
  Elf64Ehdr, Elf64Phdr, Image, size_of_phdr, validate_elf_file, load_at, load_file,
}
use sbunix_64_bit_operating.Loader.Segments.{
  headers, areas_of, AllLoadable, areas_at, load_segments-areas,
}

-- The header of a program that starts with the magic number and is executable.
pub record IsProgram (h : Elf64Ehdr) : Type 0 where
  pub rest : List ℕ
  pub magic : h.e_ident ≡ 0x7F ∷ b'E' ∷ b'L' ∷ b'F' ∷ rest
  pub executable : h.e_type ≡ 2

IsProgram-validate_elf_file :
    (elf_file : ℕ) (h : Elf64Ehdr)
    → 0 < elf_file
    → IsProgram h
    → validate_elf_file elf_file h ≡ true
unfolding validate_elf_file
IsProgram-validate_elf_file elf_file h pos p =
    let there : (elf_file == 0) ≡ false = ground arith in rw (there, p.magic, p.executable) refl

abbrev pub program_headers : Image → (elf_file : ℕ) → List Elf64Phdr
program_headers im elf_file =
    headers im (im.ehdr elf_file).e_phnum ((elf_file + (im.ehdr elf_file).e_phoff) % word_mod)

-- A file that the loader takes: a program with its headers inside the file, at most 101 of them.
pub record IsLoadable (fuel : ℕ) (im : Image) (elf_file size : ℕ) : Type 0 where
  pub program : IsProgram (im.ehdr elf_file)
  pub few : (im.ehdr elf_file).e_phnum ≤ 101
  pub segments : AllLoadable fuel (program_headers im elf_file)
  pub inside : (im.ehdr elf_file).e_phoff + (im.ehdr elf_file).e_phnum * size_of_phdr ≤ size

load_at-areas :
    (fuel : ℕ) (im : Image) (elf_file size pml4 uthread : ℕ) (k : Kernel)
    → IsLoadable fuel im elf_file size
    → 0 < elf_file
    → size < 2 ^ 30
    → (k' : Kernel) × (load_at fuel im elf_file size pml4 uthread k
        ≡ some ((im.ehdr elf_file).e_entry, k'))
      × (areas_at uthread k'
          ≡ areas_at uthread k ++ areas_of elf_file k.page_num (program_headers im elf_file))
unfolding load_at
load_at-areas fuel im elf_file size pml4 uthread k l pos small =
    let h = im.ehdr elf_file in
    let valid = IsProgram-validate_elf_file elf_file h pos l.program in
    let whole : leb ((h.e_phoff + h.e_phnum * size_of_phdr) % word_mod) (add_int 0 size) ≡ true =
      unfold add_int in ground (arith, l.inside) in
    let (k', run, areas) =
      load_segments-areas h.e_phnum fuel im elf_file ((elf_file + h.e_phoff) % word_mod) 0 pml4
        uthread k l.segments (omega (arith, l.few)) in
    (k', rw (valid, whole, run) refl, areas)

-- Where the search for the program ends at the name of an entry of the archive, the first with that
-- name, and the entry is a program with its headers inside the file, at most 101 of them, none with
-- more bytes in the file than in memory: `loadFile` answers the program's entry point, and the task's
-- areas are followed by one for each segment to load, in the order of the headers, with the next page
-- numbers. The fuel is more than the entries before and than the pages of a segment.
pub load_file-areas :
    (es : List Entry) (e : Entry) (more : List Entry) (fuel : ℕ) (t : Tarfs) (pages : Environ)
    (unset : List ℕ) (im : Image) (filename : List ℕ) (pml4 uthread : ℕ) (k : Kernel)
    → get_executable_path fuel t pages unset filename ≡ some (some e.name)
    → LaidOut t t.binary_tarfs_start (es ++ e ∷ more)
    → NoneNamed e.name es
    → length es < fuel
    → IsLoadable fuel im (t.binary_tarfs_start + span_of es + 512) e.size
    → (let elf_file = t.binary_tarfs_start + span_of es + 512 in
        (k' : Kernel) × (load_file fuel t pages unset im filename pml4 uthread k
          ≡ some ((im.ehdr elf_file).e_entry, k'))
        × (areas_at uthread k'
            ≡ areas_at uthread k ++ areas_of elf_file k.page_num (program_headers im elf_file)))
unfolding load_file
load_file-areas es e more fuel t pages unset im filename pml4 uthread k path laid none_named enough
      l =
    let (found, size, small, c) =
      search_from-Found es e more fuel t t.binary_tarfs_start laid none_named enough in
    let (k', run, areas) =
      load_at-areas fuel im (t.binary_tarfs_start + span_of es + 512) e.size pml4 uthread k l
        (omega arith) small in
    (k', rw (path, found, size) run, areas)
