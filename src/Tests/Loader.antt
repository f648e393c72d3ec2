-- ===== src/Tests/Loader.antt =====
-- Tests of the loader.
use sbunix_64_bit_operating.Prelude.{ℕ, ◌%◌, ◌≡◌, refl, some, List, [], ◌∷◌, ◌++◌, arith}
use sbunix_64_bit_operating.Kernel.{Kernel}
use sbunix_64_bit_operating.Programs.{get_executable_path}
use sbunix_64_bit_operating.Loader.{Image, load_file}
use sbunix_64_bit_operating.Loader.Segments.{areas_of, areas_at}
use sbunix_64_bit_operating.Loader.Whole.{program_headers, load_file-areas}
use sbunix_64_bit_operating.Tests.Tasks.{running_at}
use sbunix_64_bit_operating.Tests.Paths.{bin, ls, bin_entry, ls_entry, archive, archive-LaidOut}

-- A program with one segment of 100 bytes in the file and 200 in memory.
abbrev image : Image
image = record {
  ehdr = λ a. record {
    e_ident = 0x7F ∷ b'E' ∷ b'L' ∷ b'F' ∷ 2 ∷ [];
    e_type = 2;
    e_entry = 0x40_0010;
    e_phoff = 64;
    e_phnum = 1;
  };
  phdr = λ a. record {
    p_type = 1;
    p_flags = 5;
    p_offset = 0;
    p_vaddr = 0x40_0000;
    p_filesz = 100;
    p_memsz = 200;
  };
  byte = λ a. a % 256;
}

abbrev bin_ls : List ℕ
bin_ls = bin ++ b'/' ∷ ls

bin_ls-path : get_executable_path 9 archive [] [] (b'/' ∷ bin_ls) ≡ some (some bin_ls)
unfolding get_executable_path
bin_ls-path = refl

load_file-areas_example :
    (k' : Kernel) × (load_file 9 archive [] [] image (b'/' ∷ bin_ls) 0x9000 200 (running_at 200)
      ≡ some (0x40_0010, k'))
    × (areas_at 200 k'
        ≡ areas_at 200 (running_at 200)
          ++ areas_of 0x1400 (running_at 200).page_num (program_headers image 0x1400))
load_file-areas_example =
    load_file-areas (bin_entry ∷ []) ls_entry [] 9 archive [] [] image (b'/' ∷ bin_ls) 0x9000 200
      (running_at 200) bin_ls-path archive-LaidOut ((cc), tt) (omega arith)
      (record {
        program = record { rest = 2 ∷ []; magic = refl; executable = refl };
        few = omega arith;
        segments = (omega arith, omega arith, tt);
        inside = omega arith;
      })
