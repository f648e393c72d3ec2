-- ===== src/Tests/Files.antt =====
-- Tests of the system calls on files.
use sbunix_64_bit_operating.Prelude.{
  ℕ, zero, suc, ◌+◌, ◌≤◌, ◌≡◌, refl, sym, ap, false, none, some, List, [], ◌∷◌, ◌++◌, arith, length,
  replicate, drop,
}
use sbunix_64_bit_operating.Paging.{Mmu}
use sbunix_64_bit_operating.Keyboard.{Keyboard, Input, plain_code}
use sbunix_64_bit_operating.Keyboard.Keys.{press_keys}
use sbunix_64_bit_operating.Paths.Components.{named, path_of}
use sbunix_64_bit_operating.Directory.{environ_at}
use sbunix_64_bit_operating.Files.{
  FileDescriptor, empty, Files, fill_descriptor, read_file, read_stdin, open_directory,
}
use sbunix_64_bit_operating.Files.Place.{nth}
use sbunix_64_bit_operating.Files.Table.{addresses, Chosen}
use sbunix_64_bit_operating.Files.Calls.{IsTable, descriptors, opened, fill_descriptor-Chosen}
use sbunix_64_bit_operating.Files.Read.{bytes_of, read_file-append}
use sbunix_64_bit_operating.Files.Stdin.{read_stdin-press_keys}
use sbunix_64_bit_operating.Files.Directories.{open_directory-Chosen}
use sbunix_64_bit_operating.Tests.{empty_mmu}
use sbunix_64_bit_operating.Tests.Tasks.{running_at}
use sbunix_64_bit_operating.Tests.Clock.{keyboard_with, ls-AllPlain}
use sbunix_64_bit_operating.Tests.Paths.{
  bin, ls, ls_entry, archive, archive-LaidOut, bin-IsName, home,
}

-- Descriptor 3 is open on "ls" at the address 1, and there is one page.
abbrev ls_open : FileDescriptor
ls_open = record { start = 1; offset = 1; d_prev_dir = []; name = ls; d_dirp = 0 }

abbrev one_open : Files
one_open = record {
  fd_pointers =
      some (record { address = 0x9000; fds = empty ∷ empty ∷ empty ∷ ls_open ∷ empty ∷ [] })
      ∷ replicate 19 none;
  fd_count = 5;
}

one_open-IsTable : IsTable one_open
one_open-IsTable = record { full = omega arith; pages = refl }

fill_descriptor-Chosen_example :
    (n : ℕ) × (files' : Files) × (m' : Mmu) × (fill_descriptor 0x1000 bin
        (λ a. a)
        one_open
        empty_mmu
      ≡ some (some n, files', m'))
    × (n ≤ 7)
    × Chosen
        (opened 0x1000 bin (λ a. a))
        0
        (descriptors one_open)
        n
        (descriptors files')
        (addresses files'.fd_pointers)
fill_descriptor-Chosen_example =
    fill_descriptor-Chosen 0x1000 bin (λ a. a) one_open empty_mmu 7 one_open-IsTable (omega arith)
      (omega arith) (omega arith) refl

-- The text "xabc" at the address 0, and nothing behind it.
abbrev memory : ℕ → List ℕ
memory a = drop a (b'x' ∷ b'a' ∷ b'b' ∷ b'c' ∷ [])

drop-nil : (k : ℕ) → drop {A = ℕ} k [] ≡ []
drop-nil zero = refl
drop-nil (suc k) = refl

drop-add : (i k : ℕ) (s : List ℕ) → drop (i + k) s ≡ drop k (drop i s)
drop-add zero k s = ap (λ j. drop j s) (omega arith)
drop-add (suc i) k [] = let e : suc i + k ≡ suc (i + k) = omega arith in rw e (sym (drop-nil k))
drop-add (suc i) k (c ∷ s) = let e : suc i + k ≡ suc (i + k) = omega arith in rw e (drop-add i k s)

memory_strings : (a k : ℕ) → k ≤ length (memory a) → memory (a + k) ≡ drop k (memory a)
memory_strings a k h = drop-add a k (b'x' ∷ b'a' ∷ b'b' ∷ b'c' ∷ [])

read_file-append_example :
    (files1 : Files) × (files2 : Files) × (first : List ℕ) × (second : List ℕ) × (read_file memory 3
        2 one_open
      ≡ some (some first, files1))
    × (read_file memory 3 5 files1 ≡ some (some second, files2))
    × (first ++ second ≡ bytes_of memory 3 (2 + 5) one_open)
    × ((nth (descriptors files2) 3).offset
        ≡ (nth (descriptors one_open) 3).offset + length (first ++ second))
read_file-append_example =
    read_file-append memory 3 2 5 one_open
      (record {
        table = one_open-IsTable;
        low = omega arith;
        page = record { address = 0x9000; fds = empty ∷ empty ∷ empty ∷ ls_open ∷ empty ∷ [] };
        there = refl;
        open_now = refl;
      })
      memory_strings

read_stdin-press_keys_example :
    (b' : Keyboard) × (i : Input) × (press_keys 10
        (38 ∷ 31 ∷ 28 ∷ [])
        (keyboard_with false, running_at 200)
      ≡ some (b', running_at 200))
    × (read_stdin 64 b'.input ≡ (plain_code 38 ∷ plain_code 31 ∷ 0 ∷ [], i))
    × (i.read_position ≡ i.write_position)
unfolding plain_code
read_stdin-press_keys_example =
    read_stdin-press_keys 10 64 (38 ∷ 31 ∷ []) (keyboard_with false) (running_at 200) ls-AllPlain
      (omega arith) refl refl refl refl refl (omega arith) (omega arith)

open_directory-Chosen_example :
    (n : ℕ) × (files' : Files) × (m' : Mmu) × (open_directory 9 archive
        (environ_at (home ∷ []) [] [] [])
        (path_of (named bin ∷ []))
        one_open
        empty_mmu
      ≡ some (some n, files', m'))
    × (n ≤ 4)
    × Chosen
        (opened 0x1000 (bin ++ b'/' ∷ []) (λ a. a))
        0
        (descriptors one_open)
        n
        (descriptors files')
        (addresses files'.fd_pointers)
open_directory-Chosen_example =
    open_directory-Chosen (home ∷ []) [] [] false [] (named bin ∷ []) archive [] (ls_entry ∷ []) 9 4
      one_open empty_mmu (omega arith) (cc, tt) (bin-IsName, tt) tt (omega arith)
      (omega arith, omega arith, cc) (omega arith) (omega arith) archive-LaidOut tt (omega arith)
      one_open-IsTable (omega arith) (omega arith) refl
