-- ===== src/Tests/Programs.antt =====
-- Tests of the search for a program and of the listing of directories.
use sbunix_64_bit_operating.Prelude.{
  ℕ, ◌*◌, ◌≡◌, refl, ◌≢◌, inl, inr, false, Option, none, some, List, [], ◌∷◌, ◌++◌, map, arith,
  ◌==◌, if◌then◌else◌, length, replicate,
}
use sbunix_64_bit_operating.Strings.{strcmp, to_integer, to_integer_from}
use sbunix_64_bit_operating.Tar.{Tarfs}
use sbunix_64_bit_operating.Tar.Lookup.{Entry, LaidOut}
use sbunix_64_bit_operating.Listing.Whole.{dirent}
use sbunix_64_bit_operating.Dirents.{get_dir_entries}
use sbunix_64_bit_operating.Dirents.Whole.{AnyOutside, get_dir_entries-Children}
use sbunix_64_bit_operating.Files.{
  FileDescriptor, empty, FdPage, Files, root, get_fd_address, get_fd, get_fd_from, find_dirp,
}
use sbunix_64_bit_operating.Listing.Next.{Children}
use sbunix_64_bit_operating.Listing.Handle.{Holds}
use sbunix_64_bit_operating.Listing.Whole.{Reads, read_dir-Children}
use sbunix_64_bit_operating.Tests.Tasks.{running_at}
use sbunix_64_bit_operating.Environ.{
  Environ, getenv, find_entry, entry_name, split_entry, get_cwd, get_path, copy_entry, copy_value,
}
use sbunix_64_bit_operating.Environ.Entries.{environ_of}
use sbunix_64_bit_operating.Directory.{working}
use sbunix_64_bit_operating.Programs.{get_executable_path}
use sbunix_64_bit_operating.Programs.Present.{FirstPresent}
use sbunix_64_bit_operating.Programs.Directories.{SearchDirectory}
use sbunix_64_bit_operating.Programs.Search.{get_executable_path-FirstPresent}
use sbunix_64_bit_operating.Tests.Paths.{
  bin, ls, bin_entry, ls_entry, archive, archive-LaidOut, bin-IsName, search_path,
}

abbrev at_root : Environ
at_root = environ_of (working [] ∷ search_path ∷ []) []

abbrev in_bin : SearchDirectory
in_bin = record { stack = bin ∷ []; slash = false }

at_root-cwd : get_cwd 256 at_root ≡ some (b'/' ∷ [])
unfolding get_cwd copy_entry copy_value getenv find_entry entry_name split_entry strcmp
at_root-cwd = refl

at_root-path : get_path 512 at_root ≡ some (b'/' ∷ bin)
unfolding get_path copy_entry copy_value getenv find_entry entry_name split_entry strcmp
at_root-path = refl

get_executable_path-FirstPresent_example :
    (answer : Option (List ℕ)) × (get_executable_path 9 archive at_root (0 ∷ 7 ∷ []) ls
      ≡ some answer)
    × FirstPresent (bin_entry ∷ ls_entry ∷ []) (ls ∷ (bin ++ b'/' ∷ ls) ∷ []) answer
get_executable_path-FirstPresent_example =
    get_executable_path-FirstPresent (bin_entry ∷ ls_entry ∷ []) 9 archive ls (omega arith)
      archive-LaidOut (omega arith) (omega arith) at_root [] (in_bin ∷ []) (7 ∷ [])
      (cc, omega arith, omega arith, cc, cc) tt ((bin-IsName, tt), omega arith, tt) at_root-cwd
      at_root-path

-- Descriptor 3 is open on the directory bin/ at its header.
abbrev bin_open : FileDescriptor
bin_open = record {
  start = 0x1000;
  offset = 0x1000;
  d_prev_dir = [];
  name = bin ++ b'/' ∷ [];
  d_dirp = 0x9660;
}

abbrev bin_page : FdPage
bin_page = record { address = 0x9000; fds = empty ∷ empty ∷ empty ∷ bin_open ∷ empty ∷ [] }

abbrev bin_table : Files
bin_table = record { fd_pointers = some bin_page ∷ replicate 19 none; fd_count = 5 }

bin_table-handle : get_fd 0x9660 bin_table ≡ some 3
unfolding get_fd get_fd_from find_dirp
bin_table-handle = refl

abbrev bin_open-Holds : Holds 0x9660 3 bin_table
bin_open-Holds = record {
  low = omega arith;
  page = bin_page;
  there = refl;
  inside = omega arith;
  handle = bin_table-handle;
}

read_dir-Children_example :
    (names : List (List ℕ)) × Reads 9 archive 0x9660 bin_table (running_at 200) names
    × Children (bin ++ b'/' ∷ []) [] (ls_entry ∷ []) names
read_dir-Children_example =
    let other : bin ++ b'/' ∷ [] ≢ root = cc in
    read_dir-Children 9 archive (bin ++ b'/' ∷ []) 0x9660 3 (omega arith) (omega arith) other
      (omega arith) (ls_entry ∷ []) bin_table (running_at 200) bin_open-Holds
      (refl, tt, (omega arith, tt), (bin_entry, archive-LaidOut)) (omega arith)

-- The archive with the block of zeros behind it.
abbrev zeros : Entry
zeros = record { name = []; size = 0 }

abbrev ended : Tarfs
ended = record {
  binary_tarfs_start = 0x1000;
  binary_tarfs_end = 0x1a00;
  header = λ p. if p == 0x1800 then record { name = []; size = [] } else archive.header p;
}

ended-LaidOut : LaidOut ended 0x1000 (bin_entry ∷ ls_entry ∷ zeros ∷ [])
unfolding to_integer to_integer_from
ended-LaidOut = (
  omega arith,
  refl,
  omega arith,
  refl,
  omega arith,
  omega arith,
  (
    omega arith,
    refl,
    omega arith,
    refl,
    omega arith,
    omega arith,
    (omega arith, refl, tt, refl, omega arith, omega arith, omega arith),
  ),
)

zeros-AnyOutside : AnyOutside (bin ++ b'/' ∷ []) (ls_entry ∷ zeros ∷ [])
zeros-AnyOutside = inr (inl (λ (rest, e). absurd (cc e)))

bin_table-page : get_fd_address 3 bin_table ≡ some (some bin_page)
unfolding get_fd_address
bin_table-page = refl

get_dir_entries-Children_example :
    (names : List (List ℕ)) × (get_dir_entries 9 ended 3 1024 bin_table
      ≡ some (280 * length names, map dirent names))
    × Children (bin ++ b'/' ∷ []) [] (ls_entry ∷ zeros ∷ []) names
get_dir_entries-Children_example =
    let other : bin ++ b'/' ∷ [] ≢ root = cc in
    get_dir_entries-Children (ls_entry ∷ zeros ∷ []) bin_entry 9 ended (bin ++ b'/' ∷ []) 3 1024
      bin_table bin_page (omega arith) (omega arith) other bin_table-page refl ended-LaidOut refl
      (omega arith, (omega arith, tt)) zeros-AnyOutside (omega arith) (omega arith) (omega arith)
