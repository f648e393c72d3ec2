-- ===== src/Tests/Paths.antt =====
-- Tests of the archive, the paths, the environment and the open files.
use sbunix_64_bit_operating.Prelude.{
  ℕ, ◌+◌, ◌≡◌, refl, true, false, some, List, [], ◌∷◌, ◌++◌, arith, ◌==◌, if◌then◌else◌,
}
use sbunix_64_bit_operating.Strings.{to_integer, to_integer_from}
use sbunix_64_bit_operating.Tar.{Tarfs, get_file_address, get_dir_address}
use sbunix_64_bit_operating.Tar.Lookup.{
  Entry, LaidOut, span_of, file_at, get_file_address-first, get_file_address-absent,
}
use sbunix_64_bit_operating.Paths.{remove_dotslash}
use sbunix_64_bit_operating.Paths.Components.{Component, here, up, named, path_of, IsName, absolute}
use sbunix_64_bit_operating.Paths.Resolve.{remove_dotslash-absolute}
use sbunix_64_bit_operating.Environ.{setenv, path}
use sbunix_64_bit_operating.Environ.Entries.{Variable, environ_of, setenv-environ_of}
use sbunix_64_bit_operating.Directory.{change_directory, change_directory-target, environ_at}

abbrev pub bin : List ℕ
bin = b'b' ∷ b'i' ∷ b'n' ∷ []

abbrev pub ls : List ℕ
ls = b'l' ∷ b's' ∷ []

abbrev pub bin_entry : Entry
bin_entry = record { name = bin ++ b'/' ∷ []; size = 0 }

abbrev pub ls_entry : Entry
ls_entry = record { name = bin ++ b'/' ∷ ls; size = 700 }

-- An archive with the directory bin/ and the file bin/ls of 700 bytes.
abbrev pub archive : Tarfs
archive = record {
  binary_tarfs_start = 0x1000;
  binary_tarfs_end = 0x1800;
  header = λ p.
      if p == 0x1000
      then record { name = bin ++ b'/' ∷ []; size = b'0' ∷ [] }
      else record { name = bin ++ b'/' ∷ ls; size = b'1' ∷ b'2' ∷ b'7' ∷ b'4' ∷ [] };
}

pub archive-LaidOut : LaidOut archive 0x1000 (bin_entry ∷ ls_entry ∷ [])
unfolding to_integer to_integer_from
archive-LaidOut = (
  omega arith,
  refl,
  omega arith,
  refl,
  omega arith,
  omega arith,
  (omega arith, refl, omega arith, refl, omega arith, omega arith, omega arith),
)

get_file_address-first_example :
    (get_file_address 9 archive (bin ++ b'/' ∷ ls)
      ≡ some (file_at ls_entry (0x1000 + span_of (bin_entry ∷ []))))
    × (get_dir_address 9 archive (bin ++ b'/' ∷ ls) ≡ some 0)
get_file_address-first_example =
    get_file_address-first (bin_entry ∷ []) ls_entry [] 9 archive archive-LaidOut (cc, tt)
      (omega arith)

get_file_address-absent_example :
    (get_file_address 9 archive ls ≡ some 0) × (get_dir_address 9 archive ls ≡ some 0)
get_file_address-absent_example =
    get_file_address-absent (bin_entry ∷ ls_entry ∷ []) 9 archive ls archive-LaidOut (omega arith)
      (cc, (cc, tt)) (omega arith)

pub bin-IsName : IsName bin
bin-IsName = (cc, omega arith, omega arith, cc, cc)

-- "../bin/." from the directory /bin.
abbrev back_and_down : List Component
back_and_down = up ∷ named bin ∷ here ∷ []

remove_dotslash-absolute_example :
    (remove_dotslash (absolute (bin ∷ [])) (b'/' ∷ path_of back_and_down) 1
      ≡ some (b'/' ∷ bin ++ b'/' ∷ []))
    × (remove_dotslash (absolute (bin ∷ [])) (path_of back_and_down) 1
        ≡ some (b'/' ∷ bin ++ b'/' ∷ []))
remove_dotslash-absolute_example =
    remove_dotslash-absolute back_and_down (bin ∷ []) (bin-IsName, tt) (bin-IsName, tt)

abbrev pub search_path : Variable
search_path = record { name = path; value = b'/' ∷ bin }

abbrev pub home : Variable
home = record { name = b'H' ∷ []; value = b'/' ∷ [] }

setenv-environ_of_example :
    (setenv path ls (environ_of (home ∷ search_path ∷ []) [])
      ≡ some (environ_of (home ∷ record search_path { value = ls } ∷ []) []))
    × (setenv path ls (environ_of (home ∷ []) [])
        ≡ some (environ_of (home ∷ record search_path { value = ls } ∷ []) []))
setenv-environ_of_example =
    setenv-environ_of (home ∷ []) search_path [] ls [] (omega arith) (omega arith) (cc, tt)
      (omega arith)

change_directory-target_example :
    change_directory 9 archive (path_of (named bin ∷ [])) (environ_at (home ∷ []) [] [] [])
    ≡ some (true, environ_at (home ∷ []) (bin ∷ []) [] [])
change_directory-target_example =
    change_directory-target (home ∷ []) [] [] (omega arith) (cc, tt) false [] (named bin ∷ [])
      archive [] (ls_entry ∷ []) 9 (bin-IsName, tt) tt (omega arith) (omega arith) (omega arith)
      archive-LaidOut tt (omega arith)
