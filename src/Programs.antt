-- ===== src/Programs.antt =====
-- Finding a program (`get_executable_path`, sys/tarfs.c): a path from the root is taken as it is;
-- another is looked up in the working directory and then in the directories of PATH.

pub mod Directories
pub mod Present
pub mod Search
use sbunix_64_bit_operating.Prelude.{
  ℕ, zero, suc, ◌+◌, ◌/◌, ◌||◌, Option, none, some, List, [], ◌∷◌, ◌++◌, ltb, ◌==◌, if◌then◌else◌,
  length, ◌>>=◌, drop,
}
use sbunix_64_bit_operating.Tar.{Tarfs, get_file_address}
use sbunix_64_bit_operating.Paths.{char_at, push_all, end_with_slash, remove_dotslash}
use sbunix_64_bit_operating.Environ.{Environ, get_path}
use sbunix_64_bit_operating.Directory.{cwd_for}

-- The loop up to a colon or a NUL: the directory, and the buffer from its end on. Behind the buffer
-- there is no result.
unfoldable pub next_directory : (testfile : List ℕ) → Option (List ℕ × List ℕ)
next_directory [] = none
next_directory (c ∷ testfile) =
    let rest = (do (directory, more) ← next_directory testfile; some (c ∷ directory, more)) in
    if (c == b':') || (c == 0) then some ([], c ∷ testfile) else rest

-- The directory, a slash unless it ends with one, and the file's name. The code reads in front of the
-- buffer for an empty directory.
unfoldable pub in_directory : (directory filename : List ℕ) → Option (List ℕ)
in_directory directory filename = do
  path ← end_with_slash (push_all directory [])
  some (push_all (push_all filename path) [])

-- The loop over the directories, by the rounds left. The step behind a directory goes over the colon,
-- and behind the last directory over the NUL.
unfoldable pub search_path :
    (rounds fuel : ℕ) → Tarfs → (filename testfile : List ℕ) → Option (Option (List ℕ))
search_path zero fuel t filename testfile = none
search_path (suc rounds) fuel t filename [] = none
search_path (suc rounds) fuel t filename (c ∷ testfile) =
    let turn : Option (Option (List ℕ)) = (do
      (directory, more) ← next_directory (c ∷ testfile)
      path ← in_directory directory filename
      address ← get_file_address fuel t (drop 1 path)
      let further = search_path rounds fuel t filename (drop 1 more)
      if address == 0 then further else some (some (drop 1 path))) in
    if c == 0 then some none else turn

-- The name without its slash in front, or NULL. `unset` are the bytes of the buffer behind the value of
-- PATH and its NUL, which nothing has written; every round of the loop goes over a byte.
unfoldable pub get_executable_path :
    (fuel : ℕ) → Tarfs → Environ → (unset filename : List ℕ) → Option (Option (List ℕ))
get_executable_path fuel t pages unset filename =
    let search : Option (Option (List ℕ)) = (do
      testfile ← get_path 512 pages
      search_path (suc (length testfile)) fuel t filename (testfile ++ 0 ∷ unset)) in
    let relative : Option (Option (List ℕ)) = (do
      cwd ← cwd_for filename pages
      path ← remove_dotslash cwd filename 512
      address ← get_file_address fuel t (drop 1 path)
      if ltb 0 address then some (some (drop 1 path)) else search) in
    if char_at 0 filename == b'/' then some (some (drop 1 filename)) else relative
