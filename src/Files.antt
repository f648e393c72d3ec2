-- ===== src/Files.antt =====
-- Open files (sys/tarfs.c): the table of descriptors of a task, five to a page, and the system calls on
-- files and directories. The name of a descriptor is empty while it is free. A name too long for its
-- 256 bytes, and a table read past its 20 pages, have no result; messages on errors are left out.
pub mod Place
pub mod Table
pub mod Calls
pub mod Read
pub mod Directories
pub mod Stdin
use sbunix_64_bit_operating.Prelude.{
  ℕ, zero, suc, ◌+◌, ◌*◌, ◌/◌, ◌%◌, Bool, ◌&&◌, ◌||◌, Option, none, some, List, [], ◌∷◌, ltb, ◌==◌,
  if◌then◌else◌, length, get_or, set, replicate, ◌>>=◌, drop,
}
use sbunix_64_bit_operating.Strings.{strcmp}
use sbunix_64_bit_operating.Paging.{Mmu, kmalloc}
use sbunix_64_bit_operating.Keyboard.{Input, read_char, newline}
use sbunix_64_bit_operating.Console.{Console, str, kprintf}
use sbunix_64_bit_operating.Tar.{Tarfs, get_file_address, get_dir_address}
use sbunix_64_bit_operating.Paths.{remove_dotslash}
use sbunix_64_bit_operating.Environ.{Environ}
use sbunix_64_bit_operating.Directory.{cwd_for}

pub record FileDescriptor : Type 0 where
  pub start : ℕ
  pub offset : ℕ
  pub d_prev_dir : List ℕ
  pub name : List ℕ
  pub d_dirp : ℕ

abbrev pub empty : FileDescriptor
empty = record { start = 0; offset = 0; d_prev_dir = []; name = []; d_dirp = 0 }

abbrev pub is_unused : FileDescriptor → Bool
is_unused f = length f.name == 0

-- A page of descriptors, by its address.
pub record FdPage : Type 0 where
  pub address : ℕ
  pub fds : List FileDescriptor

-- The pages, with `none` for a NULL, and the count of descriptors.
pub record Files : Type 0 where
  pub fd_pointers : List (Option FdPage)
  pub fd_count : ℕ

abbrev pub size_of_descriptor : ℕ
size_of_descriptor = 544

-- The inner loop over the descriptors of a page, from number `n` at address `a` on: the first free one
-- behind the three reserved ones is filled with what `make` gives for its address.
unfoldable pub place_in :
    (make : ℕ → FileDescriptor) (n a : ℕ) → List FileDescriptor → Option (ℕ × List FileDescriptor)
place_in make n a [] = none
place_in make n a (f ∷ fds) =
    let rest = (do
      (k, fds') ← place_in make (n + 1) (a + size_of_descriptor) fds
      some (k, f ∷ fds')) in
    if ltb 2 n && is_unused f then some (n, make a ∷ fds) else rest

-- The number filled, the pages, the descriptors added to the count, and the memory.
pub record Placed : Type 0 where
  pub number : ℕ
  pub pages : List (Option FdPage)
  pub added : ℕ
  pub mmu : Mmu

-- Behind the inner loop over the page at `page_address`: the loop ends with the place that was found,
-- or goes on to `further` with the page as it was.
unfoldable pub go_on :
    (page_address : ℕ) (fds : List FileDescriptor) (added : ℕ)
    → Option (ℕ × List FileDescriptor)
    → List (Option FdPage)
    → Mmu
    → (further : Option Placed) → Option Placed
go_on page_address fds added (some (k, fds')) pages m further = some (record {
  number = k;
  pages = some (record { address = page_address; fds = fds' }) ∷ pages;
  added = added;
  mmu = m;
})
go_on page_address fds added none pages m further = do
  r ← further
  some (record r {
    pages = some (record { address = page_address; fds = fds }) ∷ r.pages;
    added = r.added + added;
  })

-- The outer loop over the pages, which allocates a page for each NULL that it meets. `none` stands for
-- a full table.
unfoldable pub place :
    (make : ℕ → FileDescriptor) (page : ℕ) → List (Option FdPage) → Mmu → Option Placed
place make page [] m = none
place make page (some p ∷ pages) m =
    go_on p.address p.fds 0 (place_in make (5 * page) p.address p.fds) pages m
      (place make (page + 1) pages m)
place make page (none ∷ pages) m =
    let fresh = replicate 5 empty in
    go_on (kmalloc m).0 fresh 5 (place_in make (5 * page) (kmalloc m).0 fresh) pages (kmalloc m).1
      (place make (page + 1) pages (kmalloc m).1)

-- The descriptor number, `none` for -1 or NULL, with the files and the memory.
unfoldable pub end_open : Option Placed → Files → Mmu → Option ℕ × Files × Mmu
end_open none files m = (none, files, m)
end_open (some r) files m = (
  some r.number,
  record files { fd_pointers = r.pages; fd_count = files.fd_count + r.added },
  r.mmu,
)

unfoldable pub fill_descriptor :
    (start : ℕ) (name : List ℕ) (dirp : ℕ → ℕ) → Files → Mmu → Option (Option ℕ × Files × Mmu)
fill_descriptor start name dirp files m =
    let make : ℕ → FileDescriptor = λ a. record {
      start = start;
      offset = start;
      d_prev_dir = [];
      name = name;
      d_dirp = dirp a;
    } in
    if ltb (length name) 255
    then some (end_open (place make 0 files.fd_pointers m) files m)
    else none

abbrev pub root : List ℕ
root = b'/' ∷ []

-- The lookup of a path, as a file (`d` is 0) or as a directory (`d` is 1): the address and the name.
unfoldable pub look_up :
    (fuel : ℕ) → Tarfs → Environ → (file : List ℕ) → (d : ℕ) → Option (ℕ × List ℕ)
look_up fuel t pages file d = do
  cwd ← cwd_for file pages
  new_file_name ← remove_dotslash cwd file d
  start ← get_file_address fuel t (drop 1 new_file_name)
  some (start, drop 1 new_file_name)

unfoldable pub open_file :
    (fuel : ℕ) → Tarfs → Environ → (file : List ℕ) → Files → Mmu → Option (Option ℕ × Files × Mmu)
open_file fuel t pages file files m = if length file == 0 then some (none, files, m) else (do
  first ←
      (if strcmp file root == 0
        then some (t.binary_tarfs_start, file)
        else look_up fuel t pages file 0)
  (start, name) ← (if first.0 == 0 then look_up fuel t pages file 1 else some first)
  if start == 0 then some (none, files, m) else fill_descriptor start name (λ a. 0) files m)

unfoldable pub open_directory :
    (fuel : ℕ) → Tarfs → Environ → (dir : List ℕ) → Files → Mmu → Option (Option ℕ × Files × Mmu)
open_directory fuel t pages dir files m = if length dir == 0 then some (none, files, m) else (do
  (start, name) ←
      (if strcmp dir root == 0 then some (t.binary_tarfs_start, dir) else (do
        cwd ← cwd_for dir pages
        new_dir_name ← remove_dotslash cwd dir 1
        start ← get_dir_address fuel t (drop 1 new_dir_name)
        some (start, drop 1 new_dir_name)))
  if start == 0 then some (none, files, m) else fill_descriptor start name (λ a. a) files m)

-- The page of a descriptor: `none` inside for NULL.
unfoldable pub get_fd_address : (fd : ℕ) → Files → Option (Option FdPage)
get_fd_address fd files =
    if ltb (fd / 5) 20 then some (get_or files.fd_pointers (fd / 5) none) else none

-- A write to the descriptor in the page.
unfoldable pub set_descriptor : (fd : ℕ) → FdPage → FileDescriptor → Files → Files
set_descriptor fd p f files = record files {
  fd_pointers = set files.fd_pointers (fd / 5) (some (record p { fds = set p.fds (fd % 5) f }));
}

-- The answer of closeFile for a descriptor that is not negative, and the files.
unfoldable pub close_file : (fd : ℕ) → Files → Option (ℕ × Files)
close_file fd files = do
  page ← get_fd_address fd files
  elim page [
    | none ↦ some (1, files)
    | some p ↦
        some (0, set_descriptor fd p (record (get_or p.fds (fd % 5) empty) { name = [] }) files)
  ]

-- The inner and the outer loop of get_fd; `none` inside for a page that is NULL.
unfoldable pub find_dirp : (dirp n : ℕ) → List FileDescriptor → Option ℕ
find_dirp dirp n [] = none
find_dirp dirp n (f ∷ fds) =
    let rest = find_dirp dirp (n + 1) fds in if ltb 2 n && (f.d_dirp == dirp) then some n else rest

unfoldable pub get_fd_from : (dirp page page_max : ℕ) → List (Option FdPage) → Option ℕ
get_fd_from dirp page zero pages = none
get_fd_from dirp page (suc left) [] = none
get_fd_from dirp page (suc left) (none ∷ pages) = none
get_fd_from dirp page (suc left) (some p ∷ pages) =
    let rest = get_fd_from dirp (page + 1) left pages in
    elim (find_dirp dirp (5 * page) p.fds) [ some n ↦ some n | none ↦ rest ]

unfoldable pub get_fd : (dirp : ℕ) → Files → Option ℕ
get_fd dirp files = get_fd_from dirp 0 (files.fd_count / 5) files.fd_pointers

unfoldable pub close_dir : (dirp : ℕ) → Files → Option (ℕ × Files)
close_dir dirp files =
    if dirp == 0
    then some (0, files)
    else elim (get_fd dirp files) [ none ↦ some (0, files) | some fd ↦ close_file fd files ]

-- `memread` from a string.
unfoldable pub read_string : (n : ℕ) → List ℕ → List ℕ
read_string zero s = []
read_string (suc n) [] = []
read_string (suc n) (c ∷ s) = c ∷ read_string n s

-- readFile on a descriptor other than 0, with the string at each address of the archive: the bytes
-- read, `none` for -1, and the files.
unfoldable pub read_file :
    (text : ℕ → List ℕ) → (fd count : ℕ) → Files → Option (Option (List ℕ) × Files)
read_file text fd count files = do
  page ← get_fd_address fd files
  elim page [
    | none ↦ some (none, files)
    | some p ↦
        (let f = get_or p.fds (fd % 5) empty in
          let bytes = read_string count (text f.offset) in
          if is_unused f
          then some (none, files)
          else some (
            some bytes,
            set_descriptor fd p (record f { offset = f.offset + length bytes }) files,
          ))
  ]

-- readFile on the keyboard: what is written to the buffer, with the NUL that ends it.
unfoldable pub read_stdin : (count : ℕ) → Input → List ℕ × Input
read_stdin zero b = ([], b)
read_stdin (suc count) b =
    let (c, b1) = read_char b in
    let rest : List ℕ × Input = (let (s, b2) = read_stdin count b1 in (c ∷ s, b2)) in
    if (c == 0) || (c == newline) then (0 ∷ [], b1) else rest

abbrev pub no_write : List ℕ
no_write =
    b'D' ∷ b'o' ∷ b'e' ∷ b's' ∷ b' ' ∷ b'n' ∷ b'o' ∷ b't' ∷ b' ' ∷ b's' ∷ b'u' ∷ b'p' ∷ b'p' ∷ b'o'
    ∷ b'r' ∷ b't' ∷ b' ' ∷ b'w' ∷ b'r' ∷ b'i' ∷ b't' ∷ b'e' ∷ b' ' ∷ b's' ∷ b'y' ∷ b's' ∷ b't'
    ∷ b'e' ∷ b'm' ∷ b' ' ∷ b'c' ∷ b'a' ∷ b'l' ∷ b'l' ∷ b' ' ∷ b'f' ∷ b'o' ∷ b'r' ∷ b' ' ∷ b'n'
    ∷ b'o' ∷ b'w' ∷ b'.' ∷ b'.' ∷ b' ' ∷ b'O' ∷ b'n' ∷ b'l' ∷ b'y' ∷ b' ' ∷ b's' ∷ b't' ∷ b'd'
    ∷ b'o' ∷ b'u' ∷ b't' ∷ b' ' ∷ b's' ∷ b'u' ∷ b'p' ∷ b'p' ∷ b'o' ∷ b'r' ∷ b't' ∷ b'e' ∷ b'd'
    ∷ b'.' ∷ b'\n' ∷ []

unfoldable pub write_file : (fd : ℕ) → (buf : List ℕ) → (count : ℕ) → Console → Option (ℕ × Console)
write_file fd buf count k =
    if (fd == 1) || (fd == 2)
    then (do k1 ← kprintf (b'%' ∷ b's' ∷ []) (str buf ∷ []) k; some (count, k1))
    else (do k1 ← kprintf no_write [] k; some (0, k1))
