-- ===== src/Listing.antt =====
-- Listing a directory (`readDir`, sys/tarfs.c): the names of the archive's entries are cut behind the
-- directory's name at their first slash, and a name like the last one is left out. Messages are left
-- out; a name too long for its 256 bytes has no result.

pub mod Names
pub mod Next
pub mod Handle
pub mod Whole
use sbunix_64_bit_operating.Prelude.{
  ℕ, zero, suc, ◌-◌, ◌%◌, Option, none, some, List, [], ◌∷◌, ltb, ◌==◌, if◌then◌else◌, length,
  get_or, ◌>>=◌,
}
use sbunix_64_bit_operating.Strings.{strcmp, startswith, int_mod}
use sbunix_64_bit_operating.Kernel.{Kernel}
use sbunix_64_bit_operating.Areas.{malloc}
use sbunix_64_bit_operating.Tar.{Tarfs, next_header}
use sbunix_64_bit_operating.Files.{
  FileDescriptor, empty, is_unused, FdPage, Files, root, get_fd_address, set_descriptor, get_fd,
}

pub record Dirent : Type 0 where
  pub d_ino : ℕ
  pub d_off : ℕ
  pub d_reclen : ℕ
  pub d_name : List ℕ

abbrev pub size_of_dirent : ℕ
size_of_dirent = 280

-- The bytes written to a buffer of `count` bytes, more than none.
unfoldable pub get_first_directory : (count : ℕ) → (child : List ℕ) → List ℕ
get_first_directory zero child = []
get_first_directory (suc count) [] = 0 ∷ []
get_first_directory (suc count) (c ∷ child) =
    let further = get_first_directory count child in
    if c == b'/' then (b'/' ∷ (if count == 0 then [] else 0 ∷ [])) else c ∷ further

-- The answer, 0 or -1, and the bytes written.
unfoldable pub get_sub_directory : (count : ℕ) → (parent child : List ℕ) → ℕ × List ℕ
get_sub_directory count [] child = (0, get_first_directory count child)
get_sub_directory count (p ∷ parent) [] = (int_mod - 1, 0 ∷ [])
get_sub_directory count (p ∷ parent) (c ∷ child) =
    let further = get_sub_directory count parent child in
    if p == c then further else (int_mod - 1, 0 ∷ [])

-- The string in a buffer, up to its NUL.
unfoldable pub string_in : List ℕ → Option (List ℕ)
string_in [] = none
string_in (c ∷ buf) =
    let rest = (do s ← string_in buf; some (c ∷ s)) in if c == 0 then some [] else rest

-- The name in `d_name`, which has room in `d_prev_dir` too.
unfoldable pub name_in : List ℕ → Option (List ℕ)
name_in buf = do s ← string_in buf; if ltb (length s) 255 then some s else none

-- The loop over the archive for the root, on fuel: the name, and the offset behind it; `none` inside at
-- the end of the archive.
unfoldable pub list_root :
    (fuel : ℕ) → Tarfs → (d_prev_dir : List ℕ) → (start : ℕ) → Option (Option (List ℕ × ℕ))
list_root zero t d_prev_dir start = none
list_root (suc fuel) t d_prev_dir start =
    let turn : Option (Option (List ℕ × ℕ)) = (do
      d_name ← name_in (get_first_directory 4096 (t.header start).name)
      let rest = list_root fuel t d_prev_dir (next_header t start)
      if strcmp d_name d_prev_dir == 0 then rest else some (some (d_name, next_header t start))) in
    if ltb start t.binary_tarfs_end then turn else some none

-- The loop for another directory, which ends at an entry that is not below it.
unfoldable pub list_sub :
    (fuel : ℕ) → Tarfs → (name d_prev_dir : List ℕ) → (start : ℕ) → Option (Option (List ℕ × ℕ))
list_sub zero t name d_prev_dir start = none
list_sub (suc fuel) t name d_prev_dir start =
    let turn : Option (Option (List ℕ × ℕ)) = (do
      d_name ← name_in (get_sub_directory 4096 name (t.header start).name).1
      let rest = list_sub fuel t name d_prev_dir (next_header t start)
      if strcmp d_name d_prev_dir == 0 then rest else some (some (d_name, start))) in
    if ltb start t.binary_tarfs_end
    then (if startswith name (t.header start).name == 0 then turn else some none)
    else some none

unfoldable pub list_next : (fuel : ℕ) → Tarfs → FileDescriptor → Option (Option (List ℕ × ℕ))
list_next fuel t f =
    if strcmp f.name root == 0
    then list_root fuel t f.d_prev_dir f.offset
    else if is_unused f
    then some none
    else list_sub fuel t f.name f.d_prev_dir (next_header t f.offset)

-- The descriptor with the entry that was found in it.
abbrev pub at_entry : List ℕ × ℕ → FileDescriptor → FileDescriptor
at_entry found f = record f { offset = found.1; d_prev_dir = found.0 }

-- What is found goes to the structure at `buf`.
unfoldable pub end_read_dir :
    (buf fd : ℕ)
    → FdPage
    → FileDescriptor
    → Option (List ℕ × ℕ)
    → Files
    → Option (ℕ × Dirent) × Files
end_read_dir buf fd p f none files = (none, files)
end_read_dir buf fd p f (some found) files = (
  some (buf, record { d_ino = 0; d_off = 0; d_reclen = size_of_dirent; d_name = found.0 }),
  set_descriptor fd p (at_entry found f) files,
)

-- readDir from the descriptor on.
unfoldable pub read_descriptor :
    (fuel : ℕ) → Tarfs → (fd : ℕ) → Files → Kernel → Option (Option (ℕ × Dirent) × Files × Kernel)
read_descriptor fuel t fd files k = do
  page ← get_fd_address fd files
  elim page [
    | none ↦ some (none, files, k)
    | some p ↦
        (let f = get_or p.fds (fd % 5) empty in
          let (buf, k1) = malloc size_of_dirent k in
          do
            found ← list_next fuel t f
            let (answer, files1) = end_read_dir buf fd p f found files
            some (answer, files1, k1))
  ]

-- The answer, `none` inside for NULL, and the structure that it points to.
unfoldable pub read_dir :
    (fuel : ℕ) → Tarfs → (dirp : ℕ) → Files → Kernel → Option (Option (ℕ × Dirent) × Files × Kernel)
read_dir fuel t dirp files k =
    if dirp == 0 then some (none, files, k) else elim (get_fd dirp files) [
      | none ↦ some (none, files, k)
      | some fd ↦ read_descriptor fuel t fd files k
    ]
